-- ===== src/Coordinator.antt =====
-- `HedgeCoordinator` of src/py000_nautilus/hedge.py: fills reach the store once, and a leg is handed
-- out only from a plan that is bound, after it was checked against the tickets. An order event is
-- the fields that the code reads; `ready` is what the store's `hedge_dispatch_ready` answers, and
-- `message` the text of an exception, by its class.
pub mod Legs
pub mod Blocked
pub mod Handed
pub mod Keys
use arbi_nautilus.Base.{
  Bool, true, false, not, ◌&&◌, ◌||◌, ℤ, ◌-ℤ◌, String, ◌<>◌, Option, none, some, List, [], ◌∷◌,
  lookup, member, length, get_elem?, is_none, ◌==◌, nat_eq, int_eq, string_eq, option_eq,
  if◌then◌else◌, Error, Result, ok, err, planning_error, type_error, value_error, lane_busy, Action,
  pure, raise, raise_if, or_raise, lift, ◌>>=◌, ◌>>◌,
}
use arbi_nautilus.Durability.{DiskCalls}
use arbi_nautilus.Models.{BusinessOrderSide, HedgeLeg, HedgeIntent, is_close, is_completed}
use arbi_nautilus.Store.{Store, Platform}
use arbi_nautilus.Store.Lookup.{get_intent}
use arbi_nautilus.Store.Fills.{reserve_source_fill}
use arbi_nautilus.Store.HedgeFill.{apply_hedge_fill}
use arbi_nautilus.Store.Hedges.{bind_hedge_order, bind_hedge_plan, block_hedge_intent}
use arbi_nautilus.Hedge.{Position, plan_hedge_delta, validate_hedge_leg}

-- `OrderFilled`; a side that is neither BUY nor SELL is `none`.
pub record OrderFilled : Type 0 where
  pub instrument_id : String
  pub client_order_id : String
  pub venue_order_id : String
  pub trade_id : String
  pub order_side : Option BusinessOrderSide
  pub last_qty : ℤ

-- `_fill_key`
abbrev pub source_fill_key : OrderFilled → String
source_fill_key event =
    event.client_order_id <> "|" <> event.venue_order_id <> "|" <> event.trade_id

unfoldable pub on_source_filled :
    Platform → DiskCalls → String → OrderFilled → Action Store (Option HedgeIntent)
on_source_filled platform disk source event s =
    if not (event.instrument_id == source)
      || is_none (lookup event.client_order_id s.state.source_orders)
    then (ok none, s)
    else elim event.order_side [
      | none ↦ (err value_error, s)
      | some side ↦
          reserve_source_fill platform disk
            (record {
              fill_key = source_fill_key event;
              client_order_id = event.client_order_id;
              trade_id = event.trade_id;
              side = side;
              ounces = event.last_qty;
            })
            s
    ]

unfoldable pub has_seen_source_fill : String → OrderFilled → Store → Bool
has_seen_source_fill source event s =
    event.instrument_id == source
    && (not (is_none (lookup event.client_order_id s.state.source_orders))
        && member (source_fill_key event) s.state.seen_source_fills)

unfoldable pub on_hedge_filled : Platform → DiskCalls → OrderFilled → Action Store Bool
on_hedge_filled platform disk event = apply_hedge_fill platform disk (record {
  client_order_id = event.client_order_id;
  trade_id = event.trade_id;
  ounces = event.last_qty;
})

unfoldable pub bind_hedge_leg : DiskCalls → String → String → Action Store (Unit {0})
bind_hedge_leg disk id cid = bind_hedge_order disk id cid

-- `_validate_bound_exit`
unfoldable pub validate_bound_exit : HedgeIntent → List HedgeLeg → Result (Unit {0})
validate_bound_exit i (leg ∷ []) =
    if is_none i.hedge_position_id
      || (is_close leg
          && (leg.position_id == i.hedge_position_id
              && (leg.expected_position_quantity_ounces == i.hedge_position_quantity_ounces)))
    then ok tt
    else err planning_error
validate_bound_exit i plan = if is_none i.hedge_position_id then ok tt else err planning_error

-- A plan for what the intent still owes, bound to it.
abbrev pub bind_planned : DiskCalls → HedgeIntent → List HedgeLeg → Action Store HedgeIntent
bind_planned disk i plan = do
  lift (validate_bound_exit i plan)
  bind_hedge_plan disk i.intent_id plan

abbrev pub remaining_plan : List Position → HedgeIntent → Result (List HedgeLeg)
remaining_plan positions i =
    plan_hedge_delta positions i.hedge_side (i.hedge_quantity_ounces -ℤ i.hedge_filled_ounces)

-- The plan, bound once.
abbrev pub planned_intent : DiskCalls → List Position → HedgeIntent → Action Store HedgeIntent
planned_intent disk positions i =
    if length i.hedge_plan == 0
    then lift (remaining_plan positions i) >>= bind_planned disk i
    else pure i

-- The next leg of a planned intent, checked.
unfoldable pub checked_leg : List Position → HedgeIntent → Action Store HedgeLeg
checked_leg positions i = do
  leg ← or_raise (get_elem? i.hedge_plan i.hedge_leg_index) planning_error
  lift (validate_hedge_leg leg positions)
  pure leg

-- The classes of the `except` clause; `HedgePlanningError` is raised by the planner.
abbrev pub is_caught : Error → Bool
is_caught planning_error = true
is_caught type_error = true
is_caught value_error = true
is_caught _ = false

abbrev pub block_or_leave : DiskCalls → String → String → HedgeIntent → Action Store (Unit {0})
block_or_leave disk id reason current =
    if is_completed current.status then pure tt else block_hedge_intent disk id reason

unfoldable pub block_unless_completed : DiskCalls → String → String → Action Store (Unit {0})
block_unless_completed disk id reason = get_intent id >>= block_or_leave disk id reason

-- The `except` clause.
abbrev pub on_failure :
    DiskCalls → (Error → String) → String → Result HedgeLeg × Store → Result HedgeLeg × Store
on_failure disk message id (ok leg, s) = (ok leg, s)
on_failure disk message id (err e, s) =
    if is_caught e
    then (do block_unless_completed disk id (message e); raise planning_error) s
    else (err e, s)

-- The `try` statement.
abbrev pub guarded_leg :
    DiskCalls → (Error → String) → List Position → String → HedgeIntent → Action Store HedgeLeg
guarded_leg disk message positions id i s =
    on_failure disk message id ((planned_intent disk positions i >>= checked_leg positions) s)

unfoldable pub next_hedge_leg :
    DiskCalls → (Error → String) → Bool → List Position → String → Action Store HedgeLeg
next_hedge_leg disk message ready positions id = do
  i ← get_intent id
  raise_if (not ready) lane_busy
  guarded_leg disk message positions id i
