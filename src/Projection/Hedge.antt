-- ===== src/Projection/Hedge.antt =====
-- `_order_ids` and `_checked_fills` of src/py000_nautilus/hedge_projection.py: which orders an intent has had,
-- and the fills of one of them.
pub mod Bound
pub mod Scan
pub mod Write
pub mod Kept
pub mod Live
pub mod Run
pub mod Project
use arbi_nautilus.Base.{
  Bool, true, false, not, ◌&&◌, ◌||◌, ℕ, ◌+◌, ℤ, pos, leb_ℤ, ltb_ℤ, ltb, String, ◌<>◌, Option, none,
  some, List, [], ◌∷◌, all, any, is_none, is_some, length, get_elem?, ◌==◌, int_eq, string_eq,
  option_eq, list_eq, nat_eq, if◌then◌else◌, Result, ok, err, value_error,
}
use arbi_nautilus.Base.Raises.{◌>>=◌, ◌>>◌, unless}
use arbi_nautilus.Models.{BusinessOrderSide, HedgeIntent, HedgeLeg, side_eq}
use arbi_nautilus.Models.Checks.{has_bar, is_empty, distinct, hedge_leg_order_ids}
use arbi_nautilus.Store.{SourceOrderRecord}
use arbi_nautilus.Projection.{
  EventHead, Initial, FillFacts, OrderEvent, initialized, VenueOrder, Owners, head_of, is_owned_by,
  fills_of, sum_fills, trade_ids_of,
}

abbrev first_of : List String → Option String
first_of [] = none
first_of (a ∷ ids) = some a

-- The tests on a planned intent.
abbrev plan_differs : HedgeIntent → List String → Bool
plan_differs i ids =
    not (length ids == i.hedge_leg_index + (if is_some i.hedge_client_order_id then 1 else 0))
    || (is_some i.hedge_client_order_id
        && (i.hedge_leg_index == length i.hedge_plan
            || not (i.hedge_client_order_id == get_elem? ids i.hedge_leg_index)))

abbrev is_other_ticket : HedgeIntent → Option HedgeLeg → Bool
is_other_ticket i none = true
is_other_ticket i (some leg) =
    not (leg.position_id == i.hedge_position_id)
    || (is_some i.hedge_position_quantity_ounces
        && not (leg.expected_position_quantity_ounces == i.hedge_position_quantity_ounces))

abbrev exit_differs : HedgeIntent → Bool
exit_differs i =
    is_some i.hedge_position_id
    && (not (length i.hedge_plan == 1) || is_other_ticket i (get_elem? i.hedge_plan 0))

-- A history of a single order may stand in the current order alone.
abbrev unplanned_ids : Option String → List String → List String
unplanned_ids (some current) [] = current ∷ []
unplanned_ids current ids = ids

abbrev unplanned_differs : HedgeIntent → List String → Bool
unplanned_differs i ids =
    ltb 1 (length ids) || (not (length ids == 0) && not (i.hedge_client_order_id == first_of ids))

abbrev exceeds_ticket : HedgeIntent → Bool
exceeds_ticket i = elim i.hedge_position_quantity_ounces [
  | none ↦ false
  | some quantity ↦ ltb_ℤ quantity i.hedge_quantity_ounces
]

abbrev checked_ids : HedgeIntent → Result (List String)
checked_ids i =
    if length i.hedge_plan == 0
    then (do
      let ids = unplanned_ids i.hedge_client_order_id (hedge_leg_order_ids i)
      unless (unplanned_differs i ids) value_error
      unless (exceeds_ticket i) value_error
      ok ids)
    else (do
      unless (plan_differs i (hedge_leg_order_ids i)) value_error
      unless (exit_differs i) value_error
      ok (hedge_leg_order_ids i))

-- `_order_ids`
unfoldable pub order_ids : HedgeIntent → SourceOrderRecord → Result (List String)
order_ids i r = do
  unless
      (not (i.hedge_position_id == r.hedge_position_id)
        || not (i.hedge_position_quantity_ounces == r.hedge_position_quantity_ounces))
      value_error
  ids ← checked_ids i
  unless (not (distinct ids) || any (λ cid. is_empty cid || has_bar cid) ids) value_error
  ok ids

-- What an order of the intent is for: a leg, or the whole quantity.
pub record Target : Type 0 where
  pub quantity : ℤ
  pub position : Option String

-- `hedge_plan[index]`
abbrev target_of : HedgeIntent → ℕ → Option Target
target_of i index =
    if length i.hedge_plan == 0
    then some (record { quantity = i.hedge_quantity_ounces; position = i.hedge_position_id })
    else elim (get_elem? i.hedge_plan index) [
      | none ↦ none
      | some leg ↦ some (record { quantity = leg.quantity_ounces; position = leg.position_id })
    ]

abbrev same_bool : Bool → Bool → Bool
same_bool true b = b
same_bool false b = not b

-- The first event, where it is an `OrderInitialized`.
abbrev initial_of : List OrderEvent → Option Initial
initial_of (initialized head initial ∷ events) = some initial
initial_of _ = none

abbrev initial_differs : BusinessOrderSide → Target → Initial → Bool
initial_differs side t initial =
    not (initial.initial_quantity == t.quantity)
    || (not (initial.initial_side == side)
        || (not (initial.initial_type == "MARKET")
            || (not (initial.initial_time_in_force == "FOK")
                || (initial.initial_quote_quantity
                    || not (same_bool initial.initial_reduce_only (is_some t.position))))))

-- Two identities that are both known, and differ.
abbrev conflicts : Option String → Option String → Bool
conflicts none b = false
conflicts (some a) none = false
conflicts (some a) (some b) = not (a == b)

-- The test on the order.
unfoldable pub hedge_order_differs :
    Owners → VenueOrder → SourceOrderRecord → BusinessOrderSide → Target → Bool
hedge_order_differs owners o r side t =
    not (
      o.order_trader_id == owners.trader
      && (o.order_strategy_id == owners.strategy && (o.order_instrument_id == owners.instrument)))
    || (not (o.order_side == side)
        || (not (o.order_type == "MARKET" && (o.time_in_force == "FOK"))
            || (o.is_quote_quantity
                || (not (same_bool o.is_reduce_only (is_some t.position))
                    || (not (o.order_quantity == t.quantity)
                        || (conflicts r.hedge_account_id o.order_account_id
                            || conflicts t.position o.order_position_id))))))

-- `getattr(event, "account_id", None)` is the order's, where the event has one.
abbrev is_of_account : Option String → EventHead → Bool
is_of_account account head = is_none head.event_account_id || (head.event_account_id == account)

-- The test on each fill.
unfoldable pub hedge_fill_differs : VenueOrder → BusinessOrderSide → FillFacts → Bool
hedge_fill_differs o side f =
    not (some f.fill_account_id == o.order_account_id)
    || (not (some f.fill_venue_order_id == o.order_venue_id)
        || (has_bar f.fill_trade_id
            || (not (f.fill_side == side)
                || (not (f.fill_type == "MARKET")
                    || (is_none f.fill_position_id
                        || (not (f.fill_position_id == o.order_position_id)
                            || leb_ℤ f.last_qty (pos 0)))))))

-- The sums and the trade ids of one order.
unfoldable pub history_differs : VenueOrder → Target → List FillFacts → Bool
history_differs o t fills =
    not (sum_fills fills == o.order_filled_qty)
    || (ltb_ℤ t.quantity (sum_fills fills)
        || (not (o.trade_ids == trade_ids_of fills)
            || (o.order_status == "FILLED" && not (sum_fills fills == t.quantity))))

abbrev check_against :
    Owners
    → VenueOrder
    → SourceOrderRecord
    → BusinessOrderSide
    → Option Target
    → Option Initial
    → Result (List FillFacts)
check_against owners o r side none initial = err value_error
check_against owners o r side (some t) none = err value_error
check_against owners o r side (some t) (some initial) = do
  unless (hedge_order_differs owners o r side t || initial_differs side t initial) value_error
  unless
      (not (
        all
          (λ e.
            is_owned_by owners o.client_order_id (head_of e)
            && is_of_account o.order_account_id (head_of e))
          o.events))
      value_error
  unless (any (hedge_fill_differs o side) (fills_of o.events)) value_error
  unless (history_differs o t (fills_of o.events)) value_error
  ok (fills_of o.events)

-- `_checked_fills`
unfoldable pub checked_hedge_fills :
    Owners → VenueOrder → SourceOrderRecord → HedgeIntent → ℕ → Result (List FillFacts)
checked_hedge_fills owners o r i index =
    check_against owners o r i.hedge_side (target_of i index) (initial_of o.events)
