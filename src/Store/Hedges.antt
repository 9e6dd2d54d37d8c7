-- ===== src/Store/Hedges.antt =====
-- The methods of `JsonStateStore` that bind a plan and its orders to an intent, block it, and take
-- the status of a hedge order.
use arbi_nautilus.Base.{
  Bool, true, false, not, ◌||◌, pos, ◌-ℤ◌, String, ◌<>◌, Option, none, some, List, [], ◌∷◌, ◌++◌,
  values, any, is_some, member, length, ◌==◌, nat_eq, int_eq, string_eq, option_eq, list_eq,
  if◌then◌else◌, ok, Action, pure, raise, raise_if, gets, ◌>>=◌, ◌>>◌, value_error,
}
use arbi_nautilus.Durability.{DiskCalls}
use arbi_nautilus.Models.{
  HedgeIntent, HedgeLeg, ObligationStatus, submitting, blocked, rejected, unknown, is_completed,
  is_pending, is_held, side_eq, leg_eq, sum_legs,
}
use arbi_nautilus.Models.Checks.{is_empty}
use arbi_nautilus.Store.{StoreState, Store, revoke_pause, call_hook, persist}
use arbi_nautilus.Store.Lookup.{
  get_intent, put_intent, is_rejected_attempt, intent_for_hedge_order, set_halt, status_name,
  hold_rejected_attempt,
}

-- Some intent has, or had, this hedge order.
abbrev pub is_bound_order : String → StoreState → Bool
is_bound_order cid s =
    any (λ i. (i.hedge_client_order_id == some cid) || member cid i.hedge_order_ids)
      (values s.hedge_intents)

unfoldable pub bind_hedge_order : DiskCalls → String → String → Action Store (Unit {0})
bind_hedge_order disk id cid = do
  intent ← get_intent id
  bound ← gets (λ s. is_bound_order cid s.state)
  raise_if
      (not (is_pending intent.status)
        || (is_some intent.hedge_client_order_id || (is_empty cid || bound)))
      value_error
  put_intent id (record intent {
    hedge_client_order_id = some cid;
    hedge_order_ids = intent.hedge_order_ids ++ cid ∷ [];
    status = submitting;
  })
  persist disk

-- The tests of `bind_hedge_plan` on an intent that has no plan yet.
abbrev pub plan_does_not_fit : HedgeIntent → List HedgeLeg → Bool
plan_does_not_fit i plan =
    not (is_pending i.status)
    || (is_some i.hedge_client_order_id
        || (not (i.hedge_filled_ounces == pos 0)
            || (length plan == 0
                || (any (λ leg. not (leg.side == i.hedge_side)) plan
                    || not (
                        sum_legs (pos 0) plan
                        == i.hedge_quantity_ounces -ℤ i.hedge_filled_ounces)))))

abbrev pub with_plan : List HedgeLeg → HedgeIntent → HedgeIntent
with_plan plan i = record i {
  hedge_plan = plan;
  hedge_leg_index = 0;
  hedge_leg_filled_ounces = pos 0;
}

-- A first plan is written; the same plan again is accepted.
abbrev pub first_plan : DiskCalls → String → List HedgeLeg → HedgeIntent → Action Store HedgeIntent
first_plan disk id plan intent = do
  raise_if (plan_does_not_fit intent plan) value_error
  planned ← put_intent id (with_plan plan intent)
  persist disk
  pure planned

abbrev pub plan_intent : DiskCalls → String → List HedgeLeg → HedgeIntent → Action Store HedgeIntent
plan_intent disk id plan intent =
    if length intent.hedge_plan == 0
    then first_plan disk id plan intent
    else if intent.hedge_plan == plan
    then pure intent
    else raise value_error

unfoldable pub bind_hedge_plan : DiskCalls → String → List HedgeLeg → Action Store HedgeIntent
bind_hedge_plan disk id plan = get_intent id >>= plan_intent disk id plan

-- The block of an intent that was found, in memory.
abbrev pub set_blocked : String → String → HedgeIntent → Action Store (Unit {0})
set_blocked id reason intent = do
  raise_if (is_completed intent.status || is_empty reason) value_error
  call_hook revoke_pause
  put_intent id (record intent { status = blocked })
  set_halt ("hedge " <> id <> " blocked: " <> reason)

unfoldable pub block_hedge_intent : DiskCalls → String → String → Action Store (Unit {0})
block_hedge_intent disk id reason = do
  intent ← get_intent id
  set_blocked id reason intent
  persist disk

abbrev is_rejected : ObligationStatus → Bool
is_rejected rejected = true
is_rejected _ = false

-- REJECTED and UNKNOWN halt the store.
abbrev halts : ObligationStatus → Bool
halts rejected = true
halts unknown = true
halts _ = false

-- `native_status not in {None, "REJECTED"}`
abbrev contradicts : Option String → Bool
contradicts none = false
contradicts (some native) = not (native == "REJECTED")

unfoldable pub update_hedge_status :
    DiskCalls → String → ObligationStatus → Option String → Action Store (Unit {0})
update_hedge_status disk cid status native s = elim (intent_for_hedge_order cid s.state) [
  | none ↦ (ok tt, s)
  | some i ↦
      if is_rejected_attempt i cid
      then (if not (is_rejected status) || contradicts native
          then (do
            changed ← hold_rejected_attempt i cid "terminal status"
            if changed then persist disk else pure tt)
              s
          else (ok tt, s))
      else (do
        if is_held status then call_hook revoke_pause else pure tt
        if is_held i.status then pure tt else (do
          put_intent i.intent_id (record i { status = status })
          if halts status
              then set_halt ("hedge " <> cid <> " has unresolved status " <> status_name status)
              else pure tt
          persist disk))
          s
]
