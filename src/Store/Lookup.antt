-- ===== src/Store/Lookup.antt =====
-- How `JsonStateStore` finds and rewrites one hedge intent.
use arbi_nautilus.Base.{
  Bool, false, not, ◌||◌, String, ◌<>◌, Option, none, some, lookup, insert, values, find, ◌==◌,
  string_eq, option_eq, ok, err, Action, pure, lift, gets, ◌>>=◌, ◌>>◌, key_error,
}
use arbi_nautilus.Models.{
  ObligationStatus, pending, submitting, submitted, accepted, completed, blocked, rejected, unknown,
  HedgeIntent, leg_eq,
}
use arbi_nautilus.Models.Checks.{check_intent}
use arbi_nautilus.Store.{StoreState, Store, revoke_pause, call_hook, update_state}

-- `self._state.hedge_intents[intent_id]`
abbrev pub get_intent : String → Action Store HedgeIntent
get_intent id s = elim (lookup id s.state.hedge_intents) [
  | none ↦ (err key_error, s)
  | some i ↦ (ok i, s)
]

-- `self._state.hedge_intents[id] = replace(intent, ...)`, with the constructor's checks.
unfoldable pub put_intent : String → HedgeIntent → Action Store HedgeIntent
put_intent id i = do
  checked ← lift (check_intent i)
  update_state (λ s. record s { hedge_intents = insert id checked s.hedge_intents })
  pure checked

-- `_is_rejected_attempt`
abbrev pub is_rejected_attempt : HedgeIntent → String → Bool
is_rejected_attempt i cid = elim i.rejected_attempt [
  | none ↦ false
  | some attempt ↦ attempt.client_order_id == cid
]

-- `_intent_for_hedge_order`
unfoldable pub intent_for_hedge_order : String → StoreState → Option HedgeIntent
intent_for_hedge_order cid s =
    find (λ i. (i.hedge_client_order_id == some cid) || is_rejected_attempt i cid)
      (values s.hedge_intents)

abbrev pub set_halt : String → Action Store (Unit {0})
set_halt reason = update_state (λ s. record s { halt_reason = some reason })

-- `status.value`
abbrev pub status_name : ObligationStatus → String
status_name pending = "PENDING"
status_name submitting = "SUBMITTING"
status_name submitted = "SUBMITTED"
status_name accepted = "ACCEPTED"
status_name completed = "COMPLETED"
status_name blocked = "BLOCKED"
status_name rejected = "REJECTED"
status_name unknown = "UNKNOWN"

abbrev same_status : ObligationStatus → ObligationStatus → Bool
same_status a b = status_name a == status_name b

-- `_hold_rejected_attempt`: whether the intent or the halt reason changed.
unfoldable pub hold_rejected_attempt : HedgeIntent → String → String → Action Store Bool
hold_rejected_attempt i cid fact = do
  call_hook revoke_pause
  held ← lift (check_intent (record i { status = blocked }))
  let reason = "archived rejected hedge " <> cid <> " has conflicting " <> fact
  old ← gets (λ s. s.state.halt_reason)
  update_state (λ s. record s { hedge_intents = insert i.intent_id held s.hedge_intents })
  set_halt reason
  pure (not (same_status i.status blocked) || not (old == some reason))
