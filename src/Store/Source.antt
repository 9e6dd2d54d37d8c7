-- ===== src/Store/Source.antt =====
-- The methods of `JsonStateStore` on source orders, freezes and the restart halt.
pub mod Single
pub mod Restart
use arbi_nautilus.Base.{
  Bool, true, false, not, ◌&&◌, ◌||◌, ℤ, pos, leb_ℤ, ltb_ℤ, String, ◌<>◌, Option, none, some, List,
  [], ◌∷◌, Dict, lookup, insert, values, keep, map, is_some, is_none, ◌==◌, string_eq, option_eq,
  if◌then◌else◌, Result, ok, err, Action, pure, raise, raise_if, gets, lift, ◌>>=◌, ◌>>◌,
  value_error, runtime_error, key_error, sync_error, io_error, or_raise,
}
use arbi_nautilus.Durability.{DiskCalls}
use arbi_nautilus.Models.{
  BusinessOrderSide, HedgeIntent, ObligationStatus, pending, submitting, submitted, accepted,
  unknown, is_completed,
}
use arbi_nautilus.Models.Checks.{check_intent, is_empty}
use arbi_nautilus.Store.{
  SourceOrderRecord, StoreState, Store, revoke_pause, record_failure, record_halt, call_hook,
  update_state, persist, transaction, can_submit_source, cycle_evidence_complete,
  source_reconcile_reason,
}

-- The keyword arguments of `begin_source`.
pub record SourceRequest : Type 0 where
  pub source_account_id : Option String
  pub source_client_id : Option String
  pub hedge_account_id : Option String
  pub hedge_client_id : Option String
  pub hedge_position_id : Option String
  pub hedge_position_quantity_ounces : Option ℤ
  pub source_freeze_reason : Option String

-- The record that `begin_source` writes.
abbrev pub new_record : String → BusinessOrderSide → ℤ → SourceRequest → SourceOrderRecord
new_record cid side quantity q = record {
  client_order_id = cid;
  side = side;
  quantity_ounces = quantity;
  source_account_id = q.source_account_id;
  source_client_id = q.source_client_id;
  hedge_account_id = q.hedge_account_id;
  hedge_client_id = q.hedge_client_id;
  hedge_position_id = q.hedge_position_id;
  hedge_position_quantity_ounces = q.hedge_position_quantity_ounces;
  filled_ounces = pos 0;
  status = "SUBMITTING";
}

abbrev is_empty_text : Option String → Bool
is_empty_text none = false
is_empty_text (some text) = is_empty text

abbrev is_not_positive : Option ℤ → Bool
is_not_positive none = false
is_not_positive (some q) = leb_ℤ q (pos 0)

-- The argument tests of `begin_source` after its gate.
abbrev pub request_is_invalid : ℤ → SourceRequest → Bool
request_is_invalid quantity q =
    leb_ℤ quantity (pos 0)
    || (is_empty_text q.source_freeze_reason
        || (not (
              is_none q.hedge_position_id && is_none q.hedge_position_quantity_ounces
              || (is_some q.hedge_position_id && is_some q.hedge_position_quantity_ounces))
            || (is_empty_text q.hedge_position_id
                || is_not_positive q.hedge_position_quantity_ounces)))

unfoldable pub begin_source :
    DiskCalls → String → BusinessOrderSide → ℤ → SourceRequest → Action Store (Unit {0})
begin_source disk cid side quantity q = do
  raise_if (not (← gets (λ s. can_submit_source s.state))) runtime_error
  raise_if (request_is_invalid quantity q) value_error
  update_state (λ s. record s {
    source_orders = insert cid (new_record cid side quantity q) s.source_orders;
    active_source_order_id = some cid;
    source_freeze_reason = q.source_freeze_reason;
  })
  persist disk

unfoldable pub freeze_source_submissions : DiskCalls → String → Action Store (Unit {0})
freeze_source_submissions disk reason = do
  raise_if (is_empty reason) value_error
  call_hook revoke_pause
  frozen ← gets (λ s. is_some s.state.source_freeze_reason)
  if frozen
      then pure tt
      else do update_state (λ s. record s { source_freeze_reason = some reason }); persist disk

unfoldable pub clear_source_freeze : DiskCalls → Action Store (Unit {0})
clear_source_freeze disk = do
  raise_if (not (← gets (λ s. cycle_evidence_complete s.state))) runtime_error
  update_state (λ s. record s { source_freeze_reason = none })
  persist disk

-- `replace(record, status=status)` in the dict.
abbrev pub set_status : String → SourceOrderRecord → String → StoreState → StoreState
set_status cid r status s = record s {
  source_orders = insert cid (record r { status = status }) s.source_orders;
}

-- `if active == client_order_id: active = None`
abbrev pub release_active : String → StoreState → StoreState
release_active cid s =
    if s.active_source_order_id == some cid then record s { active_source_order_id = none } else s

abbrev revokes : String → Bool
revokes status =
    status == "UNKNOWN"
    || (status == "DENIED"
        || (status == "REJECTED" || (status == "CANCELED" || status == "EXPIRED")))

abbrev releases : String → Bool
releases status = status == "DENIED" || (status == "FILLED" || status == "REJECTED")

abbrev awaits_report : String → Bool
awaits_report status = status == "CANCELED" || status == "EXPIRED"

abbrev pub halt_if_running : String → StoreState → StoreState
halt_if_running reason s =
    if is_none s.halt_reason then record s { halt_reason = some reason } else s

unfoldable pub update_source_status : DiskCalls → String → String → Action Store (Unit {0})
update_source_status disk cid status s = elim (lookup cid s.state.source_orders) [
  | none ↦ (ok tt, s)
  | some r ↦
      (do
        if revokes status then call_hook revoke_pause else pure tt
        update_state (set_status cid r status)
        update_state (λ t. if releases status then release_active cid t else t)
        update_state (λ t.
            if awaits_report status then halt_if_running (source_reconcile_reason cid) t else t)
        persist disk)
        s
]

-- `if halt_reason == reason: halt_reason = None`
abbrev pub clear_halt : String → StoreState → StoreState
clear_halt reason s = if s.halt_reason == some reason then record s { halt_reason = none } else s

unfoldable pub confirm_source_reconciled : DiskCalls → String → Action Store (Unit {0})
confirm_source_reconciled disk cid s = elim (lookup cid s.state.source_orders) [
  | none ↦ (err value_error, s)
  | some r ↦
      if awaits_report r.status
      then transaction
          (do
            update_state (release_active cid)
            update_state (clear_halt (source_reconcile_reason cid))
            persist disk)
          s
      else (err value_error, s)
]

unfoldable pub mark_source_unknown : DiskCalls → String → String → Action Store (Unit {0})
mark_source_unknown disk cid reason = do
  call_hook revoke_pause
  update_state
      (λ s. elim (lookup cid s.source_orders) [ none ↦ s | some r ↦ set_status cid r "UNKNOWN" s ])
  update_state (λ s. record s { halt_reason = some reason })
  persist disk

-- PENDING, SUBMITTING, SUBMITTED and ACCEPTED.
abbrev is_in_flight : ObligationStatus → Bool
is_in_flight pending = true
is_in_flight submitting = true
is_in_flight submitted = true
is_in_flight accepted = true
is_in_flight _ = false

-- `if intent.status in in_flight: hedge_intents[id] = replace(intent, status=UNKNOWN)`
abbrev mark_intent : HedgeIntent → Action Store (Unit {0})
mark_intent i =
    if is_in_flight i.status
    then (do
      marked ← lift (check_intent (record i { status = unknown }))
      update_state (λ s. record s { hedge_intents = insert i.intent_id marked s.hedge_intents }))
    else pure tt

-- The loop over the unresolved intents; `replace` runs the constructor's checks.
unfoldable pub mark_in_flight : List HedgeIntent → Action Store (Unit {0})
mark_in_flight [] = pure tt
mark_in_flight (i ∷ intents) = mark_intent i >> mark_in_flight intents

-- `",".join(ids)`
abbrev join_ids : List HedgeIntent → String
join_ids [] = ""
join_ids (i ∷ []) = i.intent_id
join_ids (i ∷ j ∷ intents) = i.intent_id <> "," <> join_ids (j ∷ intents)

abbrev restart_details : Option String → List HedgeIntent → String
restart_details none intents = "hedges=" <> join_ids intents
restart_details (some cid) [] = "source=" <> cid
restart_details (some cid) (i ∷ intents) =
    "source=" <> cid <> " " <> "hedges=" <> join_ids (i ∷ intents)

-- `details.append(f"source={active}")` after the record is marked; a missing record is a KeyError.
abbrev pub mark_active : Option String → Action Store (Unit {0})
mark_active none s = (ok tt, s)
mark_active (some cid) s = elim (lookup cid s.state.source_orders) [
  | none ↦ (err key_error, s)
  | some r ↦ update_state (set_status cid r "UNKNOWN") s
]

-- The hooks after the write: a directory-sync error records a failure and goes on up.
abbrev report_halt : Bool → String → Result (Unit {0}) × Store → Result (Option String) × Store
report_halt new_halt reason (err sync_error, s) = (err sync_error, (call_hook record_failure s).1)
report_halt new_halt reason (err e, s) = (err e, s)
report_halt new_halt reason (ok _, s) =
    (ok s.state.halt_reason, if new_halt then (call_hook (record_halt reason) s).1 else s)

abbrev report_after : Bool → String → DiskCalls → Action Store (Option String)
report_after new_halt reason disk s = report_halt new_halt reason (persist disk s)

-- `not unresolved`
abbrev is_empty_list : List HedgeIntent → Bool
is_empty_list [] = true
is_empty_list (_ ∷ _) = false

abbrev pub unresolved_intents : StoreState → List HedgeIntent
unresolved_intents s = keep (λ i. not (is_completed i.status)) (values s.hedge_intents)

unfoldable pub recover_for_start : DiskCalls → Action Store (Option String)
unfolding mark_in_flight
recover_for_start disk s =
    let active = s.state.active_source_order_id in
    let unresolved = unresolved_intents s.state in
    let reason = "restart requires reconciliation: " <> restart_details active unresolved in
    if is_none active && is_empty_list unresolved
    then (ok s.state.halt_reason, s)
    else (do
      mark_active active
      mark_in_flight unresolved
      new_halt ← gets (λ t. is_none t.state.halt_reason)
      update_state (halt_if_running reason)
      report_after new_halt reason disk)
        s
