-- ===== src/Store/Source/Restart.antt =====
-- `recover_for_start` stops new source orders until what was in flight is reconciled.
use arbi_nautilus.Base.{
  ◌≡◌, refl, sym, subst, inl, inr, Bool, true, false, ◌&&◌, String, Option, none, some, List, [],
  ◌∷◌, arith, is_none, is_some, Result, ok, err, sync_error, io_error, value_error, key_error,
  type_error, runtime_error, planning_error, lane_busy, ◌<>◌,
}
use arbi_nautilus.Durability.{DiskCalls}
use arbi_nautilus.Models.{HedgeIntent}
use arbi_nautilus.Models.Checks.{check_intent}
use arbi_nautilus.Store.{Store, can_submit_source}
use arbi_nautilus.Store.Custody.{persist_cases}
use arbi_nautilus.Store.Source.{
  halt_if_running, mark_intent, mark_in_flight, mark_active, report_halt, report_after,
  unresolved_intents, is_empty_list, restart_details, recover_for_start,
}

-- No source order can begin, and the halt has a reason.
abbrev pub IsHalted : Store → Type 0
IsHalted s = (is_some s.state.halt_reason ≡ true) × (can_submit_source s.state ≡ false)

-- By how the start ended; the two errors of a corrupt state stop it before the halt is set.
abbrev pub Stopped : Result (Option String) × Store → Type 0
Stopped (ok o, s') = (o ≡ s'.state.halt_reason) × IsHalted s'
Stopped (err value_error, s') = Unit
Stopped (err key_error, s') = Unit
Stopped (err e, s') = IsHalted s'

-- An error of a corrupt state.
abbrev IsCorrupt : {A : Type 0} → Result A → Type 0
IsCorrupt (ok _) = Unit
IsCorrupt (err value_error) = Unit
IsCorrupt (err key_error) = Unit
IsCorrupt (err e) = ⊥

mark_active-IsCorrupt : (o : Option String) (s : Store) → IsCorrupt (mark_active o s).0
mark_active-IsCorrupt none s = tt
mark_active-IsCorrupt (some cid) s = ground arith

mark_intent-IsCorrupt : (i : HedgeIntent) (s : Store) → IsCorrupt (mark_intent i s).0
unfolding check_intent
mark_intent-IsCorrupt i s = ground arith

-- An action that only fails on a corrupt state, then another.
then_IsCorrupt :
    (p : Result (Unit {0}) × Store) (k : Store → Result (Unit {0}) × Store)
    → IsCorrupt p.0
    → ((t : Store) → IsCorrupt (k t).0)
    → IsCorrupt
        (elim p.0 as (λ _. Result (Unit {0}) × Store) [ ok _ ↦ k p.1 | err e ↦ (err e, p.1) ]).0
then_IsCorrupt (ok a, t) k h rest = rest t
then_IsCorrupt (err e, t) k h rest = h

mark_in_flight-IsCorrupt :
    (intents : List HedgeIntent) (s : Store) → IsCorrupt (mark_in_flight intents s).0
unfolding mark_in_flight
mark_in_flight-IsCorrupt [] s = tt
mark_in_flight-IsCorrupt (i ∷ intents) s =
    then_IsCorrupt (mark_intent i s) (mark_in_flight intents) (mark_intent-IsCorrupt i s)
      (mark_in_flight-IsCorrupt intents)

halted_lem :
    (s : Store) (reason : String) → IsHalted (record s { state = halt_if_running reason s.state })
unfolding can_submit_source
halted_lem s reason = ground arith

report_Stopped :
    (new_halt : Bool) (reason : String) (disk : DiskCalls) (s : Store)
    → IsHalted s
    → Stopped (report_after new_halt reason disk s)
report_Stopped true reason disk s h = elim (persist_cases disk s) [
  | inl done ↦ subst (λ p. Stopped (report_halt true reason p)) (sym done) (refl, h)
  | inr (inl late) ↦ subst (λ p. Stopped (report_halt true reason p)) (sym late) h
  | inr (inr failed) ↦ subst (λ p. Stopped (report_halt true reason p)) (sym failed) h
]
report_Stopped false reason disk s h = elim (persist_cases disk s) [
  | inl done ↦ subst (λ p. Stopped (report_halt false reason p)) (sym done) (refl, h)
  | inr (inl late) ↦ subst (λ p. Stopped (report_halt false reason p)) (sym late) h
  | inr (inr failed) ↦ subst (λ p. Stopped (report_halt false reason p)) (sym failed) h
]

then_Stopped :
    (p : Result (Unit {0}) × Store) (k : Store → Result (Option String) × Store)
    → IsCorrupt p.0
    → ((t : Store) → Stopped (k t))
    → Stopped
        (elim p.0 as (λ _. Result (Option String) × Store) [ ok _ ↦ k p.1 | err e ↦ (err e, p.1) ])
then_Stopped (ok a, t) k h rest = rest t
then_Stopped (err value_error, t) k h rest = tt
then_Stopped (err key_error, t) k h rest = tt
then_Stopped (err type_error, t) k h rest = elim h [ ]
then_Stopped (err runtime_error, t) k h rest = elim h [ ]
then_Stopped (err planning_error, t) k h rest = elim h [ ]
then_Stopped (err lane_busy, t) k h rest = elim h [ ]
then_Stopped (err sync_error, t) k h rest = elim h [ ]
then_Stopped (err io_error, t) k h rest = elim h [ ]

-- From a state with an active source order or an intent that is not completed, a start either raises
-- a value or a key error, or leaves the store halted, with a reason that it returns if it
-- returns: no source order can begin, also where the write raised.
pub recover_for_start-Stopped :
    (disk : DiskCalls) (s : Store)
    → (is_none s.state.active_source_order_id && is_empty_list (unresolved_intents s.state)) ≡ false
    → Stopped (recover_for_start disk s)
unfolding recover_for_start
recover_for_start-Stopped disk s h =
    let active = s.state.active_source_order_id in
    let unresolved = unresolved_intents s.state in
    let reason = "restart requires reconciliation: " <> restart_details active unresolved in
    rw (h, recover_for_start)
      (then_Stopped (mark_active active s) _ (mark_active-IsCorrupt active s) (λ t.
        then_Stopped (mark_in_flight unresolved t) _ (mark_in_flight-IsCorrupt unresolved t) (λ u.
          report_Stopped (is_none u.state.halt_reason) reason disk
            (record u { state = halt_if_running reason u.state }) (halted_lem u reason))))
