-- ===== src/Store/Sound/Filed.antt =====
-- Every operation of `JsonStateStore` leaves the file as it was, or holding the state that it leaves.
use arbi_nautilus.Base.{
  ◌≡◌, refl, ◌⊎◌, inl, inr, ℤ, String, Option, none, some, List, [], ◌∷◌, arith, Option-cases,
  Bool-cases,
}
use arbi_nautilus.Durability.{DiskCalls, payload_cases}
use arbi_nautilus.Models.{BusinessOrderSide, HedgeIntent, HedgeLeg, ObligationStatus, is_held}
use arbi_nautilus.Models.Checks.{check_intent}
use arbi_nautilus.Store.{Store, Platform, persist, transaction}
use arbi_nautilus.Store.Lookup.{
  intent_for_hedge_order, is_rejected_attempt, put_intent, hold_rejected_attempt,
}
use arbi_nautilus.Store.Source.{
  SourceRequest, begin_source, freeze_source_submissions, clear_source_freeze, update_source_status,
  confirm_source_reconciled, mark_source_unknown, recover_for_start, mark_in_flight, mark_active,
  unresolved_intents,
}
use arbi_nautilus.Store.Fills.{SourceFill, reserve_source_fill}
use arbi_nautilus.Store.Fills.Outcome.{apply-KeepsFile}
use arbi_nautilus.Store.HedgeFill.{HedgeFill, apply_fill, apply_hedge_fill}
use arbi_nautilus.Store.HedgeFill.Quiet.{fill_intent_file}
use arbi_nautilus.Store.Sound.Preserved.{with_seen}
use arbi_nautilus.Store.Sound.Restart.{mark_in_flight_cases}
use arbi_nautilus.Store.Hedges.{
  bind_hedge_order, bind_hedge_plan, block_hedge_intent, update_hedge_status,
}

-- From `s` to `t` the file is the old one, or holds the state of `t`.
abbrev pub IsFiled : Store → Store → Type 0
IsFiled s t = (t.file ≡ s.file) ⊎ (t.file ≡ some t.state)

module _ (disk : DiskCalls) (s : Store) where
  pub begin_source-IsFiled :
      (cid : String) (side : BusinessOrderSide) (quantity : ℤ) (q : SourceRequest)
      → IsFiled s (begin_source disk cid side quantity q s).1
  unfolding begin_source persist
  begin_source-IsFiled cid side quantity q = ground arith

  pub freeze_source_submissions-IsFiled :
      (reason : String) → IsFiled s (freeze_source_submissions disk reason s).1
  unfolding freeze_source_submissions persist
  freeze_source_submissions-IsFiled reason = ground arith

  pub clear_source_freeze-IsFiled : IsFiled s (clear_source_freeze disk s).1
  unfolding clear_source_freeze persist
  clear_source_freeze-IsFiled = ground arith

  pub update_source_status-IsFiled :
      (cid status : String) → IsFiled s (update_source_status disk cid status s).1
  unfolding update_source_status persist
  update_source_status-IsFiled cid status = ground arith

  pub confirm_source_reconciled-IsFiled :
      (cid : String) → IsFiled s (confirm_source_reconciled disk cid s).1
  unfolding confirm_source_reconciled persist transaction
  confirm_source_reconciled-IsFiled cid = ground (arith, payload_cases disk)

  pub mark_source_unknown-IsFiled :
      (cid reason : String) → IsFiled s (mark_source_unknown disk cid reason s).1
  unfolding mark_source_unknown persist
  mark_source_unknown-IsFiled cid reason = ground arith

  pub bind_hedge_order-IsFiled : (id cid : String) → IsFiled s (bind_hedge_order disk id cid s).1
  unfolding bind_hedge_order put_intent check_intent persist
  bind_hedge_order-IsFiled id cid = ground arith

  pub bind_hedge_plan-IsFiled :
      (id : String) (plan : List HedgeLeg) → IsFiled s (bind_hedge_plan disk id plan s).1
  unfolding bind_hedge_plan put_intent check_intent persist
  bind_hedge_plan-IsFiled id plan = ground arith

  pub block_hedge_intent-IsFiled :
      (id reason : String) → IsFiled s (block_hedge_intent disk id reason s).1
  unfolding block_hedge_intent put_intent check_intent persist
  block_hedge_intent-IsFiled id reason = ground arith

  pub update_hedge_status-IsFiled :
      (cid : String) (status : ObligationStatus) (native : Option String)
      → IsFiled s (update_hedge_status disk cid status native s).1
  unfolding update_hedge_status hold_rejected_attempt put_intent check_intent persist
  update_hedge_status-IsFiled cid status native =
      elim (Option-cases (intent_for_hedge_order cid s.state)) [
        | inl missing ↦ ground arith
        | inr (i, found) ↦ elim (Bool-cases (is_rejected_attempt i cid)) [
          | inl old ↦ ground arith
          | inr current ↦ elim (Bool-cases (is_held i.status)) [
            | inl held ↦ ground arith
            | inr free ↦ ground arith
          ]
        ]
      ]

  pub reserve_source_fill-IsFiled :
      (platform : Platform) (f : SourceFill) → IsFiled s (reserve_source_fill platform disk f s).1
  unfolding reserve_source_fill transaction persist
  reserve_source_fill-IsFiled platform f =
      ground (arith, payload_cases disk, apply-KeepsFile platform disk f s)

  apply_hedge_fill-IsFiled' :
      (platform : Platform) (f : HedgeFill)
      → (apply_fill platform f none s).1.file ≡ s.file
      → IsFiled s (apply_hedge_fill platform disk f s).1
  unfolding apply_hedge_fill transaction persist
  apply_hedge_fill-IsFiled' platform f kept = ground (arith, payload_cases disk)

  apply_fill_file :
      (platform : Platform) (f : HedgeFill) → (apply_fill platform f none s).1.file ≡ s.file
  unfolding apply_fill hold_rejected_attempt check_intent
  apply_fill_file platform f =
      elim (Option-cases (intent_for_hedge_order f.client_order_id s.state)) [
        | inl missing ↦ ground arith
        | inr (i, found) ↦ ground (arith, fill_intent_file platform f i (with_seen f s) none)
      ]

  pub apply_hedge_fill-IsFiled :
      (platform : Platform) (f : HedgeFill) → IsFiled s (apply_hedge_fill platform disk f s).1
  apply_hedge_fill-IsFiled platform f =
      apply_hedge_fill-IsFiled' platform f (apply_fill_file platform f)

mark_one_file : (i : HedgeIntent) (s : Store) → (mark_in_flight (i ∷ []) s).1.file ≡ s.file
unfolding mark_in_flight check_intent
mark_one_file i s = ground arith

mark_in_flight_file :
    (intents : List HedgeIntent) (s : Store) → (mark_in_flight intents s).1.file ≡ s.file
unfolding mark_in_flight
mark_in_flight_file [] s = refl
mark_in_flight_file (i ∷ intents) s = elim (mark_in_flight_cases i intents s) [
  | inl stopped ↦ rw (stopped, mark_one_file i s) refl
  | inr on ↦
      rw (on, mark_in_flight_file intents (mark_in_flight (i ∷ []) s).1, mark_one_file i s) refl
]

mark_active_file : (active : Option String) (s : Store) → (mark_active active s).1.file ≡ s.file
mark_active_file active s = ground arith

pub recover_for_start-IsFiled :
    (disk : DiskCalls) (s : Store) → IsFiled s (recover_for_start disk s).1
unfolding recover_for_start persist
recover_for_start-IsFiled disk s =
    let active = s.state.active_source_order_id in
    ground (
      arith,
      mark_active_file active s,
      mark_in_flight_file (unresolved_intents s.state) (mark_active active s).1,
    )
