-- ===== src/Projection/Hedge/Project.antt =====
-- How `project_hedge_fills` of src/py000_nautilus/hedge_projection.py ends for the single store.
use arbi_nautilus.Base.{
  ◌≡◌, refl, sym, subst, ◌∙◌, inl, inr, ◌⊎◌, Bool, true, false, ℕ, String, List, [], ◌∷◌, arith,
  Result, ok, err, sync_error, value_error, type_error, runtime_error, key_error, planning_error,
  lane_busy, io_error, length, if◌then◌else◌, pure, ◌>>=◌, ◌>>◌,
}
use arbi_nautilus.Durability.{DiskCalls}
use arbi_nautilus.Models.Checks.{is_empty}
use arbi_nautilus.Store.{StoreState, Store, Platform, persist, transaction, restore}
use arbi_nautilus.Store.Custody.{InSync, saved, persist_cases}
use arbi_nautilus.Store.Keyed.{Keyed}
use arbi_nautilus.Store.HedgeFill.{HedgeFill}
use arbi_nautilus.Projection.{VenueOrder, Owners}
use arbi_nautilus.Projection.Source.Write.{stop}
use arbi_nautilus.Projection.Source.Project.{IsStopped, stop-IsStopped}
use arbi_nautilus.Projection.Hedge.Scan.{check_hedge_projection}
use arbi_nautilus.Projection.Hedge.Kept.{SourceKept, LegsKept}
use arbi_nautilus.Projection.Hedge.Write.{take_hedges, write_hedges, project_hedge_fills}
use arbi_nautilus.Projection.Hedge.Run.{Kept, AllTaken, Ran, take_hedges-Ran}

-- The state was published and is stopped, the missing fills are seen, and beside them nothing moved.
abbrev pub HedgesWrote : List HedgeFill → Store → Store → Type 0
HedgesWrote missing s s' =
    IsStopped s'
    × InSync s'
    × AllTaken missing s s'
    × SourceKept s.state s'.state
    × LegsKept s.state s'.state

-- By how the call ended, for the result of the checks.
abbrev pub HedgesProjected : Store → Result (List HedgeFill) → Result ℕ × Store → Type 0
HedgesProjected s checked (ok n, s') =
    (missing : List HedgeFill) × (checked ≡ ok missing)
    × (n ≡ length missing)
    × (((missing ≡ []) × (s' ≡ s)) ⊎ HedgesWrote missing s s')
HedgesProjected s checked (err e, s') =
    ((s'.state ≡ s.state) × (s'.file ≡ s.file))
    ⊎ ((e ≡ sync_error)
        × ((missing : List HedgeFill) × (checked ≡ ok missing) × HedgesWrote missing s s'))

stop-source : (reason : String) (s : StoreState) → SourceKept s (stop reason s)
stop-source reason s = record {
  orders = ground arith;
  active = ground arith;
  fills = ground arith;
  residual = ground arith;
}

stop-intents : (reason : String) (s : StoreState) → (stop reason s).hedge_intents ≡ s.hedge_intents
stop-intents reason s = ground arith

module _ (platform : Platform) (disk : DiskCalls) (reason : String) (s : Store)
    (keyed : Keyed s.state.hedge_intents) where
  abbrev stopped : Store
  stopped = record s { state = stop reason s.state }

  stop-Kept :
      SourceKept s.state stopped.state
      × LegsKept s.state stopped.state
      × Keyed stopped.state.hedge_intents
  stop-Kept =
      let same = stop-intents reason s.state in
      (stop-source reason s.state, λ id. rw same refl, subst Keyed (sym same) keyed)

  AllTaken-stop :
      (fills : List HedgeFill) (t : Store) → AllTaken fills stopped t → AllTaken fills s t
  AllTaken-stop [] t h = tt
  AllTaken-stop (f ∷ fills) t h =
      (λ live. h.0 (rw (stop-intents reason s.state) live), AllTaken-stop fills t h.1)

  module _ (missing : List HedgeFill) where
    wrote :
        (t : Store) → Kept stopped t → AllTaken missing stopped t → HedgesWrote missing s (saved t)
    wrote t later taken =
        let held = stop-IsStopped reason s.state in
        let (kept, legs_first, _) = stop-Kept in
        (
          (later.after.halt held.0, rw later.after.freeze held.1),
          refl,
          AllTaken-stop missing t taken,
          record {
            orders = later.after.kept.orders ∙ kept.orders;
            active = later.after.kept.active ∙ kept.active;
            fills = later.after.kept.fills ∙ kept.fills;
            residual = later.after.kept.residual ∙ kept.residual;
          },
          λ id. later.legs id ∙ legs_first id,
        )

    abbrev Ending : Result (Unit {0}) × Store → Type 0
    Ending p =
        HedgesProjected s (ok missing)
          (restore s.state (elim p.0 [ ok _ ↦ (ok (length missing), p.1) | err e ↦ (err e, p.1) ]))

    -- What follows the loop, by how the loop ended.
    abbrev publish : Result (Unit {0}) × Store → Result ℕ × Store
    publish p = (do n ← ((λ (x : Store). p) >> pure (length missing)); persist disk; pure n) stopped

    finish :
        (p : Result (Unit {0}) × Store)
        → Ran missing stopped p
        → HedgesProjected s (ok missing) (restore s.state (publish p))
    finish (ok _, t) (kept, taken) = elim (persist_cases disk t) [
      | inl done ↦ subst Ending (sym done) (missing, refl, refl, inr (wrote t kept taken))
      | inr (inl late) ↦ subst Ending (sym late) (inr (refl, (missing, refl, wrote t kept taken)))
      | inr (inr failed) ↦ subst Ending (sym failed) (inl (refl, kept.after.file))
    ]
    finish (err sync_error, t) (kept, other) = absurd (other refl)
    finish (err value_error, t) (kept, other) = inl (refl, kept.after.file)
    finish (err type_error, t) (kept, other) = inl (refl, kept.after.file)
    finish (err runtime_error, t) (kept, other) = inl (refl, kept.after.file)
    finish (err key_error, t) (kept, other) = inl (refl, kept.after.file)
    finish (err planning_error, t) (kept, other) = inl (refl, kept.after.file)
    finish (err lane_busy, t) (kept, other) = inl (refl, kept.after.file)
    finish (err io_error, t) (kept, other) = inl (refl, kept.after.file)

  write_hedges-Projected :
      (missing : List HedgeFill)
      → HedgesProjected s (ok missing) (write_hedges platform disk reason missing s)
  unfolding write_hedges transaction
  write_hedges-Projected [] = ([], refl, refl, inl (refl, refl))
  write_hedges-Projected (f ∷ fills) =
      finish (f ∷ fills) (take_hedges platform reason (f ∷ fills) stopped)
        (take_hedges-Ran platform reason (f ∷ fills) stopped (stop-Kept).2)

  -- Where intents stand under their own ids, a projection of hedge fills that returns gives the
  -- number of fills that its checks found missing. None is missing and nothing changed; or the store
  -- is halted and frozen and its state is in the file, each missing fill of an order that an intent
  -- has now is seen, the source orders, their fills and the residual are as before, and no intent got
  -- another order, leg or plan. One that raises changed neither memory nor file, but for the
  -- directory-sync error, which may also come after that state was written to both.
  pub project_hedge_fills-Projected :
      (owners : Owners) (orders : List VenueOrder)
      → HedgesProjected s
          (check_hedge_projection owners s.state orders)
          (project_hedge_fills platform disk owners reason orders s)
  unfolding project_hedge_fills
  project_hedge_fills-Projected owners orders =
      go (is_empty reason) (check_hedge_projection owners s.state orders)
    where
      go :
          (empty : Bool) (checked : Result (List HedgeFill))
          → HedgesProjected s checked (
              if empty then (err value_error, s) else elim checked [
                | err e ↦ (err e, s)
                | ok missing ↦ write_hedges platform disk reason missing s
              ])
      go true checked = inl (refl, refl)
      go false (err e) = inl (refl, refl)
      go false (ok missing) = write_hedges-Projected missing
