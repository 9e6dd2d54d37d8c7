-- ===== src/MakerStore/Freeze.antt =====
-- A freeze of every view: it holds, or its failure is latched.
use arbi_nautilus.Base.{
  ◌≡◌, refl, sym, subst, ◌∙◌, inl, inr, ◌⊎◌, Bool, true, false, ◌||◌, String, ◌++◌, arith, Result,
  ok, err, value_error, sync_error, Bool-cases, raise_if, bind_step,
}
use arbi_nautilus.Durability.{DiskCalls}
use arbi_nautilus.Models.Checks.{is_empty}
use arbi_nautilus.MakerStore.{Terms, Books, all_views}
use arbi_nautilus.MakerStore.Validate.Allocations.{validate}
use arbi_nautilus.MakerStore.Publish.{
  Owner, persist_books, set_freezes, some_unfrozen, without_provenance, freeze_external,
  freeze_and_persist, freeze_sources, latch, may_clear, clear_source_freezes,
}
use arbi_nautilus.MakerStore.Frozen.{
  Persisted, Failed, candidate, persist_books-Persisted, IsShut, frozen-IsShut, set_freezes-lem,
  unfrozen-same,
}
use arbi_nautilus.MakerStore.Reserve.{candidate-frozen}
use arbi_nautilus.MakerStore.Release.{kept_shut}

-- No call of this process releases the views again.
abbrev pub IsLatched : Terms → Owner → Type 0
IsLatched terms o = (disk : DiskCalls) → clear_source_freezes terms disk o ≡ (ok false, o)

never_clears :
    (terms : Terms) (o : Owner) → o.freeze_publication_failed ≡ true → may_clear terms o ≡ ok false
unfolding may_clear
never_clears terms o failed = rw failed refl

latched : (terms : Terms) (o : Owner) → o.freeze_publication_failed ≡ true → IsLatched terms o
latched terms o failed disk = kept_shut terms disk o (never_clears terms o failed)

-- The state that a freeze of every view asks to publish.
abbrev pub frozen_owner : Terms → String → Owner → Owner
frozen_owner terms reason o = record o {
  revoked = o.revoked ++ all_views terms;
  books = without_provenance (set_freezes reason (all_views terms) o.books);
}

-- How a freeze of every view ended.
abbrev pub Froze : Terms → DiskCalls → String → Owner → Result (Unit {0}) × Owner → Type 0
Froze terms disk reason o (ok _, o') = (is_empty reason ≡ false) × IsShut terms o'.books
Froze terms disk reason o (err e, o') =
    ((is_empty reason ≡ true) × (e ≡ value_error) × (o' ≡ o))
    ⊎ ((is_empty reason ≡ false)
        × Failed terms disk (candidate (frozen_owner terms reason o)) e
        × IsLatched terms o')

-- How a freeze with a reason ended, where `b` is what it asked to publish.
abbrev pub Stopped : Terms → DiskCalls → Books → Result (Unit {0}) × Owner → Type 0
Stopped terms disk b (ok _, o') = IsShut terms o'.books
Stopped terms disk b (err e, o') = Failed terms disk b e × IsLatched terms o'

-- The same, less the cause of a raise.
abbrev pub Held : Terms → Result (Unit {0}) × Owner → Type 0
Held terms (ok _, o') = IsShut terms o'.books
Held terms (err e, o') = IsLatched terms o'

Stopped-Held :
    (terms : Terms) (disk : DiskCalls) (b : Books) (p : Result (Unit {0}) × Owner)
    → Stopped terms disk b p
    → Held terms p
Stopped-Held terms disk b (ok _, o') h = h
Stopped-Held terms disk b (err e, o') h = h.1

Stopped-Froze :
    (terms : Terms) (disk : DiskCalls) (reason : String) (o : Owner) (p : Result (Unit {0}) × Owner)
    → is_empty reason ≡ false
    → Stopped terms disk (candidate (frozen_owner terms reason o)) p
    → Froze terms disk reason o p
Stopped-Froze terms disk reason o (ok _, o') given h = (given, h)
Stopped-Froze terms disk reason o (err e, o') given h = inr (given, h.0, h.1)

module _ (terms : Terms) (disk : DiskCalls) (reason : String) (o : Owner) where
  abbrev frozen : Owner
  frozen = frozen_owner terms reason o

  abbrev Ended : Result (Unit {0}) × Owner → Type 0
  Ended = Stopped terms disk (candidate frozen)

  shut : some_unfrozen (all_views terms) frozen.books ≡ false
  shut =
      unfrozen-same terms (set_freezes reason (all_views terms) o.books) frozen.books
        (λ w. ground arith)
      ∙ set_freezes-lem terms reason o.books

  latch-Stopped : (p : Result (Unit {0}) × Owner) → Persisted terms disk frozen p → Ended (latch p)
  latch-Stopped (ok _, o') h = subst (IsShut terms) (sym h.0) (candidate-frozen terms frozen shut)
  latch-Stopped (err sync_error, o') h = (
    inr (subst (λ b. validate terms b ≡ ok tt) h.0 h.1.1.1.1.0, h.1.1.1.1.1),
    latched terms (record o' { freeze_publication_failed = true }) refl,
  )
  latch-Stopped (err e, o') h =
      (h.1.1.1, latched terms (record o' { freeze_publication_failed = true }) refl)

  abbrev changes : Bool
  changes = some_unfrozen (all_views terms) o.books || o.books.cycle_freeze_only

  written :
      changes ≡ true
      → freeze_and_persist terms disk reason (all_views terms) o
        ≡ latch (persist_books terms disk frozen)
  written h = rw h refl

  unwritten :
      changes ≡ false → freeze_and_persist terms disk reason (all_views terms) o ≡ (ok tt, frozen)
  unwritten h = rw h refl

  written-Stopped : Ended (freeze_and_persist terms disk reason (all_views terms) o)
  written-Stopped = elim (Bool-cases changes) [
    | inl changed ↦ subst Ended (sym (written changed)) (
        latch-Stopped (persist_books terms disk frozen) (persist_books-Persisted terms disk frozen))
    | inr same ↦
        subst Ended (sym (unwritten same)) (frozen-IsShut terms frozen.books (all_views terms) shut)
  ]

  with_reason : is_empty reason ≡ false → Ended (freeze_sources terms disk reason o)
  unfolding freeze_external
  with_reason given =
      subst Ended
        (sym (
          bind_step (raise_if (is_empty reason) value_error)
            (λ _. freeze_and_persist terms disk reason (all_views terms)) o o (ok tt)
            (rw given refl)))
        written-Stopped

  pub freeze_sources-Held :
      is_empty reason ≡ false → Held terms (freeze_sources terms disk reason o)
  freeze_sources-Held given =
      Stopped-Held terms disk (candidate frozen) (freeze_sources terms disk reason o)
        (with_reason given)

  -- A freeze of every view that returns had a reason and leaves no view that lets a source order
  -- begin. One that raises either had an empty reason, raises the value error and changed nothing; or
  -- it had a reason, the frozen state did not validate or its write raised, with that error, and no
  -- later release of this process succeeds from the state that it left.
  pub freeze_sources-Froze : Froze terms disk reason o (freeze_sources terms disk reason o)
  unfolding freeze_external
  freeze_sources-Froze = elim (Bool-cases (is_empty reason)) [
    | inl empty ↦
        subst (Froze terms disk reason o)
          (sym (
            bind_step (raise_if (is_empty reason) value_error)
              (λ _. freeze_and_persist terms disk reason (all_views terms)) o o (err value_error)
              (rw empty refl)))
          (inl (empty, refl, refl))
    | inr given ↦
        Stopped-Froze terms disk reason o (freeze_sources terms disk reason o) given
          (with_reason given)
  ]
