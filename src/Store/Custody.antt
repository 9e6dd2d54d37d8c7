-- ===== src/Store/Custody.antt =====
-- What one write of `JsonStateStore` leaves in memory and in the file.
use arbi_nautilus.Base.{
  ◌≡◌, refl, subst, sym, ◌⊎◌, inl, inr, some, arith, Result, ok, err, sync_error, io_error, Action,
  ◌≢◌, pure, ◌>>=◌, ◌>>◌,
}
use arbi_nautilus.Durability.{DiskCalls, persist_payload}
use arbi_nautilus.Store.{Store, persist, transaction, restore}

-- The store after its state was published.
abbrev pub saved : Store → Store
saved s = record s { file = some s.state }

-- A write returns or raises the sync error with the state published, or raises with it not.
pub persist_cases :
    (disk : DiskCalls) (s : Store)
    → (persist disk s ≡ (ok tt, saved s))
      ⊎ ((persist disk s ≡ (err sync_error, saved s)) ⊎ (persist disk s ≡ (err io_error, s)))
unfolding persist persist_payload
persist_cases disk s = ground arith

-- Memory holds what the file holds.
abbrev pub InSync : Store → Type 0
InSync s = s.file ≡ some s.state

-- An action that writes no file.
abbrev pub KeepsFile : {A : Type 0} → Action Store A → Type 0
KeepsFile m = (s : Store) → (m s).1.file ≡ s.file

-- What a call that is published as one step, or taken back, did to a store, by how it ended.
abbrev pub Settled : {A : Type 0} → Store → Result A × Store → Type 0
Settled s (ok a, s') = InSync s'
Settled s (err sync_error, s') = InSync s'
Settled s (err e, s') = (s'.state ≡ s.state) × (s'.file ≡ s.file)

-- The body after the first action, at each result of that action.
after_action :
    {A : Type 0} (disk : DiskCalls) (s : Store) (r : Result A) (s' : Store)
    → r ≢ err sync_error
    → s'.file ≡ s.file
    → Settled {A = A} s
        (restore s.state (elim r [ ok a ↦ (do persist disk; pure a) s' | err e ↦ (err e, s') ]))
after_action {A} disk s (ok a) s' other kept = elim (persist_cases disk s') [
  | inl done ↦ subst Ending (sym done) refl
  | inr (inl late) ↦ subst Ending (sym late) refl
  | inr (inr failed) ↦ subst Ending (sym failed) (refl, kept)
]
  where
    Ending : Result (Unit {0}) × Store → Type 0
    Ending p =
        Settled {A = A} s (restore s.state (elim p.0 [ ok _ ↦ (ok a, p.1) | err e ↦ (err e, p.1) ]))
after_action disk s (err sync_error) s' other kept = absurd (other refl)
after_action disk s (err e) s' other kept = (refl, kept)

pub transaction-Settled :
    {A : Type 0} (m : Action Store A) (disk : DiskCalls) (s : Store)
    → (m s).0 ≢ err sync_error
    → (m s).1.file ≡ s.file
    → Settled {A = A} s (transaction (do a ← m; persist disk; pure a) s)
unfolding transaction
transaction-Settled m disk s other kept = after_action disk s (m s).0 (m s).1 other kept

-- A store in sync stays so, whatever the write does.
pub Settled-InSync :
    {A : Type 0} (s : Store) (o : Result A × Store) → InSync s → Settled {A = A} s o → InSync o.1
Settled-InSync s (ok a, s') h k = k
Settled-InSync s (err sync_error, s') h k = k
Settled-InSync s (err e, s') h k = ground arith
