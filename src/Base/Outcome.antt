-- ===== src/Base/Outcome.antt =====
-- Exceptions as values, and actions on a state that keeps what was written before a raise.
use mathlib.Core.Path.{◌≡◌, refl, ap}
use mathlib.Core.Logic.{◌⊎◌, inl, inr}
use mathlib.Core.Bool.{Bool, true, false}
use mathlib.Core.Option.{Option, none, some}
use native.Mathlib.Omega.{arith}
use mathlib.Core.List.{List, [], ◌∷◌}

-- The exception classes that the modelled code raises or lets through.
pub data Error : Type 0 where
  value_error type_error runtime_error key_error planning_error lane_busy sync_error io_error :
      Error

pub data Result {ℓ} (A : Type ℓ) : Type ℓ where
  ok : A → Result A
  err : Error → Result A

abbrev pub Action : Type 0 → Type 0 → Type 0
Action S A = S → Result A × S

module _ {S A : Type 0} where
  abbrev pub pure : A → Action S A
  pure a s = (ok a, s)

  abbrev pub raise : Error → Action S A
  raise e s = (err e, s)

  abbrev pub lift : Result A → Action S A
  lift r s = (r, s)

  abbrev pub or_raise : Option A → Error → Action S A
  or_raise none e = raise e
  or_raise (some a) e = pure a

  abbrev pub gets : (S → A) → Action S A
  gets f s = (ok (f s), s)

infixl 5 ◌>>=◌ ◌>>◌
abbrev pub ◌>>=◌ : {S A B : Type 0} → Action S A → (A → Action S B) → Action S B
◌>>=◌ m f s = let (r, s') = m s in elim r [ ok a ↦ f a s' | err e ↦ (err e, s') ]

abbrev pub ◌>>◌ : {S A B : Type 0} → Action S A → Action S B → Action S B
m >> k = m >>= λ _. k

abbrev pub raise_if : {S : Type 0} → Bool → Error → Action S (Unit {0})
raise_if true e s = (err e, s)
raise_if false e s = (ok tt, s)

abbrev pub modify : {S : Type 0} → (S → S) → Action S (Unit {0})
modify f s = (ok tt, f s)

-- `for item in items: ...`
abbrev pub for_each : {S A : Type 0} → List A → (A → Action S (Unit {0})) → Action S (Unit {0})
for_each [] f s = (ok tt, s)
for_each (a ∷ items) f s = (f a >> for_each items f) s

pub Result-cases {ℓ} :
    {A : Type ℓ} (r : Result A) → ((e : Error) × (r ≡ err e)) ⊎ ((a : A) × (r ≡ ok a))
Result-cases (ok a) = inr (a, refl)
Result-cases (err e) = inl (e, refl)

-- An action that did not raise went through its first part.
pub bind-ok :
    {S A B : Type 0} (m : Action S A) (k : A → Action S B) (s : S) (b : B)
    → ((m >>= k) s).0 ≡ ok b
    → (a : A) × ((m s).0 ≡ ok a) × ((k a (m s).1).0 ≡ ok b) × (((m >>= k) s).1 ≡ (k a (m s).1).1)
bind-ok m k s b e = elim (Result-cases (m s).0) [
  | inl (x, failed) ↦ absurd (ground arith)
  | inr (a, done) ↦ (a, done, ground arith, ground arith)
]

pub bind_step :
    {S A B : Type 0} (m : Action S A) (k : A → Action S B) (s t : S) (r : Result A)
    → m s ≡ (r, t)
    → (m >>= k) s ≡ elim r [ ok a ↦ k a t | err e ↦ (err e, t) ]
bind_step m k s t r e = ap (λ p. elim (p.0) [ ok a ↦ k a p.1 | err e ↦ (err e, p.1) ]) e
