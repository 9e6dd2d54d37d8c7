-- ===== src/Base/Raises.antt =====
-- Python expressions that may raise, without a state: a result passed on, or the exception.
use mathlib.Core.Path.{◌≡◌, refl}
use mathlib.Core.Bool.{Bool, true, false}
use native.Mathlib.Omega.{arith}
use arbi_nautilus.Base.Outcome.{Error, Result, ok, err}

infixl 5 ◌>>=◌ ◌>>◌
abbrev pub ◌>>=◌ : {A B : Type 0} → Result A → (A → Result B) → Result B
ok a >>= f = f a
err e >>= f = err e

abbrev pub ◌>>◌ : {B : Type 0} → Result (Unit {0}) → Result B → Result B
m >> k = m >>= λ _. k

-- `if test: raise`
abbrev pub unless : Bool → Error → Result (Unit {0})
unless true e = err e
unless false e = ok tt

-- An expression that did not raise went through its first part.
pub then-ok :
    {A B : Type 0} (m : Result A) (k : A → Result B) (b : B)
    → (m >>= k) ≡ ok b
    → (a : A) × (m ≡ ok a) × (k a ≡ ok b)
then-ok (ok a) k b h = (a, refl, h)
then-ok (err e) k b h = absurd (ground arith)

pub unless-ok : (test : Bool) (e : Error) (u : Unit {0}) → unless test e ≡ ok u → test ≡ false
unless-ok test e u h = ground arith
