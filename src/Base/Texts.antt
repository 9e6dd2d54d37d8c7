-- ===== src/Base/Texts.antt =====
-- Texts as the program takes them apart: code points, the order on texts, and `text.split("|")`.
use Prim.Native.Char.{Char, code}
use Prim.Native.Nat.{ℕ}
use Prim.Native.String.{String}
use mathlib.Core.Path.{◌≡◌, refl}
use native.Mathlib.Omega.{arith}
use mathlib.Core.Bool.{Bool, true, false, ◌&&◌, ◌||◌}
use mathlib.Core.List.{List, [], ◌∷◌}
use arbi_nautilus.Base.Tests.{ltb, eqb, if◌then◌else◌}

abbrev pub codes : String → List ℕ
codes String.[] = []
codes (String.◌∷◌ c s) = code c ∷ codes s

-- `a <= b` on texts, by code points.
pub codes_le : List ℕ → List ℕ → Bool
codes_le [] ys = true
codes_le (x ∷ xs) [] = false
codes_le (x ∷ xs) (y ∷ ys) = ltb x y || (eqb x y && codes_le xs ys)

pub codes_le-total : (xs ys : List ℕ) → codes_le xs ys ≡ false → codes_le ys xs ≡ true
unfolding codes_le
codes_le-total [] ys h = absurd (ground arith)
codes_le-total (x ∷ xs) [] h = refl
codes_le-total (x ∷ xs) (y ∷ ys) h = ground (arith, codes_le-total xs ys)

abbrev pub glue : Char → List String → List String
glue c [] = String.◌∷◌ c String.[] ∷ []
glue c (part ∷ parts) = String.◌∷◌ c part ∷ parts

-- `text.split("|")`
unfoldable pub split_bar : String → List String
split_bar String.[] = String.[] ∷ []
split_bar (String.◌∷◌ c s) =
    let parts = split_bar s in if eqb (code c) b'|' then String.[] ∷ parts else glue c parts

-- `text.split("|")[0]`
abbrev pub first_part : String → String
unfolding split_bar
first_part text = elim (split_bar text) [ [] ↦ String.[] | part ∷ parts ↦ part ]
