-- ===== src/Base/Dictionary.antt =====
-- A Python dict keyed by texts, in insertion order, and a set of texts.
use Prim.Native.String.{String}
use mathlib.Core.Path.{◌≡◌, refl}
use mathlib.Core.Bool.{Bool, true, false, ◌&&◌, ◌||◌}
use mathlib.Core.Option.{Option, none, some}
use mathlib.Core.List.{List, [], ◌∷◌, ◌++◌}
use native.Mathlib.Omega.{arith}
use arbi_nautilus.Base.Tests.{if◌then◌else◌}
use arbi_nautilus.Base.Lists.{All}
use arbi_nautilus.Base.Equality.{◌==◌, string_eq}
use text.Mathlib.TextEquality.{eq_iff}

abbrev pub Dict {ℓ} : Type ℓ → Type ℓ
Dict V = List (String × V)

module _ {ℓ} {V : Type ℓ} where
  -- `d.get(k)`
  abbrev pub lookup : String → Dict V → Option V
  lookup k [] = none
  lookup k ((j, v) ∷ d) = if j == k then some v else lookup k d

  -- `d[k] = v`: a present key keeps its place, a new one goes to the end.
  abbrev pub insert : String → V → Dict V → Dict V
  insert k v [] = (k, v) ∷ []
  insert k v ((j, w) ∷ d) = if j == k then (j, v) ∷ d else (j, w) ∷ insert k v d

  -- `d.values()`
  abbrev pub values : Dict V → List V
  values [] = []
  values ((j, v) ∷ d) = v ∷ values d

  -- `d.keys()`
  abbrev pub keys : Dict V → List String
  keys [] = []
  keys ((k, v) ∷ d) = k ∷ keys d

  -- `d.pop(k, None)`, what stays.
  abbrev pub remove : String → Dict V → Dict V
  remove k [] = []
  remove k ((j, v) ∷ d) = let rest = remove k d in if j == k then d else (j, v) ∷ rest

  pub lookup-insert :
      (k j : String) (v : V) (d : Dict V)
      → lookup j (insert k v d) ≡ (if k == j then some v else lookup j d)
  lookup-insert k j v [] = refl
  lookup-insert k j v ((i, w) ∷ d) =
      ground (arith, eq_iff k j, eq_iff i k, eq_iff i j, lookup-insert k j v d)

  pub All-insert {κ} :
      (P : V → Type κ) (k : String) (v : V) (d : Dict V)
      → P v
      → All P (values d)
      → All P (values (insert k v d))
  All-insert P k v [] p h = (p, tt)
  All-insert P k v ((j, w) ∷ d) p h = ground (arith, All-insert P k v d p h.1)

  pub All-lookup {κ} :
      (P : V → Type κ) (k : String) (v : V) (d : Dict V)
      → All P (values d)
      → lookup k d ≡ some v
      → P v
  All-lookup P k v [] h e = absurd (ground arith)
  All-lookup P k v ((j, w) ∷ d) h e = ground (arith, All-lookup P k v d h.1)

-- `k in s`
abbrev pub member : String → List String → Bool
member k [] = false
member k (j ∷ s) = j == k || member k s

-- `s.add(k)`
abbrev pub add : String → List String → List String
add k s = if member k s then s else s ++ k ∷ []

pub member-append :
    (k j : String) (s : List String) → member k (s ++ j ∷ []) ≡ (member k s || (j == k))
member-append k j [] = ground arith
member-append k j (i ∷ s) = ground (arith, member-append k j s)

pub member-add : (k j : String) (s : List String) → member k (add j s) ≡ (member k s || (j == k))
member-add k j s = ground (arith, member-append k j s, eq_iff j k)

-- `s | t`, and whether `s & t` is not empty.
abbrev pub union : List String → List String → List String
union s [] = s
union s (k ∷ t) = union (add k s) t

abbrev pub overlaps : List String → List String → Bool
overlaps [] t = false
overlaps (k ∷ s) t = member k t || overlaps s t

-- `s <= t`
abbrev pub contained : List String → List String → Bool
contained [] t = true
contained (k ∷ s) t = member k t && contained s t
