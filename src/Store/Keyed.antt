-- ===== src/Store/Keyed.antt =====
-- The intents of a store stand under their own ids, each once.
use arbi_nautilus.Base.{
  ◌≡◌, refl, inl, inr, Bool, false, String, none, some, [], ◌∷◌, Dict, lookup, insert, values, find,
  arith, ◌==◌, string_eq, Bool-cases,
}
use text.Mathlib.TextEquality.{eq_iff}
use arbi_nautilus.Models.{HedgeIntent}

abbrev pub Keyed : Dict HedgeIntent → Type 0
Keyed [] = Unit
Keyed ((k, i) ∷ d) = (i.intent_id ≡ k) × (lookup k d ≡ none) × Keyed d

lookup-insert_other :
    (k j : String) (i : HedgeIntent) (d : Dict HedgeIntent)
    → lookup j d ≡ none
    → (k == j) ≡ false
    → lookup j (insert k i d) ≡ none
lookup-insert_other k j i [] h e = ground arith
lookup-insert_other k j i ((l, w) ∷ d) h e =
    ground (arith, eq_iff l j, eq_iff l k, eq_iff k j, lookup-insert_other k j i d)

pub insert-Keyed :
    (k : String) (i : HedgeIntent) (d : Dict HedgeIntent)
    → i.intent_id ≡ k
    → Keyed d
    → Keyed (insert k i d)
insert-Keyed k i [] e h = (e, refl, tt)
insert-Keyed k i ((j, w) ∷ d) e h =
    ground (arith, eq_iff j k, eq_iff k j, insert-Keyed k i d e h.2, lookup-insert_other k j i d)

pub find-lookup :
    (p : HedgeIntent → Bool) (i : HedgeIntent) (d : Dict HedgeIntent)
    → Keyed d
    → find p (values d) ≡ some i
    → lookup i.intent_id d ≡ some i
find-lookup p i [] h e = absurd (ground arith)
find-lookup p i ((k, w) ∷ d) h e = elim (Bool-cases (p w)) [
  | inl here ↦ let same : w ≡ i = ground arith in rw (← same) (ground (arith, eq_iff k w.intent_id))
  | inr later ↦ ground (arith, eq_iff k i.intent_id, find-lookup p i d h.2)
]
