-- ===== src/Store/Exposure.antt =====
-- The signed exposure of a store (`net_unhedged_ounces`) when an intent is added or rewritten.
use arbi_nautilus.Base.{
  ◌≡◌, refl, ℤ, pos, negsuc, neg, magnitude, ◌+ℤ◌, ltb_ℤ, int_laws, parts_of_eq, arith, String,
  none, some, List, [], ◌∷◌, Dict, zero, suc, inl, inr, lookup, insert, values, ◌==◌, string_eq,
  Bool-cases, if◌then◌else◌,
}
use arbi_nautilus.Models.{HedgeIntent}
use arbi_nautilus.Models.Rounding.{of_ounces}
use arbi_nautilus.Store.{StoreState, outstanding, sum_outstanding, net_unhedged}

pub sum_outstanding_start :
    (start : ℤ) (intents : List HedgeIntent)
    → sum_outstanding start intents ≡ start +ℤ sum_outstanding (pos 0) intents
sum_outstanding_start start [] = omega int_laws
sum_outstanding_start start (i ∷ intents) =
    rw (sum_outstanding_start (start +ℤ outstanding i) intents)
      (rw (sum_outstanding_start (pos 0 +ℤ outstanding i) intents) (omega int_laws))

-- A new key adds what its intent still owes.
pub sum_outstanding-insert_new :
    (k : String) (i : HedgeIntent) (d : Dict HedgeIntent)
    → lookup k d ≡ none
    → sum_outstanding (pos 0) (values (insert k i d))
      ≡ sum_outstanding (pos 0) (values d) +ℤ outstanding i
sum_outstanding-insert_new k i [] e = refl
sum_outstanding-insert_new k i ((j, w) ∷ d) e = elim (Bool-cases (j == k)) [
  | inl same ↦ absurd (ground arith)
  | inr other ↦ rw other (
      rw
        (
          sum_outstanding_start (pos 0 +ℤ outstanding w) (values (insert k i d)),
          sum_outstanding_start (pos 0 +ℤ outstanding w) (values d),
          sum_outstanding-insert_new k i d (ground arith),
        )
        (omega int_laws))
]

shift : (a b c d e : ℤ) → b +ℤ d ≡ c +ℤ e → pos 0 +ℤ a +ℤ b +ℤ d ≡ pos 0 +ℤ a +ℤ c +ℤ e
shift a b c d e h = omega (int_laws, parts_of_eq h)

-- A present key trades what its intent owed for what the new one owes.
pub sum_outstanding-insert :
    (k : String) (old i : HedgeIntent) (d : Dict HedgeIntent)
    → lookup k d ≡ some old
    → sum_outstanding (pos 0) (values (insert k i d)) +ℤ outstanding old
      ≡ sum_outstanding (pos 0) (values d) +ℤ outstanding i
sum_outstanding-insert k old i [] e = absurd (ground arith)
sum_outstanding-insert k old i ((j, w) ∷ d) e = elim (Bool-cases (j == k)) [
  | inl same ↦
      let here : w ≡ old = ground arith in
      rw (same, here)
        (rw
          (
            sum_outstanding_start (pos 0 +ℤ outstanding i) (values d),
            sum_outstanding_start (pos 0 +ℤ outstanding old) (values d),
          )
          (omega int_laws))
  | inr other ↦ rw other (
      rw
        (
          sum_outstanding_start (pos 0 +ℤ outstanding w) (values (insert k i d)),
          sum_outstanding_start (pos 0 +ℤ outstanding w) (values d),
        )
        (shift _ _ _ _ _ (sum_outstanding-insert k old i d (rw other at e))))
]

pub net_unhedged_lem :
    (s : StoreState)
    → net_unhedged s ≡ s.net_unhedged_ounces +ℤ sum_outstanding (pos 0) (values s.hedge_intents)
unfolding net_unhedged
net_unhedged_lem s = sum_outstanding_start s.net_unhedged_ounces (values s.hedge_intents)

-- A whole number of ounces, as its size and its side.
pub of_ounces_signed :
    (r : ℤ)
    → (if ltb_ℤ (pos 0) r
        then of_ounces (pos (magnitude r))
        else neg (of_ounces (pos (magnitude r))))
      ≡ of_ounces r
unfolding of_ounces neg
of_ounces_signed (pos zero) = refl
of_ounces_signed (pos (suc n)) = ground arith
of_ounces_signed (negsuc n) = ground arith
