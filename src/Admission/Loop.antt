-- ===== src/Admission/Loop.antt =====
-- The loop over the records in src/py000_nautilus/shared_admission.py: where it ends without a
-- difference, its two sums are the new order and what the native orders can still fill.
use arbi_nautilus.Base.{
  ◌≡◌, refl, ap, ◌∙◌, inl, inr, Bool, true, false, ℤ, pos, ◌+ℤ◌, int_laws, String, some, List, [],
  ◌∷◌, Dict, lookup, string_eq, ok, arith, Bool-cases, Option-cases, +ℤ_assoc,
}
use arbi_nautilus.Store.{SourceOrderRecord}
use arbi_nautilus.MakerStore.{View, Terms, Books}
use arbi_nautilus.Accounts.{SourceAccount}
use arbi_nautilus.Admission.{
  NativeOrder, Known, Leaves, same_keys, native_by_id, known_records, add_leaves, facts_agree,
  working_leaves,
}
use arbi_nautilus.Admission.Working.{
  working_amount, working_total, recorded, recorded-total, known_records-distinct,
  native_by_id-distinct,
}

-- The two sums of `t'` are those of `t` and two amounts.
abbrev pub IsSum : Leaves → ℤ → ℤ → Leaves → Type 0
IsSum t b s t' = (t'.buying ≡ t.buying +ℤ b) × (t'.selling ≡ t.selling +ℤ s)

add_zero : (a : ℤ) → a ≡ a +ℤ pos 0
add_zero a = omega int_laws

add_leaves-IsSum :
    (terms : Terms) (account : SourceAccount) (v : View) (r : SourceOrderRecord) (n : NativeOrder)
    (t : Leaves)
    → facts_agree terms account v r n ≡ true
    → IsSum t (working_amount true n) (working_amount false n) (add_leaves r n t)
unfolding facts_agree working_amount
add_leaves-IsSum terms account v r n t h = ground (arith, add_zero t.buying, add_zero t.selling)

IsSum-trans :
    (t u w : Leaves) (a b c d : ℤ) → IsSum t a b u → IsSum u c d w → IsSum t (a +ℤ c) (b +ℤ d) w
IsSum-trans t u w a b c d h k =
    (rw (k.0, h.0) (+ℤ_assoc t.buying a c), rw (k.1, h.1) (+ℤ_assoc t.selling b d))

IsSum-zero : (t t' : Leaves) → t ≡ t' → IsSum t (pos 0) (pos 0) t'
IsSum-zero t t' h = ground (arith, add_zero t.buying, add_zero t.selling)

module _ (terms : Terms) (account : SourceAccount) (native : Dict NativeOrder) where
  -- A record whose native order was compared, and the rest of the loop.
  matched :
      (cid : String) (v : View) (r : SourceOrderRecord) (records : Known) (t t' : Leaves)
      (n : NativeOrder)
      → lookup cid native ≡ some n
      → working_leaves terms account native ((cid, (v, r)) ∷ records) t ≡ ok (some t')
      → (facts_agree terms account v r n ≡ true)
        × (working_leaves terms account native records (add_leaves r n t) ≡ ok (some t'))
  unfolding working_leaves
  matched cid v r records t t' n found h = elim (Bool-cases (facts_agree terms account v r n)) [
    | inl same ↦ (same, ground (arith, found, same, h))
    | inr other ↦ absurd (ground (arith, found, other, h))
  ]

  pub working_leaves-IsSum :
      (records : Known) (t t' : Leaves)
      → working_leaves terms account native records t ≡ ok (some t')
      → IsSum t (recorded true native records) (recorded false native records) t'
  unfolding working_leaves
  working_leaves-IsSum [] t t' h = IsSum-zero t t' (ground arith)
  working_leaves-IsSum ((cid, (v, r)) ∷ records) t t' h = elim (Option-cases (lookup cid native)) [
    | inl missing ↦ absurd (ground arith)
    | inr (n, found) ↦
        let (same, rest) = matched cid v r records t t' n found h in
        rw (found) (
          IsSum-trans t (add_leaves r n t) t' (working_amount true n) (working_amount false n)
            (recorded true native records) (recorded false native records)
            (add_leaves-IsSum terms account v r n t same)
            (working_leaves-IsSum records (add_leaves r n t) t' rest))
  ]

-- Where the keys agree too, the sums are over the native orders.
pub working_leaves-total :
    (terms : Terms) (account : SourceAccount) (b : Books) (orders : List NativeOrder)
    (t t' : Leaves)
    → same_keys (known_records terms b) (native_by_id orders []) ≡ true
    → working_leaves terms account (native_by_id orders []) (known_records terms b) t ≡ ok (some t')
    → IsSum t
        (working_total true (native_by_id orders []))
        (working_total false (native_by_id orders []))
        t'
working_leaves-total terms account b orders t t' same h =
    let native = native_by_id orders [] in
    let (bought, sold) = working_leaves-IsSum terms account native (known_records terms b) t t' h in
    let total = λ (buys : Bool).
      recorded-total buys (known_records terms b) native same (known_records-distinct terms b)
        (native_by_id-distinct orders [] refl) in
    (bought ∙ ap (λ z. t.buying +ℤ z) (total true), sold ∙ ap (λ z. t.selling +ℤ z) (total false))
