-- ===== src/Maker/Bounds.antt =====
-- `maker_carry_bounds`: whatever part of the working orders fills, in whatever order and pieces, the
-- exposure and the net hedge stay within the bounds.
use arbi_nautilus.Base.{
  ℕ, ◌+◌, ◌≤◌, ◌≡◌, refl, inl, inr, false, not, ◌&&◌, ℤ, pos, negsuc, neg, pos_part, neg_part,
  magnitude, ◌+ℤ◌, ◌-ℤ◌, ◌≤ℤ◌, int_laws, parts_cases, arith, ◌==◌, int_eq, Bool-cases, ok, List, [],
  ◌∷◌, parts_of_eq, ◌⊎◌, max_ℤ_le, subst, sym,
}
use arbi_nautilus.Models.{ounce}
use arbi_nautilus.Models.Rounding.{round_hedge_ounces, of_ounces, residual-le-half, round_units}
use arbi_nautilus.Maker.{
  half, CarryBounds, carry_exposure, side_bound, floor_to, maker_carry_bounds,
}

one_side : (a b : ℤ) → (not (a == pos 0) && not (b == pos 0)) ≡ false → (a ≡ pos 0) ⊎ (b ≡ pos 0)
one_side a b h = ground (arith, int_eq.beq_iff a (pos 0), int_eq.beq_iff b (pos 0))

-- Any partial outcome of the two working sides lies within the exposure.
exposure_covers :
    (r B S b s : ℤ)
    → magnitude r ≤ 50000000
    → pos 0 ≤ℤ b
    → b ≤ℤ B
    → pos 0 ≤ℤ s
    → s ≤ℤ S
    → pos (magnitude (r +ℤ b -ℤ s)) ≤ℤ carry_exposure r B S
exposure_covers r B S b s hr b0 bB s0 sS =
    elim (Bool-cases (not (B == pos 0) && not (S == pos 0))) [
      | inl both ↦ rw both (omega (int_laws, parts_cases (r +ℤ b -ℤ s), max_ℤ_le B S))
      | inr one ↦
          let ends = max_ℤ_le (pos (magnitude r)) (pos (magnitude (r +ℤ B -ℤ S))) in
          let sides = parts_cases (r +ℤ b -ℤ s) in
          rw one (elim (one_side B S one) [
            | inl no_buy ↦ omega (
              int_laws,
              ends,
              sides,
              parts_cases r,
              parts_cases (r +ℤ B -ℤ S),
              parts_of_eq no_buy,
            )
            | inr no_sell ↦ omega (
              int_laws,
              ends,
              sides,
              parts_cases r,
              parts_cases (r +ℤ B -ℤ S),
              parts_of_eq no_sell,
            )
          ])
    ]

-- The residual and the whole ounces hedged (SELL counted positive) after a run of signed fills, each allocated by rounding.
unfoldable pub carry_fills : ℤ → ℤ → List ℤ → ℤ × ℤ
carry_fills residual hedged [] = (residual, hedged)
carry_fills residual hedged (x ∷ fills) =
    let combined = residual +ℤ x in
    let allocated = round_hedge_ounces combined in
    carry_fills (combined -ℤ of_ounces allocated) (hedged +ℤ allocated) fills

-- What a run of signed fills buys, and what it sells.
unfoldable pub bought : List ℤ → ℕ
bought [] = 0
bought (x ∷ fills) = pos_part x + bought fills

unfoldable pub sold : List ℤ → ℕ
sold [] = 0
sold (x ∷ fills) = neg_part x + sold fills

of_ounces-+ℤ : (a b : ℤ) → of_ounces (a +ℤ b) ≡ of_ounces a +ℤ of_ounces b
unfolding of_ounces ◌+ℤ◌
of_ounces-+ℤ (pos a) (pos b) = ground arith
of_ounces-+ℤ (pos a) (negsuc b) = ground arith
of_ounces-+ℤ (negsuc a) (pos b) = ground arith
of_ounces-+ℤ (negsuc a) (negsuc b) = ground arith

round_nonpos : (v : ℤ) → v ≤ℤ half → round_hedge_ounces v ≤ℤ pos 0
unfolding round_hedge_ounces round_units
round_nonpos (pos n) h = ground arith
round_nonpos (negsuc n) h = ground arith

round_nonneg : (v : ℤ) → neg half ≤ℤ v → pos 0 ≤ℤ round_hedge_ounces v
unfolding round_hedge_ounces round_units neg
round_nonneg (pos n) h = ground arith
round_nonneg (negsuc n) h = ground arith

le_floor : (k v : ℤ) → of_ounces k ≤ℤ v → of_ounces k ≤ℤ floor_to v ounce
unfolding of_ounces floor_to
le_floor (pos a) (pos n) h = ground arith
le_floor (pos a) (negsuc n) h = ground arith
le_floor (negsuc a) (pos n) h = ground arith
le_floor (negsuc a) (negsuc n) h = ground arith

-- The residual and the hedge account for every fill, and at most half an ounce stays open.
carry_fills_sum :
    (r k : ℤ) (fills : List ℤ)
    → magnitude r ≤ 50000000
    → let (r', k') = carry_fills r k fills in
      (magnitude r' ≤ 50000000)
      × (r' +ℤ of_ounces k' +ℤ pos (sold fills) ≡ r +ℤ of_ounces k +ℤ pos (bought fills))
unfolding carry_fills bought sold
carry_fills_sum r k [] h = (h, omega int_laws)
carry_fills_sum r k (x ∷ fills) h =
    let combined = r +ℤ x in
    let allocated = round_hedge_ounces combined in
    let small = residual-le-half combined in
    let (rest_small, rest) =
      carry_fills_sum (combined -ℤ of_ounces allocated) (k +ℤ allocated) fills
        (omega (arith, small)) in
    let whole = parts_of_eq (of_ounces-+ℤ k allocated) in
    (rest_small, omega (int_laws, parts_of_eq rest, whole))

-- What the budget is when it is returned.
budget :
    (r B S : ℤ) (c : CarryBounds)
    → maker_carry_bounds r B S ≡ ok c
    → (magnitude r ≤ 50000000)
      × (pos 0 ≤ℤ B)
      × (pos 0 ≤ℤ S)
      × (c.exposure ≡ carry_exposure r B S)
      × (c.sell ≡ side_bound r B)
      × (c.buy ≡ side_bound (neg r) S)
unfolding maker_carry_bounds
budget r B S c h = ground (arith)

-- A budget is never negative.
pub budget_nonneg :
    (r B S : ℤ) (c : CarryBounds)
    → maker_carry_bounds r B S ≡ ok c
    → (pos 0 ≤ℤ c.buy) × (pos 0 ≤ℤ c.sell)
unfolding maker_carry_bounds
budget_nonneg r B S c h = ground arith

-- Without a buy nothing is sold as a hedge, and without a sell nothing is bought.
hedged_nonpos :
    (r k : ℤ) (fills : List ℤ)
    → bought fills ≡ 0
    → r ≤ℤ half
    → k ≤ℤ pos 0
    → (carry_fills r k fills).1 ≤ℤ pos 0
unfolding carry_fills bought
hedged_nonpos r k [] h hr hk = hk
hedged_nonpos r k (x ∷ fills) h hr hk =
    let combined = r +ℤ x in
    let allocated = round_hedge_ounces combined in
    let small = residual-le-half combined in
    hedged_nonpos (combined -ℤ of_ounces allocated) (k +ℤ allocated) fills (omega arith)
      (omega (arith, small)) (omega (int_laws, round_nonpos combined (omega int_laws)))

hedged_nonneg :
    (r k : ℤ) (fills : List ℤ)
    → sold fills ≡ 0
    → neg half ≤ℤ r
    → pos 0 ≤ℤ k
    → pos 0 ≤ℤ (carry_fills r k fills).1
unfolding carry_fills sold
hedged_nonneg r k [] h hr hk = hk
hedged_nonneg r k (x ∷ fills) h hr hk =
    let combined = r +ℤ x in
    let allocated = round_hedge_ounces combined in
    let small = residual-le-half combined in
    hedged_nonneg (combined -ℤ of_ounces allocated) (k +ℤ allocated) fills (omega arith)
      (omega (int_laws, small)) (omega (int_laws, round_nonneg combined (omega int_laws)))

of_ounces_nonpos : (k : ℤ) → k ≤ℤ pos 0 → of_ounces k ≤ℤ pos 0
unfolding of_ounces
of_ounces_nonpos (pos a) h = ground arith
of_ounces_nonpos (negsuc a) h = ground arith

of_ounces-neg : (k : ℤ) → of_ounces (neg k) ≡ neg (of_ounces k)
unfolding of_ounces neg
of_ounces-neg (pos a) = ground arith
of_ounces-neg (negsuc a) = ground arith

of_ounces_zero : of_ounces (pos 0) ≡ pos 0
unfolding of_ounces
of_ounces_zero = refl

-- Whole ounces that one side's fills can be made to cover lie within that side's bound.
side_bound_covers :
    (r leaves k : ℤ)
    → of_ounces k ≤ℤ r +ℤ leaves +ℤ half
    → (leaves ≡ pos 0 → k ≤ℤ pos 0)
    → of_ounces k ≤ℤ side_bound r leaves
side_bound_covers r leaves k hk hz = elim (Bool-cases (leaves == pos 0)) [
  | inl none_left ↦
      rw none_left (of_ounces_nonpos k (hz ((int_eq.beq_iff leaves (pos 0)).0 none_left)))
  | inr some_left ↦
      let top = floor_to (r +ℤ leaves +ℤ half) ounce in
      rw some_left (omega (arith, le_floor k (r +ℤ leaves +ℤ half) hk, max_ℤ_le (pos 0) top))
]

-- When `maker_carry_bounds` returns a budget for a residual and two working sides, then after any
-- run of signed fills that buys and sells no more than those sides, each fill allocated by
-- rounding: the unhedged amount never exceeds `exposure` even if none of them were hedged, and
-- the net hedge lies between `buy` ounces bought and `sell` ounces sold.
pub maker_carry_bounds-covers :
    (residual buy_leaves sell_leaves : ℤ) (bounds : CarryBounds) (fills : List ℤ)
    → maker_carry_bounds residual buy_leaves sell_leaves ≡ ok bounds
    → pos (bought fills) ≤ℤ buy_leaves
    → pos (sold fills) ≤ℤ sell_leaves
    → let hedged = of_ounces ((carry_fills residual (pos 0) fills).1) in
      (pos (magnitude (residual +ℤ pos (bought fills) -ℤ pos (sold fills))) ≤ℤ bounds.exposure)
      × (hedged ≤ℤ bounds.sell)
      × (neg bounds.buy ≤ℤ hedged)
maker_carry_bounds-covers r B S c fills h hb hs =
    let (hr, B0, S0, exposure, sell, buy) = budget r B S c h in
    let total = carry_fills_sum r (pos 0) fills hr in
    let hedged = (carry_fills r (pos 0) fills).1 in
    let small = total.0 in
    let sum = parts_of_eq total.1 in
    let none = parts_of_eq of_ounces_zero in
    let all_sold : of_ounces hedged ≤ℤ c.sell =
      subst (λ z. of_ounces hedged ≤ℤ z) (sym sell)
        (side_bound_covers r B hedged (omega (int_laws, small, sum, none)) (λ e.
          hedged_nonpos r (pos 0) fills (omega (int_laws, parts_of_eq e))
            (omega (int_laws, parts_cases r)) (omega arith))) in
    let all_bought : of_ounces (neg hedged) ≤ℤ c.buy =
      subst (λ z. of_ounces (neg hedged) ≤ℤ z) (sym buy)
        (side_bound_covers (neg r) S (neg hedged)
          (omega (int_laws, small, sum, none, parts_of_eq (of_ounces-neg hedged)))
          (λ e.
            let none_bought =
              hedged_nonneg r (pos 0) fills (omega (int_laws, parts_of_eq e))
                (omega (int_laws, parts_cases r)) (omega arith) in
            omega (int_laws, none_bought))) in
    let open_amount : pos (magnitude (r +ℤ pos (bought fills) -ℤ pos (sold fills))) ≤ℤ c.exposure =
      subst (λ z. pos (magnitude (r +ℤ pos (bought fills) -ℤ pos (sold fills))) ≤ℤ z) (sym exposure)
        (exposure_covers r B S (pos (bought fills)) (pos (sold fills)) hr (omega arith) hb
          (omega arith) hs) in
    (open_amount, all_sold, omega (int_laws, all_bought, parts_of_eq (of_ounces-neg hedged)))
