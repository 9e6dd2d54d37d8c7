-- ===== src/Admission/Admitted.antt =====
-- What an admission of src/py000_nautilus/shared_admission.py promises: whatever the working orders
-- and the new one fill, both accounts and the unhedged amount stay within their limits.
use arbi_nautilus.Base.{
  ◌≡◌, ◌≢◌, subst, inl, inr, Bool, true, false, ℤ, pos, neg, magnitude, pos_part, neg_part, ◌+ℤ◌,
  ◌-ℤ◌, ◌≤ℤ◌, min_ℤ, max_ℤ, int_laws, parts_cases, Option, none, some, List, [], ok, arith,
  Option-cases, Result-cases, bind-ok, Action, pure, ◌>>◌,
}
use arbi_nautilus.Models.Rounding.{of_ounces}
use arbi_nautilus.Maker.{CarryBounds, maker_carry_bounds, keeps_side}
use arbi_nautilus.Maker.Bounds.{carry_fills, bought, sold, maker_carry_bounds-covers, budget_nonneg}
use arbi_nautilus.Maker.Limits.{within_bounds-covers}
use arbi_nautilus.Accounts.{SourceAccount, HedgeAccount, RiskConfig}
use arbi_nautilus.MakerStore.{Terms, Books, carry_residual_ounces}
use arbi_nautilus.MakerStore.Publish.{Owner}
use arbi_nautilus.Admission.{
  Surroundings, AdmissionConfig, AccountSample, Leaves, native_by_id, source_fits, hedge_fits,
  budget_fits,
}
use arbi_nautilus.Admission.Working.{working_total}

-- A position that an account may be left with.
abbrev pub Stays : ℤ → ℤ → ℤ → Bool → ℤ → Type 0
Stays net maximum minimum only_long after =
    (after ≤ℤ max_ℤ net maximum)
    × ((min_ℤ net (neg maximum) ≤ℤ after)
        × (only_long ≡ true → keeps_side net minimum after ≡ true))

-- At most the configured amount, where one is configured.
abbrev pub AtMost : Option ℤ → ℤ → Type 0
AtMost none amount = Unit
AtMost (some most) amount = amount ≤ℤ most

-- The source account after a run of fills.
abbrev pub SourceKept : RiskConfig → SourceAccount → List ℤ → Type 0
SourceKept risk source fills =
    (pos (bought fills) ≤ℤ source.max_long_ounces)
    × ((pos (sold fills) ≤ℤ source.max_short_ounces)
        × Stays source.position_ounces risk.source_max_abs risk.source_min_keep_abs risk.only_long
            (source.position_ounces +ℤ pos (bought fills) -ℤ pos (sold fills)))

-- The hedge account after the whole ounces that the fills are rounded to.
abbrev pub HedgeKept : RiskConfig → HedgeAccount → ℤ → Type 0
HedgeKept risk hedge hedged =
    (hedged ≤ℤ hedge.max_short_ounces)
    × ((neg hedge.max_long_ounces ≤ℤ hedged)
        × Stays hedge.position_ounces risk.hedge_max_abs risk.hedge_min_keep_abs risk.only_long
            (hedge.position_ounces -ℤ hedged))

abbrev hedged_by : ℤ → List ℤ → ℤ
hedged_by residual fills = of_ounces ((carry_fills residual (pos 0) fills).1)

-- Every run of fills within the two amounts keeps every limit.
abbrev pub Covered : AdmissionConfig → AccountSample → ℤ → ℤ → ℤ → Type 0
Covered config accounts residual buys sells =
    (fills : List ℤ)
    → pos (bought fills) ≤ℤ buys
    → pos (sold fills) ≤ℤ sells
    → SourceKept config.risk accounts.source fills
      × (AtMost config.max_unhedged_ounces
            (pos (magnitude (residual +ℤ pos (bought fills) -ℤ pos (sold fills))))
          × HedgeKept config.risk accounts.hedge (hedged_by residual fills))

module _ (config : AdmissionConfig) (accounts : AccountSample) (t : Leaves) where
  source_covers :
      (fills : List ℤ)
      → source_fits accounts.source config.risk t ≡ true
      → pos (bought fills) ≤ℤ t.buying
      → pos (sold fills) ≤ℤ t.selling
      → SourceKept config.risk accounts.source fills
  unfolding source_fits
  source_covers fills h b s =
      let kept =
        within_bounds-covers accounts.source.position_ounces t.buying t.selling
          config.risk.source_max_abs config.risk.source_min_keep_abs config.risk.only_long
          (pos (bought fills)) (pos (sold fills)) (ground arith) (omega arith) b (omega arith) s in
      (ground arith, (ground arith, (kept.0, (kept.1, kept.2))))

-- What the bought and sold ounces of a hedge leave.
hedge_after :
    (net hedged : ℤ) → net +ℤ pos (neg_part hedged) -ℤ pos (pos_part hedged) ≡ net -ℤ hedged
hedge_after net hedged = omega int_laws

module _ (config : AdmissionConfig) (hedge : HedgeAccount) (bounds : CarryBounds) where
  hedge_covers :
      (hedged : ℤ)
      → hedge_fits hedge config bounds ≡ true
      → pos 0 ≤ℤ bounds.buy
      → pos 0 ≤ℤ bounds.sell
      → hedged ≤ℤ bounds.sell
      → neg bounds.buy ≤ℤ hedged
      → HedgeKept config.risk hedge hedged
  unfolding hedge_fits
  hedge_covers hedged h b0 s0 top bottom =
      let kept =
        within_bounds-covers hedge.position_ounces bounds.buy bounds.sell config.risk.hedge_max_abs
          config.risk.hedge_min_keep_abs config.risk.only_long (pos (neg_part hedged))
          (pos (pos_part hedged)) (ground arith) (omega arith)
          (omega (int_laws, parts_cases hedged)) (omega arith)
          (omega (int_laws, parts_cases hedged)) in
      let stays =
        subst
          (Stays hedge.position_ounces config.risk.hedge_max_abs config.risk.hedge_min_keep_abs
            config.risk.only_long)
          (hedge_after hedge.position_ounces hedged) (kept.0, (kept.1, kept.2)) in
      let long_room : bounds.buy ≤ℤ hedge.max_long_ounces = ground arith in
      let short_room : bounds.sell ≤ℤ hedge.max_short_ounces = ground arith in
      (omega arith, (omega (int_laws, long_room, bottom), stays))

  exposure_covers :
      (amount : ℤ)
      → hedge_fits hedge config bounds ≡ true
      → amount ≤ℤ bounds.exposure
      → AtMost config.max_unhedged_ounces amount
  unfolding hedge_fits
  exposure_covers amount h k = elim (Option-cases config.max_unhedged_ounces) [
    | inl unlimited ↦ rw unlimited tt
    | inr (most, limited) ↦ rw limited (ground (arith, limited))
  ]

-- The two tests of a budget, together.
budget_covers :
    (config : AdmissionConfig) (accounts : AccountSample) (t : Leaves) (residual : ℤ)
    (bounds : CarryBounds)
    → source_fits accounts.source config.risk t ≡ true
    → maker_carry_bounds residual t.buying t.selling ≡ ok bounds
    → hedge_fits accounts.hedge config bounds ≡ true
    → Covered config accounts residual t.buying t.selling
budget_covers config accounts t residual bounds fits budget hedge fills b s =
    let (exposed, top, bottom) =
      maker_carry_bounds-covers residual t.buying t.selling bounds fills budget b s in
    let (b0, s0) = budget_nonneg residual t.buying t.selling bounds budget in
    (
      source_covers config accounts t fills fits b s,
      (
        exposure_covers config accounts.hedge bounds
            (pos (magnitude (residual +ℤ pos (bought fills) -ℤ pos (sold fills)))) hedge exposed,
        hedge_covers config accounts.hedge bounds (hedged_by residual fills) hedge b0 s0 top bottom,
      ),
    )

abbrev pub Budgeted : Terms → AdmissionConfig → AccountSample → Leaves → Books → Type 0
Budgeted terms config accounts t b =
    (residual : ℤ) × ((carry_residual_ounces terms b ≡ ok residual)
      × Covered config accounts residual t.buying t.selling)

module _ (terms : Terms) (config : AdmissionConfig) (accounts : AccountSample) where
  pub budget_fits-Budgeted :
      (t : Leaves) (b : Books)
      → budget_fits terms config accounts t b ≡ ok true
      → Budgeted terms config accounts t b
  unfolding budget_fits
  budget_fits-Budgeted t b h = elim (Result-cases (carry_residual_ounces terms b)) [
    | inl (e, failed) ↦ absurd (ground arith)
    | inr (residual, found) ↦ elim (Result-cases (maker_carry_bounds residual t.buying t.selling)) [
      | inl (e, failed) ↦ absurd (ground (arith, found, failed, h))
      | inr (bounds, budget) ↦ (
        residual,
        (
          found,
          budget_covers config accounts t residual bounds (ground arith) budget
              (ground (arith, found, budget, h)),
        ),
      )
    ]
  ]

-- The working amounts with the new order: the budget of the call.
abbrev pub buys_of : Surroundings → Leaves → ℤ
buys_of around own = own.buying +ℤ working_total true (native_by_id around.orders [])

abbrev pub sells_of : Surroundings → Leaves → ℤ
sells_of around own = own.selling +ℤ working_total false (native_by_id around.orders [])

-- An action that always ends in a refusal does not admit.
pub refused : (m : Action Owner (Unit {0})) (o : Owner) → ((m >> pure false) o).0 ≢ ok true
refused m o h = let (_, _, e, _) = bind-ok m (λ _. pure false) o true h in ground arith
