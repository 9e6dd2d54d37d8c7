-- ===== src/Margin/Held.antt =====
-- What `bitfinex_source_account` of src/py000_nautilus/margin.py computes with: an explicitly flat
-- position at the current ask, or the row of a held one.
use arbi_nautilus.Base.{
  ◌≡◌, ◌≢◌, refl, sym, subst, inl, inr, ◌⊎◌, true, false, ℤ, pos, ◌≤ℤ◌, ◌<ℤ◌, ◌-ℤ◌, ok, arith,
  Result-cases, Bool-cases, int_eq, neg_parts,
}
use arbi_nautilus.Base.Raises.{◌>>=◌}
use arbi_nautilus.Margin.{CapacityContext, ten_thousand}
use arbi_nautilus.Margin.Facts.{
  Fact, absent, object, text, Facts, object_of, at_key, decimal_value, is_fresh, fresh_ask,
}
use arbi_nautilus.Margin.Accounts.{
  SourceAccountRoute, Sampling, Holding, PositionRow, holding_of, held_position, flat_holding,
  read_row, base_of, is_null, row_is_invalid,
}
use arbi_nautilus.Margin.Sample.{object-lem, text-lem}

module _ (c : CapacityContext) where
  -- The route's own base and the current ask stand for a position that is stated to be none.
  pub record IsFlat (position : Fact) (route : SourceAccountRoute) (s : Sampling) (held : Holding c)
      : Type 0 where
    pub stated : position ≡ absent
    pub flat : held.quantity ≡ pos 0
    pub price : held.price ≡ s.ask
    pub unpledged : held.collateral ≡ pos 0
    pub even : held.pnl ≡ pos 0
    pub base : held.base ≡ c.amount route.base_margin_level
    pub base_positive : pos 0 <ℤ route.base_margin_level
    pub ask_positive : pos 0 <ℤ s.ask
    pub ask_actionable : s.ask_actionable ≡ true
    pub ask_past : pos 0 ≤ℤ s.now_ns -ℤ s.ask_ts_ns
    pub ask_young : s.now_ns -ℤ s.ask_ts_ns ≤ℤ s.max_quote_age_ns

  -- The numbers of an active position's row, with the base that its collateral gives.
  pub record IsRow (row : Facts) (leverage minimum : ℤ) (product divisor : c.Amount)
      (held : Holding c) : Type 0 where
    pub active : at_key "status" row ≡ ok (text "ACTIVE")
    pub quantity : (at_key "quantity" row >>= decimal_value c) ≡ ok held.quantity
    pub price : (at_key "base_price" row >>= decimal_value c) ≡ ok held.price
    pub pnl : (at_key "profit_loss" row >>= decimal_value c) ≡ ok held.pnl
    pub collateral : (at_key "collateral" row >>= decimal_value c) ≡ ok held.collateral
    pub leverage_stated : (at_key "leverage" row >>= decimal_value c) ≡ ok leverage
    pub minimum_stated : (at_key "collateral_min" row >>= decimal_value c) ≡ ok minimum
    pub not_flat : held.quantity ≢ pos 0
    pub pledged : pos 0 <ℤ held.collateral
    pub leveraged : pos 0 <ℤ leverage
    pub minimum_known : pos 0 ≤ℤ minimum
    pub scaled : c.caller_times (c.amount ten_thousand) (c.amount minimum) ≡ ok product
    pub exposure : c.caller_times (c.amount held.collateral) (c.amount leverage) ≡ ok divisor
    pub base : c.caller_over product divisor ≡ ok held.base

  -- What the margin formula is given.
  abbrev pub IsHolding : Fact → SourceAccountRoute → Sampling → Holding c → Type 0
  IsHolding position route s held =
      IsFlat position route s held
      ⊎ ((row : Facts) × (leverage : ℤ) × (minimum : ℤ) × (product : c.Amount)
          × (divisor : c.Amount) × (position ≡ object row)
          × IsRow row leverage minimum product divisor held)

  absent-IsFlat :
      (route : SourceAccountRoute) (s : Sampling) (held : Holding c)
      → flat_holding c route s ≡ ok held
      → IsFlat absent route s held
  unfolding flat_holding fresh_ask is_fresh
  absent-IsFlat route s held h = record {
    stated = refl;
    flat = ground arith;
    price = ground arith;
    unpledged = ground arith;
    even = ground arith;
    base = ground arith;
    base_positive = ground arith;
    ask_positive = ground arith;
    ask_actionable = ground arith;
    ask_past = ground (arith, neg_parts (pos 0));
    ask_young = ground arith;
  }

  module _ (position : Fact) (row : PositionRow) (h : read_row c position ≡ ok row) where
    -- The row that was read is the one of the facts.
    abbrev Read : Facts → Type 0
    Read facts =
        (position ≡ object facts)
        × (at_key "status" facts ≡ ok (text "ACTIVE"))
        × ((at_key "quantity" facts >>= decimal_value c) ≡ ok row.row_quantity)
        × ((at_key "base_price" facts >>= decimal_value c) ≡ ok row.row_price)
        × ((at_key "profit_loss" facts >>= decimal_value c) ≡ ok row.row_pnl)
        × ((at_key "collateral" facts >>= decimal_value c) ≡ ok row.row_collateral)
        × ((at_key "leverage" facts >>= decimal_value c) ≡ ok row.row_leverage)
        × ((at_key "collateral_min" facts >>= decimal_value c) ≡ ok row.row_minimum)

    Read-row : (facts : Facts) × Read facts
    unfolding read_row
    Read-row = elim (Result-cases (object_of position)) [
      | inl (e, failed) ↦ absurd (ground arith)
      | inr (facts, found) ↦ elim (Result-cases (at_key "status" facts)) [
        | inl (e, failed) ↦ absurd (ground arith)
        | inr (status, at) ↦ (
          facts,
          (
            object-lem position facts found,
            ground (arith, text-lem "ACTIVE" status),
            ground arith,
            ground arith,
            ground arith,
            ground arith,
            ground arith,
            ground arith,
          ),
        )
      ]
    ]

  -- The quotient that the base is.
  base_of-parts :
      (row : PositionRow) (base : c.Amount)
      → base_of c row ≡ ok base
      → (product : c.Amount) × (divisor : c.Amount) × (c.caller_times
            (c.amount ten_thousand)
            (c.amount row.row_minimum)
          ≡ ok product)
        × (c.caller_times (c.amount row.row_collateral) (c.amount row.row_leverage) ≡ ok divisor)
        × (c.caller_over product divisor ≡ ok base)
  unfolding base_of
  base_of-parts row base h =
      elim (Result-cases (c.caller_times (c.amount ten_thousand) (c.amount row.row_minimum))) [
        | inl (e, failed) ↦ absurd (ground arith)
        | inr (product, p) ↦
            elim (Result-cases
              (c.caller_times (c.amount row.row_collateral) (c.amount row.row_leverage))) [
                | inl (e, failed) ↦ absurd (ground arith)
                | inr (divisor, d) ↦ (product, divisor, p, d, ground arith)
              ]
      ]

  -- The holding of a row.
  abbrev holding_with : PositionRow → c.Amount → Holding c
  holding_with row base = record {
    quantity = row.row_quantity;
    price = row.row_price;
    collateral = row.row_collateral;
    pnl = row.row_pnl;
    base = base;
  }

  held-parts :
      (position : Fact) (held : Holding c)
      → held_position c position ≡ ok held
      → (row : PositionRow) × (base : c.Amount) × (read_row c position ≡ ok row)
        × (row_is_invalid c row ≡ false)
        × (base_of c row ≡ ok base)
        × (holding_with row base ≡ held)
  unfolding held_position
  held-parts position held h = elim (Result-cases (read_row c position)) [
    | inl (e, failed) ↦ absurd (ground arith)
    | inr (row, read) ↦ elim (Result-cases (base_of c row)) [
      | inl (e, failed) ↦ absurd (ground arith)
      | inr (base, found) ↦ (row, base, read, ground arith, found, ground arith)
    ]
  ]

  row-IsHolding :
      (position : Fact) (route : SourceAccountRoute) (s : Sampling) (row : PositionRow)
      (base : c.Amount)
      → read_row c position ≡ ok row
      → row_is_invalid c row ≡ false
      → base_of c row ≡ ok base
      → IsHolding position route s (holding_with row base)
  row-IsHolding position route s row base read valid found =
      let (facts, (is_object, active, quantity, price, pnl, collateral, leverage, minimum)) =
        Read-row position row read in
      let (product, divisor, p, d, b) = base_of-parts row base found in
      inr (
        facts,
        row.row_leverage,
        row.row_minimum,
        product,
        divisor,
        is_object,
        record {
          active = active;
          quantity = quantity;
          price = price;
          pnl = pnl;
          collateral = collateral;
          leverage_stated = leverage;
          minimum_stated = minimum;
          not_flat = λ flat. ground (arith, int_eq.beq_iff row.row_quantity (pos 0));
          pledged = ground (arith, valid);
          leveraged = ground (arith, valid);
          minimum_known = ground (arith, valid);
          scaled = p;
          exposure = d;
          base = b;
        },
      )

  -- What the code computes with is such a holding.
  pub holding_of-IsHolding :
      (position : Fact) (route : SourceAccountRoute) (s : Sampling) (held : Holding c)
      → holding_of c position route s ≡ ok held
      → IsHolding position route s held
  unfolding holding_of
  holding_of-IsHolding position route s held h = elim (Bool-cases (is_null position)) [
    | inl null ↦
        let nothing : position ≡ absent = ground arith in
        subst (λ x. IsHolding x route s held) (sym nothing)
          (inl (absent-IsFlat route s held (ground arith)))
    | inr some_fact ↦
        let (row, base, read, valid, found, same) = held-parts position held (ground arith) in
        subst (IsHolding position route s) same
          (row-IsHolding position route s row base read valid found)
  ]
