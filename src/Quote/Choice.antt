-- ===== src/Quote/Choice.antt =====
-- What a quote that `maker_quote` returns has passed.
use arbi_nautilus.Base.{
  ◌≡◌, refl, ◌⊎◌, inl, inr, true, false, ℤ, pos, ◌<ℤ◌, leb_ℤ, arith, Option, none, some, List,
  Result, ok, err, Bool-cases, Option-cases, Result-cases,
}
use arbi_nautilus.Models.{SourceDirection}
use arbi_nautilus.Accounts.{
  SourceAccount, MakerAccount, RiskConfig, select_source, select_hedge, source_allows, hedge_allows,
}
use arbi_nautilus.Base.{find-holds}
use arbi_nautilus.Taker.{Decimals, BookTop, CarryConfig, FxConfig, expected_leverage}
use arbi_nautilus.Quote.{
  MakerEconomicsConfig, MakerQuote, side_of, maker_adjusted_spread, source_price, priced_quote,
  hedge_quantity, maker_quote,
}

source_allowed :
    (accounts : List SourceAccount) (direction : SourceDirection) (quantity : ℤ)
    (config_risk : RiskConfig) (a : SourceAccount)
    → select_source accounts direction quantity config_risk ≡ some a
    → source_allows direction quantity config_risk a ≡ true
unfolding select_source
source_allowed accounts direction quantity risk a h =
    find-holds (source_allows direction quantity risk) a _ h

hedge_allowed :
    (accounts : List MakerAccount) (direction : SourceDirection) (quantity : ℤ)
    (config_risk : RiskConfig) (a : MakerAccount)
    → select_hedge accounts direction quantity config_risk ≡ some a
    → hedge_allows direction quantity config_risk a ≡ true
unfolding select_hedge
hedge_allowed accounts direction quantity risk a h =
    find-holds (hedge_allows direction quantity risk) a _ h

module _ (d : Decimals) (direction : SourceDirection) (book : BookTop (d.Decimal))
    (config : MakerEconomicsConfig (d.Decimal)) (ounces : Option ℤ)
    (source_accounts : List SourceAccount) (hedge_accounts : List MakerAccount) where
  -- The configured quantity, on accounts whose limits allow it and its hedge, at a positive price.
  pub record IsQuote (q : MakerQuote (d.Decimal)) : Type 0 where
    pub amount : q.quantity_ounces ≡ (side_of direction config).open_quantity_ounces
    pub positive : pos 0 <ℤ q.quantity_ounces
    pub source : source_allows direction q.quantity_ounces config.risk q.source_account ≡ true
    pub hedge :
        hedge_allows direction
          (hedge_quantity d ounces q.quantity_ounces)
          config.risk
          q.hedge_account
        ≡ true
    pub priced : d.less d.zero_decimal q.source_price_usdt ≡ true

  -- By the result of the call.
  abbrev pub Quotes : Result (Option (MakerQuote (d.Decimal))) → Type 0
  Quotes (err e) = Unit
  Quotes (ok none) =
      let quantity = (side_of direction config).open_quantity_ounces in
      (leb_ℤ quantity (pos 0) ≡ true)
      ⊎ ((select_source source_accounts direction quantity config.risk ≡ none)
          ⊎ (select_hedge hedge_accounts direction (hedge_quantity d ounces quantity) config.risk
              ≡ none))
  Quotes (ok (some q)) = IsQuote q

  priced-Quotes :
      (fx : FxConfig (d.Decimal)) (spread : d.Decimal) (a : SourceAccount) (b : MakerAccount)
      → let quantity = (side_of direction config).open_quantity_ounces in
        pos 0 <ℤ quantity
        → source_allows direction quantity config.risk a ≡ true
        → hedge_allows direction (hedge_quantity d ounces quantity) config.risk b ≡ true
        → Quotes (priced_quote d direction book config fx spread a b)
  unfolding priced_quote
  priced-Quotes fx spread a b positive source hedge =
      elim (Bool-cases (d.less (d.minus d.zero_decimal d.one_decimal) spread)) [
        | inr low ↦ rw (low, priced_quote) tt
        | inl above ↦
            elim (Bool-cases (d.less d.zero_decimal (source_price d direction book fx spread))) [
              | inr worthless ↦ rw (above, priced_quote, worthless) tt
              | inl worth ↦
                  elim (Result-cases (expected_leverage config.margin_level a.base_margin_level)) [
                    | inl (e, failed) ↦ rw (above, priced_quote, worth, failed) tt
                    | inr (leverage, levered) ↦
                        rw (above, priced_quote, worth, levered)
                          (record {
                            amount = refl;
                            positive = positive;
                            source = source;
                            hedge = hedge;
                            priced = worth;
                          })
                  ]
            ]
      ]

  above_zero : (q : ℤ) → leb_ℤ q (pos 0) ≡ false → pos 0 <ℤ q
  above_zero q h = ground arith

  -- A quote that `maker_quote` returns is for the configured quantity, which is positive, on a source
  -- account whose limits allow it and a hedge account whose limits allow the hedge quantity the
  -- other way, at a positive price. It returns none only where that quantity is not positive or one
  -- of the two selections finds no account.
  pub maker_quote-Quotes :
      (carry : CarryConfig (d.Decimal)) (fx : FxConfig (d.Decimal))
      → Quotes (maker_quote d direction book source_accounts hedge_accounts config carry fx ounces)
  unfolding maker_quote
  maker_quote-Quotes carry fx =
      let quantity = (side_of direction config).open_quantity_ounces in
      let wanted = hedge_quantity d ounces quantity in
      elim (Bool-cases (leb_ℤ quantity (pos 0))) [
        | inl off ↦ rw (off, maker_quote) (inl off)
        | inr on ↦
            elim (Option-cases (select_source source_accounts direction quantity config.risk)) [
              | inl missing ↦ rw (on, maker_quote, missing) (inr (inl missing))
              | inr (a, found) ↦
                  elim (Option-cases (select_hedge hedge_accounts direction wanted config.risk)) [
                    | inl missing ↦ rw (on, maker_quote, found, missing) (inr (inr missing))
                    | inr (b, paired) ↦
                        rw (on, maker_quote, found, paired)
                          (priced-Quotes fx (maker_adjusted_spread d direction config carry) a b
                            (above_zero quantity on)
                            (source_allowed source_accounts direction quantity config.risk a found)
                            (hedge_allowed hedge_accounts direction wanted config.risk b paired))
                  ]
            ]
      ]
