-- ===== src/Taker/Evaluate.antt =====
-- What an opportunity that `evaluate_taker` returns has passed.
use arbi_nautilus.Base.{
  ◌≡◌, inl, inr, true, false, ℤ, pos, ◌≤ℤ◌, ◌<ℤ◌, leb_ℤ, min_ℤ, arith, min_ℤ_le, Option, none, some,
  List, Result, ok, err, Bool-cases, Result-cases,
}
use arbi_nautilus.Models.{SourceDirection, long, short}
use arbi_nautilus.Accounts.{SourceAccount, HedgeAccount, select_source_account}
use arbi_nautilus.Taker.{
  Decimals, BookTop, CarryConfig, FxConfig, TakerEconomicsConfig, Opportunity, expected_leverage,
  risk_allows, validate_book, passes, if_deep, quantity_for, candidate, value_of, choose,
  evaluate_taker, long_net_return, short_net_return,
}

leb_false : (q : ℤ) → leb_ℤ q (pos 0) ≡ false → pos 0 <ℤ q
leb_false q h = ground arith

least_of_four :
    (a b c e : ℤ)
    → let q = min_ℤ (min_ℤ (min_ℤ a b) c) e in (q ≤ℤ a) × (q ≤ℤ b) × (q ≤ℤ c) × (q ≤ℤ e)
least_of_four a b c e =
    let ab = min_ℤ_le a b in
    let abc = min_ℤ_le (min_ℤ a b) c in
    let all = min_ℤ_le (min_ℤ (min_ℤ a b) c) e in
    (
      omega (arith, ab, abc, all),
      omega (arith, ab, abc, all),
      omega (arith, abc, all),
      omega (arith, all),
    )

module _ (d : Decimals) (source_book hedge_book : BookTop (d.Decimal))
    (accounts : List SourceAccount) (hedge : HedgeAccount)
    (config : TakerEconomicsConfig (d.Decimal)) where
  -- The limits of a direction that a quantity keeps, the threshold passed by the return included.
  abbrev pub IsWithin : SourceDirection → SourceAccount → ℤ → d.Decimal → Type 0
  IsWithin long a quantity net =
      (quantity ≤ℤ a.max_long_ounces)
      × (quantity ≤ℤ hedge.max_short_ounces)
      × (quantity ≤ℤ source_book.ask_size)
      × (quantity ≤ℤ config.open_quantity_long)
      × (d.less config.threshold_long net ≡ true)
  IsWithin short a quantity net =
      (quantity ≤ℤ a.max_short_ounces)
      × (quantity ≤ℤ hedge.max_long_ounces)
      × (quantity ≤ℤ source_book.bid_size)
      × (quantity ≤ℤ config.open_quantity_short)
      × (d.less config.threshold_short net ≡ true)

  pub record IsAdmissible (o : Opportunity (d.Decimal)) : Type 0 where
    pub chosen : select_source_account accounts o.direction ≡ ok o.source_account
    pub positive : pos 0 <ℤ o.source_quantity_ounces
    pub within : IsWithin o.direction o.source_account o.source_quantity_ounces o.net_return
    pub allowed :
        risk_allows o.direction o.source_quantity_ounces o.source_account hedge config.risk ≡ true

  -- By the result of the call.
  abbrev pub Answers : Result (Option (Opportunity (d.Decimal))) → Type 0
  Answers (err e) = Unit
  Answers (ok none) = Unit
  Answers (ok (some o)) = IsAdmissible o

  abbrev Above : SourceDirection → d.Decimal → Type 0
  Above long net = d.less config.threshold_long net ≡ true
  Above short net = d.less config.threshold_short net ≡ true

  risk-positive :
      (direction : SourceDirection) (quantity : ℤ) (a : SourceAccount)
      → risk_allows direction quantity a hedge config.risk ≡ true
      → pos 0 <ℤ quantity
  unfolding risk_allows
  risk-positive direction quantity a h = elim (Bool-cases (leb_ℤ quantity (pos 0))) [
    | inl bad ↦ absurd (cc (rw (bad, risk_allows) at h))
    | inr good ↦ omega (arith, leb_false quantity good)
  ]

  within_lem :
      (direction : SourceDirection) (a : SourceAccount) (net : d.Decimal)
      → Above direction net
      → IsWithin direction a (quantity_for d direction a hedge source_book config) net
  within_lem long a net h =
      let (a1, a2, a3, a4) =
        least_of_four a.max_long_ounces hedge.max_short_ounces source_book.ask_size
          config.open_quantity_long in
      (a1, a2, a3, a4, h)
  within_lem short a net h =
      let (a1, a2, a3, a4) =
        least_of_four a.max_short_ounces hedge.max_long_ounces source_book.bid_size
          config.open_quantity_short in
      (a1, a2, a3, a4, h)

  candidate-Answers :
      (direction : SourceDirection) (net : d.Decimal)
      → Above direction net
      → Answers (candidate d direction source_book hedge_book accounts hedge config net)
  unfolding candidate
  candidate-Answers direction net h =
      elim (Result-cases (select_source_account accounts direction)) [
        | inl (e, failed) ↦ rw (failed, candidate) tt
        | inr (a, found) ↦
            elim (Result-cases (expected_leverage config.margin_level a.base_margin_level)) [
              | inl (e, failed) ↦ rw (found, candidate, failed) tt
              | inr (leverage, levered) ↦
                  let quantity = quantity_for d direction a hedge source_book config in
                  elim (Bool-cases (risk_allows direction quantity a hedge config.risk)) [
                    | inl safe ↦
                        rw (found, candidate, levered, safe)
                          (record {
                            chosen = found;
                            positive = risk-positive direction quantity a safe;
                            within = within_lem direction a net h;
                            allowed = safe;
                          })
                    | inr unsafe ↦ rw (found, candidate, levered, unsafe) tt
                  ]
            ]
      ]

  passes-Above :
      (allowed : Option SourceDirection) (direction : SourceDirection) (r : Option (d.Decimal))
      (threshold : d.Decimal)
      → passes d allowed direction r threshold ≡ true
      → d.less threshold (value_of d r) ≡ true
  passes-Above none long none threshold h = ground (arith, h)
  passes-Above none long (some r) threshold h = ground (arith, h)
  passes-Above none short none threshold h = ground (arith, h)
  passes-Above none short (some r) threshold h = ground (arith, h)
  passes-Above (some long) long none threshold h = ground (arith, h)
  passes-Above (some long) long (some r) threshold h = ground (arith, h)
  passes-Above (some long) short none threshold h = ground (arith, h)
  passes-Above (some long) short (some r) threshold h = ground (arith, h)
  passes-Above (some short) long none threshold h = ground (arith, h)
  passes-Above (some short) long (some r) threshold h = ground (arith, h)
  passes-Above (some short) short none threshold h = ground (arith, h)
  passes-Above (some short) short (some r) threshold h = ground (arith, h)

  choose-Answers :
      (allowed : Option SourceDirection) (short_return long_return : Option (d.Decimal))
      → Answers
          (choose d source_book hedge_book accounts hedge config allowed short_return long_return)
  unfolding choose
  choose-Answers allowed short_return long_return =
      elim (Bool-cases (passes d allowed short short_return config.threshold_short)) [
        | inl go ↦
            rw (go, choose)
              (candidate-Answers short (value_of d short_return)
                (passes-Above allowed short short_return config.threshold_short go))
        | inr refused ↦
            elim (Bool-cases (passes d allowed long long_return config.threshold_long)) [
              | inl go ↦
                  rw (refused, choose, go)
                    (candidate-Answers long (value_of d long_return)
                      (passes-Above allowed long long_return config.threshold_long go))
              | inr neither ↦ rw (refused, choose, neither) tt
            ]
      ]

  -- An opportunity that `evaluate_taker` returns stands on the account that the selection returns
  -- for its direction, has a positive quantity within that account's room, the hedge account's
  -- room the other way, the size of the book and the configured size, has a return above the
  -- direction's threshold, and passes the risk check.
  pub evaluate_taker-Answers :
      (allowed : Option SourceDirection) (carry : CarryConfig (d.Decimal))
      (fx : FxConfig (d.Decimal))
      → Answers (evaluate_taker d source_book hedge_book accounts hedge config allowed carry fx)
  unfolding evaluate_taker
  evaluate_taker-Answers allowed carry fx = elim (Result-cases (validate_book d source_book)) [
    | inl (e, bad) ↦ rw (bad, evaluate_taker) tt
    | inr (_, good) ↦ elim (Result-cases (validate_book d hedge_book)) [
      | inl (e, bad) ↦ rw (good, evaluate_taker, bad) tt
      | inr (_, fine) ↦ elim (Bool-cases (leb_ℤ config.base_book_quantity (pos 0))) [
        | inl empty ↦ rw (good, evaluate_taker, fine, empty) tt
        | inr deep ↦
            rw (good, evaluate_taker, fine, deep)
              (returned
                (if_deep d (leb_ℤ config.base_book_quantity source_book.bid_size)
                  (short_net_return d source_book.bid hedge_book.ask carry fx))
                (if_deep d (leb_ℤ config.base_book_quantity source_book.ask_size)
                  (long_net_return d source_book.ask hedge_book.bid carry fx)))
      ]
    ]
  ]
    where
      returned :
          (s l : Result (Option (d.Decimal)))
          → Answers (elim s [
            | err e ↦ err e
            | ok short_return ↦ elim l [
              | err e ↦ err e
              | ok long_return ↦
                  choose d source_book hedge_book accounts hedge config allowed short_return
                    long_return
            ]
          ])
      returned (err e) l = tt
      returned (ok a) (err e) = tt
      returned (ok a) (ok b) = choose-Answers allowed a b
