-- ===== src/Taker/Risk.antt =====
-- The Taker's risk check and the Maker's account test are the same law, once for each leg.
use arbi_nautilus.Base.{
  ◌≡◌, refl, inl, inr, Bool, true, false, not, ◌&&◌, ◌||◌, ℤ, pos, magnitude, neg, ◌+ℤ◌, ◌-ℤ◌, ◌*ℤ◌,
  leb_ℤ, ltb_ℤ, arith, int_laws, Bool-cases, if◌then◌else◌,
}
use arbi_nautilus.Models.{SourceDirection, long, short}
use arbi_nautilus.Accounts.{SourceAccount, HedgeAccount, RiskConfig}
use arbi_nautilus.Maker.{account_allows}
use arbi_nautilus.Taker.{risk_allows, exceeds, shrinks}

-- One leg of the risk check, for a change within the capacity.
leg_lem :
    (before change capacity maximum minimum : ℤ) (only_long : Bool)
    → ltb_ℤ capacity (pos (magnitude change)) ≡ false
    → let after = before +ℤ change in
      account_allows before change capacity maximum minimum only_long ≡ (
        not (exceeds before after maximum)
        && (not only_long
            || (not (ltb_ℤ (before *ℤ after) (pos 0)) && not (shrinks before after minimum))))
unfolding account_allows
leg_lem before change capacity maximum minimum only_long h = rw h (ground arith)

+ℤ-neg : (a b : ℤ) → a +ℤ neg b ≡ a -ℤ b
+ℤ-neg a b = omega int_laws

-- The tests of both legs, in the source's order.
legs_lem :
    (e1 e2 o c1 c2 s1 s2 : Bool)
    → (if e1
        then false
        else if e2
        then false
        else if not o
        then true
        else if c1 || c2
        then false
        else if s1
        then false
        else not s2)
      ≡ ((not e1 && (not o || (not c1 && not s1))) && (not e2 && (not o || (not c2 && not s2))))
legs_lem e1 e2 o c1 c2 s1 s2 = ground arith

both_legs :
    (before hedge_before change quantity : ℤ) (risk : RiskConfig)
    → ltb_ℤ quantity (pos (magnitude change)) ≡ false
    → ltb_ℤ quantity (pos (magnitude (neg change))) ≡ false
    → let after = before +ℤ change in
      let hedge_after = hedge_before -ℤ change in
      (if exceeds before after risk.source_max_abs
        then false
        else if exceeds hedge_before hedge_after risk.hedge_max_abs
        then false
        else if not risk.only_long
        then true
        else if ltb_ℤ (before *ℤ after) (pos 0) || ltb_ℤ (hedge_before *ℤ hedge_after) (pos 0)
        then false
        else if shrinks before after risk.source_min_keep_abs
        then false
        else not (shrinks hedge_before hedge_after risk.hedge_min_keep_abs))
      ≡ (account_allows before change quantity risk.source_max_abs risk.source_min_keep_abs
            risk.only_long
          && account_allows hedge_before
              (neg change)
              quantity
              risk.hedge_max_abs
              risk.hedge_min_keep_abs
              risk.only_long)
both_legs before hedge_before change quantity risk k l =
    let after = before +ℤ change in
    let hedge_after = hedge_before -ℤ change in
    rw
      (
        leg_lem before change quantity risk.source_max_abs risk.source_min_keep_abs risk.only_long
            k,
        leg_lem hedge_before (neg change) quantity risk.hedge_max_abs risk.hedge_min_keep_abs
            risk.only_long l,
        +ℤ-neg hedge_before change,
      )
      (legs_lem (exceeds before after risk.source_max_abs)
        (exceeds hedge_before hedge_after risk.hedge_max_abs) risk.only_long
        (ltb_ℤ (before *ℤ after) (pos 0)) (ltb_ℤ (hedge_before *ℤ hedge_after) (pos 0))
        (shrinks before after risk.source_min_keep_abs)
        (shrinks hedge_before hedge_after risk.hedge_min_keep_abs))

sized :
    (quantity : ℤ)
    → leb_ℤ quantity (pos 0) ≡ false
    → (ltb_ℤ (pos 0) quantity ≡ true)
      × (ltb_ℤ quantity (pos (magnitude quantity)) ≡ false)
      × (ltb_ℤ quantity (pos (magnitude (neg quantity))) ≡ false)
      × (ltb_ℤ quantity (pos (magnitude (neg (neg quantity)))) ≡ false)
unfolding neg
sized quantity h = ground arith

unsized : (quantity : ℤ) → leb_ℤ quantity (pos 0) ≡ true → ltb_ℤ (pos 0) quantity ≡ false
unsized quantity h = ground arith

-- `risk_allows` is the sign of the quantity with the Maker's account test on the source account and, the
-- other way, on the hedge account, where the quantity is the capacity of both.
pub risk_allows-account_allows :
    (direction : SourceDirection) (quantity : ℤ) (account : SourceAccount) (hedge : HedgeAccount)
    (risk : RiskConfig)
    → let change : ℤ = elim direction [ long ↦ quantity | short ↦ neg quantity ] in
      risk_allows direction quantity account hedge risk ≡ (
        ltb_ℤ (pos 0) quantity
        && (account_allows account.position_ounces change quantity risk.source_max_abs
              risk.source_min_keep_abs risk.only_long
            && account_allows hedge.position_ounces
                (neg change)
                quantity
                risk.hedge_max_abs
                risk.hedge_min_keep_abs
                risk.only_long))
unfolding risk_allows
risk_allows-account_allows long quantity account hedge risk =
    elim (Bool-cases (leb_ℤ quantity (pos 0))) [
      | inl nothing ↦ rw (nothing, risk_allows, unsized quantity nothing) refl
      | inr some_ounces ↦
          let fits = sized quantity some_ounces in
          rw (some_ounces, risk_allows, fits.0)
            (both_legs account.position_ounces hedge.position_ounces quantity quantity risk (fits.1)
              (fits.2))
    ]
risk_allows-account_allows short quantity account hedge risk =
    elim (Bool-cases (leb_ℤ quantity (pos 0))) [
      | inl nothing ↦ rw (nothing, risk_allows, unsized quantity nothing) refl
      | inr some_ounces ↦
          let fits = sized quantity some_ounces in
          rw (some_ounces, risk_allows, fits.0)
            (both_legs account.position_ounces hedge.position_ounces (neg quantity) quantity risk
              (fits.2) (fits.3))
    ]
