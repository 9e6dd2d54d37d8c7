-- ===== src/Margin/Hedged.antt =====
-- The MT5 projections of src/py000_nautilus/margin.py: `mt5_hedge_account` and `mt5_maker_account`.
use arbi_nautilus.Base.{
  ◌≡◌, refl, subst, inl, inr, ℤ, String, Option, some, ok, arith, Result-cases, Option-cases,
}
use arbi_nautilus.Accounts.{HedgeAccount, MakerAccount}
use arbi_nautilus.Margin.{CapacityContext, Capacity, intersect_capacity, sixty, mt5_margin_capacity}
use arbi_nautilus.Margin.Facts.{Facts, AccountEvent, account_info, fresh_ask}
use arbi_nautilus.Margin.Accounts.{
  HedgeAccountRoute, Sampling, read_hedge, mt5_hedge_account, hedge_room, hedge_sample,
  mt5_maker_account,
}
use arbi_nautilus.Margin.Room.{HasRoom, IsWithin, intersect_capacity-HasRoom}
use arbi_nautilus.Margin.Projected.{IsReady, account_info-IsReady, or_none-some}

module _ (c : CapacityContext) where
  -- What the room of a hedge account comes from, at a net position and an equity.
  abbrev pub HedgeRoom : HedgeAccountRoute → Sampling → ℤ → ℤ → HedgeAccount → Type 0
  HedgeRoom route s quantity equity account =
      (account.position_ounces ≡ quantity)
      × ((dynamic : Capacity) × (mt5_margin_capacity c s.margin_target (c.amount sixty) quantity
              s.ask equity
            ≡ ok dynamic)
          × IsWithin dynamic account.max_long_ounces account.max_short_ounces)
      × HasRoom account.position_ounces account.max_long_ounces account.max_short_ounces
          route.hedge_max_long route.hedge_max_short s.max_abs_ounces

  fresh_ask-same :
      (s : Sampling) (price : ℤ)
      → fresh_ask s.ask s.ask_ts_ns s.now_ns s.max_quote_age_ns s.ask_actionable ≡ ok price
      → s.ask ≡ price
  unfolding fresh_ask
  fresh_ask-same s price h = ground arith

  hedge_room-HedgeRoom :
      (route : HedgeAccountRoute) (s : Sampling) (quantity equity : ℤ) (account : HedgeAccount)
      → hedge_room c route s quantity equity ≡ ok account
      → HedgeRoom route s quantity equity account
  unfolding hedge_room
  hedge_room-HedgeRoom route s quantity equity account h =
      elim (Result-cases
        (fresh_ask s.ask s.ask_ts_ns s.now_ns s.max_quote_age_ns s.ask_actionable)) [
          | inl (e, failed) ↦ absurd (ground arith)
          | inr (price, fresh) ↦
              elim (Result-cases
                (mt5_margin_capacity c s.margin_target (c.amount sixty) quantity price equity)) [
                  | inl (e, failed) ↦ absurd (ground arith)
                  | inr (dynamic, found) ↦
                      elim (Result-cases (
                        intersect_capacity dynamic quantity route.hedge_max_long
                          route.hedge_max_short s.max_abs_ounces)) [
                            | inl (e, failed) ↦ absurd (ground arith)
                            | inr (room, cut) ↦
                                let (fits, within) =
                                  intersect_capacity-HasRoom dynamic room quantity
                                    route.hedge_max_long route.hedge_max_short s.max_abs_ounces
                                    cut in
                                subst (HedgeRoom route s quantity equity) (ground arith) (
                                  refl,
                                  (dynamic, rw (fresh_ask-same s price fresh) found, within),
                                  fits,
                                )
                          ]
                ]
        ]

  -- What a projected hedge account is.
  abbrev pub HedgeProjected :
      Option AccountEvent → HedgeAccountRoute → String → String → Sampling → HedgeAccount → Type 0
  HedgeProjected event route symbol stream_id s account =
      (info : Facts) × (quantity : ℤ) × (equity : ℤ) × IsReady event route.hedge_account_id
        s.client_ready "USD" info
      × (hedge_sample c info symbol stream_id s ≡ ok (quantity, equity))
      × HedgeRoom route s quantity equity account

  read_hedge-HedgeProjected :
      (event : Option AccountEvent) (route : HedgeAccountRoute) (symbol stream_id : String)
      (s : Sampling) (account : HedgeAccount)
      → read_hedge c event route symbol stream_id s ≡ ok account
      → HedgeProjected event route symbol stream_id s account
  unfolding read_hedge
  read_hedge-HedgeProjected event route symbol stream_id s account h =
      elim (Result-cases (account_info event route.hedge_account_id s.client_ready "USD")) [
        | inl (e, failed) ↦ absurd (ground arith)
        | inr (info, current) ↦ elim (Result-cases (hedge_sample c info symbol stream_id s)) [
          | inl (e, failed) ↦ absurd (ground arith)
          | inr (sample, found) ↦ (
            info,
            sample.0,
            sample.1,
            account_info-IsReady event route.hedge_account_id s.client_ready "USD" info current,
            found,
            hedge_room-HedgeRoom route s sample.0 sample.1 account (ground arith),
          )
        ]
      ]

  -- The Maker's account is the Taker's projection under the identity of the route.
  pub mt5_maker_account-HedgeProjected :
      (event : Option AccountEvent) (route : HedgeAccountRoute) (symbol stream_id : String)
      (s : Sampling) (account : MakerAccount)
      → mt5_maker_account c event route symbol stream_id s ≡ some account
      → (account.account_id ≡ route.hedge_account_id)
        × ((hedge : HedgeAccount) × (mt5_hedge_account c event route symbol stream_id s
              ≡ some hedge)
            × (account.position_ounces ≡ hedge.position_ounces)
            × HedgeProjected event route symbol stream_id s hedge)
  unfolding mt5_maker_account mt5_hedge_account
  mt5_maker_account-HedgeProjected event route symbol stream_id s account h =
      elim (Option-cases (mt5_hedge_account c event route symbol stream_id s)) [
        | inl nothing ↦ absurd (ground (arith, nothing, h))
        | inr (hedge, found) ↦ (
          ground (arith, found, h),
          (
            hedge,
            found,
            ground (arith, found, h),
            read_hedge-HedgeProjected event route symbol stream_id s hedge
                (or_none-some _ hedge found),
          ),
        )
      ]
