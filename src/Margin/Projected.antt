-- ===== src/Margin/Projected.antt =====
-- `bitfinex_source_account` of src/py000_nautilus/margin.py: the sample and the position that an account
-- is projected from, and the room that it gets.
use arbi_nautilus.Base.{
  ◌≡◌, refl, subst, inl, inr, Bool, true, ℤ, String, Option, none, some, int_eq, string_eq,
  option_eq, option_beq_iff, Result, ok, arith, Result-cases,
}
use arbi_nautilus.Accounts.{SourceAccount}
use arbi_nautilus.Margin.{CapacityContext, Capacity, intersect_capacity, bitfinex_margin_capacity}
use arbi_nautilus.Margin.Facts.{Fact, object, Facts, AccountEvent, account_info}
use arbi_nautilus.Margin.Accounts.{
  SourceAccountRoute, Sampling, read_source, bitfinex_source_account, source_account, source_room,
  source_sample, holding_of, Holding, or_none,
}
use arbi_nautilus.Margin.Sample.{IsSample, object-lem, accepted-IsSample}
use arbi_nautilus.Margin.Held.{IsHolding, holding_of-IsHolding}
use arbi_nautilus.Margin.Room.{HasRoom, IsWithin, intersect_capacity-HasRoom}

-- The client is ready, and the event is a margin event of this account and currency, with `info`.
abbrev pub IsReady : Option AccountEvent → String → Bool → String → Facts → Type 0
IsReady event account_id client_ready currency info =
    (client_ready ≡ true)
    × ((e : AccountEvent) × (event ≡ some e)
        × (e.event_account_id ≡ account_id)
        × (e.is_margin ≡ true)
        × (e.base_currency ≡ some currency)
        × (e.info ≡ object info))

pub account_info-IsReady :
    (event : Option AccountEvent) (account_id : String) (client_ready : Bool) (currency : String)
    (info : Facts)
    → account_info event account_id client_ready currency ≡ ok info
    → IsReady event account_id client_ready currency info
unfolding account_info
account_info-IsReady none account_id client_ready currency info h = absurd (ground arith)
account_info-IsReady (some e) account_id client_ready currency info h = (
  ground arith,
  (
    e,
    refl,
    ground (arith, string_eq.beq_iff e.event_account_id account_id),
    ground arith,
    ground (arith, option_beq_iff e.base_currency (some currency)),
    object-lem e.info info (ground arith),
  ),
)

module _ (c : CapacityContext) where
  -- What the room of a source account comes from.
  abbrev pub SourceRoom : SourceAccountRoute → Sampling → ℤ → Holding c → SourceAccount → Type 0
  SourceRoom route s available held account =
      (account.account_id ≡ route.route_account_id)
      × (account.position_ounces ≡ held.quantity)
      × ((dynamic : Capacity) × (bitfinex_margin_capacity c s.margin_target held.base held.quantity
              held.price held.collateral held.pnl available available
            ≡ ok dynamic)
          × IsWithin dynamic account.max_long_ounces account.max_short_ounces)
      × HasRoom account.position_ounces account.max_long_ounces account.max_short_ounces
          route.route_max_long route.route_max_short s.max_abs_ounces

  source_room-SourceRoom :
      (route : SourceAccountRoute) (s : Sampling) (available : ℤ) (held : Holding c)
      (account : SourceAccount)
      → source_room c route s available held ≡ ok account
      → SourceRoom route s available held account
  unfolding source_room
  source_room-SourceRoom route s available held account h =
      elim (Result-cases (
        bitfinex_margin_capacity c s.margin_target held.base held.quantity held.price
          held.collateral held.pnl available available)) [
            | inl (e, failed) ↦ absurd (ground arith)
            | inr (dynamic, found) ↦
                elim (Result-cases (
                  intersect_capacity dynamic held.quantity route.route_max_long
                    route.route_max_short s.max_abs_ounces)) [
                      | inl (e, failed) ↦ absurd (ground arith)
                      | inr (room, cut) ↦
                          let same : source_account c route held room ≡ account = ground arith in
                          let (fits, within) =
                            intersect_capacity-HasRoom dynamic room held.quantity
                              route.route_max_long route.route_max_short s.max_abs_ounces cut in
                          subst (SourceRoom route s available held) same
                            (refl, refl, (dynamic, found, within), fits)
                    ]
          ]

  -- What a projected source account is.
  abbrev pub SourceProjected :
      Option AccountEvent → SourceAccountRoute → String → String → Sampling → SourceAccount → Type 0
  SourceProjected event route instrument_id wallet_currency s account =
      (info : Facts) × (available : ℤ) × (position : Fact) × (held : Holding c) × IsReady event
        route.route_account_id s.client_ready "USDT" info
      × ((facts : Facts) × (wallet : Facts) × (positions : Facts) × IsSample c info instrument_id
            wallet_currency s available position facts wallet positions)
      × IsHolding c position route s held
      × SourceRoom route s available held account

  read_source-SourceProjected :
      (event : Option AccountEvent) (route : SourceAccountRoute)
      (instrument_id wallet_currency : String) (s : Sampling) (account : SourceAccount)
      → read_source c event route instrument_id wallet_currency s ≡ ok account
      → SourceProjected event route instrument_id wallet_currency s account
  unfolding read_source
  read_source-SourceProjected event route instrument_id wallet_currency s account h =
      elim (Result-cases (account_info event route.route_account_id s.client_ready "USDT")) [
        | inl (e, failed) ↦ absurd (ground arith)
        | inr (info, current) ↦
            elim (Result-cases (source_sample c info instrument_id wallet_currency s)) [
              | inl (e, failed) ↦ absurd (ground arith)
              | inr (sample, found) ↦ elim (Result-cases (holding_of c sample.1 route s)) [
                | inl (e, failed) ↦ absurd (ground arith)
                | inr (held, holds) ↦
                    let room : SourceRoom route s sample.0 held account =
                      source_room-SourceRoom route s sample.0 held account (ground arith) in
                    (
                      info,
                      sample.0,
                      sample.1,
                      held,
                      account_info-IsReady event route.route_account_id s.client_ready "USDT" info
                          current,
                      accepted-IsSample c info instrument_id wallet_currency s sample.0 sample.1
                          found,
                      holding_of-IsHolding c sample.1 route s held holds,
                      room,
                    )
              ]
            ]
      ]

pub or_none-some : {A : Type 0} (r : Result A) (a : A) → or_none r ≡ some a → r ≡ ok a
or_none-some r a h = ground arith

-- When a source account is projected: the client was ready and the event was a USDT margin event of
-- this account. Its facts state, for this instrument, a wallet and positions that are current,
-- complete and observed within the allowed age. The position is stated to be none, and then the
-- account is flat at the fresh, positive ask with the route's base; or it is an active row, and the
-- account's quantity, price, result and collateral are the row's, with the base that its collateral
-- and leverage give. The room is within what `bitfinex_margin_capacity` gives for these numbers and
-- the stated available balance, is not negative, is within the route's, and takes the position over
-- neither the limit nor where it stands, either way.
pub bitfinex_source_account-SourceProjected :
    (c : CapacityContext) (event : Option AccountEvent) (route : SourceAccountRoute)
    (instrument_id wallet_currency : String) (s : Sampling) (account : SourceAccount)
    → bitfinex_source_account c event route instrument_id wallet_currency s ≡ some account
    → SourceProjected c event route instrument_id wallet_currency s account
unfolding bitfinex_source_account
bitfinex_source_account-SourceProjected c event route instrument_id wallet_currency s account h =
    read_source-SourceProjected c event route instrument_id wallet_currency s account
      (or_none-some _ account h)
