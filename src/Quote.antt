-- ===== src/Quote.antt =====
-- `maker_quote` and `maker_adjusted_spread` of src/py000_nautilus/maker_economics.py: the account pair
-- and the price that the Maker quotes one side at.
pub mod Choice
use arbi_nautilus.Base.{
  ℕ, Bool, true, false, not, ℤ, pos, leb_ℤ, Option, none, some, List, if◌then◌else◌, Result, ok,
  err, value_error,
}
use arbi_nautilus.Models.{SourceDirection, long, short}
use arbi_nautilus.Accounts.{SourceAccount, MakerAccount, RiskConfig, select_source, select_hedge}
use arbi_nautilus.Taker.{Decimals, BookTop, CarryConfig, FxConfig, expected_leverage}

pub record MakerSideConfig (D : Type 0) : Type 0 where
  pub open_quantity_ounces : ℤ
  pub open_spread : D
  pub delta : D

pub record MakerEconomicsConfig (D : Type 0) : Type 0 where
  pub bid : MakerSideConfig D
  pub ask : MakerSideConfig D
  pub margin_level : ℤ
  pub risk : RiskConfig

pub record MakerQuote (D : Type 0) : Type 0 where
  pub direction : SourceDirection
  pub source_account : SourceAccount
  pub hedge_account : MakerAccount
  pub source_price_usdt : D
  pub hedge_reference_price_usd : D
  pub quantity_ounces : ℤ
  pub adjusted_spread : D
  pub leverage : ℕ

-- `config.bid if direction is LONG else config.ask`
abbrev pub side_of : {D : Type 0} → SourceDirection → MakerEconomicsConfig D → MakerSideConfig D
side_of long config = config.bid
side_of short config = config.ask

module _ (d : Decimals) where
  open d use {Decimal, zero_decimal, one_decimal, plus, minus, times, less}

  unfoldable pub maker_adjusted_spread :
      SourceDirection → MakerEconomicsConfig Decimal → CarryConfig Decimal → Decimal
  maker_adjusted_spread direction config carry =
      let side = side_of direction config in
      let bfx_rate : Decimal = elim direction [
        | long ↦ carry.bitfinex_long
        | short ↦ carry.bitfinex_short
      ] in
      let meta_rate : Decimal = elim direction [
        | long ↦ carry.mt5_short_swap
        | short ↦ carry.mt5_long_swap
      ] in
      minus (plus (plus (plus side.open_spread carry.total_trade_fee) side.delta) bfx_rate)
        meta_rate

  -- The reference of a direction, and the price on the source venue.
  abbrev pub reference_price : SourceDirection → BookTop Decimal → Decimal
  reference_price long book = book.bid
  reference_price short book = book.ask

  abbrev pub source_price : SourceDirection → BookTop Decimal → FxConfig Decimal → Decimal → Decimal
  source_price long book fx spread =
      times (times book.bid fx.usd_usdt_bid) (minus one_decimal spread)
  source_price short book fx spread =
      times (times book.ask fx.usd_usdt_ask) (plus one_decimal spread)

  -- The part after both accounts are found; the spread must be above minus one.
  unfoldable pub priced_quote :
      SourceDirection
      → BookTop Decimal
      → MakerEconomicsConfig Decimal
      → FxConfig Decimal
      → Decimal
      → SourceAccount
      → MakerAccount
      → Result (Option (MakerQuote Decimal))
  priced_quote direction book config fx spread source hedge =
      let price = source_price direction book fx spread in
      if not (less (minus zero_decimal one_decimal) spread)
      then err value_error
      else if not (less zero_decimal price)
      then err value_error
      else elim (expected_leverage config.margin_level source.base_margin_level) [
        | err e ↦ err e
        | ok leverage ↦ ok (
            some (record {
              direction = direction;
              source_account = source;
              hedge_account = hedge;
              source_price_usdt = price;
              hedge_reference_price_usd = reference_price direction book;
              quantity_ounces = (side_of direction config).open_quantity_ounces;
              adjusted_spread = spread;
              leverage = leverage;
            }))
      ]

  abbrev pub hedge_quantity : Option ℤ → ℤ → ℤ
  hedge_quantity none quantity = quantity
  hedge_quantity (some q) quantity = q

  unfoldable pub maker_quote :
      SourceDirection
      → BookTop Decimal
      → List SourceAccount
      → List MakerAccount
      → MakerEconomicsConfig Decimal
      → CarryConfig Decimal
      → FxConfig Decimal
      → Option ℤ
      → Result (Option (MakerQuote Decimal))
  unfolding priced_quote
  maker_quote direction book source_accounts hedge_accounts config carry fx hedge_quantity_ounces =
      let quantity = (side_of direction config).open_quantity_ounces in
      let spread = maker_adjusted_spread direction config carry in
      if leb_ℤ quantity (pos 0)
      then ok none
      else elim (select_source source_accounts direction quantity config.risk) [
        | none ↦ ok none
        | some source ↦
            elim (select_hedge hedge_accounts direction
              (hedge_quantity hedge_quantity_ounces quantity) config.risk) [
                | none ↦ ok none
                | some hedge ↦ priced_quote direction book config fx spread source hedge
              ]
      ]
