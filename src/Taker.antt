-- ===== src/Taker.antt =====
-- src/py000_nautilus/economics.py: the Taker's returns, its risk check, the choice of an opportunity,
-- and the freshness of its inputs. Quantities and margin levels are whole numbers of 10^-8; prices
-- and returns are decimals of the decimal module, which rounds to 28 digits: an argument.
pub mod Risk
pub mod Swap
pub mod Evaluate
use arbi_nautilus.Base.{
  ℕ, ◌+◌, ◌-◌, ◌*◌, ◌/◌, Bool, true, false, not, ◌&&◌, ◌||◌, ℤ, pos, pos_part, magnitude, neg, ◌+ℤ◌,
  ◌-ℤ◌, ◌*ℤ◌, leb_ℤ, ltb_ℤ, min_ℤ, leb, ltb, Option, none, some, List, if◌then◌else◌, Result, ok,
  err, value_error, is_none,
}
use arbi_nautilus.Models.{SourceDirection, long, short, ounce}
use arbi_nautilus.Accounts.{SourceAccount, HedgeAccount, RiskConfig, select_source_account}

-- The arithmetic of `Decimal` prices and returns.
pub record Decimals : Type 1 where
  pub Decimal : Type 0
  pub zero_decimal : Decimal
  pub one_decimal : Decimal
  pub plus : Decimal → Decimal → Decimal
  pub minus : Decimal → Decimal → Decimal
  pub times : Decimal → Decimal → Decimal
  pub over : Decimal → Decimal → Decimal
  pub less : Decimal → Decimal → Bool

pub record BookTop (D : Type 0) : Type 0 where
  pub bid : D
  pub ask : D
  pub bid_size : ℤ
  pub ask_size : ℤ

pub record CarryConfig (D : Type 0) : Type 0 where
  pub bitfinex_long : D
  pub bitfinex_short : D
  pub mt5_long_swap : D
  pub mt5_short_swap : D
  pub total_trade_fee : D

pub record FxConfig (D : Type 0) : Type 0 where
  pub usd_usdt_bid : D
  pub usd_usdt_ask : D

pub record TakerEconomicsConfig (D : Type 0) : Type 0 where
  pub base_book_quantity : ℤ
  pub open_quantity_long : ℤ
  pub open_quantity_short : ℤ
  pub threshold_long : D
  pub threshold_short : D
  pub margin_level : ℤ
  pub risk : RiskConfig

pub record Opportunity (D : Type 0) : Type 0 where
  pub direction : SourceDirection
  pub source_account : SourceAccount
  pub source_price_usdt : D
  pub hedge_reference_price_usd : D
  pub source_quantity_ounces : ℤ
  pub net_return : D
  pub leverage : ℕ

-- `10000 // (margin_level + base_margin_level)`, at least one.
unfoldable pub expected_leverage : ℤ → ℤ → Result ℕ
expected_leverage margin_level base_margin_level =
    let denominator = margin_level +ℤ base_margin_level in
    let leverage = 10000 * ounce / pos_part denominator in
    if leb_ℤ denominator (pos 0)
    then err value_error
    else ok (if leb leverage 1 then 1 else leverage)

-- `abs(after) > max_abs and abs(after) > abs(before)`
abbrev pub exceeds : ℤ → ℤ → ℤ → Bool
exceeds before after maximum =
    ltb_ℤ maximum (pos (magnitude after)) && ltb (magnitude before) (magnitude after)

-- `abs(after) < min_keep_abs and abs(after) < abs(before)`
abbrev pub shrinks : ℤ → ℤ → ℤ → Bool
shrinks before after minimum =
    ltb_ℤ (pos (magnitude after)) minimum && ltb (magnitude after) (magnitude before)

-- `risk_allows`, over the direction, the quantity and the account of the opportunity.
unfoldable pub risk_allows : SourceDirection → ℤ → SourceAccount → HedgeAccount → RiskConfig → Bool
risk_allows direction quantity account hedge risk =
    let change : ℤ = elim direction [ long ↦ quantity | short ↦ neg quantity ] in
    let source_before = account.position_ounces in
    let hedge_before = hedge.position_ounces in
    let source_after = source_before +ℤ change in
    let hedge_after = hedge_before -ℤ change in
    if leb_ℤ quantity (pos 0)
    then false
    else if exceeds source_before source_after risk.source_max_abs
    then false
    else if exceeds hedge_before hedge_after risk.hedge_max_abs
    then false
    else if not risk.only_long
    then true
    else if ltb_ℤ (source_before *ℤ source_after) (pos 0)
        || ltb_ℤ (hedge_before *ℤ hedge_after) (pos 0)
    then false
    else if shrinks source_before source_after risk.source_min_keep_abs
    then false
    else not (shrinks hedge_before hedge_after risk.hedge_min_keep_abs)

-- `MAX_OBSERVATION_FUTURE_NS`, one second.
abbrev max_observation_future_ns : ℤ
max_observation_future_ns = pos 1000000000

unfoldable pub market_inputs_are_fresh : ℤ → ℤ → ℤ → ℤ → ℤ → Bool → ℤ → ℤ → ℤ → ℤ → Bool
market_inputs_are_fresh now source hedge cost session session_open quote_age skew cost_age
      session_age =
    not (
      not session_open
      || (ltb_ℤ now source || (ltb_ℤ now hedge || ltb_ℤ now cost))
      || ltb_ℤ (now +ℤ max_observation_future_ns) session)
    && (not (ltb_ℤ quote_age (now -ℤ source))
        && (not (ltb_ℤ quote_age (now -ℤ hedge))
            && (not (ltb_ℤ skew (pos (magnitude (source -ℤ hedge))))
                && (not (ltb_ℤ cost_age (now -ℤ cost)) && leb_ℤ (now -ℤ session) session_age))))

module _ (d : Decimals) where
  open d use {Decimal, zero_decimal, one_decimal, plus, minus, times, over, less}

  -- `_require_positive`
  abbrev pub is_positive : Decimal → Bool
  is_positive value = less zero_decimal value

  -- `_validate_book`
  unfoldable pub validate_book : BookTop Decimal → Result (Unit {0})
  validate_book book =
      if not (is_positive book.bid)
      then err value_error
      else if not (is_positive book.ask)
      then err value_error
      else if less book.ask book.bid
      then err value_error
      else if ltb_ℤ (min_ℤ book.bid_size book.ask_size) (pos 0)
      then err value_error
      else ok tt

  unfoldable pub long_net_return :
      Decimal → Decimal → CarryConfig Decimal → FxConfig Decimal → Result Decimal
  long_net_return source_ask hedge_bid carry fx =
      let gross = minus (over (times hedge_bid fx.usd_usdt_bid) source_ask) one_decimal in
      if not (is_positive source_ask) || not (is_positive hedge_bid)
      then err value_error
      else ok (
          minus (plus (minus gross carry.bitfinex_long) carry.mt5_short_swap) carry.total_trade_fee)

  unfoldable pub short_net_return :
      Decimal → Decimal → CarryConfig Decimal → FxConfig Decimal → Result Decimal
  short_net_return source_bid hedge_ask carry fx =
      let gross = minus (over source_bid (times hedge_ask fx.usd_usdt_ask)) one_decimal in
      if not (is_positive source_bid) || not (is_positive hedge_ask)
      then err value_error
      else ok (
          minus (plus (minus gross carry.bitfinex_short) carry.mt5_long_swap) carry.total_trade_fee)

  -- `short_return is not None and short_return > config.threshold_short`, with its direction allowed.
  abbrev pub passes : Option SourceDirection → SourceDirection → Option Decimal → Decimal → Bool
  passes allowed direction none threshold = false
  passes none direction (some r) threshold = less threshold r
  passes (some long) long (some r) threshold = less threshold r
  passes (some long) short (some r) threshold = false
  passes (some short) long (some r) threshold = false
  passes (some short) short (some r) threshold = less threshold r

  -- A return where the book is deep enough, else None.
  abbrev pub if_deep : Bool → Result Decimal → Result (Option Decimal)
  if_deep false r = ok none
  if_deep true (err e) = err e
  if_deep true (ok r) = ok (some r)

  abbrev pub value_of : Option Decimal → Decimal
  value_of none = zero_decimal
  value_of (some r) = r

  -- `min` of the four capacities of a direction.
  abbrev pub quantity_for :
      SourceDirection
      → SourceAccount
      → HedgeAccount
      → BookTop Decimal
      → TakerEconomicsConfig Decimal
      → ℤ
  quantity_for short account hedge book config =
      min_ℤ (min_ℤ (min_ℤ account.max_short_ounces hedge.max_long_ounces) book.bid_size)
        config.open_quantity_short
  quantity_for long account hedge book config =
      min_ℤ (min_ℤ (min_ℤ account.max_long_ounces hedge.max_short_ounces) book.ask_size)
        config.open_quantity_long

  abbrev pub opportunity :
      SourceDirection
      → SourceAccount
      → HedgeAccount
      → BookTop Decimal
      → BookTop Decimal
      → TakerEconomicsConfig Decimal
      → Decimal
      → ℕ
      → Opportunity Decimal
  opportunity direction account hedge source_book hedge_book config net leverage = record {
    direction = direction;
    source_account = account;
    source_price_usdt = elim direction [ long ↦ source_book.ask | short ↦ source_book.bid ];
    hedge_reference_price_usd = elim direction [ long ↦ hedge_book.bid | short ↦ hedge_book.ask ];
    source_quantity_ounces = quantity_for direction account hedge source_book config;
    net_return = net;
    leverage = leverage;
  }

  -- One of the two branches: the account, the candidate, and its risk check.
  unfoldable pub candidate :
      SourceDirection
      → BookTop Decimal
      → BookTop Decimal
      → List SourceAccount
      → HedgeAccount
      → TakerEconomicsConfig Decimal
      → Decimal
      → Result (Option (Opportunity Decimal))
  candidate direction source_book hedge_book accounts hedge config net =
      elim (select_source_account accounts direction) [
        | err e ↦ err e
        | ok account ↦ elim (expected_leverage config.margin_level account.base_margin_level) [
          | err e ↦ err e
          | ok leverage ↦
              let quantity = quantity_for direction account hedge source_book config in
              ok (
                if risk_allows direction quantity account hedge config.risk
                then some
                    (opportunity direction account hedge source_book hedge_book config net leverage)
                else none)
        ]
      ]

  -- The two branches on the returns: short first, then long.
  unfoldable pub choose :
      BookTop Decimal
      → BookTop Decimal
      → List SourceAccount
      → HedgeAccount
      → TakerEconomicsConfig Decimal
      → Option SourceDirection
      → Option Decimal
      → Option Decimal
      → Result (Option (Opportunity Decimal))
  unfolding candidate
  choose source_book hedge_book accounts hedge config allowed short_return long_return =
      if passes allowed short short_return config.threshold_short
      then candidate short source_book hedge_book accounts hedge config (value_of short_return)
      else if passes allowed long long_return config.threshold_long
      then candidate long source_book hedge_book accounts hedge config (value_of long_return)
      else ok none

  unfoldable pub evaluate_taker :
      BookTop Decimal
      → BookTop Decimal
      → List SourceAccount
      → HedgeAccount
      → TakerEconomicsConfig Decimal
      → Option SourceDirection
      → CarryConfig Decimal
      → FxConfig Decimal
      → Result (Option (Opportunity Decimal))
  unfolding choose validate_book
  evaluate_taker source_book hedge_book accounts hedge config allowed carry fx =
      elim (validate_book source_book) [
        | err e ↦ err e
        | ok _ ↦ elim (validate_book hedge_book) [
          | err e ↦ err e
          | ok _ ↦
              if leb_ℤ config.base_book_quantity (pos 0)
              then err value_error
              else elim (if_deep (leb_ℤ config.base_book_quantity source_book.bid_size)
                  (short_net_return source_book.bid hedge_book.ask carry fx)) [
                    | err e ↦ err e
                    | ok short_return ↦
                        elim (if_deep (leb_ℤ config.base_book_quantity source_book.ask_size)
                          (long_net_return source_book.ask hedge_book.bid carry fx)) [
                            | err e ↦ err e
                            | ok long_return ↦
                                choose source_book hedge_book accounts hedge config allowed
                                  short_return long_return
                          ]
                  ]
        ]
      ]
