-- ===== src/Margin.antt =====
-- src/py000_nautilus/margin.py: what an account may still buy and sell, from its margin and from the
-- limits of its route. Ounces, prices and balances are whole numbers of 10^-8; a product or a
-- quotient is a decimal of the module's own context, which is an argument.
pub mod Facts
pub mod Accounts
pub mod Sample
pub mod Held
pub mod Room
pub mod Projected
pub mod Hedged
use arbi_nautilus.Base.{
  Bool, true, false, not, ◌&&◌, ◌||◌, ℤ, pos, magnitude, ◌+ℤ◌, ◌-ℤ◌, ltb_ℤ, leb_ℤ, min_ℤ, max_ℤ,
  String, Result, ok, err, value_error,
}
use arbi_nautilus.Base.Raises.{◌>>=◌, ◌>>◌, unless}

-- `_CAPACITY_CONTEXT`: the operations of the decimal module that may signal, `to_integral_value` with
-- ROUND_FLOOR as a number of units, and the reading and the upper case of a text. The base of a held
-- position is computed in the caller's own context.
pub record CapacityContext : Type 1 where
  pub Amount : Type 0
  pub amount : ℤ → Amount
  pub units : Amount → ℤ
  pub is_above_zero : Amount → Bool
  pub plus : Amount → Amount → Result Amount
  pub times : Amount → Amount → Result Amount
  pub over : Amount → Amount → Result Amount
  pub floor_whole : Amount → Result ℤ
  pub caller_times : Amount → Amount → Result Amount
  pub caller_over : Amount → Amount → Result Amount
  pub decimal_of : String → Result ℤ
  pub upper : String → String

-- What can be bought, and what can be sold.
abbrev pub Capacity : Type 0
Capacity = ℤ × ℤ

-- `Decimal(10_000)` and `Decimal(60)`, in units.
abbrev pub ten_thousand : ℤ
ten_thousand = pos 1000000000000

abbrev pub sixty : ℤ
sixty = pos 6000000000

-- The two ends of a capacity, given the largest holding.
abbrev pub around_position : ℤ → ℤ → Capacity
around_position holding_limit position =
    (max_ℤ (holding_limit -ℤ position) (pos 0), max_ℤ (holding_limit +ℤ position) (pos 0))

-- `_intersect_capacity`
unfoldable pub intersect_capacity : Capacity → ℤ → ℤ → ℤ → ℤ → Result Capacity
intersect_capacity dynamic quantity route_buy route_sell max_abs = do
  unless
      (ltb_ℤ dynamic.0 (pos 0)
        || (ltb_ℤ dynamic.1 (pos 0)
            || (ltb_ℤ route_buy (pos 0) || (ltb_ℤ route_sell (pos 0) || ltb_ℤ max_abs (pos 0)))))
      value_error
  ok (
    min_ℤ (min_ℤ dynamic.0 route_buy) (max_ℤ (max_abs -ℤ quantity) (pos 0)),
    min_ℤ (min_ℤ dynamic.1 route_sell) (max_ℤ (max_abs +ℤ quantity) (pos 0)),
  )

module _ (c : CapacityContext) where
  open c use {Amount, amount, is_above_zero, plus, times, over, floor_whole}

  -- `_validate_inputs`, of a price and the two levels.
  unfoldable pub validate_inputs : ℤ → Amount → ℤ → Result Amount
  validate_inputs margin_target base price = do
    unless (leb_ℤ price (pos 0)) value_error
    denominator ← plus (amount margin_target) base
    unless (not (is_above_zero denominator)) value_error
    ok denominator

  -- `(balance * leverage / price).to_integral_value(ROUND_FLOOR)`
  abbrev whole_ounces : ℤ → ℤ → ℤ → Result ℤ
  whole_ounces balance leverage price = do
    product ← times (amount balance) (amount leverage)
    quotient ← over product (amount price)
    floor_whole quotient

  unfoldable pub bitfinex_margin_capacity : ℤ → Amount → ℤ → ℤ → ℤ → ℤ → ℤ → ℤ → Result Capacity
  bitfinex_margin_capacity margin_target base position price collateral pnl available free = do
    denominator ← validate_inputs margin_target base price
    ratio ← over (amount ten_thousand) denominator
    leverage ← floor_whole ratio
    equity_bound ← whole_ounces (collateral +ℤ pnl +ℤ available) leverage price
    free_whole ← whole_ounces free leverage price
    ok (around_position (min_ℤ equity_bound (free_whole +ℤ pos (magnitude position))) position)

  unfoldable pub mt5_margin_capacity : ℤ → Amount → ℤ → ℤ → ℤ → Result Capacity
  mt5_margin_capacity margin_target base position ask equity = do
    denominator ← validate_inputs margin_target base ask
    product ← times (amount equity) (amount ten_thousand)
    divisor ← times denominator (amount ask)
    quotient ← over product divisor
    holding_limit ← floor_whole quotient
    ok (around_position holding_limit position)
