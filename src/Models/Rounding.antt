-- ===== src/Models/Rounding.antt =====
-- `round_hedge_ounces` of src/py000_nautilus/economics.py: the nearest whole ounce, ties to even.
-- `float(value)` is exact here: a multiple of 10^-8 below 2^25 ounces that is no tie stays off the
-- tie as a double, and the ties themselves are doubles.
use arbi_nautilus.Base.{
  ℕ, suc, ◌+◌, ◌*◌, ◌/◌, ◌%◌, ◌≤◌, ◌≡◌, ℤ, pos, negsuc, sub_ℕ, ◌-ℤ◌, arith, ltb, eqb, if◌then◌else◌,
  magnitude,
}
use arbi_nautilus.Models.{ounce}

-- The nearest whole number of ounces to `n` units.
unfoldable pub round_units : ℕ → ℕ
round_units n =
    let whole = n / ounce in
    let rest = 2 * (n % ounce) in
    if ltb rest ounce
    then whole
    else if ltb ounce rest
    then whole + 1
    else if eqb (whole % 2) 0
    then whole
    else whole + 1

unfoldable pub round_hedge_ounces : ℤ → ℤ
unfolding round_units
round_hedge_ounces (pos n) = pos (round_units n)
round_hedge_ounces (negsuc n) = sub_ℕ 0 (round_units (suc n))

-- `Decimal(rounded)`, in units.
unfoldable pub of_ounces : ℤ → ℤ
of_ounces (pos n) = pos (n * ounce)
of_ounces (negsuc n) = sub_ℕ 0 (suc n * ounce)

round_units_near :
    (n : ℕ)
    → (2 * n ≤ 2 * (round_units n * ounce) + ounce) × (2 * (round_units n * ounce) ≤ 2 * n + ounce)
unfolding round_units
round_units_near n = ground arith

pub round_units_tie : (k : ℕ) → round_units (k * ounce + 50000000) % 2 ≡ 0
unfolding round_units
round_units_tie k = ground arith

-- The residual that stays unhedged after rounding is at most half an ounce either way.
pub residual-le-half : (v : ℤ) → 2 * magnitude (v -ℤ of_ounces (round_hedge_ounces v)) ≤ ounce
unfolding round_hedge_ounces of_ounces ◌-ℤ◌
residual-le-half (pos n) = ground (arith, round_units_near n)
residual-le-half (negsuc n) = ground (arith, round_units_near (suc n))

-- Whole ounces round to themselves.
pub round-of_ounces : (k : ℤ) → round_hedge_ounces (of_ounces k) ≡ k
unfolding round_hedge_ounces of_ounces round_units
round-of_ounces (pos n) = ground arith
round-of_ounces (negsuc n) = ground arith
