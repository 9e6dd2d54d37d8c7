-- ===== src/Maker.antt =====
-- src/py000_nautilus/maker_economics.py: the budget bounds of a carried residual, the account
-- limits, and the passive price of a Maker quote. Prices are whole numbers of 10^-8 too; a quotient
-- of two amounts is exact where the 28 digits of the decimal context hold it.
pub mod Bounds
pub mod Limits
pub mod Price
use arbi_nautilus.Base.{
  ℕ, suc, ◌+◌, ◌-◌, ◌*◌, ◌/◌, Bool, true, false, not, ◌&&◌, ◌||◌, ℤ, pos, negsuc, neg, pos_part,
  magnitude, ◌+ℤ◌, ◌-ℤ◌, ◌*ℤ◌, sub_ℕ, leb_ℤ, ltb_ℤ, min_ℤ, max_ℤ, ltb, leb, ◌==◌, int_eq, nat_eq,
  if◌then◌else◌, Result, ok, err, value_error,
}
use arbi_nautilus.Models.{SourceDirection, long, short, ounce}
use arbi_nautilus.Models.Rounding.{round_hedge_ounces, of_ounces}

-- `Decimal("0.5")`, in units.
abbrev pub half : ℤ
half = pos 50000000

-- `(value / increment).to_integral_value(ROUND_FLOOR) * increment`, for a positive increment.
unfoldable pub floor_to : ℤ → ℕ → ℤ
floor_to (pos n) m = pos (n / m * m)
floor_to (negsuc n) m = sub_ℕ 0 (suc (n / m) * m)

-- The same with ROUND_CEILING.
unfoldable pub ceil_to : ℤ → ℕ → ℤ
ceil_to (pos n) m = pos ((n + (m - 1)) / m * m)
ceil_to (negsuc n) m = sub_ℕ 0 (suc n / m * m)

pub record CarryBounds : Type 0 where
  pub exposure : ℤ
  pub buy : ℤ
  pub sell : ℤ

abbrev carry_exposure : ℤ → ℤ → ℤ → ℤ
carry_exposure residual buy_leaves sell_leaves =
    if not (buy_leaves == pos 0) && not (sell_leaves == pos 0)
    then half +ℤ max_ℤ buy_leaves sell_leaves
    else max_ℤ (pos (magnitude residual)) (pos (magnitude (residual +ℤ buy_leaves -ℤ sell_leaves)))

-- The whole ounces that one side can make the hedge cover in all.
abbrev side_bound : ℤ → ℤ → ℤ
side_bound residual leaves =
    if leaves == pos 0 then pos 0 else max_ℤ (pos 0) (floor_to (residual +ℤ leaves +ℤ half) ounce)

unfoldable pub maker_carry_bounds : ℤ → ℤ → ℤ → Result CarryBounds
unfolding floor_to
maker_carry_bounds residual buy_leaves sell_leaves =
    if ltb 50000000 (magnitude residual) || ltb_ℤ (min_ℤ buy_leaves sell_leaves) (pos 0)
    then err value_error
    else ok (record {
      exposure = carry_exposure residual buy_leaves sell_leaves;
      buy = side_bound (neg residual) sell_leaves;
      sell = side_bound residual buy_leaves;
    })

-- The largest single intent that an order can make.
unfoldable pub maker_hedge_quantity_bound : ℤ → ℤ → SourceDirection → Bool → ℤ
maker_hedge_quantity_bound residual source_quantity direction opposite_working =
    let signed : ℤ = elim direction [ long ↦ residual | short ↦ neg residual ] in
    let initial : ℤ = if opposite_working then half else signed in
    of_ounces (max_ℤ (pos 0) (round_hedge_ounces (initial +ℤ source_quantity)))

-- `_account_allows`
unfoldable pub account_allows : ℤ → ℤ → ℤ → ℤ → ℤ → Bool → Bool
account_allows before signed_change capacity maximum minimum only_long =
    let after = before +ℤ signed_change in
    if ltb_ℤ capacity (pos (magnitude signed_change))
    then false
    else if ltb_ℤ maximum (pos (magnitude after)) && ltb (magnitude before) (magnitude after)
    then false
    else if not only_long
    then true
    else if ltb_ℤ (before *ℤ after) (pos 0)
    then false
    else not (ltb_ℤ (pos (magnitude after)) minimum && ltb (magnitude after) (magnitude before))

-- The test on one end of the range, under `only_long`.
abbrev pub keeps_side : ℤ → ℤ → ℤ → Bool
keeps_side net minimum after =
    leb_ℤ (pos 0) (net *ℤ after)
    && not (ltb_ℤ (pos (magnitude after)) minimum && ltb (magnitude after) (magnitude net))

-- `_within_bounds` of shared_admission.py
unfoldable pub within_bounds : ℤ → ℤ → ℤ → ℤ → ℤ → Bool → Bool
within_bounds net buy sell maximum minimum only_long =
    let upper = net +ℤ buy in
    let lower = net -ℤ sell in
    if ltb_ℤ (max_ℤ net maximum) upper || ltb_ℤ lower (min_ℤ net (neg maximum))
    then false
    else if not only_long
    then true
    else keeps_side net minimum upper && keeps_side net minimum lower

abbrev positive_price : ℤ → Result ℤ
positive_price price = if leb_ℤ price (pos 0) then err value_error else ok price

-- `passive_maker_price`, over the book's bid and ask.
unfoldable pub passive_maker_price : SourceDirection → ℤ → ℤ → ℤ → ℤ → ℤ → Result ℤ
unfolding floor_to ceil_to
passive_maker_price direction calculated bid ask increment ticks =
    let m = pos_part increment in
    let offset = increment *ℤ ticks in
    if leb_ℤ increment (pos 0) || leb_ℤ ticks (pos 0) then err value_error else elim direction [
      | long ↦
          let price = floor_to calculated m in
          positive_price (if leb_ℤ ask price then floor_to (ask -ℤ offset) m else price)
      | short ↦
          let price = ceil_to calculated m in
          positive_price (if leb_ℤ price bid then ceil_to (bid +ℤ offset) m else price)
    ]
