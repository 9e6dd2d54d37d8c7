-- ===== src/Taker/Swap.antt =====
-- `normalize_mt5_points_swap` of src/py000_nautilus/economics.py: the daily swap of the two sides as
-- returns. The calendar is an argument: the weekday (Monday is 0) of a time in nanoseconds in a named
-- zone, or none where the zone or the time is not supported; so is `strip`.
use arbi_nautilus.Base.{
  ℕ, zero, suc, ◌+◌, ◌%◌, ◌<◌, ◌≡◌, refl, inl, inr, Bool, true, not, ◌&&◌, ◌||◌, ℤ, pos, leb_ℤ,
  String, ◌==◌, int_eq, nat_eq, string_eq, Option, none, some, List, [], ◌∷◌, length, get_elem?,
  arith, Result, ok, err, value_error, if◌then◌else◌, Bool-cases, eqb_iff,
}
use arbi_nautilus.Models.Checks.{is_empty}
use arbi_nautilus.Taker.{Decimals, is_positive}

pub record Calendar : Type 0 where
  pub strip : String → String
  pub weekday : ℤ → String → Option ℕ

-- The keyword arguments.
pub record SwapInputs (D : Type 0) : Type 0 where
  pub swap_long : D
  pub swap_short : D
  pub point : D
  pub ask : D
  pub native_swap_mode : ℤ
  pub swap_rates : List D
  pub now_ns : ℤ
  pub server_timezone : String

module _ (d : Decimals) (calendar : Calendar) where
  open d use {Decimal, zero_decimal, times, over}

  -- The tests of the arguments before the zone is looked up.
  abbrev pub inputs_are_valid : SwapInputs Decimal → Bool
  inputs_are_valid i =
      is_positive d i.point
      && (is_positive d i.ask
          && ((i.native_swap_mode == pos 0 || (i.native_swap_mode == pos 1))
              && (length i.swap_rates == 7
                  && (leb_ℤ (pos 0) i.now_ns
                      && (not (is_empty i.server_timezone)
                          && (i.server_timezone == calendar.strip i.server_timezone))))))

  -- The multiplier of the day, Sunday first; `swap_rates[mql_weekday]` is `none` where it raises.
  unfoldable pub day_rate : List Decimal → ℕ → Option Decimal
  day_rate rates weekday = get_elem? rates ((weekday + 1) % 7)

  abbrev pub rated : SwapInputs Decimal → Decimal → Decimal × Decimal
  rated i multiplier = (
    times (over (times i.swap_long i.point) i.ask) multiplier,
    times (over (times i.swap_short i.point) i.ask) multiplier,
  )

  unfoldable pub normalize_mt5_points_swap : SwapInputs Decimal → Result (Decimal × Decimal)
  unfolding day_rate
  normalize_mt5_points_swap i =
      if not (inputs_are_valid i)
      then err value_error
      else elim (calendar.weekday i.now_ns i.server_timezone) [
        | none ↦ err value_error
        | some weekday ↦
            if i.native_swap_mode == pos 0
            then ok (zero_decimal, zero_decimal)
            else elim (day_rate i.swap_rates weekday) [
              | none ↦ err value_error
              | some multiplier ↦ ok (rated i multiplier)
            ]
      ]

in_range :
    {A : Type 0} (rates : List A) (n : ℕ)
    → n < length rates
    → (r : A) × (get_elem? rates n ≡ some r)
in_range [] n h = absurd (omega arith)
in_range (x ∷ xs) zero h = (x, refl)
in_range (x ∷ xs) (suc n) h = in_range xs n (omega (arith, h))

seven_rates :
    (d : Decimals) (calendar : Calendar) (i : SwapInputs (d.Decimal))
    → inputs_are_valid d calendar i ≡ true
    → length i.swap_rates ≡ 7
seven_rates d calendar i h = ground (arith, eqb_iff (length i.swap_rates) 7)

-- With valid arguments and a zone and time that the calendar supports, the call returns: zero for
-- both sides in the DISABLED mode, else both sides scaled by the one rate of the seven that
-- stands at the server's weekday counted from Sunday; the index is never out of range.
pub normalize_mt5_points_swap-returns :
    (d : Decimals) (calendar : Calendar) (i : SwapInputs (d.Decimal)) (weekday : ℕ)
    → inputs_are_valid d calendar i ≡ true
    → calendar.weekday i.now_ns i.server_timezone ≡ some weekday
    → (rate : d.Decimal) × (get_elem? i.swap_rates ((weekday + 1) % 7) ≡ some rate)
      × (normalize_mt5_points_swap d calendar i
          ≡ ok (
              if i.native_swap_mode == pos 0
              then (d.zero_decimal, d.zero_decimal)
              else rated d calendar i rate))
unfolding normalize_mt5_points_swap day_rate
normalize_mt5_points_swap-returns d calendar i weekday valid day =
    let (rate, found) =
      in_range i.swap_rates ((weekday + 1) % 7) (omega (arith, seven_rates d calendar i valid)) in
    (
      rate,
      found,
      elim (Bool-cases (i.native_swap_mode == pos 0)) [
        | inl disabled ↦ rw (valid, day, disabled) refl
        | inr points ↦ rw (valid, day, points, found) refl
      ],
    )
