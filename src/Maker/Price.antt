-- ===== src/Maker/Price.antt =====
-- A passive price never crosses the book and is never worse than the calculated price.
use arbi_nautilus.Base.{
  ℕ, suc, ◌+◌, ◌-◌, ◌*◌, ◌/◌, ◌%◌, ◌≤◌, ◌<◌, ◌≡◌, inl, inr, true, false, ◌||◌, ℤ, pos, negsuc,
  pos_part, ◌+ℤ◌, ◌-ℤ◌, ◌*ℤ◌, ◌≤ℤ◌, ◌<ℤ◌, sym, int_laws, zero, arith, leb_ℤ, Bool-cases, ok,
}
use arbi_nautilus.Models.{long, short}
use arbi_nautilus.Maker.{positive_price, floor_to, ceil_to, passive_maker_price}

div_bounds : (n m : ℕ) → 0 < m → (n / m * m ≤ n) × (n < n / m * m + m)
div_bounds n m h = grind arith

pub floor_to-le : (v : ℤ) (m : ℕ) → 0 < m → floor_to v m ≤ℤ v
unfolding floor_to
floor_to-le (pos n) m h = omega (arith, (div_bounds n m h).0)
floor_to-le (negsuc n) m h = ground (arith, (div_bounds n m h).1)

pub le-ceil_to : (v : ℤ) (m : ℕ) → 0 < m → v ≤ℤ ceil_to v m
unfolding ceil_to
le-ceil_to (pos n) m h = ground (arith, (div_bounds (n + (m - 1)) m h).1)
le-ceil_to (negsuc n) m h = ground (arith, (div_bounds (suc n) m h).0)

offset_positive : (a b : ℤ) → pos 0 <ℤ a → pos 0 <ℤ b → pos 0 <ℤ a *ℤ b
unfolding ◌*ℤ◌
offset_positive (pos (suc a)) (pos (suc b)) h k = grind arith
offset_positive (pos zero) b h k = absurd (omega arith)
offset_positive (negsuc a) b h k = absurd (omega arith)
offset_positive (pos (suc a)) (pos zero) h k = absurd (omega arith)
offset_positive (pos (suc a)) (negsuc b) h k = absurd (omega arith)

multiple_mod : (q m : ℕ) → 0 < m → q * m % m ≡ 0
multiple_mod q m h = grind arith

floor_to-multiple : (v : ℤ) (m : ℕ) → 0 < m → pos_part (floor_to v m) % m ≡ 0
unfolding floor_to
floor_to-multiple (pos n) m h = multiple_mod (n / m) m h
floor_to-multiple (negsuc n) m h = ground (arith, multiple_mod 0 m h)

ceil_to-multiple : (v : ℤ) (m : ℕ) → 0 < m → pos_part (ceil_to v m) % m ≡ 0
unfolding ceil_to
ceil_to-multiple (pos n) m h = multiple_mod ((n + (m - 1)) / m) m h
ceil_to-multiple (negsuc n) m h = ground (arith, multiple_mod 0 m h)

price_of : (x price : ℤ) → positive_price x ≡ ok price → (x ≡ price) × (pos 0 <ℤ price)
price_of x price h = ground arith

positive_terms :
    (increment ticks : ℤ)
    → (leb_ℤ increment (pos 0) || leb_ℤ ticks (pos 0)) ≡ false
    → (0 < pos_part increment) × (pos 0 <ℤ increment *ℤ ticks)
positive_terms increment ticks h = ground (arith, offset_positive increment ticks)

-- The two candidates for a bid.
bid_kept :
    (calculated ask price : ℤ) (m : ℕ)
    → 0 < m
    → leb_ℤ ask (floor_to calculated m) ≡ false
    → positive_price (floor_to calculated m) ≡ ok price
    → (pos 0 <ℤ price) × (price <ℤ ask) × (price ≤ℤ calculated) × (pos_part price % m ≡ 0)
bid_kept calculated ask price m h below found =
    let (same, positive) = price_of (floor_to calculated m) price found in
    rw (← same) (
      rw (sym same) at positive,
      ground arith,
      floor_to-le calculated m h,
      floor_to-multiple calculated m h,
    )

bid_clamped :
    (calculated ask offset price : ℤ) (m : ℕ)
    → 0 < m
    → pos 0 <ℤ offset
    → leb_ℤ ask (floor_to calculated m) ≡ true
    → positive_price (floor_to (ask -ℤ offset) m) ≡ ok price
    → (pos 0 <ℤ price) × (price <ℤ ask) × (price ≤ℤ calculated) × (pos_part price % m ≡ 0)
bid_clamped calculated ask offset price m h away above found =
    let (same, positive) = price_of (floor_to (ask -ℤ offset) m) price found in
    let low = floor_to-le (ask -ℤ offset) m h in
    let high = floor_to-le calculated m h in
    let reaches : ask ≤ℤ floor_to calculated m = ground arith in
    rw (← same) (
      rw (sym same) at positive,
      omega int_laws,
      omega int_laws,
      floor_to-multiple (ask -ℤ offset) m h,
    )

-- The two candidates for an ask.
ask_kept :
    (calculated bid price : ℤ) (m : ℕ)
    → 0 < m
    → leb_ℤ (ceil_to calculated m) bid ≡ false
    → positive_price (ceil_to calculated m) ≡ ok price
    → (pos 0 <ℤ price) × (bid <ℤ price) × (calculated ≤ℤ price) × (pos_part price % m ≡ 0)
ask_kept calculated bid price m h below found =
    let (same, positive) = price_of (ceil_to calculated m) price found in
    rw (← same) (
      rw (sym same) at positive,
      ground arith,
      le-ceil_to calculated m h,
      ceil_to-multiple calculated m h,
    )

ask_clamped :
    (calculated bid offset price : ℤ) (m : ℕ)
    → 0 < m
    → pos 0 <ℤ offset
    → leb_ℤ (ceil_to calculated m) bid ≡ true
    → positive_price (ceil_to (bid +ℤ offset) m) ≡ ok price
    → (pos 0 <ℤ price) × (bid <ℤ price) × (calculated ≤ℤ price) × (pos_part price % m ≡ 0)
ask_clamped calculated bid offset price m h away below_bid found =
    let (same, positive) = price_of (ceil_to (bid +ℤ offset) m) price found in
    let low = le-ceil_to (bid +ℤ offset) m h in
    let high = le-ceil_to calculated m h in
    let reaches : ceil_to calculated m ≤ℤ bid = ground arith in
    rw (← same) (
      rw (sym same) at positive,
      omega int_laws,
      omega int_laws,
      ceil_to-multiple (bid +ℤ offset) m h,
    )

-- A passive bid is positive, a whole number of increments, below the ask, and at most the
-- calculated price.
pub passive_bid :
    (calculated bid ask increment ticks price : ℤ)
    → passive_maker_price long calculated bid ask increment ticks ≡ ok price
    → (pos 0 <ℤ price)
      × (price <ℤ ask)
      × (price ≤ℤ calculated)
      × (pos_part price % pos_part increment ≡ 0)
unfolding passive_maker_price
passive_bid calculated bid ask increment ticks price h =
    elim (Bool-cases (leb_ℤ increment (pos 0) || leb_ℤ ticks (pos 0))) [
      | inl bad ↦ absurd (cc (rw (bad, passive_maker_price) at h))
      | inr good ↦
          let (whole, away) = positive_terms increment ticks good in
          elim (Bool-cases (leb_ℤ ask (floor_to calculated (pos_part increment)))) [
            | inl above ↦
                bid_clamped calculated ask (increment *ℤ ticks) price (pos_part increment) whole
                  away above (rw (good, above) at h)
            | inr below ↦
                bid_kept calculated ask price (pos_part increment) whole below
                  (rw (good, below) at h)
          ]
    ]

-- A passive ask is positive, a whole number of increments, above the bid, and at least the
-- calculated price.
pub passive_ask :
    (calculated bid ask increment ticks price : ℤ)
    → passive_maker_price short calculated bid ask increment ticks ≡ ok price
    → (pos 0 <ℤ price)
      × (bid <ℤ price)
      × (calculated ≤ℤ price)
      × (pos_part price % pos_part increment ≡ 0)
unfolding passive_maker_price
passive_ask calculated bid ask increment ticks price h =
    elim (Bool-cases (leb_ℤ increment (pos 0) || leb_ℤ ticks (pos 0))) [
      | inl bad ↦ absurd (cc (rw (bad, passive_maker_price) at h))
      | inr good ↦
          let (whole, away) = positive_terms increment ticks good in
          elim (Bool-cases (leb_ℤ (ceil_to calculated (pos_part increment)) bid)) [
            | inl above ↦
                ask_clamped calculated bid (increment *ℤ ticks) price (pos_part increment) whole
                  away above (rw (good, above) at h)
            | inr below ↦
                ask_kept calculated bid price (pos_part increment) whole below
                  (rw (good, below) at h)
          ]
    ]
