-- ===== src/Margin/Room.antt =====
-- `_intersect_capacity` of src/py000_nautilus/margin.py: the room that it leaves stays within the margin
-- and the limits of the route.
use arbi_nautilus.Base.{
  ◌≡◌, sym, subst, ℤ, pos, neg, ◌+ℤ◌, ◌-ℤ◌, ◌≤ℤ◌, min_ℤ, max_ℤ, min_ℤ_le, max_ℤ_le, int_laws,
  string_eq, option_eq, ok, arith,
}
use arbi_nautilus.Maker.Limits.{max_ℤ_cases}
use arbi_nautilus.Margin.{Capacity, intersect_capacity}

-- The room of both, at a position.
abbrev pub HasRoom : ℤ → ℤ → ℤ → ℤ → ℤ → ℤ → Type 0
HasRoom position buying selling route_buy route_sell max_abs =
    ((pos 0 ≤ℤ buying) × ((buying ≤ℤ route_buy) × (position +ℤ buying ≤ℤ max_ℤ position max_abs)))
    × ((pos 0 ≤ℤ selling)
        × ((selling ≤ℤ route_sell) × (min_ℤ position (neg max_abs) ≤ℤ position -ℤ selling)))

max_sum : (q m x : ℤ) → x ≤ℤ max_ℤ (m -ℤ q) (pos 0) → q +ℤ x ≤ℤ max_ℤ q m
max_sum q m x h = omega (int_laws, h, max_ℤ_cases (m -ℤ q) (pos 0), max_ℤ_le q m)

min_sum : (q m x : ℤ) → x ≤ℤ max_ℤ (m +ℤ q) (pos 0) → min_ℤ q (neg m) ≤ℤ q -ℤ x
min_sum q m x h = omega (int_laws, h, max_ℤ_cases (m +ℤ q) (pos 0), min_ℤ_le q (neg m))

-- The least of three amounts that are not negative.
least :
    (d b k : ℤ)
    → pos 0 ≤ℤ d
    → pos 0 ≤ℤ b
    → pos 0 ≤ℤ k
    → let x = min_ℤ (min_ℤ d b) k in (pos 0 ≤ℤ x) × ((x ≤ℤ b) × ((x ≤ℤ k) × (x ≤ℤ d)))
least d b k h g e = ground arith

-- The room is within what the margin allows.
abbrev pub IsWithin : Capacity → ℤ → ℤ → Type 0
IsWithin dynamic buying selling = (buying ≤ℤ dynamic.0) × (selling ≤ℤ dynamic.1)

module _ (dynamic room : Capacity) (q B S M : ℤ) where
  -- What an intersection is, where it returns.
  intersected :
      intersect_capacity dynamic q B S M ≡ ok room
      → ((pos 0 ≤ℤ dynamic.0) × ((pos 0 ≤ℤ dynamic.1) × ((pos 0 ≤ℤ B) × (pos 0 ≤ℤ S))))
        × ((room.0 ≡ min_ℤ (min_ℤ dynamic.0 B) (max_ℤ (M -ℤ q) (pos 0)))
            × (room.1 ≡ min_ℤ (min_ℤ dynamic.1 S) (max_ℤ (M +ℤ q) (pos 0))))
  unfolding intersect_capacity
  intersected h = ground arith

  pub intersect_capacity-HasRoom :
      intersect_capacity dynamic q B S M ≡ ok room
      → HasRoom q room.0 room.1 B S M × IsWithin dynamic room.0 room.1
  intersect_capacity-HasRoom h =
      let ((d0, (d1, (b0, s0))), (buying, selling)) = intersected h in
      let buys = least dynamic.0 B (max_ℤ (M -ℤ q) (pos 0)) d0 b0 (max_ℤ_le (M -ℤ q) (pos 0)).1 in
      let sells = least dynamic.1 S (max_ℤ (M +ℤ q) (pos 0)) d1 s0 (max_ℤ_le (M +ℤ q) (pos 0)).1 in
      subst (λ x. HasRoom q x room.1 B S M × IsWithin dynamic x room.1) (sym buying)
        (subst
          (λ x.
            HasRoom q (min_ℤ (min_ℤ dynamic.0 B) (max_ℤ (M -ℤ q) (pos 0))) x B S M
            × IsWithin dynamic (min_ℤ (min_ℤ dynamic.0 B) (max_ℤ (M -ℤ q) (pos 0))) x)
          (sym selling)
          (
            (
              (buys.0, (buys.1.0, max_sum q M _ buys.1.1.0)),
              (sells.0, (sells.1.0, min_sum q M _ sells.1.1.0)),
            ),
            (buys.1.1.1, sells.1.1.1),
          ))
