-- ===== src/Hedge/Total.antt =====
-- `plan_hedge_delta`: the plan exists for well-formed tickets, and its legs add up.
use arbi_nautilus.Base.{
  ◌≡◌, ◌≢◌, ◌⊎◌, refl, inl, inr, true, false, none, some, ℤ, pos, ◌≤ℤ◌, ◌<ℤ◌, min_ℤ, List, [], ◌∷◌,
  ◌+ℤ◌, ◌-ℤ◌, ◌==◌, int_laws, zero-+ℤ, +ℤ_parts, arith, sym, -ℤ_parts, All, ok, Bool-cases,
  if◌then◌else◌, int_eq, eqb_ℤ_iff,
}
use arbi_nautilus.Models.{BusinessOrderSide, HedgeLeg, is_close, sum_legs, side_eq}
use arbi_nautilus.Models.Checks.{check_leg, is_empty}
use arbi_nautilus.Hedge.{Ticket, close_leg, open_leg, plan_legs}

pub sum_legs_start :
    (start : ℤ) (legs : List HedgeLeg) → sum_legs start legs ≡ start +ℤ sum_legs (pos 0) legs
sum_legs_start start [] = omega int_laws
sum_legs_start start (leg ∷ legs) =
    rw (sum_legs_start (start +ℤ leg.quantity_ounces) legs)
      (rw (sum_legs_start (pos 0 +ℤ leg.quantity_ounces) legs) (omega int_laws))

-- A ticket as the snapshot loop leaves it.
pub record IsTicket (t : Ticket) : Type 0 where
  pub named : is_empty t.id ≡ false
  pub positive : pos 0 <ℤ t.quantity

-- What the tickets against `side` hold in all.
unfoldable pub opposing_ounces : BusinessOrderSide → List Ticket → ℤ
opposing_ounces side [] = pos 0
opposing_ounces side (t ∷ tickets) =
    (if t.side == side then pos 0 else t.quantity) +ℤ opposing_ounces side tickets

-- What the close legs of a plan take away in all.
unfoldable pub closed_ounces : List HedgeLeg → ℤ
closed_ounces [] = pos 0
closed_ounces (leg ∷ legs) =
    (if is_close leg then leg.quantity_ounces else pos 0) +ℤ closed_ounces legs

-- The legs pass the constructor's checks, run one way, add up to the delta, and close as much of
-- it as the opposing tickets hold.
pub record IsPlan (side : BusinessOrderSide) (quantity : ℤ) (tickets : List Ticket)
    (legs : List HedgeLeg) : Type 0 where
  pub total : sum_legs (pos 0) legs ≡ quantity
  pub sides : All (λ leg. leg.side ≡ side) legs
  pub checked : All (λ leg. check_leg leg ≡ ok leg) legs
  pub closed : closed_ounces legs ≡ min_ℤ quantity (opposing_ounces side tickets)

-- The leg closes the ticket, in whole or in part, as it is now.
pub record IsCloseOf (side : BusinessOrderSide) (t : Ticket) (leg : HedgeLeg) : Type 0 where
  pub opposed : t.side ≢ side
  pub ticket : leg.position_id ≡ some t.id
  pub expected_side : leg.expected_position_side ≡ some t.side
  pub expected_quantity : leg.expected_position_quantity_ounces ≡ some t.quantity
  pub within : leg.quantity_ounces ≤ℤ t.quantity

-- The legs go through the tickets in order: each opposing ticket is closed, whole unless its leg is
-- the last, tickets of the delta's side are passed over, and a ticket is opened only past them all.
pub data Closes (side : BusinessOrderSide) : List Ticket → List HedgeLeg → Type 0 where
  done : (tickets : List Ticket) → Closes side tickets []
  opens : (leg : HedgeLeg) → leg.position_id ≡ none → Closes side [] (leg ∷ [])
  passes :
      (t : Ticket) (tickets : List Ticket) (legs : List HedgeLeg)
      → t.side ≡ side
      → Closes side tickets legs
      → Closes side (t ∷ tickets) legs
  closes :
      (t : Ticket) (tickets : List Ticket) (leg : HedgeLeg) (legs : List HedgeLeg)
      → IsCloseOf side t leg
      → (legs ≡ []) ⊎ (leg.quantity_ounces ≡ t.quantity)
      → Closes side tickets legs
      → Closes side (t ∷ tickets) (leg ∷ legs)

close_leg-IsCloseOf :
    (side : BusinessOrderSide) (q : ℤ) (t : Ticket)
    → q ≤ℤ t.quantity
    → (t.side == side) ≡ false
    → IsCloseOf side t (close_leg side q t)
close_leg-IsCloseOf side q t le other = record {
  opposed = λ same. ground (arith, side_eq.beq_iff t.side side);
  ticket = refl;
  expected_side = refl;
  expected_quantity = refl;
  within = le;
}

-- Where something remains, the ticket was closed whole.
whole : (a b : ℤ) → (a -ℤ min_ℤ a b == pos 0) ≡ false → min_ℤ a b ≡ b
whole a b more = ground (arith, -ℤ_parts a a)

open_leg-checked :
    (side : BusinessOrderSide) (q : ℤ)
    → pos 0 <ℤ q
    → check_leg (open_leg side q) ≡ ok (open_leg side q)
unfolding check_leg
open_leg-checked side q h = ground arith

close_leg-checked :
    (side : BusinessOrderSide) (q : ℤ) (t : Ticket)
    → IsTicket t
    → pos 0 <ℤ q
    → q ≤ℤ t.quantity
    → (t.side == side) ≡ false
    → check_leg (close_leg side q t) ≡ ok (close_leg side q t)
unfolding check_leg
close_leg-checked side q t w h le opposed = ground (arith, w.named)

pub min_ℤ_facts :
    (a b : ℤ) → pos 0 <ℤ a → pos 0 <ℤ b → (pos 0 <ℤ min_ℤ a b) × (min_ℤ a b ≤ℤ a) × (min_ℤ a b ≤ℤ b)
min_ℤ_facts a b h k = ground arith

pub left_over : (a b : ℤ) → b ≤ℤ a → (a -ℤ b == pos 0) ≡ false → pos 0 <ℤ a -ℤ b
left_over a b le more = ground (arith, -ℤ_parts a b)

opposing-nonneg :
    (side : BusinessOrderSide) (tickets : List Ticket)
    → All IsTicket tickets
    → pos 0 ≤ℤ opposing_ounces side tickets
unfolding opposing_ounces
opposing-nonneg side [] w = omega arith
opposing-nonneg side (t ∷ tickets) w = ground (
  arith,
  w.0.positive,
  opposing-nonneg side tickets w.1,
  +ℤ_parts (if t.side == side then pos 0 else t.quantity) (opposing_ounces side tickets),
)

-- The whole remainder fits the ticket; or the ticket is used up and the rest goes on.
min_covered :
    (a b c : ℤ)
    → pos 0 ≤ℤ c
    → (a -ℤ min_ℤ a b == pos 0) ≡ true
    → min_ℤ a b +ℤ pos 0 ≡ min_ℤ a (b +ℤ c)
min_covered a b c h e = grind (int_laws)

min_used_up : (a b c : ℤ) → pos 0 ≤ℤ c → min_ℤ a b +ℤ min_ℤ (a -ℤ min_ℤ a b) c ≡ min_ℤ a (b +ℤ c)
min_used_up a b c h = grind (int_laws)

IsPlan-close :
    (side : BusinessOrderSide) (quantity : ℤ) (t : Ticket) (tickets later : List Ticket)
    (legs : List HedgeLeg)
    → let leg = close_leg side (min_ℤ quantity t.quantity) t in
      check_leg leg ≡ ok leg
      → IsPlan side (quantity -ℤ leg.quantity_ounces) later legs
      → leg.quantity_ounces +ℤ closed_ounces legs
        ≡ min_ℤ quantity (opposing_ounces side (t ∷ tickets))
      → IsPlan side quantity (t ∷ tickets) (leg ∷ legs)
unfolding closed_ounces
IsPlan-close side quantity t tickets later legs c p closed = record {
  total = rw (sum_legs_start (pos 0 +ℤ min_ℤ quantity t.quantity) legs, p.total) (omega int_laws);
  sides = (refl, p.sides);
  checked = (c, p.checked);
  closed = closed;
}

-- With something left to hedge and well-formed tickets the loop returns a plan.
pub plan_legs-IsPlan :
    (side : BusinessOrderSide) (remaining : ℤ) (tickets : List Ticket)
    → pos 0 <ℤ remaining
    → All IsTicket tickets
    → (legs : List HedgeLeg) × (plan_legs side remaining tickets ≡ ok legs)
      × IsPlan side remaining tickets legs
      × Closes side tickets legs
unfolding plan_legs closed_ounces opposing_ounces
plan_legs-IsPlan side remaining [] h w =
    let checked = open_leg-checked side remaining h in
    (
      open_leg side remaining ∷ [],
      rw checked (ground arith),
      record {
        total = omega int_laws;
        sides = (refl, tt);
        checked = (checked, tt);
        closed = grind int_laws;
      },
      opens (open_leg side remaining) refl,
    )
plan_legs-IsPlan side remaining (t ∷ tickets) h w = elim (Bool-cases (t.side == side)) [
  | inl same ↦
      let (legs, planned, p, order) = plan_legs-IsPlan side remaining tickets h w.1 in
      (
        legs,
        rw (same, plan_legs) planned,
        record {
          total = p.total;
          sides = p.sides;
          checked = p.checked;
          closed = rw (same, opposing_ounces, zero-+ℤ) p.closed;
        },
        passes t tickets legs ((side_eq.beq_iff t.side side).0 same) order,
      )
  | inr opposed ↦
      let quantity = min_ℤ remaining t.quantity in
      let (positive, below, within) = min_ℤ_facts remaining t.quantity h w.0.positive in
      let checked = close_leg-checked side quantity t w.0 positive within opposed in
      let nonneg = opposing-nonneg side tickets w.1 in
      elim (Bool-cases (remaining -ℤ quantity == pos 0)) [
        | inl exactly ↦
            let exact : remaining -ℤ quantity ≡ pos 0 = (eqb_ℤ_iff _ _).0 exactly in
            (
              close_leg side quantity t ∷ [],
              rw (opposed, plan_legs, checked, exactly),
              IsPlan-close side remaining t tickets [] [] checked
                  (record { total = sym exact; sides = tt; checked = tt; closed = rw exact })
                  (rw (opposed, opposing_ounces)
                    (min_covered remaining t.quantity _ nonneg exactly)),
              closes t tickets (close_leg side quantity t) []
                  (close_leg-IsCloseOf side quantity t within opposed) (inl refl) (done tickets),
            )
        | inr more ↦
            let left = left_over remaining quantity below more in
            let (legs, planned, p, order) =
              plan_legs-IsPlan side (remaining -ℤ quantity) tickets left w.1 in
            (
              close_leg side quantity t ∷ legs,
              rw (opposed, plan_legs, checked, more, planned),
              IsPlan-close side remaining t tickets tickets legs checked p (
                  rw (p.closed, opposed, opposing_ounces)
                    (min_used_up remaining t.quantity _ nonneg)),
              closes t tickets (close_leg side quantity t) legs
                  (close_leg-IsCloseOf side quantity t within opposed)
                  (inr (whole remaining t.quantity more)) order,
            )
      ]
]
