-- ===== src/Hedge/Closing.antt =====
-- `plan_hedge_delta` closes opposing tickets first: what it closes, and that well-formed positions
-- always have a plan.
use arbi_nautilus.Base.{
  ◌≡◌, refl, inl, inr, true, false, not, ℤ, pos, ◌<ℤ◌, String, List, [], ◌∷◌, arith, +ℤ_left_comm,
  All, all, map, ok, Bool-cases, if◌then◌else◌, int_eq, member, add, member-add, string_eq,
}
use mathlib.Core.List.{Perm}
use text.Mathlib.TextEquality.{eq_iff}
use arbi_nautilus.Models.{BusinessOrderSide, buy, sell, HedgeLeg, side_eq}
use arbi_nautilus.Models.Checks.{is_empty, distinct}
use arbi_nautilus.Hedge.Order.{sort_by_id, insert_by_id, before}
use arbi_nautilus.Hedge.{Position, Ticket, snapshot_tickets, plan_hedge_delta}
use arbi_nautilus.Hedge.Queue.{InQueue, sort-perm, sort-InQueue}
use arbi_nautilus.Hedge.Total.{IsTicket, IsPlan, Closes, plan_legs-IsPlan, opposing_ounces}

-- An open MT5 ticket: named, of one direction, and of a positive quantity.
pub record IsOpen (p : Position) : Type 0 where
  pub named : is_empty p.id ≡ false
  pub one_way : not p.is_long ≡ p.is_short
  pub positive : pos 0 <ℤ p.quantity

abbrev pub ticket_of : Position → Ticket
ticket_of p = record { id = p.id; quantity = p.quantity; side = if p.is_long then buy else sell }

abbrev pub ids : List Position → List String
ids = map (λ p. p.id)

insert-opposing_ounces :
    (side : BusinessOrderSide) (t : Ticket) (tickets : List Ticket)
    → opposing_ounces side (insert_by_id (λ t'. t'.id) t tickets)
      ≡ opposing_ounces side (t ∷ tickets)
unfolding opposing_ounces insert_by_id
insert-opposing_ounces side t [] = refl
insert-opposing_ounces side t (u ∷ tickets) =
    elim (Bool-cases (before (λ (t' : Ticket). t'.id) t u)) [
      | inl first ↦ rw (first, insert_by_id) refl
      | inr later ↦
          rw (later, insert_by_id, insert-opposing_ounces side t tickets) (+ℤ_left_comm _ _ _)
    ]

sort-opposing_ounces :
    (side : BusinessOrderSide) (tickets : List Ticket)
    → opposing_ounces side (sort_by_id (λ t. t.id) tickets) ≡ opposing_ounces side tickets
unfolding opposing_ounces sort_by_id
sort-opposing_ounces side [] = refl
sort-opposing_ounces side (t ∷ tickets) =
    rw
      (
        insert-opposing_ounces side t (sort_by_id (λ t'. t'.id) tickets),
        opposing_ounces,
        sort-opposing_ounces side tickets,
      )
      refl

insert-All :
    (P : Ticket → Type 0) (t : Ticket) (tickets : List Ticket)
    → P t
    → All P tickets
    → All P (insert_by_id (λ t'. t'.id) t tickets)
unfolding insert_by_id
insert-All P t [] p h = (p, tt)
insert-All P t (u ∷ tickets) p h = elim (Bool-cases (before (λ (t' : Ticket). t'.id) t u)) [
  | inl first ↦ rw (first, insert_by_id) (p, h)
  | inr later ↦ rw (later, insert_by_id) (h.0, insert-All P t tickets p h.1)
]

sort-All :
    (P : Ticket → Type 0) (tickets : List Ticket)
    → All P tickets
    → All P (sort_by_id (λ t'. t'.id) tickets)
unfolding sort_by_id
sort-All P [] h = tt
sort-All P (t ∷ tickets) h =
    insert-All P t (sort_by_id (λ t'. t'.id) tickets) h.0 (sort-All P tickets h.1)

-- None of the ids is among those seen.
abbrev Fresh : List String → List String → Type 0
Fresh seen names = all (λ i. not (member i seen)) names ≡ true

Fresh-add :
    (a : String) (seen names : List String)
    → Fresh seen names
    → member a names ≡ false
    → Fresh (add a seen) names
Fresh-add a seen [] h m = refl
Fresh-add a seen (b ∷ names) h m =
    ground (arith, member-add b a seen, eq_iff a b, eq_iff b a, Fresh-add a seen names)

Fresh-nil : (names : List String) → Fresh [] names
Fresh-nil [] = refl
Fresh-nil (a ∷ names) = Fresh-nil names

snapshot_of_open :
    (seen : List String) (positions : List Position)
    → All IsOpen positions
    → distinct (ids positions) ≡ true
    → Fresh seen (ids positions)
    → snapshot_tickets seen positions ≡ ok (map ticket_of positions)
unfolding snapshot_tickets
snapshot_of_open seen [] w d f = refl
snapshot_of_open seen (p ∷ positions) w d f = ground (
  arith,
  w.0.named,
  w.0.one_way,
  w.0.positive,
  snapshot_of_open (add p.id seen) positions w.1,
  Fresh-add p.id seen (ids positions),
)

tickets-IsTicket :
    (positions : List Position) → All IsOpen positions → All IsTicket (map ticket_of positions)
tickets-IsTicket [] w = tt
tickets-IsTicket (p ∷ positions) w =
    (record { named = w.0.named; positive = w.0.positive }, tickets-IsTicket positions w.1)

-- The tickets of the positions, by their sort key.
abbrev pub queue_of : List Position → List Ticket
queue_of positions = sort_by_id (λ t. t.id) (map ticket_of positions)

-- For a positive delta and open tickets with distinct ids, in any order, the planner returns a plan.
-- Every leg passes the constructor's checks and runs the delta's way, the legs add up to the delta,
-- and what they close is the delta or all that the opposing tickets hold, whichever is less. The legs
-- go through a queue of exactly these tickets, by their sort key: each opposing ticket is closed by a
-- leg that names it with its side and quantity, whole unless the leg is the last, and a leg that opens
-- a ticket stands last, past all opposing tickets.
pub plan_hedge_delta-IsPlan :
    (positions : List Position) (side : BusinessOrderSide) (quantity : ℤ)
    → pos 0 <ℤ quantity
    → All IsOpen positions
    → distinct (ids positions) ≡ true
    → (legs : List HedgeLeg) × (plan_hedge_delta positions side quantity ≡ ok legs)
      × IsPlan side quantity (map ticket_of positions) legs
      × ((queue : List Ticket) × Perm queue (map ticket_of positions)
          × InQueue queue
          × Closes side queue legs)
unfolding plan_hedge_delta
plan_hedge_delta-IsPlan positions side quantity h w d =
    let tickets = map ticket_of positions in
    let (legs, planned, p, order) =
      plan_legs-IsPlan side quantity (queue_of positions) h
        (sort-All IsTicket tickets (tickets-IsTicket positions w)) in
    (
      legs,
      ground (arith, snapshot_of_open [] positions w d (Fresh-nil (ids positions)), planned),
      record {
        total = p.total;
        sides = p.sides;
        checked = p.checked;
        closed = rw (← sort-opposing_ounces side tickets) p.closed;
      },
      (queue_of positions, sort-perm tickets, sort-InQueue tickets, order),
    )
