-- ===== src/Hedge.antt =====
-- src/py000_nautilus/hedge.py: from the MT5 HEDGING tickets and a signed delta to the legs of a
-- hedge plan, and the check of a leg just before it is sent.
pub mod Order
pub mod Queue
pub mod Total
pub mod Closing
use arbi_nautilus.Base.{
  Bool, true, false, not, ◌||◌, ℤ, pos, leb_ℤ, ltb_ℤ, min_ℤ, String, Option, none, some, List, [],
  ◌∷◌, ◌++◌, ◌-ℤ◌, ◌==◌, int_eq, string_eq, option_eq, if◌then◌else◌, Result, ok, err,
  planning_error, value_error, member, add, keep,
}
use arbi_nautilus.Models.{BusinessOrderSide, buy, sell, HedgeLeg, side_eq, is_close}
use arbi_nautilus.Models.Checks.{check_leg, is_empty}
use arbi_nautilus.Hedge.Order.{sort_by_id}

-- What the planner reads of a Nautilus `Position`.
pub record Position : Type 0 where
  pub id : String
  pub is_long : Bool
  pub is_short : Bool
  pub quantity : ℤ

pub record Ticket : Type 0 where
  pub id : String
  pub quantity : ℤ
  pub side : BusinessOrderSide

-- `_position_side`
unfoldable pub position_side : Position → Result BusinessOrderSide
position_side p =
    if p.is_long
    then (if p.is_short then err planning_error else ok buy)
    else if p.is_short
    then ok sell
    else err planning_error

-- The loop that snapshots the tickets; `seen_ids` holds the ids met so far.
unfoldable pub snapshot_tickets : List String → List Position → Result (List Ticket)
unfolding position_side
snapshot_tickets seen_ids [] = ok []
snapshot_tickets seen_ids (p ∷ positions) =
    let rest = snapshot_tickets (add p.id seen_ids) positions in
    if is_empty p.id || member p.id seen_ids then err planning_error else elim (position_side p) [
      | err e ↦ err e
      | ok side ↦ if leb_ℤ p.quantity (pos 0) then err planning_error else elim rest [
        | err e ↦ err e
        | ok tickets ↦ ok (record { id = p.id; quantity = p.quantity; side = side } ∷ tickets)
      ]
    ]

-- The leg that closes `quantity` of a ticket.
abbrev pub close_leg : BusinessOrderSide → ℤ → Ticket → HedgeLeg
close_leg side quantity t = record {
  side = side;
  quantity_ounces = quantity;
  position_id = some t.id;
  expected_position_side = some t.side;
  expected_position_quantity_ounces = some t.quantity;
}

abbrev pub open_leg : BusinessOrderSide → ℤ → HedgeLeg
open_leg side quantity = record {
  side = side;
  quantity_ounces = quantity;
  position_id = none;
  expected_position_side = none;
  expected_position_quantity_ounces = none;
}

-- `if remaining > 0: legs.append(...)`, after the loop.
abbrev open_residual : BusinessOrderSide → ℤ → Result (List HedgeLeg)
open_residual side remaining =
    if ltb_ℤ (pos 0) remaining
    then elim (check_leg (open_leg side remaining)) [ err e ↦ err e | ok leg ↦ ok (leg ∷ []) ]
    else ok []

abbrev prepend : Result HedgeLeg → Result (List HedgeLeg) → Result (List HedgeLeg)
prepend (err e) rest = err e
prepend (ok leg) (err e) = err e
prepend (ok leg) (ok legs) = ok (leg ∷ legs)

-- The loop over the sorted tickets with what follows it; it ends when nothing remains.
unfoldable pub plan_legs : BusinessOrderSide → ℤ → List Ticket → Result (List HedgeLeg)
plan_legs side remaining [] = open_residual side remaining
plan_legs side remaining (t ∷ tickets) = elim (t.side == side) [
  | true ↦ plan_legs side remaining tickets
  | false ↦
      let close_quantity = min_ℤ remaining t.quantity in
      let rest = plan_legs side (remaining -ℤ close_quantity) tickets in
      prepend (check_leg (close_leg side close_quantity t))
        (if remaining -ℤ close_quantity == pos 0 then ok [] else rest)
]

unfoldable pub plan_hedge_delta : List Position → BusinessOrderSide → ℤ → Result (List HedgeLeg)
unfolding snapshot_tickets plan_legs sort_by_id
plan_hedge_delta positions side quantity =
    if leb_ℤ quantity (pos 0) then err value_error else elim (snapshot_tickets [] positions) [
      | err e ↦ err e
      | ok tickets ↦ plan_legs side quantity (sort_by_id (λ t. t.id) tickets)
    ]

-- The list of tickets whose side is not `side`; a ticket with no clear direction raises.
unfoldable pub opposing : BusinessOrderSide → List Position → Result (List Position)
unfolding position_side
opposing side [] = ok []
opposing side (p ∷ positions) =
    let rest = opposing side positions in
    elim (position_side p) [
      | err e ↦ err e
      | ok s ↦ elim rest [ err e ↦ err e | ok ps ↦ ok (if s == side then ps else p ∷ ps) ]
    ]

-- The close target is there once, with the planned direction and quantity.
abbrev validate_target : HedgeLeg → List Position → Result (Unit {0})
validate_target leg (target ∷ []) = elim (position_side target) [
  | err e ↦ err e
  | ok side ↦
      if not (some side == leg.expected_position_side)
      then err planning_error
      else if some target.quantity == leg.expected_position_quantity_ounces
      then ok tt
      else err planning_error
]
validate_target leg [] = err planning_error
validate_target leg (a ∷ b ∷ more) = err planning_error

unfoldable pub validate_hedge_leg : HedgeLeg → List Position → Result (Unit {0})
unfolding opposing
validate_hedge_leg leg positions =
    if is_close leg
    then validate_target leg (keep (λ p. some p.id == leg.position_id) positions)
    else elim (opposing leg.side positions) [
      | err e ↦ err e
      | ok [] ↦ ok tt
      | ok (p ∷ ps) ↦ err planning_error
    ]
