-- ===== src/Hedge/Queue.antt =====
-- The order in which `plan_hedge_delta` of src/py000_nautilus/hedge.py meets the tickets: all of them,
-- by their sort key.
use mathlib.Core.List.{Perm}
use mathlib.Core.List.Perm
use arbi_nautilus.Base.{
  ◌≡◌, refl, inl, inr, true, false, List, [], ◌∷◌, arith, Bool-cases, codes_le-total,
}
use arbi_nautilus.Hedge.Order.{
  SortKey, numeric, textual, key_le, position_id_sort_key, before, insert_by_id, sort_by_id,
}
use arbi_nautilus.Hedge.{Ticket}

key_le-total : (a b : SortKey) → key_le a b ≡ false → key_le b a ≡ true
unfolding key_le
key_le-total (numeric m xs) (numeric n ys) h = ground (arith, codes_le-total xs ys)
key_le-total (numeric m xs) (textual ys) h = absurd (ground arith)
key_le-total (textual xs) (numeric n ys) h = refl
key_le-total (textual xs) (textual ys) h = codes_le-total xs ys h

-- No ticket stands after one with a greater key.
abbrev pub Precedes : Ticket → Ticket → Type 0
Precedes t u = before (λ (x : Ticket). x.id) t u ≡ true

abbrev pub InQueue : List Ticket → Type 0
InQueue [] = Unit
InQueue (t ∷ []) = Unit
InQueue (t ∷ u ∷ tickets) = Precedes t u × InQueue (u ∷ tickets)

abbrev sorted_in : Ticket → List Ticket → List Ticket
sorted_in = insert_by_id (λ t. t.id)

insert-perm : (t : Ticket) (tickets : List Ticket) → Perm (sorted_in t tickets) (t ∷ tickets)
unfolding insert_by_id
insert-perm t [] = Perm.refl (t ∷ [])
insert-perm t (u ∷ tickets) = elim (Bool-cases (before (λ (x : Ticket). x.id) t u)) [
  | inl first ↦ rw (first, insert_by_id) (Perm.refl (t ∷ u ∷ tickets))
  | inr later ↦
      rw (later, insert_by_id)
        (Perm.trans (Perm.cons u (insert-perm t tickets)) (Perm.swap t u tickets))
]

pub sort-perm : (tickets : List Ticket) → Perm (sort_by_id (λ t. t.id) tickets) tickets
unfolding sort_by_id
sort-perm [] = Perm.nil
sort-perm (t ∷ tickets) =
    Perm.trans (insert-perm t (sort_by_id (λ x. x.id) tickets)) (Perm.cons t (sort-perm tickets))

-- A ticket that stands first, before one that is inserted further down.
behind :
    (u t : Ticket) (tickets : List Ticket)
    → Precedes u t
    → InQueue (u ∷ tickets)
    → InQueue (sorted_in t tickets)
    → InQueue (u ∷ sorted_in t tickets)
unfolding insert_by_id
behind u t [] first h k = (first, k)
behind u t (w ∷ tickets) first h k = elim (Bool-cases (before (λ (x : Ticket). x.id) t w)) [
  | inl here ↦ rw (here, insert_by_id) (first, rw (here, insert_by_id) at k)
  | inr later ↦ rw (later, insert_by_id) (h.0, rw (later, insert_by_id) at k)
]

InQueue-tail : (u : Ticket) (tickets : List Ticket) → InQueue (u ∷ tickets) → InQueue tickets
InQueue-tail u [] h = tt
InQueue-tail u (w ∷ tickets) h = h.1

insert-InQueue :
    (t : Ticket) (tickets : List Ticket) → InQueue tickets → InQueue (sorted_in t tickets)
unfolding insert_by_id
insert-InQueue t [] h = tt
insert-InQueue t (u ∷ tickets) h = elim (Bool-cases (before (λ (x : Ticket). x.id) t u)) [
  | inl first ↦ rw (first, insert_by_id) (first, h)
  | inr later ↦
      rw (later, insert_by_id)
        (behind u t tickets
          (key_le-total (position_id_sort_key t.id) (position_id_sort_key u.id) later) h
          (insert-InQueue t tickets (InQueue-tail u tickets h)))
]

pub sort-InQueue : (tickets : List Ticket) → InQueue (sort_by_id (λ t. t.id) tickets)
unfolding sort_by_id
sort-InQueue [] = tt
sort-InQueue (t ∷ tickets) =
    insert-InQueue t (sort_by_id (λ x. x.id) tickets) (sort-InQueue tickets)
