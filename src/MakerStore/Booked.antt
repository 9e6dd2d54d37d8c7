-- ===== src/MakerStore/Booked.antt =====
-- What a new fill writes into the books of a `MakerStateStore` (src/py000_nautilus/maker_store.py): the
-- fill in its view, the allocation on its route, and the intent for the rounded ounces.
use arbi_nautilus.Base.{
  ◌≡◌, refl, sym, subst, ap, ◌∙◌, inl, inr, ◌⊎◌, true, false, not, ℤ, pos, ◌+ℤ◌, leb_ℤ, Option,
  none, some, [], ◌∷◌, ◌++◌, arith, ok, err, Error, Result, Result-cases, Bool-cases, lookup,
  insert, member, add, member-add, lookup-insert, ◌==◌, int_eq, string_eq, value_error,
}
use text.Mathlib.TextEquality.{eq_iff}
use arbi_nautilus.Models.{HedgeIntent, side_eq}
use arbi_nautilus.Models.Checks.{check_intent}
use arbi_nautilus.Models.Rounding.{round_hedge_ounces}
use arbi_nautilus.Store.{SourceOrderRecord, StoreState, Platform}
use arbi_nautilus.Store.Fills.{SourceFill, signed_fill, filled_record, book_fill, new_intent}
use arbi_nautilus.MakerStore.{
  View, Allocation, Terms, Books, state_of, set_state, route_of, balance_of, checkpoint_balances,
  allocate_to_route, new_allocation, append_allocation,
}
use arbi_nautilus.MakerStore.Publish.{Owner, update_view, without_provenance}
use arbi_nautilus.MakerStore.Fills.{apply_view_fill, allocate_view_fill, add_view_intent}
use arbi_nautilus.MakerStore.Balances.{route_total, allocate_to_route-ok}

module _ (terms : Terms) (f : SourceFill) (r : SourceOrderRecord) (b : Books) where
  -- The ounces that the fill's route has to hedge, rounded, with this fill.
  abbrev pub due : ℤ
  due = round_hedge_ounces (
      route_total (route_of r) (balance_of (route_of r) (checkpoint_balances terms)) b.allocations
      +ℤ signed_fill f)

module _ (terms : Terms) (platform : Platform) (v : View) (f : SourceFill) (r : SourceOrderRecord)
    (b : Books) where
  -- The intent of the fill: none where nothing is (due terms f r b), else one of that quantity and side, and the
  -- view holds it.
  abbrev pub Intended : Option HedgeIntent → Books → Type 0
  Intended intent b' =
      ((due terms f r b ≡ pos 0)
        × (intent ≡ none)
        × ((state_of v b').hedge_intents ≡ (state_of v b).hedge_intents))
      ⊎ ((intent ≡ some (new_intent platform f none r (due terms f r b)))
          × ((state_of v b').hedge_intents
              ≡ insert (new_intent platform f none r (due terms f r b)).intent_id
                  (new_intent platform f none r (due terms f r b)) (state_of v b).hedge_intents))

  -- The books with the fill.
  pub record IsBooked (intent : Option HedgeIntent) (b' : Books) : Type 0 where
    pub same_side : r.side ≡ f.side
    pub positive : leb_ℤ f.ounces (pos 0) ≡ false
    pub seen : member f.fill_key (state_of v b').seen_source_fills ≡ true
    pub filled :
        lookup f.client_order_id (state_of v b').source_orders ≡ some (filled_record r f.ounces)
    pub allocated :
        b'.allocations
        ≡ b.allocations ++ new_allocation r f.fill_key (signed_fill f) (due terms f r b) ∷ []
    pub intended : Intended intent b'

check_intent-same : (i j : HedgeIntent) → check_intent i ≡ ok j → i ≡ j
unfolding check_intent
check_intent-same i j h = ground arith

state_of-set_state : (v : View) (s : StoreState) (b : Books) → state_of v (set_state v s b) ≡ s
state_of-set_state v s b = ground arith

set_state-allocations :
    (v : View) (s : StoreState) (b : Books) → (set_state v s b).allocations ≡ b.allocations
set_state-allocations v s b = ground arith

state_of-append :
    (v : View) (a : Allocation) (b : Books) → state_of v (append_allocation a b) ≡ state_of v b
state_of-append v a b = ground arith

-- What `book_fill` writes.
book_fill-lem :
    (f : SourceFill) (r : SourceOrderRecord) (s : StoreState)
    → ((book_fill f none r s).seen_source_fills ≡ add f.fill_key s.seen_source_fills)
      × ((book_fill f none r s).source_orders
          ≡ insert f.client_order_id (filled_record r f.ounces) s.source_orders)
      × ((book_fill f none r s).hedge_intents ≡ s.hedge_intents)
unfolding book_fill
book_fill-lem f r s = ground arith

module _ (terms : Terms) (platform : Platform) (v : View) (f : SourceFill) (r : SourceOrderRecord)
    (b : Books) where
  abbrev filled_state : StoreState
  filled_state = book_fill f none r (state_of v b)

  abbrev filled_books : Books
  filled_books = set_state v filled_state b

  abbrev allocated_books : ℤ → Books
  allocated_books rounded =
      append_allocation (new_allocation r f.fill_key (signed_fill f) rounded) filled_books

  abbrev with_intent : HedgeIntent → StoreState → StoreState
  with_intent i s = record s { hedge_intents = insert i.intent_id i s.hedge_intents }

  abbrev intended_books : ℤ → HedgeIntent → Books
  intended_books rounded i =
      set_state v (with_intent i (state_of v (allocated_books rounded))) (allocated_books rounded)

  fill_seen : member f.fill_key filled_state.seen_source_fills ≡ true
  fill_seen = rw (book_fill-lem f r (state_of v b)).0 (
      ground (
        arith,
        member-add f.fill_key f.fill_key (state_of v b).seen_source_fills,
        eq_iff f.fill_key f.fill_key,
      ))

  order_filled :
      lookup f.client_order_id filled_state.source_orders ≡ some (filled_record r f.ounces)
  order_filled = rw (book_fill-lem f r (state_of v b)).1 (
      ground (
        arith,
        lookup-insert f.client_order_id f.client_order_id (filled_record r f.ounces)
            (state_of v b).source_orders,
        eq_iff f.client_order_id f.client_order_id,
      ))

  -- The view's state after the allocation is the one with the fill.
  allocated_state : (rounded : ℤ) → state_of v (allocated_books rounded) ≡ filled_state
  allocated_state rounded =
      state_of-append v (new_allocation r f.fill_key (signed_fill f) rounded) filled_books
      ∙ state_of-set_state v filled_state b

  allocated_list :
      (allocated_books (due terms f r b)).allocations
      ≡ b.allocations ++ new_allocation r f.fill_key (signed_fill f) (due terms f r b) ∷ []
  allocated_list = rw (set_state-allocations v filled_state b) refl

  module _ (agrees : r.side ≡ f.side) (positive : leb_ℤ f.ounces (pos 0) ≡ false) where
    IsBooked-alone :
        due terms f r b ≡ pos 0
        → IsBooked terms platform v f r b none (allocated_books (due terms f r b))
    IsBooked-alone nothing =
        let same = allocated_state (due terms f r b) in
        record {
          same_side = agrees;
          positive = positive;
          seen = rw same fill_seen;
          filled = rw same order_filled;
          allocated = allocated_list;
          intended = inl (nothing, refl, rw same (book_fill-lem f r (state_of v b)).2);
        }

    IsBooked-with :
        let i = new_intent platform f none r (due terms f r b) in
        IsBooked terms platform v f r b (some i) (intended_books (due terms f r b) i)
    IsBooked-with =
        let i = new_intent platform f none r (due terms f r b) in
        let bs = allocated_books (due terms f r b) in
        let same = allocated_state (due terms f r b) in
        let put = state_of-set_state v (with_intent i (state_of v bs)) bs in
        record {
          same_side = agrees;
          positive = positive;
          seen = rw (put, same) fill_seen;
          filled = rw (put, same) order_filled;
          allocated = set_state-allocations v (with_intent i (state_of v bs)) bs ∙ allocated_list;
          intended = inr (refl, rw (put, same, (book_fill-lem f r (state_of v b)).2) refl);
        }

-- How the calls of `apply_view_fill` end.
module _ (terms : Terms) (platform : Platform) (v : View) (f : SourceFill) (r : SourceOrderRecord)
    (o : Owner) where
  abbrev after_fill : Owner
  after_fill = record o { books = filled_books terms platform v f r o.books }

  refused_side :
      not (r.side == f.side) ≡ true → (apply_view_fill terms platform v f r o).0 ≡ err value_error
  unfolding apply_view_fill
  refused_side h = rw h refl

  refused_amount :
      not (r.side == f.side) ≡ false
      → leb_ℤ f.ounces (pos 0) ≡ true
      → (apply_view_fill terms platform v f r o).0 ≡ err value_error
  unfolding apply_view_fill
  refused_amount h k = rw (h, k) refl

  allocation_raised :
      (e : Error)
      → not (r.side == f.side) ≡ false
      → leb_ℤ f.ounces (pos 0) ≡ false
      → allocate_to_route terms r f.fill_key (signed_fill f) after_fill.books ≡ err e
      → (apply_view_fill terms platform v f r o).0 ≡ err e
  unfolding apply_view_fill allocate_view_fill
  allocation_raised e h k l = ground arith

  went_on :
      (rounded : ℤ) (bs : Books)
      → not (r.side == f.side) ≡ false
      → leb_ℤ f.ounces (pos 0) ≡ false
      → allocate_to_route terms r f.fill_key (signed_fill f) after_fill.books ≡ ok (rounded, bs)
      → apply_view_fill terms platform v f r o
        ≡ add_view_intent platform v f r rounded (record after_fill { books = bs })
  unfolding apply_view_fill allocate_view_fill
  went_on rounded bs h k l = ground arith

  -- What adding the intent did, where something is due and where nothing is.
  nothing_added :
      (rounded : ℤ) (t : Owner)
      → (rounded == pos 0) ≡ true
      → add_view_intent platform v f r rounded t ≡ (ok none, t)
  unfolding add_view_intent
  nothing_added rounded t h = rw h refl

  intent_refused :
      (rounded : ℤ) (t : Owner) (e : Error)
      → (rounded == pos 0) ≡ false
      → check_intent (new_intent platform f none r rounded) ≡ err e
      → (add_view_intent platform v f r rounded t).0 ≡ err e
  unfolding add_view_intent
  intent_refused rounded t e h k = ground arith

  intent_added :
      (rounded : ℤ) (t : Owner)
      → (rounded == pos 0) ≡ false
      → check_intent (new_intent platform f none r rounded)
        ≡ ok (new_intent platform f none r rounded)
      → add_view_intent platform v f r rounded t ≡ (
        ok (some (new_intent platform f none r rounded)),
        (update_view v
            (with_intent terms platform v f r o.books (new_intent platform f none r rounded))
            t).1,
      )
  unfolding add_view_intent
  intent_added rounded t h k = ground arith

  -- What the call did where it returned.
  abbrev pub Applied : Result (Option HedgeIntent) × Owner → Type 0
  Applied (ok intent, o') = IsBooked terms platform v f r o.books intent o'.books
  Applied (err e, o') = Unit

  raised-Applied : (p : Result (Option HedgeIntent) × Owner) (e : Error) → p.0 ≡ err e → Applied p
  raised-Applied (ok intent, o') e h = absurd (ground arith)
  raised-Applied (err x, o') e h = tt

  abbrev the_due : ℤ
  the_due = due terms f r o.books

  abbrev owner_of : Books → Owner
  owner_of bs = record after_fill { books = bs }

  module _ (agrees : r.side ≡ f.side) (positive : leb_ℤ f.ounces (pos 0) ≡ false) where
    add-Applied : Applied (
        add_view_intent platform v f r the_due
          (owner_of (allocated_books terms platform v f r o.books the_due)))
    add-Applied =
        let t = owner_of (allocated_books terms platform v f r o.books the_due) in
        let i = new_intent platform f none r the_due in
        elim (Bool-cases (the_due == pos 0)) [
          | inl nothing ↦ subst Applied (sym (nothing_added the_due t nothing)) (
              IsBooked-alone terms platform v f r o.books agrees positive
                ((int_eq.beq_iff the_due (pos 0)).0 nothing))
          | inr something ↦ elim (Result-cases (check_intent i)) [
            | inl (e, failed) ↦
                raised-Applied (add_view_intent platform v f r the_due t) e
                  (intent_refused the_due t e something failed)
            | inr (j, passed) ↦
                subst Applied
                  (sym (
                    intent_added the_due t something (
                      subst (λ x. check_intent i ≡ ok x) (sym (check_intent-same i j passed))
                        passed)))
                  (IsBooked-with terms platform v f r o.books agrees positive)
          ]
        ]

    rest-Applied :
        (rounded : ℤ) (bs : Books)
        → allocate_to_route terms r f.fill_key (signed_fill f) after_fill.books ≡ ok (rounded, bs)
        → Applied (add_view_intent platform v f r rounded (owner_of bs))
    rest-Applied rounded bs h =
        let (amount, books) =
          allocate_to_route-ok terms r f.fill_key (signed_fill f) after_fill.books bs rounded h in
        let same : rounded ≡ the_due =
          amount
          ∙ ap
              (λ xs. round_hedge_ounces (
                route_total (route_of r) (balance_of (route_of r) (checkpoint_balances terms)) xs
                +ℤ signed_fill f))
              (set_state-allocations v (filled_state terms platform v f r o.books) o.books) in
        subst (λ x. Applied (add_view_intent platform v f r rounded (owner_of x))) (sym books)
          (subst
            (λ x. Applied (
              add_view_intent platform v f r x
                (owner_of (allocated_books terms platform v f r o.books x))))
            (sym same) add-Applied)

  -- Where the fill is applied, it is booked on its order, allocated and intended.
  pub apply_view_fill-Applied : Applied (apply_view_fill terms platform v f r o)
  apply_view_fill-Applied = elim (Bool-cases (not (r.side == f.side))) [
    | inl other ↦
        raised-Applied (apply_view_fill terms platform v f r o) value_error (refused_side other)
    | inr same ↦ elim (Bool-cases (leb_ℤ f.ounces (pos 0))) [
      | inl little ↦
          raised-Applied (apply_view_fill terms platform v f r o) value_error
            (refused_amount same little)
      | inr positive ↦
          elim (Result-cases
            (allocate_to_route terms r f.fill_key (signed_fill f) after_fill.books)) [
              | inl (e, failed) ↦
                  raised-Applied (apply_view_fill terms platform v f r o) e
                    (allocation_raised e same positive failed)
              | inr ((rounded, bs), done) ↦
                  subst Applied (sym (went_on rounded bs same positive done)) (
                    rest-Applied ((side_eq.beq_iff r.side f.side).0 (ground (arith, same))) positive
                      rounded bs done)
            ]
    ]
  ]

-- The same fill, seen from books with the same allocations and the same intents of the view.
pub IsBooked-from :
    (terms : Terms) (platform : Platform) (v : View) (f : SourceFill) (r : SourceOrderRecord)
    (b c : Books) (intent : Option HedgeIntent) (b' : Books)
    → b.allocations ≡ c.allocations
    → (state_of v b).hedge_intents ≡ (state_of v c).hedge_intents
    → IsBooked terms platform v f r b intent b'
    → IsBooked terms platform v f r c intent b'
IsBooked-from terms platform v f r b c intent b' xs is h = record {
  same_side = h.same_side;
  positive = h.positive;
  seen = h.seen;
  filled = h.filled;
  allocated = rw (← xs) h.allocated;
  intended = rw (← is, ← xs) h.intended;
}

-- The provenance of the freeze is no part of what is booked.
pub IsBooked-unmarked :
    (terms : Terms) (platform : Platform) (v : View) (f : SourceFill) (r : SourceOrderRecord)
    (b : Books) (intent : Option HedgeIntent) (b' : Books)
    → IsBooked terms platform v f r b intent b'
    → IsBooked terms platform v f r b intent (without_provenance b')
IsBooked-unmarked terms platform v f r b intent b' h =
    let same : state_of v (without_provenance b') ≡ state_of v b' = ground arith in
    record {
      same_side = h.same_side;
      positive = h.positive;
      seen = rw same h.seen;
      filled = rw same h.filled;
      allocated = h.allocated;
      intended = rw same h.intended;
    }
