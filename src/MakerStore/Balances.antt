-- ===== src/MakerStore/Balances.antt =====
-- The balance of each route of a `MakerStateStore`: the dictionary that the code folds is the sum of
-- what each fill left, and rounding keeps it within half an ounce.
use arbi_nautilus.Base.{
  ◌≡◌, refl, sym, ◌∙◌, ap, subst, inl, inr, ◌⊎◌, true, false, ◌*◌, ◌≤◌, ℤ, magnitude, ◌+ℤ◌, ◌-ℤ◌,
  String, List, [], ◌∷◌, ◌++◌, arith, put, get-put, ◌==◌, ok, Result-cases, Bool-cases,
  Option-cases, if◌then◌else◌,
}
use arbi_nautilus.Models.{ounce}
use arbi_nautilus.Models.Rounding.{round_hedge_ounces, of_ounces, residual-le-half}
use arbi_nautilus.Store.{SourceOrderRecord}
use arbi_nautilus.MakerStore.{
  Route, route_eq, Allocation, Terms, Books, View, Balances, balance_of, all_views, view_of_fill,
  allocation_fold, route_balances, checkpoint_balances, route_of, allocate_to_route, new_allocation,
  append_allocation,
}

-- One allocation's step on the balance of a route.
abbrev pub after_allocation : Route → ℤ → Allocation → ℤ
after_allocation r start a =
    if a.route == r then start +ℤ a.signed_fill_ounces -ℤ a.allocated_ounces else start

-- What the allocations leave on a route, from a first balance.
abbrev pub route_total : Route → ℤ → List Allocation → ℤ
route_total r start [] = start
route_total r start (a ∷ items) = route_total r (after_allocation r start a) items

pub route_total-append :
    (r : Route) (start : ℤ) (xs ys : List Allocation)
    → route_total r start (xs ++ ys) ≡ route_total r (route_total r start xs) ys
route_total-append r start [] ys = refl
route_total-append r start (a ∷ xs) ys = route_total-append r (after_allocation r start a) xs ys

pub balance_of-put :
    (r k : Route) (entry : ℤ × View) (t : Balances)
    → balance_of r (put k entry t) ≡ (if k == r then entry.0 else balance_of r t)
balance_of-put r k entry t = ground (arith, get-put k r entry t)

fold_step :
    (r : Route) (a : Allocation) (v : View) (t : Balances)
    → balance_of r
        (put a.route (balance_of a.route t +ℤ a.signed_fill_ounces -ℤ a.allocated_ounces, v) t)
      ≡ after_allocation r (balance_of r t) a
fold_step r a v t = elim (Bool-cases (a.route == r)) [
  | inl here ↦ balance_of-put r a.route _ t ∙ rw (here, (route_eq.beq_iff a.route r).0 here) refl
  | inr there ↦ balance_of-put r a.route _ t ∙ rw there refl
]

pub allocation_fold-total :
    (terms : Terms) (b : Books) (r : Route) (items : List Allocation) (balances t : Balances)
    → allocation_fold terms b items balances ≡ ok t
    → balance_of r t ≡ route_total r (balance_of r balances) items
unfolding allocation_fold
allocation_fold-total terms b r [] balances t e = ground arith
allocation_fold-total terms b r (a ∷ items) balances t e =
    elim (Option-cases (view_of_fill b a.fill_key (all_views terms))) [
      | inl missing ↦ absurd (ground arith)
      | inr (v, found) ↦
          let entry : ℤ × View =
            (balance_of a.route balances +ℤ a.signed_fill_ounces -ℤ a.allocated_ounces, v) in
          allocation_fold-total terms b r items (put a.route entry balances) t (ground arith)
          ∙ ap (λ x. route_total r x items) (fold_step r a v balances)
    ]

-- For every route, the code's dictionary holds the checkpoint's balance and what each allocated fill
-- of that route left, in order: no fill is lost, and none counts twice.
pub route_balances-total :
    (terms : Terms) (b : Books) (balances : Balances) (r : Route)
    → route_balances terms b ≡ ok balances
    → balance_of r balances ≡ route_total r (balance_of r (checkpoint_balances terms)) b.allocations
unfolding route_balances
route_balances-total terms b balances r e =
    allocation_fold-total terms b r b.allocations (checkpoint_balances terms) balances e

-- Every allocation of the route is the rounded balance at its place.
abbrev pub IsRounded : Route → ℤ → List Allocation → Type 0
IsRounded r start [] = Unit
IsRounded r start (a ∷ items) =
    (a.route ≡ r
      → a.allocated_ounces ≡ of_ounces (round_hedge_ounces (start +ℤ a.signed_fill_ounces)))
    × IsRounded r (after_allocation r start a) items

abbrev pub IsSmall : ℤ → Type 0
IsSmall v = 2 * magnitude v ≤ ounce

step-IsSmall :
    (r : Route) (start : ℤ) (a : Allocation)
    → (a.route ≡ r
        → a.allocated_ounces ≡ of_ounces (round_hedge_ounces (start +ℤ a.signed_fill_ounces)))
    → (a.route == r) ≡ true
    → IsSmall (after_allocation r start a)
step-IsSmall r start a rounded here =
    rw (here, rounded ((route_eq.beq_iff a.route r).0 here))
      (residual-le-half (start +ℤ a.signed_fill_ounces))

skipped :
    (r : Route) (start : ℤ) (a : Allocation)
    → (a.route == r) ≡ false
    → after_allocation r start a ≡ start
skipped r start a there = rw there refl

IsSmall-stays :
    (r : Route) (start : ℤ) (items : List Allocation)
    → IsSmall start
    → IsRounded r start items
    → IsSmall (route_total r start items)
IsSmall-stays r start [] h k = h
IsSmall-stays r start (a ∷ items) h k = elim (Bool-cases (a.route == r)) [
  | inl here ↦
      IsSmall-stays r (after_allocation r start a) items (step-IsSmall r start a k.0 here) k.1
  | inr there ↦ IsSmall-stays r (after_allocation r start a) items (rw there h) k.1
]

pub route_total-IsSmall :
    (r : Route) (start : ℤ) (items : List Allocation)
    → IsRounded r start items
    → IsSmall (route_total r start items) ⊎ (route_total r start items ≡ start)
route_total-IsSmall r start [] k = inr refl
route_total-IsSmall r start (a ∷ items) k = elim (Bool-cases (a.route == r)) [
  | inl here ↦
      inl (IsSmall-stays r (after_allocation r start a) items (step-IsSmall r start a k.0 here) k.1)
  | inr there ↦
      let same = skipped r start a there in
      subst (λ x. IsSmall (route_total r x items) ⊎ (route_total r x items ≡ start)) (sym same)
        (route_total-IsSmall r start items (subst (λ x. IsRounded r x items) same k.1))
]

IsRounded-append :
    (r : Route) (start : ℤ) (items : List Allocation) (a : Allocation)
    → IsRounded r start items
    → (a.route ≡ r
        → a.allocated_ounces
          ≡ of_ounces (round_hedge_ounces (route_total r start items +ℤ a.signed_fill_ounces)))
    → IsRounded r start (items ++ a ∷ [])
IsRounded-append r start [] a k new = (new, tt)
IsRounded-append r start (b ∷ items) a k new =
    (k.0, IsRounded-append r (after_allocation r start b) items a k.1 new)

-- What `_allocate` did where it returned.
pub allocate_to_route-ok :
    (terms : Terms) (order : SourceOrderRecord) (key : String) (signed : ℤ) (b b' : Books)
    (rounded : ℤ)
    → allocate_to_route terms order key signed b ≡ ok (rounded, b')
    → (rounded
        ≡ round_hedge_ounces (
            route_total
              (route_of order)
              (balance_of (route_of order) (checkpoint_balances terms))
              b.allocations
            +ℤ signed))
      × (b' ≡ append_allocation (new_allocation order key signed rounded) b)
unfolding allocate_to_route
allocate_to_route-ok terms order key signed b b' rounded e =
    elim (Result-cases (route_balances terms b)) [
      | inl (x, failed) ↦ absurd (ground arith)
      | inr (t, done) ↦ ground (arith, route_balances-total terms b t (route_of order) done)
    ]

-- Where every allocation so far is the rounded balance of its route, so is the one that `_allocate`
-- appends: its rounding is that of the route's balance with the new fill.
pub allocate_to_route-IsRounded :
    (terms : Terms) (order : SourceOrderRecord) (key : String) (signed : ℤ) (b b' : Books)
    (rounded : ℤ) (r : Route)
    → allocate_to_route terms order key signed b ≡ ok (rounded, b')
    → IsRounded r (balance_of r (checkpoint_balances terms)) b.allocations
    → IsRounded r (balance_of r (checkpoint_balances terms)) b'.allocations
allocate_to_route-IsRounded terms order key signed b b' rounded r e k =
    let start = balance_of r (checkpoint_balances terms) in
    let done = allocate_to_route-ok terms order key signed b b' rounded e in
    subst (λ x. IsRounded r start x.allocations) (sym done.1)
      (IsRounded-append r start b.allocations (new_allocation order key signed rounded) k (λ here.
        subst
          (λ x.
            of_ounces rounded
            ≡ of_ounces (
                round_hedge_ounces (
                  route_total x (balance_of x (checkpoint_balances terms)) b.allocations
                  +ℤ signed)))
          here (ap of_ounces done.0)))
