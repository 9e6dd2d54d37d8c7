-- ===== src/MakerStore/Bounded.antt =====
-- What `_validate` grants of the balances of a `MakerStateStore`.
use arbi_nautilus.Base.{
  bind-ok, ◌≡◌, refl, sym, subst, ◌∙◌, ap, inl, inr, ◌⊎◌, ℤ, ◌+ℤ◌, ◌-ℤ◌, String, List, [], ◌∷◌,
  Dict, arith, put, get-put, Table, ◌==◌, int_eq, ok, Result-cases, Bool-cases, if◌then◌else◌,
  for_each, ◌>>◌,
}
use arbi_nautilus.Models.Rounding.{round_hedge_ounces, of_ounces}
use arbi_nautilus.Store.{SourceOrderRecord}
use arbi_nautilus.MakerStore.{
  Route, route_eq, Allocation, Terms, Books, Balances, balance_of, route_balances,
  checkpoint_balances,
}
use arbi_nautilus.MakerStore.Balances.{
  IsRounded, IsSmall, after_allocation, route_balances-total, route_total-IsSmall,
}
use arbi_nautilus.MakerStore.Validate.{check_identities, no_identities}
use arbi_nautilus.MakerStore.Validate.Allocations.{
  Tally, amounts, amount_of, check_checkpoint, check_order, check_closing, start_balances, all_seen,
  all_records, check_allocation, claim_fill, settle_route, claim_intent, check_allocations,
  no_tally, validate,
}

claim_fill-balances :
    (seen : List String) (records : Dict SourceOrderRecord) (a : Allocation) (t : Tally)
    → (claim_fill seen records a t).1.balances ≡ t.balances
unfolding claim_fill
claim_fill-balances seen records a t = ground arith

settle_route-ok :
    (a : Allocation) (t : Tally)
    → (settle_route a t).0 ≡ ok tt
    → (a.allocated_ounces
        ≡ of_ounces (round_hedge_ounces (amount_of a.route t.balances +ℤ a.signed_fill_ounces)))
      × ((settle_route a t).1.balances
          ≡ put a.route
              (amount_of a.route t.balances +ℤ a.signed_fill_ounces -ℤ a.allocated_ounces)
              t.balances)
unfolding settle_route
settle_route-ok a t e = ground (
  arith,
  int_eq.beq_iff a.allocated_ounces
      (of_ounces (round_hedge_ounces (amount_of a.route t.balances +ℤ a.signed_fill_ounces))),
)

claim_intent-balances : (a : Allocation) (t : Tally) → (claim_intent a t).1.balances ≡ t.balances
unfolding claim_intent
claim_intent-balances a t = ground arith

amount_of-put :
    (r k : Route) (v : ℤ) (t : Table Route ℤ)
    → amount_of r (put k v t) ≡ (if k == r then v else amount_of r t)
amount_of-put r k v t = ground (arith, get-put k r v t)

amount_of-amounts : (r : Route) (t : Balances) → amount_of r (amounts t) ≡ balance_of r t
amount_of-amounts r [] = refl
amount_of-amounts r ((route, entry) ∷ t) = elim (Bool-cases (route == r)) [
  | inl here ↦ rw (amount_of, balance_of, here) refl
  | inr there ↦ rw (amount_of, balance_of, there) (amount_of-amounts r t)
]

-- The balance that one turn of the loop leaves.
turn :
    (r : Route) (a : Allocation) (t : Table Route ℤ)
    → amount_of r
        (put a.route (amount_of a.route t +ℤ a.signed_fill_ounces -ℤ a.allocated_ounces) t)
      ≡ after_allocation r (amount_of r t) a
turn r a t = elim (Bool-cases (a.route == r)) [
  | inl here ↦ amount_of-put r a.route _ t ∙ rw (here, (route_eq.beq_iff a.route r).0 here) refl
  | inr there ↦ amount_of-put r a.route _ t ∙ rw there refl
]

check_allocation-ok :
    (seen : List String) (records : Dict SourceOrderRecord) (a : Allocation) (t : Tally)
    → (check_allocation seen records a t).0 ≡ ok tt
    → (a.allocated_ounces
        ≡ of_ounces (round_hedge_ounces (amount_of a.route t.balances +ℤ a.signed_fill_ounces)))
      × ((check_allocation seen records a t).1.balances
          ≡ put a.route
              (amount_of a.route t.balances +ℤ a.signed_fill_ounces -ℤ a.allocated_ounces)
              t.balances)
check_allocation-ok seen records a t e =
    let (_, claimed, rest, final) =
      bind-ok (claim_fill seen records a) (λ _. do settle_route a; claim_intent a) t tt e in
    let t1 = (claim_fill seen records a t).1 in
    let (u, settled, last, final') = bind-ok (settle_route a) (λ _. claim_intent a) t1 tt rest in
    let (rounded, moved) = settle_route-ok a t1 settled in
    let kept = claim_fill-balances seen records a t in
    (
      subst
          (λ x.
            a.allocated_ounces
            ≡ of_ounces (round_hedge_ounces (amount_of a.route x +ℤ a.signed_fill_ounces)))
          kept rounded,
      ap (λ x. x.balances) (final ∙ final')
          ∙ claim_intent-balances a (settle_route a t1).1
          ∙ moved
          ∙ ap
              (λ x.
                put a.route (amount_of a.route x +ℤ a.signed_fill_ounces -ℤ a.allocated_ounces) x)
              kept,
    )

checked-IsRounded :
    (seen : List String) (records : Dict SourceOrderRecord) (r : Route) (items : List Allocation)
    (t : Tally)
    → (for_each items (check_allocation seen records) t).0 ≡ ok tt
    → IsRounded r (amount_of r t.balances) items
checked-IsRounded seen records r [] t e = tt
checked-IsRounded seen records r (a ∷ items) t e =
    let (u, first, rest, _) =
      bind-ok (check_allocation seen records a)
        (λ _. for_each items (check_allocation seen records)) t tt e in
    let (rounded, moved) = check_allocation-ok seen records a t first in
    (
      λ here.
          subst
            (λ x.
              a.allocated_ounces
              ≡ of_ounces (round_hedge_ounces (amount_of x t.balances +ℤ a.signed_fill_ounces)))
            here rounded,
      subst (λ x. IsRounded r x items) (ap (amount_of r) moved ∙ turn r a t.balances)
          (checked-IsRounded seen records r items (check_allocation seen records a t).1 rest),
    )

-- What `_validate` grants where it returned.
validate-IsRounded :
    (terms : Terms) (b : Books) (r : Route)
    → validate terms b ≡ ok tt
    → IsRounded r (balance_of r (checkpoint_balances terms)) b.allocations
unfolding validate check_allocations
validate-IsRounded terms b r e =
    let seen = all_seen terms b in
    let records = all_records terms b in
    let loop = for_each b.allocations (check_allocation seen records) in
    let (_, _, rest, _) =
      bind-ok (check_checkpoint terms b) (λ _. check_order terms b) no_tally tt
        (identities_passed e) in
    let t1 = (check_checkpoint terms b no_tally).1 in
    let t2 = (start_balances terms t1).1 in
    let (_, turned, _, _) = bind-ok loop (λ _. check_closing terms b) t2 tt rest in
    subst (λ x. IsRounded r x b.allocations) (amount_of-amounts r (checkpoint_balances terms))
      (checked-IsRounded seen records r b.allocations t2 turned)
  where
    identities_passed : validate terms b ≡ ok tt → (check_allocations terms b no_tally).0 ≡ ok tt
    identities_passed h = elim (Result-cases (check_identities terms b no_identities).0) [
      | inl (x, failed) ↦ absurd (ground arith)
      | inr (a, done) ↦ ground arith
    ]

-- Where the state passes `_validate`: the balance of
-- each route is at most half an ounce either way, or no rounded allocation has touched it and it is
-- the legacy checkpoint's.
pub validate-IsSmall :
    (terms : Terms) (b : Books) (balances : Balances) (r : Route)
    → validate terms b ≡ ok tt
    → route_balances terms b ≡ ok balances
    → IsSmall (balance_of r balances)
      ⊎ (balance_of r balances ≡ balance_of r (checkpoint_balances terms))
validate-IsSmall terms b balances r valid done =
    let start = balance_of r (checkpoint_balances terms) in
    subst (λ x. IsSmall x ⊎ (x ≡ start)) (sym (route_balances-total terms b balances r done))
      (route_total-IsSmall r start b.allocations (validate-IsRounded terms b r valid))
