-- ===== src/MakerStore/Evidence.antt =====
-- What the four tests of `clear_source_freezes` of src/py000_nautilus/maker_store.py ask of the views,
-- said of their states.
use arbi_nautilus.Base.{
  ◌≡◌, refl, subst, inl, inr, ◌⊎◌, Bool, true, false, not, ◌&&◌, String, Option, none, some, List,
  [], ◌∷◌, arith, All, all, values, Result, ok, err, Result-cases, Option-cases, is_none, ◌==◌,
  int_eq, string_eq, option_eq,
}
use arbi_nautilus.Models.{is_completed, HedgeIntent}
use arbi_nautilus.Store.{is_terminal}
use arbi_nautilus.MakerStore.{
  View, Terms, Books, Balances, state_of, all_views, route_balances, balance_is_admissible,
}
use arbi_nautilus.MakerStore.Publish.{
  Owner, may_clear, view_evidence, view_is_admissible, all_evidence, one_reason, first_reason,
  agrees, and_then, and_also, residual_agrees,
}

-- Nothing of a view is under way.
pub record IsComplete (b : Books) (v : View) : Type 0 where
  pub running : (state_of v b).halt_reason ≡ none
  pub idle : (state_of v b).active_source_order_id ≡ none
  pub orders : All (λ r. is_terminal r.status ≡ true) (values (state_of v b).source_orders)
  pub hedges : All (λ i. is_completed i.status ≡ true) (values (state_of v b).hedge_intents)
  pub hedged :
      All
        (λ i. i.hedge_quantity_ounces ≡ i.hedge_filled_ounces)
        (values (state_of v b).hedge_intents)

-- A view carries the reason.
abbrev pub Carries : Books → String → List View → Type 0
Carries b reason [] = ⊥
Carries b reason (v ∷ views) =
    ((state_of v b).source_freeze_reason ≡ some reason) ⊎ Carries b reason views

-- One freeze reason: some view has it, and no view has another.
abbrev pub IsSole : Books → String → List View → Type 0
IsSole b reason views =
    Carries b reason views
    × All
        (λ v.
          ((state_of v b).source_freeze_reason ≡ none)
          ⊎ ((state_of v b).source_freeze_reason ≡ some reason))
        views

both : (a : Bool) (r : Result Bool) → and_then a r ≡ ok true → (a ≡ true) × (r ≡ ok true)
both true r h = (refl, h)
both false r h = absurd (ground arith)

also : (r q : Result Bool) → and_also r q ≡ ok true → (r ≡ ok true) × (q ≡ ok true)
also (err e) q h = absurd (ground arith)
also (ok true) q h = (refl, h)
also (ok false) q h = absurd (ground arith)

All-of {ℓ} : {A : Type ℓ} (p : A → Bool) (xs : List A) → all p xs ≡ true → All (λ x. p x ≡ true) xs
All-of p [] h = tt
All-of p (x ∷ xs) h = (ground (arith, h), All-of p xs (ground (arith, h)))

filled-of :
    (intents : List HedgeIntent)
    → all (λ i. i.hedge_quantity_ounces == i.hedge_filled_ounces) intents ≡ true
    → All (λ i. i.hedge_quantity_ounces ≡ i.hedge_filled_ounces) intents
filled-of [] h = tt
filled-of (i ∷ intents) h = (
  (int_eq.beq_iff i.hedge_quantity_ounces i.hedge_filled_ounces).0 (ground (arith, h)),
  filled-of intents (ground (arith, h)),
)

agreed :
    (b : Books) (v : View) (t : Balances)
    → residual_agrees b v (ok t) ≡ ok true
    → all
        (λ i. i.hedge_quantity_ounces == i.hedge_filled_ounces)
        (values (state_of v b).hedge_intents)
      ≡ true
agreed b v t h = ground arith

admitted :
    (terms : Terms) (b : Books) (v : View)
    → view_is_admissible terms b v ≡ ok true
    → all
        (λ i. i.hedge_quantity_ounces == i.hedge_filled_ounces)
        (values (state_of v b).hedge_intents)
      ≡ true
unfolding view_is_admissible
admitted terms b v h =
    let agrees_lem =
      (also (balance_is_admissible terms b) (residual_agrees b v (route_balances terms b)) h).1 in
    elim (Result-cases (route_balances terms b)) [
      | inl (e, failed) ↦ absurd (ground arith)
      | inr (t, found) ↦
          agreed b v t (subst (λ r. residual_agrees b v r ≡ ok true) found agrees_lem)
    ]

none_of {ℓ} : {A : Type ℓ} (o : Option A) → is_none o ≡ true → o ≡ none
none_of o h = ground arith

split :
    (p q r s : Bool)
    → (p && (q && (r && s))) ≡ true
    → (p ≡ true) × (q ≡ true) × (r ≡ true) × (s ≡ true)
split p q r s h = ground arith

view-IsComplete :
    (terms : Terms) (b : Books) (v : View) → view_evidence terms b v ≡ ok true → IsComplete b v
unfolding view_evidence
view-IsComplete terms b v h =
    let s = state_of v b in
    let (tests, admissible) =
      both
        (is_none s.halt_reason
          && (is_none s.active_source_order_id
              && (all (λ r. is_terminal r.status) (values s.source_orders)
                  && all (λ i. is_completed i.status) (values s.hedge_intents))))
        (view_is_admissible terms b v) h in
    let (a, c, d, e) =
      split (is_none s.halt_reason) (is_none s.active_source_order_id)
        (all (λ r. is_terminal r.status) (values s.source_orders))
        (all (λ i. is_completed i.status) (values s.hedge_intents)) tests in
    record {
      running = none_of s.halt_reason a;
      idle = none_of s.active_source_order_id c;
      orders = All-of (λ r. is_terminal r.status) (values s.source_orders) d;
      hedges = All-of (λ i. is_completed i.status) (values s.hedge_intents) e;
      hedged = filled-of (values s.hedge_intents) (admitted terms b v admissible);
    }

views-IsComplete :
    (terms : Terms) (b : Books) (views : List View)
    → all_evidence terms b views ≡ ok true
    → All (IsComplete b) views
views-IsComplete terms b [] h = tt
views-IsComplete terms b (v ∷ views) h =
    let (here, rest) = also (view_evidence terms b v) (all_evidence terms b views) h in
    (view-IsComplete terms b v here, views-IsComplete terms b views rest)

carried_by :
    (b : Books) (reason : String) (views : List View)
    → first_reason b views ≡ some reason
    → Carries b reason views
carried_by b reason [] h = absurd (ground arith)
carried_by b reason (v ∷ views) h = elim (Option-cases (state_of v b).source_freeze_reason) [
  | inl missing ↦ inr (carried_by b reason views (ground arith))
  | inr (r, found) ↦ inl (ground arith)
]

agreeing :
    (b : Books) (reason : String) (views : List View)
    → all (λ v. agrees (state_of v b).source_freeze_reason (some reason)) views ≡ true
    → All
        (λ v.
          ((state_of v b).source_freeze_reason ≡ none)
          ⊎ ((state_of v b).source_freeze_reason ≡ some reason))
        views
agreeing b reason [] h = tt
agreeing b reason (v ∷ views) h = (
  elim (Option-cases (state_of v b).source_freeze_reason) [
    | inl missing ↦ inl missing
    | inr (r, found) ↦ inr (ground (arith, string_eq.beq_iff r reason))
  ],
  agreeing b reason views (ground arith),
)

sole :
    (terms : Terms) (b : Books)
    → one_reason terms b ≡ true
    → (reason : String) × IsSole b reason (all_views terms)
sole terms b h = elim (Option-cases (first_reason b (all_views terms))) [
  | inl missing ↦ absurd (ground arith)
  | inr (reason, found) ↦ (
    reason,
    (
      carried_by b reason (all_views terms) found,
      agreeing b reason (all_views terms) (
          subst
            (λ x. all (λ v. agrees (state_of v b).source_freeze_reason x) (all_views terms) ≡ true)
            found (ground arith)),
    ),
  )
]

-- What a release needs of the state.
pub may_clear-lem :
    (terms : Terms) (o : Owner)
    → may_clear terms o ≡ ok true
    → (o.freeze_publication_failed ≡ false)
      × (balance_is_admissible terms o.books ≡ ok true)
      × ((reason : String) × IsSole o.books reason (all_views terms))
      × All (IsComplete o.books) (all_views terms)
unfolding may_clear
may_clear-lem terms o h =
    let evidence = all_evidence terms o.books (all_views terms) in
    let reasons = and_then (one_reason terms o.books) evidence in
    let (fine, rest) =
      both (not o.freeze_publication_failed)
        (and_also (balance_is_admissible terms o.books) reasons) h in
    let (admissible, reasoned) = also (balance_is_admissible terms o.books) reasons rest in
    let (one, complete) = both (one_reason terms o.books) evidence reasoned in
    (
      ground (arith, fine),
      admissible,
      sole terms o.books one,
      views-IsComplete terms o.books (all_views terms) complete,
    )
