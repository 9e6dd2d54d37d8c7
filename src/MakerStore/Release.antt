-- ===== src/MakerStore/Release.antt =====
-- When the freeze of a cycle is released, and which residuals the release admits.
use arbi_nautilus.Base.{
  ◌≡◌, refl, sym, subst, ◌∙◌, inl, inr, ◌⊎◌, Bool, true, false, ◌&&◌, ℤ, pos, ◌≤ℤ◌, magnitude,
  String, Result-cases, none, some, List, [], ◌∷◌, arith, All, all, Error, Result, ok, err,
  sync_error, Bool-cases, pure, ◌>>◌, ◌>>=◌, option_beq, option_beq_iff, leb_ℤ, option_eq, ◌==◌,
  int_eq, if◌then◌else◌,
}
use arbi_nautilus.Durability.{DiskCalls}
use arbi_nautilus.MakerStore.{
  View, bid, ask, taker, Route, route_eq, Terms, Books, Balances, balance_of, nonzero,
  route_balances, within_limit, balance_is_admissible, residuals, is_shared, all_views,
}
use arbi_nautilus.MakerStore.Validate.Allocations.{validate}
use arbi_nautilus.MakerStore.Publish.{
  Owner, persist_books, clear_source_freezes, may_clear, release, thaw, without_provenance,
}
use arbi_nautilus.MakerStore.Evidence.{IsComplete, IsSole, may_clear-lem}
use arbi_nautilus.MakerStore.Frozen.{Persisted, persist_books-Persisted, candidate, reason_of}

conjuncts : (a b : Bool) → (a && b) ≡ true → (a ≡ true) × (b ≡ true)
conjuncts a b h = ground (arith, h)

-- A balance that needs no release of its own: zero, or the carried one within its limit.
abbrev pub IsCarried : Terms → Route → ℤ → Type 0
IsCarried terms r v =
    (v ≡ pos 0) ⊎ ((terms.carry_route ≡ some r) × (pos (magnitude v) ≤ℤ terms.residual_limit))

within :
    (terms : Terms) (r : Route) (v : ℤ)
    → within_limit terms (r, v) ≡ true
    → (terms.carry_route ≡ some r) × (pos (magnitude v) ≤ℤ terms.residual_limit)
within terms r v h =
    let split =
      conjuncts (option_beq (some r) terms.carry_route)
        (leb_ℤ (pos (magnitude v)) terms.residual_limit) h in
    (sym ((option_beq_iff (some r) terms.carry_route).0 split.0), ground (arith, split.1))

module _ (terms : Terms) (route : Route) (entry : ℤ × View) (t : Balances) where
  dropped : (entry.0 == pos 0) ≡ true → nonzero ((route, entry) ∷ t) ≡ nonzero t
  dropped e = ground (arith, e)

  kept : (entry.0 == pos 0) ≡ false → nonzero ((route, entry) ∷ t) ≡ (route, entry.0) ∷ nonzero t
  kept e = ground (arith, e)

  rest_within :
      all (within_limit terms) (nonzero ((route, entry) ∷ t)) ≡ true
      → all (within_limit terms) (nonzero t) ≡ true
  rest_within h = elim (Bool-cases (entry.0 == pos 0)) [
    | inl nothing ↦ subst (λ l. all (within_limit terms) l ≡ true) (dropped nothing) h
    | inr something ↦
        (conjuncts (within_limit terms (route, entry.0)) (all (within_limit terms) (nonzero t))
          (subst (λ l. all (within_limit terms) l ≡ true) (kept something) h)).1
  ]

  head-IsCarried :
      all (within_limit terms) (nonzero ((route, entry) ∷ t)) ≡ true → IsCarried terms route entry.0
  head-IsCarried h = elim (Bool-cases (entry.0 == pos 0)) [
    | inl nothing ↦ inl ((int_eq.beq_iff entry.0 (pos 0)).0 nothing)
    | inr something ↦ inr (
        within terms route entry.0
          (conjuncts (within_limit terms (route, entry.0)) (all (within_limit terms) (nonzero t))
            (subst (λ l. all (within_limit terms) l ≡ true) (kept something) h)).0)
  ]

carried :
    (terms : Terms) (r : Route) (t : Balances)
    → all (within_limit terms) (nonzero t) ≡ true
    → IsCarried terms r (balance_of r t)
carried terms r [] h = inl refl
carried terms r ((route, entry) ∷ t) h = elim (Bool-cases (route == r)) [
  | inl here ↦ subst (IsCarried terms r) (sym (rw (balance_of, here) refl)) (
      subst (λ x. IsCarried terms x entry.0) ((route_eq.beq_iff route r).0 here)
        (head-IsCarried terms route entry t h))
  | inr there ↦
      subst (IsCarried terms r) (sym (rw (balance_of, there) refl))
        (carried terms r t (rest_within terms route entry t h))
]

-- Where the balance is admissible, every route's is zero, or the carry route's and within the limit.
pub balance_is_admissible-IsCarried :
    (terms : Terms) (b : Books) (balances : Balances) (r : Route)
    → route_balances terms b ≡ ok balances
    → balance_is_admissible terms b ≡ ok true
    → IsCarried terms r (balance_of r balances)
unfolding balance_is_admissible
balance_is_admissible-IsCarried terms b balances r e h = carried terms r balances (ground arith)

-- What a release asks of the state before it: no failed publication, a balance that is zero or carried
-- on every route, one freeze reason, and nothing under way in any view.
pub record IsReleasable (terms : Terms) (o : Owner) : Type 0 where
  pub published : o.freeze_publication_failed ≡ false
  pub carried :
      (t : Balances) × (route_balances terms o.books ≡ ok t)
      × ((r : Route) → IsCarried terms r (balance_of r t))
  pub reason : (text : String) × IsSole o.books text (all_views terms)
  pub complete : All (IsComplete o.books) (all_views terms)

may_clear-IsReleasable :
    (terms : Terms) (o : Owner) → may_clear terms o ≡ ok true → IsReleasable terms o
unfolding balance_is_admissible residuals
may_clear-IsReleasable terms o h =
    let (fine, admissible, reason, complete) = may_clear-lem terms o h in
    elim (Result-cases (route_balances terms o.books)) [
      | inl (e, failed) ↦ absurd (ground arith)
      | inr (t, found) ↦ record {
        published = fine;
        carried =
            (t, found, λ r. balance_is_admissible-IsCarried terms o.books t r found admissible);
        reason = reason;
        complete = complete;
      }
    ]

-- What `clear_source_freezes` did, by how it ended.
abbrev pub Cleared : Terms → Owner → Result Bool × Owner → Type 0
Cleared terms o (ok true, o') =
    IsReleasable terms o
    × (All (λ v. reason_of v o'.books ≡ none) (all_views terms)
        × ((o'.file ≡ some o'.books) × (validate terms o'.books ≡ ok tt)))
Cleared terms o (ok false, o') = o' ≡ o
Cleared terms o (err sync_error, o') = (o' ≡ o) ⊎ (o'.freeze_publication_failed ≡ true)
Cleared terms o (err e, o') = (o' ≡ o) ⊎ ((o'.books ≡ o.committed) × (o'.file ≡ o.file))

abbrev thawed : Terms → Owner → Owner
thawed terms o = record o { books = without_provenance (thaw (all_views terms) o.books) }

abbrev AllThawed : List View → Books → Type 0
AllThawed views b = All (λ v. reason_of v b ≡ none) views

thaw_by :
    (shared : Bool) (b : Books)
    → let views = bid ∷ ask ∷ (if shared then taker ∷ [] else []) in
      AllThawed views (without_provenance (thaw views b))
thaw_by true b = (refl, (refl, (refl, tt)))
thaw_by false b = (refl, (refl, tt))

candidate-reason : (o : Owner) (v : View) → reason_of v (candidate o) ≡ reason_of v o.books
candidate-reason o v = ground arith

candidate-thawed :
    (o : Owner) (views : List View) → AllThawed views o.books → AllThawed views (candidate o)
candidate-thawed o [] h = tt
candidate-thawed o (v ∷ views) h = (candidate-reason o v ∙ h.0, candidate-thawed o views h.1)

unchanged : (terms : Terms) (o : Owner) (e : Error) → Cleared terms o (err e, o)
unchanged terms o sync_error = inl refl
unchanged terms o e = inl refl

module _ (terms : Terms) (disk : DiskCalls) (o : Owner) where
  released :
      (p : Result (Unit {0}) × Owner)
      → may_clear terms o ≡ ok true
      → Persisted terms disk (thawed terms o) p
      → Cleared terms o ((do (λ _. p); pure true) (thawed terms o))
  released (ok _, o') h k = (
    may_clear-IsReleasable terms o h,
    (
      subst (AllThawed (all_views terms)) (sym k.0)
          (candidate-thawed (thawed terms o) (all_views terms) (thaw_by (is_shared terms) o.books)),
      (k.1.1.0, k.1.1.1),
    ),
  )
  released (err sync_error, o') h k = inr k.1.1.0
  released (err e, o') h k = inr (k.0, k.1.1.0)

  raised : (e : Error) → may_clear terms o ≡ err e → clear_source_freezes terms disk o ≡ (err e, o)
  unfolding clear_source_freezes
  raised e h = ground (arith, h)

  pub kept_shut : may_clear terms o ≡ ok false → clear_source_freezes terms disk o ≡ (ok false, o)
  unfolding clear_source_freezes
  kept_shut h = ground (arith, h)

  opened : may_clear terms o ≡ ok true → clear_source_freezes terms disk o ≡ release terms disk o
  unfolding clear_source_freezes
  opened h = rw (◌>>=◌, h) refl

  by_case :
      (r : Result Bool)
      → may_clear terms o ≡ r
      → Cleared terms o (clear_source_freezes terms disk o)
  by_case (err e) h = subst (Cleared terms o) (sym (raised e h)) (unchanged terms o e)
  by_case (ok false) h = subst (Cleared terms o) (sym (kept_shut h)) refl
  by_case (ok true) h = subst (Cleared terms o) (sym (opened h)) (
      released (persist_books terms disk (thawed terms o)) h
        (persist_books-Persisted terms disk (thawed terms o)))

  -- A call that returns true found no failed publication, on every route a balance that is zero or the
  -- carry route's within its limit, one freeze reason, and on every view no halt, no active source
  -- order, only terminal orders and only completed intents hedged for their quantity; and it leaves
  -- every view unfrozen, in a valid published state. One that returns false changes nothing; one that
  -- raises changed nothing, or took memory back to the committed state, or latched the failed sync.
  pub clear_source_freezes-Cleared : Cleared terms o (clear_source_freezes terms disk o)
  clear_source_freezes-Cleared = by_case (may_clear terms o) refl
