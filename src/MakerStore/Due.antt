-- ===== src/MakerStore/Due.antt =====
-- `first_unfinished_hedge` of src/py000_nautilus/maker_store.py against the intents of all views, listed
-- view by view, instead of the dictionary that the code builds of them.
use arbi_nautilus.Base.{
  ◌≡◌, refl, sym, subst, ap, ◌∙◌, inl, inr, ◌⊎◌, Bool, true, false, not, ◌&&◌, String, Option, none,
  some, List, [], ◌∷◌, ◌++◌, map, Dict, lookup, insert, values, lookup-insert, member, any, arith,
  All, ◌==◌, string_eq, if◌then◌else◌, Bool-cases,
}
use mathlib.Core.List.{append-nil, append_assoc}
use arbi_nautilus.MakerStore.Dispatch
use text.Mathlib.TextEquality.{eq_iff}
use arbi_nautilus.Models.{HedgeIntent, is_completed}
use arbi_nautilus.Models.Checks.{distinct}
use arbi_nautilus.MakerStore.{View, Allocation, Terms, Books, state_of, all_views}
use arbi_nautilus.MakerStore.Dispatch.{
  Owned, own_intents, own_views, owned_intents, IsSettled, IsFirst, here, later,
  first_owned-Selected, legacy_unfinished, first_owned, first_unfinished_hedge,
}

-- `x` is an item of the list.
abbrev pub In : {A : Type 0} → A → List A → Type 0
In x [] = ⊥
In x (y ∷ ys) = (x ≡ y) ⊎ In x ys

abbrev pub key_of : Owned → String
key_of owned = owned.1.fill_key

-- The intents of the views, with their view.
abbrev pub all_owned : Books → List View → List Owned
all_owned b [] = []
all_owned b (v ∷ views) =
    map (λ i. (v, i)) (values (state_of v b).hedge_intents) ++ all_owned b views

abbrev owned_keys : List Owned → List String
owned_keys = map key_of

abbrev fold_owned : List Owned → Dict Owned → Dict Owned
fold_owned [] d = d
fold_owned (o ∷ os) d = fold_owned os (insert (key_of o) o d)

fold-append :
    (os ps : List Owned) (d : Dict Owned)
    → fold_owned (os ++ ps) d ≡ fold_owned ps (fold_owned os d)
fold-append [] ps d = refl
fold-append (o ∷ os) ps d = fold-append os ps (insert (key_of o) o d)

own_intents-fold :
    (v : View) (intents : List HedgeIntent) (d : Dict Owned)
    → own_intents v intents d ≡ fold_owned (map (λ i. (v, i)) intents) d
own_intents-fold v [] d = refl
own_intents-fold v (i ∷ intents) d = own_intents-fold v intents (insert i.fill_key (v, i) d)

own_views-fold :
    (b : Books) (views : List View) (d : Dict Owned)
    → own_views b views d ≡ fold_owned (all_owned b views) d
own_views-fold b [] d = refl
own_views-fold b (v ∷ views) d =
    own_views-fold b views (own_intents v (values (state_of v b).hedge_intents) d)
    ∙ ap (fold_owned (all_owned b views))
        (own_intents-fold v (values (state_of v b).hedge_intents) d)
    ∙ sym (
        fold-append (map (λ i. (v, i)) (values (state_of v b).hedge_intents)) (all_owned b views) d)

-- What is found under a key carries it, and comes from the list or was there before.
found-In :
    (os : List Owned) (d : Dict Owned) (k : String) (o : Owned)
    → lookup k (fold_owned os d) ≡ some o
    → (In o os × (key_of o ≡ k)) ⊎ (lookup k d ≡ some o)
found-In [] d k o h = inr h
found-In (p ∷ os) d k o h = elim (found-In os (insert (key_of p) p d) k o h) [
  | inl (deeper, same) ↦ inl (inr deeper, same)
  | inr before ↦ elim (Bool-cases (key_of p == k)) [
    | inl same ↦
        let first : p ≡ o = ground (arith, lookup-insert (key_of p) k p d) in
        inl (inl (sym first), ap key_of (sym first) ∙ (eq_iff (key_of p) k).0 same)
    | inr other ↦ inr (ground (arith, lookup-insert (key_of p) k p d))
  ]
]

absent_key :
    (os : List Owned) (d : Dict Owned) (k : String)
    → member k (owned_keys os) ≡ false
    → lookup k (fold_owned os d) ≡ lookup k d
absent_key [] d k h = refl
absent_key (p ∷ os) d k h =
    absent_key os (insert (key_of p) p d) k (ground (arith, h))
    ∙ ground (arith, lookup-insert (key_of p) k p d, h)

-- With distinct keys every intent of the list is found under its key.
finds :
    (os : List Owned) (d : Dict Owned) (o : Owned)
    → distinct (owned_keys os) ≡ true
    → In o os
    → lookup (key_of o) (fold_owned os d) ≡ some o
finds [] d o h m = elim m [ ]
finds (p ∷ os) d o h (inl first) =
    subst (λ x. lookup (key_of x) (fold_owned (p ∷ os) d) ≡ some x) (sym first)
      (absent_key os (insert (key_of p) p d) (key_of p) (ground (arith, h))
        ∙ ground (arith, lookup-insert (key_of p) (key_of p) p d, eq_iff (key_of p) (key_of p)))
finds (p ∷ os) d o h (inr deeper) = finds os (insert (key_of p) p d) o (ground (arith, h)) deeper

values-insert :
    (k : String) (v : Owned) (d : Dict Owned)
    → lookup k d ≡ none
    → values (insert k v d) ≡ values d ++ v ∷ []
values-insert k v [] h = refl
values-insert k v ((j, w) ∷ d) h = elim (Bool-cases (j == k)) [
  | inl same ↦ absurd (ground arith)
  | inr other ↦ rw (other, insert) (ap (λ xs. w ∷ xs) (values-insert k v d (ground arith)))
]

-- None of the keys is in the dictionary yet.
abbrev AllNew : List Owned → Dict Owned → Type 0
AllNew os d = All (λ o. lookup (key_of o) d ≡ none) os

AllNew-insert :
    (p : Owned) (os : List Owned) (d : Dict Owned)
    → member (key_of p) (owned_keys os) ≡ false
    → AllNew os d
    → AllNew os (insert (key_of p) p d)
AllNew-insert p [] d h new = tt
AllNew-insert p (o ∷ os) d h new = (
  ground (
    arith,
    lookup-insert (key_of p) (key_of o) p d,
    eq_iff (key_of p) (key_of o),
    eq_iff (key_of o) (key_of p),
    new.0,
    h,
  ),
  AllNew-insert p os d (ground (arith, h)) new.1,
)

AllNew-nil : (os : List Owned) → AllNew os []
AllNew-nil [] = tt
AllNew-nil (o ∷ os) = (refl, AllNew-nil os)

values-fold :
    (os : List Owned) (d : Dict Owned)
    → distinct (owned_keys os) ≡ true
    → AllNew os d
    → values (fold_owned os d) ≡ values d ++ os
values-fold [] d h new = sym (append-nil (values d))
values-fold (p ∷ os) d h new =
    values-fold os (insert (key_of p) p d) (ground (arith, h))
      (AllNew-insert p os d (ground (arith, h)) new.1)
    ∙ ap (λ xs. xs ++ os) (values-insert (key_of p) p d new.0)
    ∙ append_assoc (values d) (p ∷ []) os

-- An intent of the legacy checkpoint.
abbrev pub is_legacy : Terms → Owned → Bool
is_legacy terms owned = any (λ item. member owned.1.intent_id item.intent_ids) terms.legacy_orders

abbrev pub is_open : Owned → Bool
is_open owned = not (is_completed owned.1.status)

any-true :
    (p : Owned → Bool) (os : List Owned) → any p os ≡ true → (o : Owned) × In o os × (p o ≡ true)
any-true p [] h = absurd (ground arith)
any-true p (o ∷ os) h = elim (Bool-cases (p o)) [
  | inl first ↦ (o, inl refl, first)
  | inr other ↦ let (w, deeper, holds) = any-true p os (ground arith) in (w, inr deeper, holds)
]

any-false :
    (p : Owned → Bool) (os : List Owned) (o : Owned) → any p os ≡ false → In o os → p o ≡ false
any-false p [] o h m = elim m [ ]
any-false p (w ∷ os) o h (inl first) = rw first (ground (arith, h))
any-false p (w ∷ os) o h (inr deeper) = any-false p os o (ground (arith, h)) deeper

-- Every intent that carries this fill is completed.
abbrev pub IsDone : List Owned → Allocation → Type 0
IsDone os a = (o : Owned) → In o os → key_of o ≡ a.fill_key → is_completed o.1.status ≡ true

-- The intent is an unfinished one of the list, for a fill before which all are done.
pub data IsDue (os : List Owned) (o : Owned) : List Allocation → Type 0 where
  now :
      (a : Allocation) (items : List Allocation)
      → In o os
      → key_of o ≡ a.fill_key
      → is_completed o.1.status ≡ false
      → IsDue os o (a ∷ items)
  after :
      (a : Allocation) (items : List Allocation)
      → IsDone os a
      → IsDue os o items
      → IsDue os o (a ∷ items)

-- What is due: an intent, and then no legacy intent is open; or none, and then a legacy intent is
-- open, or every allocated fill is done.
abbrev pub Selected : Terms → List Owned → List Allocation → Option Owned → Type 0
Selected terms os items (some o) =
    IsDue os o items
    × ((p : Owned) → In p os → is_legacy terms p ≡ true → is_completed p.1.status ≡ true)
Selected terms os items none =
    ((p : Owned) × In p os × (is_legacy terms p ≡ true) × (is_completed p.1.status ≡ false))
    ⊎ All (IsDone os) items

module _ (os : List Owned) (unique : distinct (owned_keys os) ≡ true) where
  abbrev table : Dict Owned
  table = fold_owned os []

  IsSettled-IsDone : (a : Allocation) → IsSettled table a → IsDone os a
  IsSettled-IsDone a settled o m same = settled o (rw (← same) (finds os [] o unique m))

  All-IsDone : (items : List Allocation) → All (IsSettled table) items → All (IsDone os) items
  All-IsDone [] h = tt
  All-IsDone (a ∷ items) h = (IsSettled-IsDone a h.0, All-IsDone items h.1)

  IsFirst-IsDue : (o : Owned) (items : List Allocation) → IsFirst table o items → IsDue os o items
  IsFirst-IsDue o [] h = elim h [ ]
  IsFirst-IsDue o (a ∷ items) (here _ _ found unfinished) =
      elim (found-In os [] a.fill_key o found) [
        | inl (m, same) ↦ now a items m same unfinished
        | inr nothing ↦ absurd (ground arith)
      ]
  IsFirst-IsDue o (a ∷ items) (later _ _ settled rest) =
      after a items (IsSettled-IsDone a settled) (IsFirst-IsDue o items rest)

  module _ (terms : Terms) (items : List Allocation) where
    abbrev legacy_open : Owned → Bool
    legacy_open o = is_legacy terms o && is_open o

    listed : values table ≡ os
    listed = values-fold os [] unique (AllNew-nil os)

    opened :
        any legacy_open os ≡ true
        → (p : Owned) × In p os × (is_legacy terms p ≡ true) × (is_completed p.1.status ≡ false)
    opened h =
        let (p, m, holds) = any-true legacy_open os h in
        (p, m, ground (arith, holds), ground (arith, holds))

    closed :
        any legacy_open os ≡ false
        → (p : Owned) → In p os
        → is_legacy terms p ≡ true
        → is_completed p.1.status ≡ true
    closed h p m legacy = ground (arith, any-false legacy_open os p h m)

    select :
        (o : Option Owned)
        → Dispatch.Selected table items o
        → any legacy_open os ≡ false
        → Selected terms os items o
    select none h k = inr (All-IsDone items h)
    select (some o) h k = (IsFirst-IsDue o items h, closed k)

    -- The choice, by the test on the legacy intents.
    chosen_by :
        (test : Bool)
        → any legacy_open os ≡ test
        → Selected terms os items (if test then none else first_owned table items)
    chosen_by true h = inl (opened h)
    chosen_by false h = select (first_owned table items) (first_owned-Selected table items) h

    chosen :
        Selected terms os items
          (if any legacy_open (values table) then none else first_owned table items)
    chosen =
        subst
          (λ xs.
            Selected terms os items (if any legacy_open xs then none else first_owned table items))
          (sym listed) (chosen_by (any legacy_open os) refl)

-- Where no two intents of all views carry the same fill: a hedge that is due is an unfinished intent
-- of one of the views, for the first fill, in the order of the allocations, that has an intent not
-- completed, and no intent of the legacy checkpoint is open. None is due only where an intent of the
-- legacy checkpoint is open, or every intent of an allocated fill is completed.
pub first_unfinished_hedge-Selected :
    (terms : Terms) (b : Books)
    → distinct (map key_of (all_owned b (all_views terms))) ≡ true
    → Selected terms (all_owned b (all_views terms)) b.allocations (first_unfinished_hedge terms b)
unfolding first_unfinished_hedge legacy_unfinished owned_intents
first_unfinished_hedge-Selected terms b unique =
    let os = all_owned b (all_views terms) in
    let same = own_views-fold b (all_views terms) [] in
    subst
      (λ d. Selected terms os b.allocations (
        if any (legacy_open os unique terms b.allocations) (values d)
        then none
        else first_owned d b.allocations))
      (sym same) (chosen os unique terms b.allocations)
