-- ===== src/MakerStore/Dispatch.antt =====
-- Whose hedge goes out next: `first_unfinished_hedge`, `next_pending_hedge` and
-- `hedge_dispatch_ready` of src/py000_nautilus/maker_store.py.
use arbi_nautilus.Base.{
  ◌≡◌, sym, subst, inl, inr, Bool, true, false, not, ◌&&◌, String, Option, none, some, List, [],
  ◌∷◌, Dict, lookup, insert, values, member, any, is_none, arith, All, ◌==◌, string_eq,
  if◌then◌else◌, Bool-cases, Option-cases,
}
use arbi_nautilus.Models.{SourceDirection, long, short, HedgeIntent, is_completed, is_pending}
use arbi_nautilus.MakerStore.{
  View, bid, ask, taker, Allocation, Terms, Books, state_of, all_views, is_shared,
}
use arbi_nautilus.MakerStore.Publish.{same_view}

abbrev pub Owned : Type 0
Owned = View × HedgeIntent

abbrev pub own_intents : View → List HedgeIntent → Dict Owned → Dict Owned
own_intents v [] d = d
own_intents v (i ∷ intents) d = own_intents v intents (insert i.fill_key (v, i) d)

abbrev pub own_views : Books → List View → Dict Owned → Dict Owned
own_views b [] d = d
own_views b (v ∷ views) d =
    own_views b views (own_intents v (values (state_of v b).hedge_intents) d)

-- `{intent.fill_key: (view, intent) ...}`
unfoldable pub owned_intents : Terms → Books → Dict Owned
owned_intents terms b = own_views b (all_views terms) []

-- An unfinished intent of the legacy checkpoint.
unfoldable pub legacy_unfinished : Terms → Dict Owned → Bool
legacy_unfinished terms d =
    any
      (λ owned.
        any (λ item. member owned.1.intent_id item.intent_ids) terms.legacy_orders
        && not (is_completed owned.1.status))
      (values d)

-- The loop over the allocations.
unfoldable pub first_owned : Dict Owned → List Allocation → Option Owned
first_owned d [] = none
first_owned d (a ∷ items) =
    let rest = first_owned d items in
    elim (lookup a.fill_key d) [
      | none ↦ rest
      | some owned ↦ if is_completed owned.1.status then rest else some owned
    ]

-- `first_unfinished_hedge`
unfoldable pub first_unfinished_hedge : Terms → Books → Option Owned
first_unfinished_hedge terms b =
    let d = owned_intents terms b in
    if legacy_unfinished terms d then none else first_owned d b.allocations

abbrev direction_of_view : View → Option SourceDirection
direction_of_view bid = some long
direction_of_view ask = some short
direction_of_view taker = none

abbrev with_direction :
    HedgeIntent → Option SourceDirection → Option (SourceDirection × HedgeIntent)
with_direction i none = none
with_direction i (some direction) = some (direction, i)

-- `next_pending_hedge`
unfoldable pub next_pending_hedge : Terms → Books → Option (SourceDirection × HedgeIntent)
next_pending_hedge terms b = elim (first_unfinished_hedge terms b) [
  | none ↦ none
  | some owned ↦
      if is_pending owned.1.status && is_none owned.1.hedge_client_order_id
      then with_direction owned.1 (direction_of_view owned.0)
      else none
]

abbrev is_owned : View → String → Option Owned → Bool
is_owned v id none = false
is_owned v id (some owned) = same_view owned.0 v && (owned.1.intent_id == id)

-- `hedge_dispatch_ready` of the direction store.
unfoldable pub hedge_dispatch_ready : Terms → Books → View → String → Bool
hedge_dispatch_ready terms b v id =
    if is_shared terms then is_owned v id (first_unfinished_hedge terms b) else true

-- The intent of this allocation, if it has one, is completed.
abbrev pub IsSettled : Dict Owned → Allocation → Type 0
IsSettled d a =
    (owned : Owned) → lookup a.fill_key d ≡ some owned → is_completed owned.1.status ≡ true

-- The chosen intent belongs to an allocation before which everything is settled.
pub data IsFirst (d : Dict Owned) (owned : Owned) : List Allocation → Type 0 where
  here :
      (a : Allocation) (items : List Allocation)
      → lookup a.fill_key d ≡ some owned
      → is_completed owned.1.status ≡ false
      → IsFirst d owned (a ∷ items)
  later :
      (a : Allocation) (items : List Allocation)
      → IsSettled d a
      → IsFirst d owned items
      → IsFirst d owned (a ∷ items)

-- What the loop returns, by whether it found an intent.
abbrev pub Selected : Dict Owned → List Allocation → Option Owned → Type 0
Selected d items none = All (IsSettled d) items
Selected d items (some owned) = IsFirst d owned items

skip :
    (d : Dict Owned) (a : Allocation) (items : List Allocation) (o : Option Owned)
    → IsSettled d a
    → Selected d items o
    → Selected d (a ∷ items) o
skip d a items none settled rest = (settled, rest)
skip d a items (some owned) settled rest = later a items settled rest

passed_over :
    (d : Dict Owned) (a : Allocation) (items : List Allocation)
    → first_owned d (a ∷ items) ≡ first_owned d items
    → IsSettled d a
    → Selected d items (first_owned d items)
    → Selected d (a ∷ items) (first_owned d (a ∷ items))
passed_over d a items e settled rest =
    subst (Selected d (a ∷ items)) (sym e) (skip d a items (first_owned d items) settled rest)

pub first_owned-Selected :
    (d : Dict Owned) (items : List Allocation) → Selected d items (first_owned d items)
unfolding first_owned
first_owned-Selected d [] = tt
first_owned-Selected d (a ∷ items) = elim (Option-cases (lookup a.fill_key d)) [
  | inl absent ↦
      passed_over d a items (ground arith) (λ owned e. ground arith) (first_owned-Selected d items)
  | inr (owned, found) ↦ elim (Bool-cases (is_completed owned.1.status)) [
    | inl done ↦
        passed_over d a items (ground arith) (λ other e. ground arith)
          (first_owned-Selected d items)
    | inr unfinished ↦
        subst (Selected d (a ∷ items)) (sym (taken owned found unfinished))
          (here a items found unfinished)
  ]
]
  where
    taken :
        (owned : Owned)
        → lookup a.fill_key d ≡ some owned
        → is_completed owned.1.status ≡ false
        → first_owned d (a ∷ items) ≡ some owned
    taken owned found unfinished = ground arith

same_view_iff : (v w : View) → same_view v w ≡ true → v ≡ w
same_view_iff v w h = ground arith

-- In a state shared by the Makers and the Taker, at most one intent of all views may be dispatched.
pub hedge_dispatch_ready_unique :
    (terms : Terms) (b : Books) (v w : View) (id id' : String)
    → is_shared terms ≡ true
    → hedge_dispatch_ready terms b v id ≡ true
    → hedge_dispatch_ready terms b w id' ≡ true
    → (v ≡ w) × (id ≡ id')
unfolding hedge_dispatch_ready
hedge_dispatch_ready_unique terms b v w id id' shared h k =
    elim (Option-cases (first_unfinished_hedge terms b)) [
      | inl missing ↦ absurd (ground arith)
      | inr (owned, found) ↦ ground (
        arith,
        same_view_iff owned.0 v,
        same_view_iff owned.0 w,
        string_eq.beq_iff owned.1.intent_id id,
        string_eq.beq_iff owned.1.intent_id id',
      )
    ]
