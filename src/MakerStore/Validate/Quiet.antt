-- ===== src/MakerStore/Validate/Quiet.antt =====
-- `_validate` of src/py000_nautilus/maker_store.py raises its own errors, never the disk's.
use arbi_nautilus.Base.{
  ◌≢◌, String, List, [], ◌∷◌, arith, err, sync_error, Action, for_each, ◌>>=◌, Result-cases, inl,
  inr, ◌∙◌, Option, Dict, union, values, ◌>>◌,
}
use arbi_nautilus.Models.{BusinessOrderSide, HedgeIntent}
use arbi_nautilus.Store.{SourceOrderRecord, StoreState}
use arbi_nautilus.MakerStore.{View, Terms, Books, LegacyOrder, Allocation, all_views, state_of}
use arbi_nautilus.MakerStore.Validate.{
  Identities, check_source, check_source_fill, check_intent_identity, check_hedge_fill, check_view,
  check_identities, no_identities, side_of_view,
}
use arbi_nautilus.MakerStore.Validate.Allocations.{
  Known, by_key, all_intents, all_seen, all_records, start_balances, no_tally, claim_fill,
  settle_route, claim_intent, check_allocation, check_legacy_intent, legacy_known,
  check_legacy_order, check_checkpoint, check_order, check_closing, check_allocations, validate,
}

-- The action never raises the directory-sync error.
abbrev Quiet : {S A : Type 0} → Action S A → Type 0
Quiet {S} m = (s : S) → (m s).0 ≢ err sync_error

bind-Quiet :
    {S A B : Type 0} (m : Action S A) (k : A → Action S B)
    → Quiet m
    → ((a : A) → Quiet (k a))
    → Quiet (m >>= k)
bind-Quiet m k h g s same = elim (Result-cases (m s).0) [
  | inl (e, failed) ↦ h s (failed ∙ ground (arith, same))
  | inr (a, done) ↦ g a (m s).1 (ground (arith, same))
]

for_each-Quiet :
    {S A : Type 0} (items : List A) (f : A → Action S (Unit {0}))
    → ((a : A) → Quiet (f a))
    → Quiet (for_each items f)
for_each-Quiet [] f h = λ s. ground arith
for_each-Quiet (a ∷ items) f h =
    bind-Quiet (f a) (λ _. for_each items f) (h a) (λ _. for_each-Quiet items f h)

source-Quiet :
    (side : Option BusinessOrderSide) (entry : String × SourceOrderRecord)
    → Quiet (check_source side entry)
unfolding check_source
source-Quiet side entry s = ground arith

fill-Quiet : (b : StoreState) (key : String) → Quiet (check_source_fill b key)
unfolding check_source_fill
fill-Quiet b key s = ground arith

identity-Quiet :
    (b : StoreState) (side : Option BusinessOrderSide) (entry : String × HedgeIntent)
    → Quiet (check_intent_identity b side entry)
unfolding check_intent_identity
identity-Quiet b side entry s = ground arith

hedge-Quiet : (key : String) → Quiet (check_hedge_fill key)
unfolding check_hedge_fill
hedge-Quiet key s = ground arith

claim_fill-Quiet :
    (seen : List String) (records : Dict SourceOrderRecord) (a : Allocation)
    → Quiet (claim_fill seen records a)
unfolding claim_fill
claim_fill-Quiet seen records a s = ground arith

settle_route-Quiet : (a : Allocation) → Quiet (settle_route a)
unfolding settle_route
settle_route-Quiet a s = ground arith

claim_intent-Quiet : (a : Allocation) → Quiet (claim_intent a)
unfolding claim_intent
claim_intent-Quiet a s = ground arith

legacy_intent-Quiet :
    (item : LegacyOrder) (by_id : Dict HedgeIntent) (id : String)
    → Quiet (check_legacy_intent item by_id id)
unfolding check_legacy_intent
legacy_intent-Quiet item by_id id s = ground arith

closing-Quiet : (terms : Terms) (b : Books) → Quiet (check_closing terms b)
unfolding check_closing
closing-Quiet terms b s = ground arith

view-Quiet : (b : Books) (v : View) → Quiet (check_view b v)
unfolding check_view
view-Quiet b v s =
    let c = state_of v b in
    let t = (for_each c.source_orders (check_source (side_of_view v)) s).1 in
    let u : Identities = record t {
      fill_keys = union t.fill_keys c.seen_source_fills;
      hedge_fill_keys = union t.hedge_fill_keys c.seen_hedge_fills;
      hedge_accounts = [];
    } in
    let w = (for_each c.seen_source_fills (check_source_fill c) u).1 in
    let x = (for_each c.hedge_intents (check_intent_identity c (side_of_view v)) w).1 in
    ground (
      arith,
      for_each-Quiet c.source_orders (check_source (side_of_view v)) (source-Quiet (side_of_view v))
          s,
      for_each-Quiet c.seen_source_fills (check_source_fill c) (fill-Quiet c) u,
      for_each-Quiet c.hedge_intents (check_intent_identity c (side_of_view v))
          (identity-Quiet c (side_of_view v)) w,
      for_each-Quiet c.seen_hedge_fills check_hedge_fill hedge-Quiet x,
    )

known-Quiet :
    (item : LegacyOrder) (by_id : Dict HedgeIntent) (start : Known)
    → legacy_known item by_id start ≢ err sync_error
unfolding legacy_known
known-Quiet item by_id start = ground (
  arith,
  for_each-Quiet item.intent_ids (check_legacy_intent item by_id) (legacy_intent-Quiet item by_id)
      start,
)

legacy_order-Quiet :
    (b : Books) (records : Dict SourceOrderRecord) (by_id : Dict HedgeIntent) (item : LegacyOrder)
    → Quiet (check_legacy_order b records by_id item)
unfolding check_legacy_order
legacy_order-Quiet b records by_id item s = grind (arith, known-Quiet)

identities-Quiet : (terms : Terms) (b : Books) → Quiet (check_identities terms b)
unfolding check_identities
identities-Quiet terms b s =
    ground (arith, for_each-Quiet (all_views terms) (check_view b) (view-Quiet b) s)

allocation-Quiet :
    (seen : List String) (records : Dict SourceOrderRecord) (a : Allocation)
    → Quiet (check_allocation seen records a)
allocation-Quiet seen records a =
    bind-Quiet (claim_fill seen records a) (λ _. do settle_route a; claim_intent a)
      (claim_fill-Quiet seen records a)
      (λ _.
        bind-Quiet (settle_route a) (λ _. claim_intent a) (settle_route-Quiet a)
          (λ _. claim_intent-Quiet a))

order-Quiet : (terms : Terms) (b : Books) → Quiet (check_order terms b)
order-Quiet terms b =
    let loop = for_each b.allocations (check_allocation (all_seen terms b) (all_records terms b)) in
    bind-Quiet (start_balances terms) (λ _. do loop; check_closing terms b) (λ s. ground arith)
      (λ _.
        bind-Quiet loop (λ _. check_closing terms b)
          (for_each-Quiet b.allocations (check_allocation (all_seen terms b) (all_records terms b))
            (allocation-Quiet (all_seen terms b) (all_records terms b)))
          (λ _. closing-Quiet terms b))

checkpoint-Quiet : (terms : Terms) (b : Books) → Quiet (check_checkpoint terms b)
unfolding check_checkpoint
checkpoint-Quiet terms b s =
    let intents = by_key (λ i. i.fill_key) (all_intents b (all_views terms)) [] in
    let by_id = by_key (λ i. i.intent_id) (values intents) [] in
    ground (
      arith,
      for_each-Quiet terms.legacy_orders (check_legacy_order b (all_records terms b) by_id)
          (legacy_order-Quiet b (all_records terms b) by_id) (record s { intents = intents }),
    )

-- Whatever `_validate` raises, it is not the directory-sync error.
pub validate-not-sync : (terms : Terms) (b : Books) → validate terms b ≢ err sync_error
unfolding validate check_allocations
validate-not-sync terms b = ground (
  arith,
  identities-Quiet terms b no_identities,
  bind-Quiet (check_checkpoint terms b) (λ _. check_order terms b) (checkpoint-Quiet terms b)
      (λ _. order-Quiet terms b) no_tally,
)
