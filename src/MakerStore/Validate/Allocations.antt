-- ===== src/MakerStore/Validate/Allocations.antt =====
-- `_validate_allocations` and `_validate_checkpoint` of src/py000_nautilus/maker_store.py, and the
-- whole of `_validate`.
use arbi_nautilus.Base.{
  Bool, true, false, not, ◌&&◌, ◌||◌, ℤ, pos, neg, magnitude, ◌+ℤ◌, ◌-ℤ◌, leb_ℤ, ltb_ℤ, String,
  Option, none, some, List, [], ◌∷◌, ◌++◌, Dict, lookup, insert, remove, values, member, add, union,
  overlaps, contained, any, length, first_part, get, put, Table, is_some, is_none, ltb, ◌==◌,
  nat_eq, int_eq, string_eq, option_eq, if◌then◌else◌, Result, ok, err, Action, raise_if, or_raise,
  lift, modify, gets, for_each, ◌>>=◌, ◌>>◌, value_error, key_error,
}
use arbi_nautilus.Models.{buy, sell, SourceDirection, long, short, HedgeIntent, side_eq}
use arbi_nautilus.Models.Checks.{distinct}
use arbi_nautilus.Models.Rounding.{round_hedge_ounces, of_ounces}
use arbi_nautilus.Store.{SourceOrderRecord}
use arbi_nautilus.MakerStore.{
  View, Route, route_eq, Allocation, LegacyOrder, Terms, Books, Balances, state_of, all_views,
  route_of, checkpoint_balances,
}
use arbi_nautilus.MakerStore.Validate.{check_identities, no_identities}

-- What the walk over checkpoint and allocations keeps.
pub record Tally : Type 0 where
  pub intents : Dict HedgeIntent
  pub allocated_fills : List String
  pub source_totals : Dict ℤ
  pub balances : Table Route ℤ

abbrev pub amounts : Balances → Table Route ℤ
amounts [] = []
amounts ((route, entry) ∷ balances) = (route, entry.0) ∷ amounts balances

-- `balances.get(route, Decimal(0))`
abbrev pub amount_of : Route → Table Route ℤ → ℤ
amount_of route balances = elim (get route balances) [ none ↦ pos 0 | some v ↦ v ]

abbrev pub total_of : String → Dict ℤ → ℤ
total_of cid totals = elim (lookup cid totals) [ none ↦ pos 0 | some v ↦ v ]

abbrev merge {ℓ} : {V : Type ℓ} → Dict V → Dict V → Dict V
merge d [] = d
merge d ((k, v) ∷ e) = merge (insert k v d) e

abbrev records_of : Books → List View → Dict SourceOrderRecord → Dict SourceOrderRecord
records_of b [] records = records
records_of b (v ∷ views) records = records_of b views (merge records (state_of v b).source_orders)

abbrev seen_of : Books → List View → List String → List String
seen_of b [] seen = seen
seen_of b (v ∷ views) seen = seen_of b views (union seen (state_of v b).seen_source_fills)

abbrev pub all_intents : Books → List View → List HedgeIntent
all_intents b [] = []
all_intents b (v ∷ views) = values (state_of v b).hedge_intents ++ all_intents b views

abbrev pub by_key : (HedgeIntent → String) → List HedgeIntent → Dict HedgeIntent → Dict HedgeIntent
by_key key [] d = d
by_key key (i ∷ intents) d = by_key key intents (insert (key i) i d)

-- `directions[cid]`, over the two Maker views; the later one wins.
abbrev direction_of : Books → String → Option SourceDirection
direction_of b cid =
    if is_some (lookup cid b.ask_state.source_orders)
    then some short
    else if is_some (lookup cid b.bid_state.source_orders)
    then some long
    else none

abbrev same_direction : SourceDirection → SourceDirection → Bool
same_direction long long = true
same_direction short short = true
same_direction _ _ = false

-- The intents of one legacy order: known fills, allocated ounces, and the intents left.
pub record Known : Type 0 where
  pub known : ℤ
  pub allocated : ℤ
  pub left : Dict HedgeIntent

abbrev signed_hedge : HedgeIntent → ℤ
signed_hedge i =
    if i.hedge_side == sell then i.hedge_quantity_ounces else neg i.hedge_quantity_ounces

unfoldable pub check_legacy_intent :
    LegacyOrder → Dict HedgeIntent → String → Action Known (Unit {0})
check_legacy_intent item by_id id = do
  i ← or_raise (lookup id by_id) value_error
  popped ← gets (λ k. is_none (lookup i.fill_key k.left))
  raise_if
      (not (i.source_client_order_id == item.client_order_id)
        || (not (member i.fill_key item.fill_keys)
            || (leb_ℤ i.source_fill_ounces (pos 0) || popped)))
      value_error
  modify (λ k. record {
    known = k.known +ℤ i.source_fill_ounces;
    allocated = k.allocated +ℤ signed_hedge i;
    left = remove i.fill_key k.left;
  })

-- Whether the fills without an intent account for what the known ones leave.
abbrev legacy_differs : LegacyOrder → Known → Bool
legacy_differs item k =
    not (k.allocated == item.allocated_ounces)
    || (ltb_ℤ item.filled_ounces k.known
        || ((length item.fill_keys == length item.intent_ids && not (k.known == item.filled_ounces))
            || (ltb (length item.intent_ids) (length item.fill_keys)
                && leb_ℤ item.filled_ounces k.known)))

unfoldable pub legacy_known : LegacyOrder → Dict HedgeIntent → Known → Result Known
legacy_known item by_id start =
    let (r, k) = for_each item.intent_ids (check_legacy_intent item by_id) start in
    elim r [ ok _ ↦ ok k | err e ↦ err e ]

abbrev same_test : Bool → Bool → Bool
same_test a b = if a then b else not b

unfoldable pub check_legacy_order :
    Books → Dict SourceOrderRecord → Dict HedgeIntent → LegacyOrder → Action Tally (Unit {0})
check_legacy_order b records by_id item = do
  let cid = item.client_order_id
  order ← or_raise (lookup cid records) value_error
  again ← gets (λ t. is_some (lookup cid t.source_totals))
  raise_if again value_error
  direction ← or_raise (direction_of b cid) key_error
  raise_if
      (not (same_direction item.direction direction)
        || (not (item.route == route_of order) || ltb_ℤ item.filled_ounces (pos 0)))
      value_error
  crossed ← gets (λ t. overlaps t.allocated_fills item.fill_keys)
  raise_if
      (not (distinct item.fill_keys)
        || (crossed
            || (any (λ key. not (first_part key == cid)) item.fill_keys
                || (same_test (length item.fill_keys == 0) (ltb_ℤ (pos 0) item.filled_ounces)
                    || not (distinct item.intent_ids)))))
      value_error
  start ← gets (λ t. record { known = pos 0; allocated = pos 0; left = t.intents })
  k ← lift (legacy_known item by_id start)
  raise_if (legacy_differs item k) value_error
  modify (λ t. record t {
    intents = k.left;
    allocated_fills = union t.allocated_fills item.fill_keys;
    source_totals = insert cid item.filled_ounces t.source_totals;
  })

-- What an allocation asks of the intent that carries its fill: none where nothing was allocated,
-- else one of that quantity and side.
abbrev intent_differs : Allocation → Option HedgeIntent → Bool
intent_differs a none = not (a.allocated_ounces == pos 0)
intent_differs a (some i) =
    a.allocated_ounces == pos 0
    || (not (i.hedge_quantity_ounces == pos (magnitude a.allocated_ounces))
        || (not (i.source_fill_ounces == pos (magnitude a.signed_fill_ounces))
            || not (same_test (i.hedge_side == sell) (ltb_ℤ (pos 0) a.allocated_ounces))))

unfoldable pub is_foreign : List String → Allocation → Tally → Bool
is_foreign seen a t = not (member a.fill_key seen) || member a.fill_key t.allocated_fills

unfoldable pub is_misplaced : Allocation → SourceOrderRecord → Bool
is_misplaced a order =
    a.signed_fill_ounces == pos 0
    || (not (same_test (ltb_ℤ (pos 0) a.signed_fill_ounces) (order.side == buy))
        || not (a.route == route_of order))

-- The fill is known, and is allocated once, on its order's side and route.
unfoldable pub claim_fill :
    List String → Dict SourceOrderRecord → Allocation → Action Tally (Unit {0})
claim_fill seen records a = do
  foreign ← gets (is_foreign seen a)
  raise_if foreign value_error
  modify (λ t. record t { allocated_fills = add a.fill_key t.allocated_fills })
  order ← or_raise (lookup (first_part a.fill_key) records) key_error
  raise_if (is_misplaced a order) value_error

-- The allocated ounces are the rounded balance of the route, which keeps the rest.
unfoldable pub settle_route : Allocation → Action Tally (Unit {0})
settle_route a = do
  combined ← gets (λ t. amount_of a.route t.balances +ℤ a.signed_fill_ounces)
  raise_if (not (a.allocated_ounces == of_ounces (round_hedge_ounces combined))) value_error
  let cid = first_part a.fill_key
  modify (λ t. record t {
    balances = put a.route (combined -ℤ a.allocated_ounces) t.balances;
    source_totals =
        insert cid (total_of cid t.source_totals +ℤ pos (magnitude a.signed_fill_ounces))
          t.source_totals;
  })

unfoldable pub claim_intent : Allocation → Action Tally (Unit {0})
claim_intent a = do
  intent ← gets (λ t. lookup a.fill_key t.intents)
  modify (λ t. record t { intents = remove a.fill_key t.intents })
  raise_if (intent_differs a intent) value_error

-- One turn of the loop over the allocations.
abbrev pub check_allocation :
    List String → Dict SourceOrderRecord → Allocation → Action Tally (Unit {0})
check_allocation seen records a = do claim_fill seen records a; settle_route a; claim_intent a

abbrev totals_differ : Dict ℤ → Dict SourceOrderRecord → Bool
totals_differ totals [] = false
totals_differ totals ((cid, r) ∷ records) =
    not (total_of cid totals == r.filled_ounces) || totals_differ totals records

abbrev pub all_records : Terms → Books → Dict SourceOrderRecord
all_records terms b = records_of b (all_views terms) []

abbrev pub all_seen : Terms → Books → List String
all_seen terms b = seen_of b (all_views terms) []

-- The intents by their fill, and `_validate_checkpoint`, which takes the legacy ones.
unfoldable pub check_checkpoint : Terms → Books → Action Tally (Unit {0})
check_checkpoint terms b = do
  let found = all_intents b (all_views terms)
  let intents = by_key (λ i. i.fill_key) found []
  raise_if (not (length intents == length found)) value_error
  modify (λ t. record t { intents = intents })
  for_each terms.legacy_orders
      (check_legacy_order b (all_records terms b) (by_key (λ i. i.intent_id) (values intents) []))

-- Nothing seen is left without an allocation, no intent without a fill, and each order's total agrees.
unfoldable pub check_closing : Terms → Books → Action Tally (Unit {0})
check_closing terms b t =
    raise_if
      (not (
          contained t.allocated_fills (all_seen terms b)
          && contained (all_seen terms b) t.allocated_fills)
        || (not (length t.intents == 0) || totals_differ t.source_totals (all_records terms b)))
      value_error t

abbrev pub start_balances : Terms → Action Tally (Unit {0})
start_balances terms = modify (λ t. record t { balances = amounts (checkpoint_balances terms) })

-- The loop over the allocations and the last test.
abbrev pub check_order : Terms → Books → Action Tally (Unit {0})
check_order terms b = do
  start_balances terms
  for_each b.allocations (check_allocation (all_seen terms b) (all_records terms b))
  check_closing terms b

-- `_validate_allocations`, from an empty tally.
unfoldable pub check_allocations : Terms → Books → Action Tally (Unit {0})
check_allocations terms b = do check_checkpoint terms b; check_order terms b

abbrev pub no_tally : Tally
no_tally = record { intents = []; allocated_fills = []; source_totals = []; balances = [] }

-- `_validate`
unfoldable pub validate : Terms → Books → Result (Unit {0})
validate terms b = elim (check_identities terms b no_identities).0 [
  | err e ↦ err e
  | ok _ ↦ (check_allocations terms b no_tally).0
]
