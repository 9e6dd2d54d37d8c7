-- ===== src/MakerStore.antt =====
-- `MakerStateStore` of src/py000_nautilus/maker_store.py: two Maker views, and the Taker's where the
-- state is shared, whose fills are allocated to hedges route by route. Reading and writing the JSON of
-- the file are not modelled; an identity of a view is its name.
pub mod Publish
pub mod Fills
pub mod Dispatch
pub mod Due
pub mod Evidence
pub mod Booked
pub mod Release
pub mod Frozen
pub mod Freeze
pub mod Reserve
pub mod Balances
pub mod Bounded
pub mod Validate
use arbi_nautilus.Base.{
  Bool, true, false, not, ◌&&◌, ◌||◌, ◌≡◌, ◌↔◌, arith, ℕ, ◌*◌, ℤ, pos, neg, magnitude, ◌+ℤ◌, ◌-ℤ◌,
  leb_ℤ, String, Option, none, some, List, [], ◌∷◌, ◌++◌, Dict, lookup, insert, values, Table, get,
  put, codes, codes_le, is_some, is_none, member, all, any, Eq, ◌==◌, int_eq, string_eq, option_eq,
  option_beq_iff, if◌then◌else◌, Result, ok, err, key_error,
}
use arbi_nautilus.Models.{
  SourceDirection, long, short, BusinessOrderSide, HedgeIntent, is_completed, is_pending,
}
use arbi_nautilus.Models.Checks.{is_empty}
use arbi_nautilus.Models.Rounding.{round_hedge_ounces, of_ounces}
use arbi_nautilus.Store.{SourceOrderRecord, StoreState}

-- The entries of `stores`, and `taker_store`.
pub data View : Type 0 where
  bid ask taker : View

pub record Route : Type 0 where
  pub source_account_id : Option String
  pub source_client_id : Option String
  pub hedge_account_id : Option String
  pub hedge_client_id : Option String
  pub isolated_source_order_id : Option String

abbrev pub same_route : Route → Route → Bool
same_route a b =
    a.source_account_id == b.source_account_id
    && (a.source_client_id == b.source_client_id
        && (a.hedge_account_id == b.hedge_account_id
            && (a.hedge_client_id == b.hedge_client_id
                && (a.isolated_source_order_id == b.isolated_source_order_id))))

pub same_route_iff : (a b : Route) → (same_route a b ≡ true) ↔ (a ≡ b)
same_route_iff a b = ground (
  arith,
  option_beq_iff a.source_account_id b.source_account_id,
  option_beq_iff a.source_client_id b.source_client_id,
  option_beq_iff a.hedge_account_id b.hedge_account_id,
  option_beq_iff a.hedge_client_id b.hedge_client_id,
  option_beq_iff a.isolated_source_order_id b.isolated_source_order_id,
)

instance abbrev pub route_eq : Eq Route
route_eq = record { beq = same_route; beq_iff = same_route_iff }

pub record Allocation : Type 0 where
  pub fill_key : String
  pub route : Route
  pub signed_fill_ounces : ℤ
  pub allocated_ounces : ℤ

pub record LegacyOrder : Type 0 where
  pub client_order_id : String
  pub direction : SourceDirection
  pub route : Route
  pub filled_ounces : ℤ
  pub fill_keys : List String
  pub intent_ids : List String
  pub allocated_ounces : ℤ

-- What a `MakerStateStore` keeps unchanged after its construction.
pub record Terms : Type 0 where
  pub shared_strategy_ids : Option (String × String)
  pub residual_limit : ℤ
  pub carry_route : Option Route
  pub legacy_sources : Option (List (String × String))
  pub legacy_orders : List LegacyOrder

-- `_Snapshot`: all that is published, and restored.
pub record Books : Type 0 where
  pub bid_state : StoreState
  pub ask_state : StoreState
  pub taker_state : StoreState
  pub allocations : List Allocation
  pub cycle_freeze_only : Bool

abbrev pub state_of : View → Books → StoreState
state_of bid b = b.bid_state
state_of ask b = b.ask_state
state_of taker b = b.taker_state

abbrev pub set_state : View → StoreState → Books → Books
set_state bid s b = record b { bid_state = s }
set_state ask s b = record b { ask_state = s }
set_state taker s b = record b { taker_state = s }

abbrev pub is_shared : Terms → Bool
is_shared terms = is_some terms.shared_strategy_ids

-- `all_views`
abbrev pub all_views : Terms → List View
all_views terms = bid ∷ ask ∷ (if is_shared terms then taker ∷ [] else [])

-- `not value`, of a text that may be absent.
abbrev pub is_absent : Option String → Bool
is_absent none = true
is_absent (some text) = is_empty text

-- `_route`
unfoldable pub route_of : SourceOrderRecord → Route
route_of r = record {
  source_account_id = r.source_account_id;
  source_client_id = r.source_client_id;
  hedge_account_id = r.hedge_account_id;
  hedge_client_id = r.hedge_client_id;
  isolated_source_order_id =
      if is_absent r.source_account_id
        || (is_absent r.hedge_account_id || is_some r.hedge_position_id)
      then some r.client_order_id
      else none;
}

-- A route's balance, and the view whose fill came last.
abbrev pub Balances : Type 0
Balances = Table Route (ℤ × View)

-- `balances.get(route, (Decimal(0), ...))[0]`
abbrev pub balance_of : Route → Balances → ℤ
balance_of route balances = elim (get route balances) [ none ↦ pos 0 | some entry ↦ entry.0 ]

abbrev last_of : Option View → View → Bool → Option View
last_of (some later) v seen = some later
last_of none v true = some v
last_of none v false = none

-- `{key: view for view in views for key in seen}[fill_key]`: a later view wins.
abbrev view_of_fill : Books → String → List View → Option View
view_of_fill b key [] = none
view_of_fill b key (v ∷ views) =
    last_of (view_of_fill b key views) v (member key (state_of v b).seen_source_fills)

abbrev pub signed_legacy : LegacyOrder → ℤ
signed_legacy item = elim item.direction [
  | long ↦ item.filled_ounces
  | short ↦ neg item.filled_ounces
]

abbrev view_of : SourceDirection → View
view_of long = bid
view_of short = ask

-- The sort key of the historical display: longs first, then the order id.
abbrev legacy_le : LegacyOrder → LegacyOrder → Bool
legacy_le a b = elim a.direction [
  | long ↦ elim b.direction [
    | long ↦ codes_le (codes a.client_order_id) (codes b.client_order_id)
    | short ↦ true
  ]
  | short ↦ elim b.direction [
    | long ↦ false
    | short ↦ codes_le (codes a.client_order_id) (codes b.client_order_id)
  ]
]

abbrev insert_legacy : LegacyOrder → List LegacyOrder → List LegacyOrder
insert_legacy a [] = a ∷ []
insert_legacy a (b ∷ items) =
    let rest = insert_legacy a items in if legacy_le a b then a ∷ b ∷ items else b ∷ rest

abbrev pub sort_legacy : List LegacyOrder → List LegacyOrder
sort_legacy [] = []
sort_legacy (a ∷ items) = insert_legacy a (sort_legacy items)

abbrev pub checkpoint_fold : List LegacyOrder → Balances → Balances
checkpoint_fold [] balances = balances
checkpoint_fold (item ∷ items) balances = checkpoint_fold items (
    if item.filled_ounces == pos 0 && (item.allocated_ounces == pos 0)
    then balances
    else put item.route
        (
          balance_of item.route balances +ℤ signed_legacy item -ℤ item.allocated_ounces,
          view_of item.direction,
        )
        balances)

-- `_checkpoint_balances`
unfoldable pub checkpoint_balances : Terms → Balances
checkpoint_balances terms = checkpoint_fold (sort_legacy terms.legacy_orders) []

unfoldable pub allocation_fold : Terms → Books → List Allocation → Balances → Result Balances
allocation_fold terms b [] balances = ok balances
allocation_fold terms b (a ∷ items) balances = elim (view_of_fill b a.fill_key (all_views terms)) [
  | none ↦ err key_error
  | some v ↦ allocation_fold terms b items (
      put a.route (balance_of a.route balances +ℤ a.signed_fill_ounces -ℤ a.allocated_ounces, v)
        balances)
]

-- `_route_balances`
unfoldable pub route_balances : Terms → Books → Result Balances
route_balances terms b = allocation_fold terms b b.allocations (checkpoint_balances terms)

abbrev pub new_allocation : SourceOrderRecord → String → ℤ → ℤ → Allocation
new_allocation r key signed rounded = record {
  fill_key = key;
  route = route_of r;
  signed_fill_ounces = signed;
  allocated_ounces = of_ounces rounded;
}

abbrev pub append_allocation : Allocation → Books → Books
append_allocation a b = record b { allocations = b.allocations ++ a ∷ [] }

-- `_allocate`
unfoldable pub allocate_to_route :
    Terms → SourceOrderRecord → String → ℤ → Books → Result (ℤ × Books)
allocate_to_route terms r key signed b = elim (route_balances terms b) [
  | err e ↦ err e
  | ok balances ↦
      let rounded = round_hedge_ounces (balance_of (route_of r) balances +ℤ signed) in
      ok (rounded, append_allocation (new_allocation r key signed rounded) b)
]

abbrev nonzero : Balances → Table Route ℤ
nonzero [] = []
nonzero ((route, entry) ∷ balances) =
    let rest = nonzero balances in if entry.0 == pos 0 then rest else (route, entry.0) ∷ rest

-- `residuals`
unfoldable pub residuals : Terms → Books → Result (Table Route ℤ)
residuals terms b = elim (route_balances terms b) [
  | err e ↦ err e
  | ok balances ↦ ok (nonzero balances)
]

-- `carry_residual_ounces`
unfoldable pub carry_residual_ounces : Terms → Books → Result ℤ
carry_residual_ounces terms b = elim terms.carry_route [
  | none ↦ ok (pos 0)
  | some route ↦ elim (route_balances terms b) [
    | err e ↦ err e
    | ok balances ↦ ok (balance_of route balances)
  ]
]

abbrev pub within_limit : Terms → Route × ℤ → Bool
within_limit terms entry =
    some entry.0 == terms.carry_route && leb_ℤ (pos (magnitude entry.1)) terms.residual_limit

-- `source_balance_is_admissible`
unfoldable pub balance_is_admissible : Terms → Books → Result Bool
unfolding residuals
balance_is_admissible terms b = elim (residuals terms b) [
  | err e ↦ err e
  | ok entries ↦ ok (all (within_limit terms) entries)
]
