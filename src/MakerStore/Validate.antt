-- ===== src/MakerStore/Validate.antt =====
-- `_validate` of src/py000_nautilus/maker_store.py: the identities of the views. A set is a list
-- without order; the errors of an iteration over a set do not depend on its order.
pub mod Allocations
pub mod Quiet
use arbi_nautilus.Base.{
  ℕ, Bool, true, false, not, ◌&&◌, ◌||◌, ℤ, pos, String, Option, none, some, List, [], ◌∷◌, ◌++◌,
  Dict, lookup, insert, member, add, union, overlaps, all, any, length, get_elem?, split_bar,
  is_some, is_none, ◌==◌, nat_eq, int_eq, string_eq, option_eq, if◌then◌else◌, Result, ok, err,
  Action, pure, raise_if, or_raise, lift, modify, gets, for_each, ◌>>=◌, ◌>>◌, value_error,
  key_error,
}
use arbi_nautilus.Models.{BusinessOrderSide, buy, sell, HedgeIntent, side_eq}
use arbi_nautilus.Models.Checks.{is_empty}
use arbi_nautilus.Store.{SourceOrderRecord, StoreState}
use arbi_nautilus.MakerStore.{
  View, bid, ask, taker, Terms, Books, state_of, all_views, is_shared, is_absent,
}

-- The sets that grow from view to view, and the hedge accounts of the current view.
pub record Identities : Type 0 where
  pub source_ids : List String
  pub fill_keys : List String
  pub intent_ids : List String
  pub hedge_ids : List String
  pub hedge_fill_keys : List String
  pub source_trades : List (Option String × String)
  pub hedge_trades : List (Option String × String)
  pub hedge_accounts : Dict (Option String)

abbrev pub no_identities : Identities
no_identities = record {
  source_ids = [];
  fill_keys = [];
  intent_ids = [];
  hedge_ids = [];
  hedge_fill_keys = [];
  source_trades = [];
  hedge_trades = [];
  hedge_accounts = [];
}

abbrev has_trade : Option String × String → List (Option String × String) → Bool
has_trade trade trades = any (λ known. known.0 == trade.0 && (known.1 == trade.1)) trades

-- The side of a Maker view; the Taker's view holds both.
abbrev pub side_of_view : View → Option BusinessOrderSide
side_of_view bid = some buy
side_of_view ask = some sell
side_of_view taker = none

abbrev differs : Option BusinessOrderSide → BusinessOrderSide → Bool
differs none side = false
differs (some expected) side = not (side == expected)

abbrev part : String → ℕ → Option String
part key = get_elem? (split_bar key)

unfoldable pub check_source :
    Option BusinessOrderSide → String × SourceOrderRecord → Action Identities (Unit {0})
check_source side entry = do
  known ← gets (λ seen. member entry.0 seen.source_ids)
  raise_if (not (entry.0 == entry.1.client_order_id) || (is_empty entry.0 || known)) value_error
  raise_if (differs side entry.1.side) value_error
  modify (λ seen. record seen { source_ids = add entry.0 seen.source_ids })

-- `len(parts) != n or not all(parts)`
abbrev has_parts : ℕ → String → Bool
has_parts n key = length (split_bar key) == n && all (λ text. not (is_empty text)) (split_bar key)

unfoldable pub check_source_fill : StoreState → String → Action Identities (Unit {0})
check_source_fill s key = do
  raise_if (not (has_parts 3 key)) value_error
  cid ← or_raise (part key 0) value_error
  order ← or_raise (lookup cid s.source_orders) value_error
  trade ← or_raise (part key 2) value_error
  known ← gets (λ seen. has_trade (order.source_account_id, trade) seen.source_trades)
  raise_if known value_error
  modify (λ seen. record seen {
    source_trades = (order.source_account_id, trade) ∷ seen.source_trades;
  })

abbrev order_ids : HedgeIntent → List String
order_ids i = elim i.hedge_client_order_id [
  | none ↦ i.hedge_order_ids
  | some cid ↦ add cid i.hedge_order_ids
]

abbrev set_accounts : Option String → List String → Dict (Option String) → Dict (Option String)
set_accounts account [] accounts = accounts
set_accounts account (cid ∷ ids) accounts = set_accounts account ids (insert cid account accounts)

-- The parts of the key exist: the key is one of the view's, which were checked.
unfoldable pub check_intent_identity :
    StoreState → Option BusinessOrderSide → String × HedgeIntent → Action Identities (Unit {0})
check_intent_identity s side entry = do
  let i = entry.1
  known ← gets (λ seen. member entry.0 seen.intent_ids)
  raise_if (not (entry.0 == i.intent_id) || known) value_error
  raise_if (differs side i.source_side) value_error
  order ← or_raise (lookup i.source_client_order_id s.source_orders) value_error
  raise_if (not (member i.fill_key s.seen_source_fills)) value_error
  raise_if (not (i.source_side == order.side)) value_error
  raise_if
      (not (part i.fill_key 0 == some i.source_client_order_id)
        || not (part i.fill_key 2 == some i.source_trade_id))
      value_error
  modify (λ seen. record seen { intent_ids = add entry.0 seen.intent_ids })
  shared ← gets (λ seen. overlaps seen.hedge_ids (order_ids i))
  raise_if shared value_error
  modify (λ seen. record seen {
    hedge_ids = union seen.hedge_ids (order_ids i);
    hedge_accounts = set_accounts order.hedge_account_id (order_ids i) seen.hedge_accounts;
  })

unfoldable pub check_hedge_fill : String → Action Identities (Unit {0})
check_hedge_fill key = do
  raise_if (not (has_parts 2 key)) value_error
  cid ← or_raise (part key 0) value_error
  found ← gets (λ seen. lookup cid seen.hedge_accounts)
  account ← or_raise found value_error
  trade ← or_raise (part key 1) value_error
  known ← gets (λ seen. has_trade (account, trade) seen.hedge_trades)
  raise_if known value_error
  modify (λ seen. record seen { hedge_trades = (account, trade) ∷ seen.hedge_trades })

abbrev active_is_missing : StoreState → Bool
active_is_missing s = elim s.active_source_order_id [
  | none ↦ false
  | some cid ↦ is_none (lookup cid s.source_orders)
]

unfoldable pub check_view : Books → View → Action Identities (Unit {0})
unfolding check_source check_source_fill check_intent_identity check_hedge_fill
check_view b v = do
  let s = state_of v b
  let side = side_of_view v
  raise_if (active_is_missing s) value_error
  raise_if (not (s.net_unhedged_ounces == pos 0)) value_error
  for_each s.source_orders (check_source side)
  again ← gets (λ seen.
      overlaps seen.fill_keys s.seen_source_fills
      || overlaps seen.hedge_fill_keys s.seen_hedge_fills)
  raise_if again value_error
  modify (λ seen. record seen {
    fill_keys = union seen.fill_keys s.seen_source_fills;
    hedge_fill_keys = union seen.hedge_fill_keys s.seen_hedge_fills;
    hedge_accounts = [];
  })
  for_each s.seen_source_fills (check_source_fill s)
  for_each s.hedge_intents (check_intent_identity s side)
  for_each s.seen_hedge_fills check_hedge_fill

-- The provenance of a cycle freeze asks for one reason, not empty, on every view.
abbrev pub freezes_match : Terms → Books → Bool
freezes_match terms b =
    all
      (λ v.
        not (is_absent (state_of v b).source_freeze_reason)
        && ((state_of v b).source_freeze_reason == b.bid_state.source_freeze_reason))
      (all_views terms)

abbrev claims_legacy : Terms → Bool
claims_legacy terms = is_some terms.legacy_sources || not (length terms.legacy_orders == 0)

unfoldable pub check_identities : Terms → Books → Action Identities (Unit {0})
unfolding check_view
check_identities terms b = do
  raise_if (is_shared terms && claims_legacy terms) value_error
  raise_if (b.cycle_freeze_only && not (freezes_match terms b)) value_error
  for_each (all_views terms) (check_view b)
  both ← gets (λ seen. overlaps seen.source_ids seen.hedge_ids)
  raise_if both value_error
