-- ===== src/Projection/Source/Scan.antt =====
-- The checks of `project_source_fills` in src/py000_nautilus/source_projection.py, for the single store of
-- the Taker: what is known, the loop over the records, and the suffix that the store has not seen.
use arbi_nautilus.Base.{
  Bool, true, false, not, ◌&&◌, ◌||◌, String, none, some, List, [], ◌∷◌, ◌++◌, Dict, lookup, insert,
  values, keys, contained, all, keep, take, is_some, length, first_part, ◌==◌, int_eq, string_eq,
  option_eq, nat_eq, Result, ok, err, value_error, key_error,
}
use arbi_nautilus.Base.Raises.{◌>>=◌, ◌>>◌, unless}
use arbi_nautilus.Models.Checks.{is_empty}
use arbi_nautilus.Store.{SourceOrderRecord, StoreState}
use arbi_nautilus.Projection.{FillFacts, VenueOrder, Owners, sum_fills, orders_by_id, drop}
use arbi_nautilus.Projection.Source.{
  OwnedFill, fill_key_of, checked_fills, check_recorded_facts, residual_of,
}

-- What the loop has gathered: every native fill by its key, the trades, and the suffixes.
pub record Gathered : Type 0 where
  pub native_fills : Dict OwnedFill
  pub trades : List (String × String)
  pub suffixes : List (String × List FillFacts)

abbrev pub nothing_yet : Gathered
nothing_yet = record { native_fills = []; trades = []; suffixes = [] }

abbrev pub has_trade : String × String → List (String × String) → Bool
has_trade t [] = false
has_trade t (u ∷ trades) = (u.0 == t.0 && (u.1 == t.1)) || has_trade t trades

abbrev pub trade_of : FillFacts → String × String
trade_of f = (f.fill_account_id, f.fill_trade_id)

abbrev pub gather_fill : String → FillFacts → Gathered → Gathered
gather_fill cid f g = record g {
  native_fills = insert (fill_key_of cid f) (cid, f) g.native_fills;
  trades = trade_of f ∷ g.trades;
}

-- The loop over the fills of one order.
unfoldable pub gather_fills : String → List FillFacts → Gathered → Result Gathered
gather_fills cid [] g = ok g
gather_fills cid (f ∷ fills) g = do
  unless (is_some (lookup (fill_key_of cid f) g.native_fills) || has_trade (trade_of f) g.trades)
      value_error
  gather_fills cid fills (gather_fill cid f g)

abbrev pub keys_of : String → List FillFacts → List String
keys_of cid [] = []
keys_of cid (f ∷ fills) = fill_key_of cid f ∷ keys_of cid fills

-- The seen keys of one order.
abbrev pub seen_of : String → StoreState → List String
seen_of cid s = keep (λ key. first_part key == cid) s.seen_source_fills

abbrev pub add_suffix : String → List FillFacts → Gathered → Gathered
add_suffix cid [] g = g
add_suffix cid (f ∷ suffix) g = record g { suffixes = g.suffixes ++ (cid, f ∷ suffix) ∷ [] }

-- The seen fills of one order are its first native fills, and add up to what is recorded.
unfoldable pub split_fills :
    StoreState → SourceOrderRecord → List FillFacts → Gathered → Result Gathered
split_fills s r fills g = do
  let cid = r.client_order_id
  let seen = seen_of cid s
  let count = length seen
  let first = keys_of cid (take count fills)
  unless (not (contained seen first && contained first seen)) value_error
  unless (not (sum_fills (take count fills) == r.filled_ounces)) value_error
  ok (add_suffix cid (drop count fills) g)

abbrev pub native_order : String → Dict VenueOrder → Result VenueOrder
native_order cid by_id = elim (lookup cid by_id) [ none ↦ err key_error | some o ↦ ok o ]

-- One round of the loop over the records.
unfoldable pub scan_record :
    Owners → StoreState → Dict VenueOrder → SourceOrderRecord → Gathered → Result Gathered
scan_record owners s by_id r g = do
  o ← native_order r.client_order_id by_id
  fills ← checked_fills owners o r
  gathered ← gather_fills r.client_order_id fills g
  split_fills s r fills gathered

unfoldable pub scan_records :
    Owners → StoreState → Dict VenueOrder → List SourceOrderRecord → Gathered → Result Gathered
scan_records owners s by_id [] g = ok g
scan_records owners s by_id (r ∷ records) g = do
  gathered ← scan_record owners s by_id r g
  scan_records owners s by_id records gathered

abbrev is_named : String × SourceOrderRecord → Bool
is_named entry = not (is_empty entry.0) && (entry.0 == entry.1.client_order_id)

abbrev active_is_known : StoreState → Bool
active_is_known s = elim s.active_source_order_id [
  | none ↦ true
  | some cid ↦ is_some (lookup cid s.source_orders)
]

-- The orders given are exactly those recorded.
unfoldable pub same_orders : StoreState → List VenueOrder → Bool
same_orders s orders =
    let by_id = orders_by_id orders [] in
    (length (keys by_id) == length orders)
    && (contained (keys s.source_orders) (keys by_id)
        && contained (keys by_id) (keys s.source_orders))

-- All checks before the write, in order; at most one suffix is left.
unfoldable pub check_projection :
    Owners → StoreState → List VenueOrder → Result (List (String × List FillFacts))
check_projection owners s orders = do
  unless (not (all is_named s.source_orders) || not (active_is_known s)) value_error
  unless (not (same_orders s orders)) value_error
  let by_id = orders_by_id orders []
  gathered ← scan_records owners s by_id (values s.source_orders) nothing_yet
  unless (not (contained s.seen_source_fills (keys gathered.native_fills))) value_error
  check_recorded_facts s gathered.native_fills [] s.hedge_intents
  unless
      (not (s.net_unhedged_ounces == residual_of (values s.source_orders) (values s.hedge_intents)))
      value_error
  ok gathered.suffixes
