-- ===== src/Projection/Hedge/Scan.antt =====
-- The checks of `project_hedge_fills` in src/py000_nautilus/hedge_projection.py, for the single store of the
-- Taker: what each order has filled, and what the store has not seen.
use arbi_nautilus.Base.{
  Bool, true, not, ◌&&◌, ◌||◌, ℕ, ℤ, pos, ◌+ℤ◌, ltb_ℤ, String, none, some, List, [], ◌∷◌, ◌++◌,
  Dict, lookup, insert, values, keys, contained, overlaps, any, keep, take, is_some, length,
  first_part, ◌==◌, int_eq, string_eq, option_eq, nat_eq, if◌then◌else◌, Result, ok, value_error,
}
use arbi_nautilus.Base.Raises.{◌>>=◌, ◌>>◌, unless}
use arbi_nautilus.Models.{HedgeIntent, sum_legs, is_completed}
use arbi_nautilus.Store.{StoreState}
use arbi_nautilus.Store.Lookup.{is_rejected_attempt}
use arbi_nautilus.Store.HedgeFill.{HedgeFill, hedge_fill_key}
use arbi_nautilus.Projection.{FillFacts, VenueOrder, Owners, sum_fills, orders_by_id, drop}
use arbi_nautilus.Projection.Source.Scan.{native_order, has_trade, trade_of}
use arbi_nautilus.Projection.Hedge.{checked_hedge_fills}
use arbi_nautilus.Projection.Hedge.Bound.{Binding, no_bindings, bind_intents, check_sources}

-- What the loop over the orders has gathered.
pub record Progress : Type 0 where
  pub hedge_trades : List (String × String)
  pub totals : Dict ℤ
  pub current_totals : Dict ℤ
  pub native_keys : List String
  pub missing : List HedgeFill

abbrev pub no_progress : Progress
no_progress = record {
  hedge_trades = [];
  totals = [];
  current_totals = [];
  native_keys = [];
  missing = [];
}

abbrev pub hedge_fill_of : String → FillFacts → HedgeFill
hedge_fill_of cid f = record {
  client_order_id = cid;
  trade_id = f.fill_trade_id;
  ounces = f.last_qty;
}

abbrev pub hedge_fills_of : String → List FillFacts → List HedgeFill
hedge_fills_of cid [] = []
hedge_fills_of cid (f ∷ fills) = hedge_fill_of cid f ∷ hedge_fills_of cid fills

abbrev pub hedge_keys_of : String → List FillFacts → List String
hedge_keys_of cid [] = []
hedge_keys_of cid (f ∷ fills) = hedge_fill_key (hedge_fill_of cid f) ∷ hedge_keys_of cid fills

-- `totals[intent_id]`, of a dictionary that starts at zero.
abbrev total_of : String → Dict ℤ → ℤ
total_of id d = elim (lookup id d) [ none ↦ pos 0 | some total ↦ total ]

unfoldable pub gather_trades :
    List FillFacts → List (String × String) → Result (List (String × String))
gather_trades [] trades = ok trades
gather_trades (f ∷ fills) trades = do
  unless (has_trade (trade_of f) trades) value_error
  gather_trades fills (trade_of f ∷ trades)

abbrev rejection_differs : VenueOrder → List FillFacts → Bool
rejection_differs o fills =
    not (o.order_status == "REJECTED")
    || (not (o.order_filled_qty == pos 0)
        || (not (length fills == 0) || not (length o.trade_ids == 0)))

abbrev pub seen_hedges : String → StoreState → List String
seen_hedges cid s = keep (λ key. first_part key == cid) s.seen_hedge_fills

abbrev is_current : String → HedgeIntent → Bool
is_current cid i = i.hedge_client_order_id == some cid

-- The fills of one order, once its trades are new: `count` of them are seen.
abbrev account_for : String → HedgeIntent → VenueOrder → List FillFacts → ℕ → Progress → Progress
account_for cid i o fills count p =
    let prefix = sum_fills (take count fills) in
    record p {
      totals = insert i.intent_id (total_of i.intent_id p.totals +ℤ prefix) p.totals;
      current_totals =
          if is_current cid i then insert i.intent_id prefix p.current_totals else p.current_totals;
      native_keys = p.native_keys ++ hedge_keys_of cid fills;
      missing = p.missing ++ hedge_fills_of cid (drop count fills);
    }

-- The tests on what is seen of one order and what is not.
unfoldable pub split_hedges :
    StoreState → String → HedgeIntent → VenueOrder → List FillFacts → Progress → Result Progress
split_hedges s cid i o fills p = do
  let seen = seen_hedges cid s
  let count = length seen
  let first = hedge_keys_of cid (take count fills)
  unless (not (contained seen first && contained first seen)) value_error
  unless
      (not (is_current cid i) && (not (o.order_status == "FILLED") || not (count == length fills)))
      value_error
  unless
      (not (length (drop count fills) == 0)
        && (is_completed i.status || (not (is_current cid i) || not (o.order_status == "FILLED"))))
      value_error
  ok (account_for cid i o fills count p)

-- An archived rejection has no fill; another order is taken with its fills.
unfoldable pub take_order :
    StoreState → String → HedgeIntent → VenueOrder → List FillFacts → Progress → Result Progress
take_order s cid i o fills p =
    if is_rejected_attempt i cid
    then (unless (rejection_differs o fills) value_error >> ok p)
    else (do
      trades ← gather_trades fills p.hedge_trades
      split_hedges s cid i o fills (record p { hedge_trades = trades }))

-- One round of the loop over the orders.
unfoldable pub scan_binding :
    Owners → StoreState → Dict VenueOrder → String → Binding → Progress → Result Progress
scan_binding owners s by_id cid b p = do
  o ← native_order cid by_id
  fills ← checked_hedge_fills owners o b.bound_record b.bound_intent b.bound_leg
  take_order s cid b.bound_intent o fills p

unfoldable pub scan_bindings :
    Owners → StoreState → Dict VenueOrder → Dict Binding → Progress → Result Progress
scan_bindings owners s by_id [] p = ok p
scan_bindings owners s by_id ((cid, b) ∷ bindings) p = do
  more ← scan_binding owners s by_id cid b p
  scan_bindings owners s by_id bindings more

abbrev leg_differs : HedgeIntent → ℤ → ℤ → Bool
leg_differs i total current =
    not (length i.hedge_plan == 0)
    && (not (current == i.hedge_leg_filled_ounces)
        || not (total == sum_legs i.hedge_leg_filled_ounces (take i.hedge_leg_index i.hedge_plan)))

abbrev total_differs : HedgeIntent → ℤ → Bool
total_differs i total = not (total == i.hedge_filled_ounces) || ltb_ℤ i.hedge_quantity_ounces total

-- What is seen of an intent is what the intent records.
unfoldable pub intent_total_differs : Progress → HedgeIntent → Bool
intent_total_differs p i =
    let total = total_of i.intent_id p.totals in
    total_differs i total
    || (leg_differs i total (total_of i.intent_id p.current_totals)
        || (is_completed i.status && not (total == i.hedge_quantity_ounces)))

unfoldable pub same_hedge_orders : List String → Dict Binding → List VenueOrder → Bool
same_hedge_orders sources bound orders =
    let by_id = orders_by_id orders [] in
    not (overlaps sources (keys bound))
    && (length (keys by_id) == length orders
        && (contained (keys bound) (keys by_id) && contained (keys by_id) (keys bound)))

abbrev active_is_known : StoreState → Bool
active_is_known s = elim s.active_source_order_id [
  | none ↦ true
  | some cid ↦ is_some (lookup cid s.source_orders)
]

-- All checks before the write, in order: the fills that are not seen.
unfoldable pub check_hedge_projection :
    Owners → StoreState → List VenueOrder → Result (List HedgeFill)
check_hedge_projection owners s orders = do
  unless (not (active_is_known s)) value_error
  sources ← check_sources s.source_orders []
  bindings ← bind_intents s s.hedge_intents no_bindings
  unless (not (same_hedge_orders sources bindings.bound orders)) value_error
  progress ← scan_bindings owners s (orders_by_id orders []) bindings.bound no_progress
  unless (not (contained s.seen_hedge_fills progress.native_keys)) value_error
  unless (any (intent_total_differs progress) (values s.hedge_intents)) value_error
  ok progress.missing
