-- ===== src/Projection/Source.antt =====
-- `_checked_fills`, `_check_recorded_facts` and `_check_taker_tail` of
-- src/py000_nautilus/source_projection.py, for the single store of the Taker.
pub mod Scan
pub mod Write
pub mod Took
pub mod Complete
pub mod Project
use arbi_nautilus.Base.{
  Bool, true, false, not, ◌&&◌, ◌||◌, ℕ, ℤ, pos, neg, ◌+ℤ◌, ◌-ℤ◌, leb_ℤ, ltb_ℤ, String, ◌<>◌,
  Option, none, some, List, [], ◌∷◌, Dict, lookup, insert, values, member, all, any, keep, is_none,
  is_some, length, ◌==◌, int_eq, string_eq, option_eq, list_eq, nat_eq, if◌then◌else◌, Result, ok,
  err, value_error, key_error,
}
use arbi_nautilus.Base.Raises.{◌>>=◌, ◌>>◌, unless}
use arbi_nautilus.Models.{BusinessOrderSide, buy, HedgeIntent, side_eq, is_completed}
use arbi_nautilus.Models.Checks.{has_bar, is_empty}
use arbi_nautilus.Store.{SourceOrderRecord, StoreState}
use arbi_nautilus.Projection.{
  EventHead, Initial, FillFacts, OrderEvent, initialized, VenueOrder, Owners, head_of, is_owned_by,
  fills_of, sum_fills, trade_ids_of,
}

-- `_key`
abbrev pub fill_key_of : String → FillFacts → String
fill_key_of cid f = cid <> "|" <> f.fill_venue_order_id <> "|" <> f.fill_trade_id

-- The quantity of `events[0]`, where it is an `OrderInitialized`.
abbrev pub first_quantity : List OrderEvent → Option ℤ
first_quantity (initialized head initial ∷ events) = some initial.initial_quantity
first_quantity _ = none

abbrev same_account : Option String → Option String → Bool
same_account none account = true
same_account (some a) none = true
same_account (some a) (some b) = a == b

-- The first test of `_checked_fills`.
unfoldable pub order_differs : Owners → VenueOrder → SourceOrderRecord → Bool
order_differs owners o r =
    not (first_quantity o.events == some r.quantity_ounces)
    || (not (
          o.order_trader_id == owners.trader
          && (o.order_strategy_id == owners.strategy
              && (o.order_instrument_id == owners.instrument)))
        || (not (o.client_order_id == r.client_order_id)
            || (not (o.order_side == r.side)
                || (has_bar r.client_order_id
                    || (o.is_quote_quantity
                        || (leb_ℤ r.quantity_ounces (pos 0)
                            || (ltb_ℤ r.filled_ounces (pos 0)
                                || (ltb_ℤ r.quantity_ounces r.filled_ounces
                                    || (not (o.order_quantity == r.quantity_ounces)
                                        || not (
                                            same_account r.source_account_id
                                              o.order_account_id))))))))))

-- The test on each fill.
unfoldable pub fill_differs : VenueOrder → SourceOrderRecord → FillFacts → Bool
fill_differs o r f =
    not (some f.fill_account_id == o.order_account_id)
    || (not (some f.fill_venue_order_id == o.order_venue_id)
        || (has_bar f.fill_venue_order_id
            || (has_bar f.fill_trade_id
                || (not (f.fill_side == r.side)
                    || (not (f.fill_type == o.order_type) || leb_ℤ f.last_qty (pos 0))))))

-- `_checked_fills`
unfoldable pub checked_fills : Owners → VenueOrder → SourceOrderRecord → Result (List FillFacts)
checked_fills owners o r = do
  unless (order_differs owners o r) value_error
  unless (not (all (λ e. is_owned_by owners o.client_order_id (head_of e)) o.events)) value_error
  unless (any (fill_differs o r) (fills_of o.events)) value_error
  unless
      (not (sum_fills (fills_of o.events) == o.order_filled_qty)
        || (ltb_ℤ r.quantity_ounces (sum_fills (fills_of o.events))
            || not (o.trade_ids == trade_ids_of (fills_of o.events))))
      value_error
  ok (fills_of o.events)

-- A fill with the order that it belongs to.
abbrev pub OwnedFill : Type 0
OwnedFill = String × FillFacts

abbrev fact_differs : StoreState → HedgeIntent → SourceOrderRecord → OwnedFill → Bool
fact_differs s i r owned =
    not (member i.fill_key s.seen_source_fills)
    || (not (i.source_client_order_id == owned.0)
        || (not (i.source_trade_id == owned.1.fill_trade_id)
            || (not (i.source_side == r.side) || not (i.source_fill_ounces == owned.1.last_qty))))

abbrev check_fact :
    StoreState → HedgeIntent → Option OwnedFill → Option SourceOrderRecord → Result (Unit {0})
check_fact s i none r = err value_error
check_fact s i (some owned) none = err value_error
check_fact s i (some owned) (some r) = unless (fact_differs s i r owned) value_error

-- `_check_recorded_facts`, over one view.
unfoldable pub check_recorded_facts :
    StoreState → Dict OwnedFill → List String → Dict HedgeIntent → Result (Unit {0})
check_recorded_facts s fills claimed [] = ok tt
check_recorded_facts s fills claimed ((intent_id, i) ∷ intents) = do
  unless (not (intent_id == i.intent_id) || member i.fill_key claimed) value_error
  check_fact s i (lookup i.fill_key fills) (lookup i.source_client_order_id s.source_orders)
  check_recorded_facts s fills (i.fill_key ∷ claimed) intents

-- `_sign(side) * ounces`
abbrev signed : BusinessOrderSide → ℤ → ℤ
signed side ounces = if side == buy then ounces else neg ounces

abbrev sum_records : List SourceOrderRecord → ℤ
sum_records [] = pos 0
sum_records (r ∷ records) = signed r.side r.filled_ounces +ℤ sum_records records

-- The intents' quantities, counted as the source exposure that they cover.
abbrev sum_intents : List HedgeIntent → ℤ
sum_intents [] = pos 0
sum_intents (i ∷ intents) = neg (signed i.hedge_side i.hedge_quantity_ounces) +ℤ sum_intents intents

unfoldable pub residual_of : List SourceOrderRecord → List HedgeIntent → ℤ
residual_of records intents = sum_records records -ℤ sum_intents intents

abbrev is_settled : Dict VenueOrder → SourceOrderRecord → Bool
is_settled by_id r =
    elim (lookup r.client_order_id by_id) [ none ↦ false | some o ↦ o.order_status == r.status ]
    && ((r.status == "FILLED" && (r.filled_ounces == r.quantity_ounces))
        || ((r.status == "DENIED" || (r.status == "REJECTED")) && (r.filled_ounces == pos 0)))

-- `_check_taker_tail`
unfoldable pub check_taker_tail : StoreState → String → Dict VenueOrder → Result (Unit {0})
check_taker_tail s candidate by_id =
    let records = values s.source_orders in
    let historical = keep (λ r. not (r.client_order_id == candidate)) records in
    let old = keep (λ i. not (i.source_client_order_id == candidate)) (values s.hedge_intents) in
    if length records == 1 then ok tt else do
      unless (not (s.active_source_order_id == some candidate)) value_error
      unless
          (not (all (is_settled by_id) historical)
            || not (
                all
                  (λ i. is_completed i.status && (i.hedge_filled_ounces == i.hedge_quantity_ounces))
                  old))
          value_error
      unless (not (residual_of historical old == pos 0)) value_error
