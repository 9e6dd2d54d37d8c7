-- ===== src/Tests/Hedges.antt =====
-- An ounce bought, whose hedge order was filled whole without the store having seen it.
use arbi_nautilus.Base.{◌≡◌, refl, true, false, pos, String, Option, some, none, [], ◌∷◌, List, ok}
use arbi_nautilus.Models.{buy, sell, HedgeIntent, accepted}
use arbi_nautilus.Store.{SourceOrderRecord, StoreState, Store, Platform, empty_state}
use arbi_nautilus.Projection.{EventHead, OrderEvent, initialized, filled, VenueOrder, Owners}
use arbi_nautilus.Projection.Hedge.Scan.{check_hedge_projection}
use arbi_nautilus.Projection.Hedge.Write.{project_hedge_fills}
use arbi_nautilus.Tests.{oz, working_disk}

abbrev hedge_platform : Platform
hedge_platform = record { digest = λ text. text; show = λ amount. "amount" }

abbrev bought_ounce : SourceOrderRecord
bought_ounce = record {
  client_order_id = "S-1";
  side = buy;
  quantity_ounces = oz 1;
  source_account_id = some "BFX-1";
  source_client_id = none;
  hedge_account_id = some "MT5-1";
  hedge_client_id = none;
  hedge_position_id = none;
  hedge_position_quantity_ounces = none;
  filled_ounces = oz 1;
  status = "FILLED";
}

abbrev open_intent : HedgeIntent
open_intent = record {
  intent_id = "hedge-1";
  fill_key = "S-1|V|1";
  source_client_order_id = "S-1";
  source_trade_id = "1";
  source_side = buy;
  source_fill_ounces = oz 1;
  hedge_side = sell;
  hedge_quantity_ounces = oz 1;
  hedge_position_id = none;
  hedge_position_quantity_ounces = none;
  status = accepted;
  hedge_client_order_id = some "H-1";
  hedge_filled_ounces = pos 0;
  hedge_plan = [];
  hedge_leg_index = 0;
  hedge_leg_filled_ounces = pos 0;
  hedge_order_ids = "H-1" ∷ [];
  rejected_attempt = none;
}

abbrev unhedged : Store
unhedged = record {
  state = record empty_state {
    source_orders = ("S-1", bought_ounce) ∷ [];
    seen_source_fills = "S-1|V|1" ∷ [];
    hedge_intents = ("hedge-1", open_intent) ∷ [];
  };
  file = none;
  hooks = [];
}

abbrev hedge_head : EventHead
hedge_head = record {
  trader_id = "T";
  strategy_id = "TAKER";
  instrument_id = "XAUUSD";
  order_id = "H-1";
  event_account_id = some "MT5-1";
}

abbrev hedge_order : VenueOrder
hedge_order = record {
  order_trader_id = "T";
  order_strategy_id = "TAKER";
  order_instrument_id = "XAUUSD";
  client_order_id = "H-1";
  order_side = sell;
  order_quantity = oz 1;
  order_filled_qty = oz 1;
  order_account_id = some "MT5-1";
  order_venue_id = some "77";
  order_type = "MARKET";
  time_in_force = "FOK";
  is_quote_quantity = false;
  is_reduce_only = false;
  order_position_id = some "P";
  trade_ids = "9" ∷ [];
  order_status = "FILLED";
  events =
      initialized hedge_head (record {
        initial_quantity = oz 1;
        initial_side = sell;
        initial_type = "MARKET";
        initial_time_in_force = "FOK";
        initial_quote_quantity = false;
        initial_reduce_only = false;
      })
      ∷ filled hedge_head (record {
        fill_account_id = "MT5-1";
        fill_venue_order_id = "77";
        fill_trade_id = "9";
        fill_side = sell;
        fill_type = "MARKET";
        last_qty = oz 1;
        fill_position_id = some "P";
      })
      ∷ [];
}

abbrev hedge_owners : Owners
hedge_owners = record { trader = "T"; strategy = "TAKER"; instrument = "XAUUSD" }

finds_one :
    (project_hedge_fills hedge_platform working_disk hedge_owners "late"
      (hedge_order ∷ [])
      unhedged).0
    ≡ ok 1
unfolding project_hedge_fills arbi_nautilus.Projection.Hedge.Scan.check_hedge_projection
    arbi_nautilus.Projection.Hedge.Bound.check_sources
    arbi_nautilus.Projection.Hedge.Bound.bind_intents arbi_nautilus.Base.split_bar
    arbi_nautilus.Projection.Hedge.order_ids arbi_nautilus.Models.Checks.hedge_leg_order_ids
    arbi_nautilus.Projection.Hedge.Bound.bind_ids
    arbi_nautilus.Projection.Hedge.Scan.same_hedge_orders
    arbi_nautilus.Projection.Hedge.Scan.scan_bindings
    arbi_nautilus.Projection.Hedge.Scan.scan_binding
    arbi_nautilus.Projection.Hedge.checked_hedge_fills
    arbi_nautilus.Projection.Hedge.hedge_order_differs
    arbi_nautilus.Projection.Hedge.hedge_fill_differs arbi_nautilus.Projection.Hedge.history_differs
    arbi_nautilus.Base.◌+ℤ◌ arbi_nautilus.Projection.Hedge.Scan.take_order arbi_nautilus.Base.◌-ℤ◌
    arbi_nautilus.Durability.persist_payload arbi_nautilus.Durability.publish_and_sync_parent
    arbi_nautilus.Models.Checks.check_intent arbi_nautilus.Models.Checks.intent_is_valid
    arbi_nautilus.Projection.Hedge.Scan.gather_trades
    arbi_nautilus.Projection.Hedge.Scan.intent_total_differs
    arbi_nautilus.Projection.Hedge.Scan.split_hedges
    arbi_nautilus.Projection.Hedge.Write.take_hedges
    arbi_nautilus.Projection.Hedge.Write.write_hedges arbi_nautilus.Store.HedgeFill.advance_leg
    arbi_nautilus.Store.HedgeFill.apply_fill arbi_nautilus.Store.HedgeFill.fill_intent
    arbi_nautilus.Store.HedgeFill.hold_fill arbi_nautilus.Store.Lookup.hold_rejected_attempt
    arbi_nautilus.Store.Lookup.intent_for_hedge_order arbi_nautilus.Store.Lookup.put_intent
    arbi_nautilus.Store.persist arbi_nautilus.Store.transaction
finds_one = refl
