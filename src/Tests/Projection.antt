-- ===== src/Tests/Projection.antt =====
-- A source order of two ounces of which the store has seen no fill, and the native order that bought
-- 1.4 of them.
use arbi_nautilus.Base.{◌≡◌, refl, true, false, pos, String, Option, some, none, [], ◌∷◌, List, ok}
use arbi_nautilus.Models.{buy}
use arbi_nautilus.Store.{SourceOrderRecord, StoreState, Store, Platform, empty_state}
use arbi_nautilus.Projection.{EventHead, OrderEvent, initialized, filled, VenueOrder, Owners}
use arbi_nautilus.Projection.Source.Write.{project_source_fills}
use arbi_nautilus.Projection.Source.Project.{Projected, project_source_fills-Projected}
use arbi_nautilus.Tests.{oz, working_disk}

abbrev plain_platform : Platform
plain_platform = record { digest = λ text. text; show = λ amount. "amount" }

abbrev unfilled : SourceOrderRecord
unfilled = record {
  client_order_id = "S-1";
  side = buy;
  quantity_ounces = oz 2;
  source_account_id = some "BFX-1";
  source_client_id = none;
  hedge_account_id = some "MT5-1";
  hedge_client_id = none;
  hedge_position_id = none;
  hedge_position_quantity_ounces = none;
  filled_ounces = pos 0;
  status = "ACCEPTED";
}

abbrev behind : Store
behind = record {
  state = record empty_state {
    source_orders = ("S-1", unfilled) ∷ [];
    active_source_order_id = some "S-1";
  };
  file = none;
  hooks = [];
}

abbrev head : EventHead
head = record {
  trader_id = "T";
  strategy_id = "TAKER";
  instrument_id = "XAUT";
  order_id = "S-1";
  event_account_id = some "BFX-1";
}

abbrev history : List OrderEvent
history =
    initialized head (record {
      initial_quantity = oz 2;
      initial_side = buy;
      initial_type = "LIMIT";
      initial_time_in_force = "GTC";
      initial_quote_quantity = false;
      initial_reduce_only = false;
    })
    ∷ filled head (record {
      fill_account_id = "BFX-1";
      fill_venue_order_id = "V";
      fill_trade_id = "1";
      fill_side = buy;
      fill_type = "LIMIT";
      last_qty = pos 140000000;
      fill_position_id = none;
    })
    ∷ []

abbrev venue_order : VenueOrder
venue_order = record {
  order_trader_id = "T";
  order_strategy_id = "TAKER";
  order_instrument_id = "XAUT";
  client_order_id = "S-1";
  order_side = buy;
  order_quantity = oz 2;
  order_filled_qty = pos 140000000;
  order_account_id = some "BFX-1";
  order_venue_id = some "V";
  order_type = "LIMIT";
  time_in_force = "GTC";
  is_quote_quantity = false;
  is_reduce_only = false;
  order_position_id = none;
  trade_ids = "1" ∷ [];
  order_status = "PARTIALLY_FILLED";
  events = history;
}

abbrev owners : Owners
owners = record { trader = "T"; strategy = "TAKER"; instrument = "XAUT" }

projects_one :
    (project_source_fills plain_platform working_disk owners "late fill"
      (venue_order ∷ [])
      behind).0
    ≡ ok 1
unfolding project_source_fills arbi_nautilus.Projection.Source.Scan.check_projection
    arbi_nautilus.Projection.Source.Scan.same_orders
    arbi_nautilus.Projection.Source.Scan.scan_records
    arbi_nautilus.Projection.Source.Scan.scan_record arbi_nautilus.Projection.Source.checked_fills
    arbi_nautilus.Projection.Source.order_differs arbi_nautilus.Projection.Source.fill_differs
    arbi_nautilus.Base.◌+ℤ◌ arbi_nautilus.Projection.Source.Scan.gather_fills
    arbi_nautilus.Projection.Source.Scan.split_fills
    arbi_nautilus.Projection.Source.check_recorded_facts arbi_nautilus.Projection.Source.residual_of
    arbi_nautilus.Base.◌-ℤ◌ arbi_nautilus.Projection.Source.Write.write_projection
    arbi_nautilus.Projection.Source.Write.write_suffix
    arbi_nautilus.Projection.Source.check_taker_tail arbi_nautilus.Base.neg
    arbi_nautilus.Durability.persist_payload arbi_nautilus.Durability.publish_and_sync_parent
    arbi_nautilus.Models.Checks.check_intent arbi_nautilus.Models.Checks.hedge_leg_order_ids
    arbi_nautilus.Models.Checks.intent_is_valid arbi_nautilus.Models.Rounding.of_ounces
    arbi_nautilus.Models.Rounding.round_hedge_ounces arbi_nautilus.Models.Rounding.round_units
    arbi_nautilus.Projection.Source.Write.take_fills arbi_nautilus.Store.Fills.add_intent
    arbi_nautilus.Store.Fills.allocate_source_fill arbi_nautilus.Store.Fills.apply_source_fill
    arbi_nautilus.Store.Fills.book_fill arbi_nautilus.Store.persist
    arbi_nautilus.Store.source_reconcile_reason arbi_nautilus.Store.transaction
projects_one = refl

project_source_fills-Projected_example :
    Projected (venue_order ∷ []) behind (
      project_source_fills plain_platform working_disk owners "late fill" (venue_order ∷ []) behind)
project_source_fills-Projected_example =
    project_source_fills-Projected plain_platform working_disk "late fill" (venue_order ∷ []) behind
      owners
