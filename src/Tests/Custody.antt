-- ===== src/Tests/Custody.antt =====
-- The properties of the writes, the store, the hedge plan and the client ids at concrete inputs.
use arbi_nautilus.Base.{
  ℕ, ◌≡◌, refl, true, false, pos, String, none, some, List, [], ◌∷◌, arith, ok, err, map, io_error,
  ◌↔◌,
}
use arbi_nautilus.Models.{buy, sell, HedgeIntent, HedgeLeg, submitting}
use arbi_nautilus.Durability.{DiskCalls, persist_payload, published_iff}
use mathlib.Core.List.{Perm}
use arbi_nautilus.Hedge.{Position, Ticket, plan_hedge_delta}
use arbi_nautilus.Hedge.Queue.{InQueue}
use arbi_nautilus.Hedge.Total.{IsPlan, Closes}
use arbi_nautilus.Hedge.Closing.{ticket_of, plan_hedge_delta-IsPlan}
use arbi_nautilus.Store.{SourceOrderRecord, StoreState, Store, Platform, empty_state}
use arbi_nautilus.Store.Custody.{InSync}
use arbi_nautilus.Store.Source.{recover_for_start, SourceRequest, begin_source}
use arbi_nautilus.Store.Source.Restart.{Stopped, recover_for_start-Stopped}
use arbi_nautilus.Store.Source.Single.{Begun, begin_source-Begun}
use arbi_nautilus.Store.Fills.{SourceFill, reserve_source_fill}
use arbi_nautilus.Store.Fills.Outcome.{reserve_source_fill-InSync}
use arbi_nautilus.Store.Fills.Booked.{Booked, reserve_source_fill-Booked}
use arbi_nautilus.Store.Lookup.{intent_for_hedge_order}
use arbi_nautilus.Store.HedgeFill.{HedgeFill, apply_hedge_fill}
use arbi_nautilus.Store.HedgeFill.Booked.{Paid, apply_hedge_fill-Paid}
use arbi_nautilus.Cids.{CidStore}
use arbi_nautilus.Tests.{oz, working_disk}

abbrev unsynced_disk : DiskCalls
unsynced_disk = record working_disk { syncs = false }

abbrev platform : Platform
platform = record { digest = λ text. text; show = λ amount. "amount" }

abbrev request : SourceRequest
request = record {
  source_account_id = some "BFX-1";
  source_client_id = none;
  hedge_account_id = some "MT5-1";
  hedge_client_id = none;
  hedge_position_id = none;
  hedge_position_quantity_ounces = none;
  source_freeze_reason = none;
}

abbrev bought_order : SourceOrderRecord
bought_order = record {
  client_order_id = "S-1";
  side = buy;
  quantity_ounces = oz 2;
  source_account_id = some "BFX-1";
  source_client_id = none;
  hedge_account_id = some "MT5-1";
  hedge_client_id = none;
  hedge_position_id = none;
  hedge_position_quantity_ounces = none;
  filled_ounces = pos 0;
  status = "ACCEPTED";
}

abbrev new_store : Store
new_store = record { state = empty_state; file = some empty_state; hooks = [] }

abbrev working_state : StoreState
working_state = record empty_state {
  source_orders = ("S-1", bought_order) ∷ [];
  active_source_order_id = some "S-1";
}

abbrev working_store : Store
working_store = record { state = working_state; file = some working_state; hooks = [] }

-- 1.4 ounces bought: one is hedged, 0.4 stays.
abbrev first_fill : SourceFill
first_fill = record {
  fill_key = "T-1";
  client_order_id = "S-1";
  trade_id = "1";
  side = buy;
  ounces = pos 140000000;
}

abbrev sell_leg : HedgeLeg
sell_leg = record {
  side = sell;
  quantity_ounces = oz 1;
  position_id = none;
  expected_position_side = none;
  expected_position_quantity_ounces = none;
}

abbrev sent_intent : HedgeIntent
sent_intent = record {
  intent_id = "hedge-T-1";
  fill_key = "T-1";
  source_client_order_id = "S-1";
  source_trade_id = "1";
  source_side = buy;
  source_fill_ounces = pos 140000000;
  hedge_side = sell;
  hedge_quantity_ounces = oz 1;
  hedge_position_id = none;
  hedge_position_quantity_ounces = none;
  status = submitting;
  hedge_client_order_id = some "H-1";
  hedge_filled_ounces = pos 0;
  hedge_plan = sell_leg ∷ [];
  hedge_leg_index = 0;
  hedge_leg_filled_ounces = pos 0;
  hedge_order_ids = "H-1" ∷ [];
  rejected_attempt = none;
}

abbrev hedging_state : StoreState
hedging_state = record working_state {
  hedge_intents = ("hedge-T-1", sent_intent) ∷ [];
  net_unhedged_ounces = pos 40000000;
  seen_source_fills = "T-1" ∷ [];
}

abbrev hedging_store : Store
hedging_store = record { state = hedging_state; file = some hedging_state; hooks = [] }

abbrev hedge_fill : HedgeFill
hedge_fill = record { client_order_id = "H-1"; trade_id = "9"; ounces = oz 1 }

abbrev tickets : List Position
tickets =
    record { id = "10"; is_long = false; is_short = true; quantity = oz 3 }
    ∷ record { id = "9"; is_long = false; is_short = true; quantity = oz 2 }
    ∷ record { id = "11"; is_long = true; is_short = false; quantity = oz 1 }
    ∷ []

abbrev no_bindings : CidStore
no_bindings = record {
  by_client = [];
  by_cid = [];
  last_cid = 0;
  accounting_conflict = false;
  fees_durable = true;
  fee_metadata = [];
  file = none;
}

abbrev dates : ℕ → String
dates seconds = "2026-01-01"

published_iff_example :
    ((persist_payload unsynced_disk).0 ≡ err io_error ↔ (persist_payload unsynced_disk).1 ≡ false)
    × ((persist_payload unsynced_disk).1 ≡ true → unsynced_disk.publishes ≡ true)
published_iff_example = published_iff unsynced_disk

plan_hedge_delta-IsPlan_example :
    (legs : List HedgeLeg) × (plan_hedge_delta tickets buy (oz 6) ≡ ok legs)
    × IsPlan buy (oz 6) (map ticket_of tickets) legs
    × ((queue : List Ticket) × Perm queue (map ticket_of tickets)
        × InQueue queue
        × Closes buy queue legs)
plan_hedge_delta-IsPlan_example =
    plan_hedge_delta-IsPlan tickets buy (oz 6) (omega arith)
      (
        record { named = refl; one_way = refl; positive = omega arith },
        (
          record { named = refl; one_way = refl; positive = omega arith },
          (record { named = refl; one_way = refl; positive = omega arith }, tt),
        ),
      )
      refl

begin_source-Begun_example :
    Begun "S-1" buy
      (oz 2)
      request
      new_store
      (begin_source unsynced_disk "S-1" buy (oz 2) request new_store)
begin_source-Begun_example = begin_source-Begun "S-1" buy (oz 2) request new_store unsynced_disk

reserve_source_fill-InSync_example :
    InSync (reserve_source_fill platform unsynced_disk first_fill working_store).1
reserve_source_fill-InSync_example =
    reserve_source_fill-InSync platform unsynced_disk first_fill working_store refl

reserve_source_fill-Booked_example :
    Booked platform first_fill working_store
      (reserve_source_fill platform working_disk first_fill working_store)
reserve_source_fill-Booked_example =
    reserve_source_fill-Booked platform first_fill bought_order working_store refl refl refl
      (omega arith) refl refl working_disk

apply_hedge_fill-Paid_example :
    Paid platform hedge_fill sent_intent hedging_store
      (apply_hedge_fill platform working_disk hedge_fill hedging_store)
unfolding intent_for_hedge_order
apply_hedge_fill-Paid_example =
    apply_hedge_fill-Paid platform hedge_fill sent_intent hedging_store (refl, refl, tt) refl refl
      refl (omega arith) working_disk

recover_for_start-Stopped_example : Stopped (recover_for_start unsynced_disk working_store)
recover_for_start-Stopped_example = recover_for_start-Stopped unsynced_disk working_store refl
