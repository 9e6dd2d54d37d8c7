-- ===== src/Tests/Fees.antt =====
-- A final fee at one store: the trade is seen again without its fee, then a native fill arrives; and
-- the fill key of one event.
use arbi_nautilus.Base.{◌≡◌, split_bar, pos, negsuc, true, false, some, none, List, [], ◌∷◌, refl}
use arbi_nautilus.Models.{buy}
use arbi_nautilus.Coordinator.{OrderFilled, source_fill_key}
use arbi_nautilus.Coordinator.Keys.{source_fill_key-split}
use arbi_nautilus.Cids.{CidStore, CidBinding, FeeTrade, FeeMetadata, NativeFill}
use arbi_nautilus.Cids.Final.{
  IsFinal, Observation, saw_trade, saw_fill, observe_all, observe_all-IsFinal,
}
use arbi_nautilus.Tests.{working_disk}

abbrev binding : CidBinding
binding = record { client_order_id = "S-1"; cid = 7; allocated_utc_date = "2026-01-01" }

abbrev pending_trade : FeeTrade
pending_trade = record {
  trade_id = 11;
  ts_event_ms = 1700000000000;
  execution_qty = pos 140000000;
  execution_price = pos 400000;
  order_type = "LIMIT";
  order_price = pos 400000;
  maker = true;
  raw_fee = none;
  fee_currency = none;
}

abbrev final_trade : FeeTrade
final_trade = record pending_trade { raw_fee = some (negsuc 41); fee_currency = some "USD" }

abbrev scope : FeeMetadata
scope = record {
  cid = 7;
  venue_order_id = 99;
  instrument_id = "XAUT";
  raw_symbol = "tXAUT:USD";
  native_fills = [];
  venue_trades = [];
}

abbrev native_fill : NativeFill
native_fill = record {
  trade_id = "11";
  native_fill_origin = "tu";
  signed_quantity = pos 140000000;
  price = pos 400000;
  ts_event_ns = 1700000000000000000;
  liquidity_side = "MAKER";
  commission = pos 0;
  commission_currency = "USD";
}

abbrev paid_store : CidStore
paid_store = record {
  by_client = ("S-1", binding) ∷ [];
  by_cid = (7, binding) ∷ [];
  last_cid = 7;
  accounting_conflict = false;
  fees_durable = true;
  fee_metadata = (7, record scope { venue_trades = final_trade ∷ [] }) ∷ [];
  file = none;
}

abbrev observations : List Observation
observations =
    saw_trade working_disk scope pending_trade ∷ saw_fill working_disk scope native_fill ∷ []

observe_all-IsFinal_example : IsFinal 7 11 final_trade (observe_all observations paid_store)
observe_all-IsFinal_example =
    observe_all-IsFinal 7 11 final_trade observations paid_store (refl, refl)

abbrev event : OrderFilled
event = record {
  instrument_id = "XAUT";
  client_order_id = "S-1";
  venue_order_id = "99";
  trade_id = "11";
  order_side = some buy;
  last_qty = pos 140000000;
}

source_fill_key-split_example : split_bar (source_fill_key event) ≡ "S-1" ∷ "99" ∷ "11" ∷ []
source_fill_key-split_example = source_fill_key-split event refl refl refl
