-- ===== src/Store/Fills.antt =====
-- `reserve_source_fill` of src/py000_nautilus/store.py: one actual source fill is recorded and, when
-- whole ounces accrue, becomes one hedge intent.
pub mod Outcome
pub mod Booked
pub mod Exposure
use arbi_nautilus.Base.{
  Bool, true, false, not, ◌&&◌, ◌||◌, ℤ, pos, neg, magnitude, ◌+ℤ◌, ◌-ℤ◌, leb_ℤ, ltb_ℤ, String,
  ◌<>◌, Option, none, some, lookup, insert, is_none, member, add, ◌==◌, int_eq, string_eq,
  option_eq, [], if◌then◌else◌, Result, ok, err, Action, pure, raise_if, lift, gets, ◌>>=◌, ◌>>◌,
  value_error,
}
use arbi_nautilus.Durability.{DiskCalls}
use arbi_nautilus.Models.{
  BusinessOrderSide, buy, sell, HedgeIntent, ObligationStatus, pending, blocked, side_eq,
}
use arbi_nautilus.Models.Checks.{check_intent}
use arbi_nautilus.Models.Rounding.{round_hedge_ounces, of_ounces}
use arbi_nautilus.Store.{
  SourceOrderRecord, StoreState, Store, Platform, update_state, persist, transaction,
  source_reconcile_reason,
}
use arbi_nautilus.Store.Source.{release_active, clear_halt}

-- The keyword arguments of `reserve_source_fill`.
pub record SourceFill : Type 0 where
  pub fill_key : String
  pub client_order_id : String
  pub trade_id : String
  pub side : BusinessOrderSide
  pub ounces : ℤ

abbrev pub signed_fill : SourceFill → ℤ
signed_fill f = if f.side == buy then f.ounces else neg f.ounces

abbrev pub filled_record : SourceOrderRecord → ℤ → SourceOrderRecord
filled_record r fill =
    let filled = r.filled_ounces +ℤ fill in
    record r {
      filled_ounces = filled;
      status = if leb_ℤ r.quantity_ounces filled then "FILLED" else "PARTIALLY_FILLED";
    }

-- The key is seen, the record takes the fill, and a filled active order is released.
unfoldable pub book_fill : SourceFill → Option String → SourceOrderRecord → StoreState → StoreState
book_fill f blocked_reason r s =
    let booked = record s {
      seen_source_fills = add f.fill_key s.seen_source_fills;
      source_orders = insert f.client_order_id (filled_record r f.ounces) s.source_orders;
    } in
    if is_none blocked_reason
      && (leb_ℤ r.quantity_ounces (r.filled_ounces +ℤ f.ounces)
          && (s.active_source_order_id == some f.client_order_id))
    then clear_halt (source_reconcile_reason f.client_order_id)
        (release_active f.client_order_id booked)
    else booked

-- `_allocate_source_fill`: whole ounces leave the residual.
unfoldable pub allocate_source_fill : ℤ → Action Store ℤ
allocate_source_fill signed s =
    let combined = s.state.net_unhedged_ounces +ℤ signed in
    let rounded = round_hedge_ounces combined in
    (
      ok rounded,
      record s { state = record (s.state) { net_unhedged_ounces = combined -ℤ of_ounces rounded } },
    )

abbrev pub intent_id_of : Platform → String → String
intent_id_of platform fill_key = "hedge-" <> platform.digest fill_key

-- The intent for a rounded amount that is not zero.
abbrev pub new_intent : Platform → SourceFill → Option String → SourceOrderRecord → ℤ → HedgeIntent
new_intent platform f blocked_reason r rounded = record {
  intent_id = intent_id_of platform f.fill_key;
  fill_key = f.fill_key;
  source_client_order_id = f.client_order_id;
  source_trade_id = f.trade_id;
  source_side = f.side;
  source_fill_ounces = f.ounces;
  hedge_side = if ltb_ℤ (pos 0) rounded then sell else buy;
  hedge_quantity_ounces = of_ounces (pos (magnitude rounded));
  hedge_position_id = r.hedge_position_id;
  hedge_position_quantity_ounces = r.hedge_position_quantity_ounces;
  status = if is_none blocked_reason then pending else blocked;
  hedge_client_order_id = none;
  hedge_filled_ounces = pos 0;
  hedge_plan = [];
  hedge_leg_index = 0;
  hedge_leg_filled_ounces = pos 0;
  hedge_order_ids = [];
  rejected_attempt = none;
}

unfoldable pub add_intent :
    Platform
    → SourceFill
    → Option String
    → SourceOrderRecord
    → ℤ
    → Action Store (Option HedgeIntent)
add_intent platform f blocked_reason r rounded = if rounded == pos 0 then pure none else (do
  intent ← lift (check_intent (new_intent platform f blocked_reason r rounded))
  update_state (λ s. record s { hedge_intents = insert intent.intent_id intent s.hedge_intents })
  pure (some intent))

-- `_reserve_source_fill`, without I/O.
unfoldable pub apply_source_fill :
    Platform → SourceFill → Option String → Action Store (Option HedgeIntent)
unfolding add_intent
apply_source_fill platform f blocked_reason s =
    if member f.fill_key s.state.seen_source_fills
    then (ok none, s)
    else elim (lookup f.client_order_id s.state.source_orders) [
      | none ↦ (ok none, s)
      | some r ↦
          (do
            raise_if (not (r.side == f.side)) value_error
            raise_if (leb_ℤ f.ounces (pos 0)) value_error
            update_state (book_fill f blocked_reason r)
            rounded ← allocate_source_fill (signed_fill f)
            add_intent platform f blocked_reason r rounded)
            s
    ]

-- `reserve_source_fill`: published as one step, or taken back.
unfoldable pub reserve_source_fill :
    Platform → DiskCalls → SourceFill → Action Store (Option HedgeIntent)
reserve_source_fill platform disk f s =
    if member f.fill_key s.state.seen_source_fills
      || is_none (lookup f.client_order_id s.state.source_orders)
    then (ok none, s)
    else transaction (do intent ← apply_source_fill platform f none; persist disk; pure intent) s
