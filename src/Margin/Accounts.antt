-- ===== src/Margin/Accounts.antt =====
-- The account projections of src/py000_nautilus/margin.py. A `return None` and an exception that is
-- turned into None end the same way: both are an error of the body.
use arbi_nautilus.Base.{
  Bool, true, false, not, ◌&&◌, ◌||◌, ℤ, pos, ltb_ℤ, leb_ℤ, String, Option, none, some, ◌==◌,
  string_eq, int_eq, if◌then◌else◌, Result, ok, err, value_error,
}
use arbi_nautilus.Base.Raises.{◌>>=◌, ◌>>◌, unless}
use arbi_nautilus.Models.Checks.{is_empty}
use arbi_nautilus.Accounts.{SourceAccount, HedgeAccount, MakerAccount}
use arbi_nautilus.Margin.{
  CapacityContext, Capacity, ten_thousand, sixty, intersect_capacity, bitfinex_margin_capacity,
  mt5_margin_capacity,
}
use arbi_nautilus.Margin.Facts.{
  Fact, absent, whole, text, Facts, at_key, object_of, is_true, is_text, decimal_value, is_fresh,
  fresh_ask, AccountEvent, account_info,
}

pub record SourceAccountRoute : Type 0 where
  pub route_account_id : String
  pub route_client_id : Option String
  pub route_max_long : ℤ
  pub route_max_short : ℤ
  pub base_margin_level : ℤ

pub record HedgeAccountRoute : Type 0 where
  pub hedge_account_id : String
  pub hedge_client_id : Option String
  pub hedge_max_long : ℤ
  pub hedge_max_short : ℤ

-- The arguments that the projections share.
pub record Sampling : Type 0 where
  pub margin_target : ℤ
  pub max_abs_ounces : ℤ
  pub now_ns : ℤ
  pub max_account_age_ns : ℤ
  pub client_ready : Bool
  pub ask : ℤ
  pub ask_ts_ns : ℤ
  pub max_quote_age_ns : ℤ
  pub ask_actionable : Bool

-- `MAX_OBSERVATION_FUTURE_NS` of mt5_v1_protocol.py
abbrev max_future : ℤ
max_future = pos 1000000000

abbrev is_positive_whole : Fact → Bool
is_positive_whole (whole n) = ltb_ℤ (pos 0) n
is_positive_whole _ = false

abbrev is_one : Fact → Bool
is_one (whole n) = n == pos 1
is_one _ = false

abbrev pub is_null : Fact → Bool
is_null absent = true
is_null _ = false

-- An `except` that returns None.
abbrev pub or_none {ℓ} : {A : Type ℓ} → Result A → Option A
or_none (ok a) = some a
or_none (err e) = none

pub record PositionRow : Type 0 where
  pub row_quantity : ℤ
  pub row_price : ℤ
  pub row_pnl : ℤ
  pub row_collateral : ℤ
  pub row_leverage : ℤ
  pub row_minimum : ℤ

module _ (c : CapacityContext) where
  open c use {Amount, amount, units, caller_times, caller_over, upper}

  abbrev same_currency : String → Fact → Bool
  same_currency wallet_currency (text t) = upper t == upper wallet_currency
  same_currency wallet_currency _ = false

  -- What the margin formula needs of a position.
  pub record Holding : Type 0 where
    pub quantity : ℤ
    pub price : ℤ
    pub collateral : ℤ
    pub pnl : ℤ
    pub base : Amount

  -- The branch of a flat account.
  unfoldable pub flat_holding : SourceAccountRoute → Sampling → Result Holding
  flat_holding route s = do
    unless (leb_ℤ route.base_margin_level (pos 0)) value_error
    price ← fresh_ask s.ask s.ask_ts_ns s.now_ns s.max_quote_age_ns s.ask_actionable
    ok (record {
      quantity = pos 0;
      price = price;
      collateral = pos 0;
      pnl = pos 0;
      base = amount route.base_margin_level;
    })

  -- The row of a held position.
  unfoldable pub read_row : Fact → Result PositionRow
  read_row position = do
    row ← object_of position
    position_id ← at_key "position_id" row
    unless (not (is_positive_whole position_id)) value_error
    status ← at_key "status" row
    kind ← at_key "type" row
    unless (not (is_text "ACTIVE" status) || not (is_one kind)) value_error
    quantity ← at_key "quantity" row >>= decimal_value c
    price ← at_key "base_price" row >>= decimal_value c
    pnl ← at_key "profit_loss" row >>= decimal_value c
    collateral ← at_key "collateral" row >>= decimal_value c
    leverage ← at_key "leverage" row >>= decimal_value c
    minimum ← at_key "collateral_min" row >>= decimal_value c
    ok (record {
      row_quantity = quantity;
      row_price = price;
      row_pnl = pnl;
      row_collateral = collateral;
      row_leverage = leverage;
      row_minimum = minimum;
    })

  abbrev pub row_is_invalid : PositionRow → Bool
  row_is_invalid row =
      row.row_quantity == pos 0
      || (leb_ℤ row.row_collateral (pos 0)
          || (leb_ℤ row.row_leverage (pos 0) || ltb_ℤ row.row_minimum (pos 0)))

  -- `Decimal(10_000) * minimum / (collateral * leverage)`
  unfoldable pub base_of : PositionRow → Result Amount
  base_of row = do
    product ← caller_times (amount ten_thousand) (amount row.row_minimum)
    divisor ← caller_times (amount row.row_collateral) (amount row.row_leverage)
    caller_over product divisor

  -- The branch of a held position.
  unfoldable pub held_position : Fact → Result Holding
  held_position position = do
    row ← read_row position
    unless (row_is_invalid row) value_error
    base ← base_of row
    ok (record {
      quantity = row.row_quantity;
      price = row.row_price;
      collateral = row.row_collateral;
      pnl = row.row_pnl;
      base = base;
    })

  unfoldable pub holding_of : Fact → SourceAccountRoute → Sampling → Result Holding
  holding_of position route s =
      if is_null position then flat_holding route s else held_position position

  -- The facts of the sample, up to the position: the wallet's available balance and the position.
  unfoldable pub source_sample : Facts → String → String → Sampling → Result (ℤ × Fact)
  source_sample info instrument_id wallet_currency s = do
    facts ← at_key "bitfinex_margin" info >>= object_of
    currency ← at_key "bitfinex_wallet_currency" info
    instrument ← at_key "instrument_id" facts
    unless
        (is_empty wallet_currency
          || (not (is_text instrument_id instrument)
              || not (same_currency wallet_currency currency)))
        value_error
    wallet ← at_key "wallet" facts >>= object_of
    positions ← at_key "positions" facts >>= object_of
    wallet_current ← at_key "current" wallet
    unless (not (is_true wallet_current)) value_error
    positions_current ← at_key "current" positions
    unless (not (is_true positions_current)) value_error
    complete ← at_key "complete" positions
    unless (not (is_true complete)) value_error
    wallet_observed ← at_key "observed_ns" wallet
    unless (not (is_fresh wallet_observed s.now_ns s.max_account_age_ns (pos 0))) value_error
    positions_observed ← at_key "observed_ns" positions
    unless (not (is_fresh positions_observed s.now_ns s.max_account_age_ns (pos 0))) value_error
    balance ← at_key "balance" wallet >>= decimal_value c
    available ← at_key "available_balance" wallet >>= decimal_value c
    position ← at_key "position" positions
    ok (available, position)

  abbrev pub source_account : SourceAccountRoute → Holding → Capacity → SourceAccount
  source_account route held room = record {
    account_id = route.route_account_id;
    client_id = route.route_client_id;
    position_ounces = held.quantity;
    max_long_ounces = room.0;
    max_short_ounces = room.1;
    base_margin_level = units held.base;
  }

  -- The capacity of a holding, within the route's limits.
  unfoldable pub source_room : SourceAccountRoute → Sampling → ℤ → Holding → Result SourceAccount
  source_room route s available held = do
    dynamic ←
        bitfinex_margin_capacity c s.margin_target held.base held.quantity held.price
          held.collateral held.pnl available available
    room ←
        intersect_capacity dynamic held.quantity route.route_max_long route.route_max_short
          s.max_abs_ounces
    ok (source_account route held room)

  -- The body of `bitfinex_source_account`.
  unfoldable pub read_source :
      Option AccountEvent → SourceAccountRoute → String → String → Sampling → Result SourceAccount
  read_source event route instrument_id wallet_currency s = do
    info ← account_info event route.route_account_id s.client_ready "USDT"
    sample ← source_sample info instrument_id wallet_currency s
    held ← holding_of sample.1 route s
    source_room route s sample.0 held

  unfoldable pub bitfinex_source_account :
      Option AccountEvent → SourceAccountRoute → String → String → Sampling → Option SourceAccount
  bitfinex_source_account event route instrument_id wallet_currency s =
      or_none (read_source event route instrument_id wallet_currency s)

  abbrev count_disagrees : Fact → ℤ → Bool
  count_disagrees (whole count) quantity =
      ltb_ℤ count (pos 0)
      || (count == pos 0 && not (quantity == pos 0) || (count == pos 1 && (quantity == pos 0)))
  count_disagrees _ quantity = true

  -- The facts of the MT5 sample: the net position and the equity.
  unfoldable pub hedge_sample : Facts → String → String → Sampling → Result (ℤ × ℤ)
  hedge_sample info symbol stream_id s = do
    the_symbol ← at_key "mt5_symbol" info
    the_stream ← at_key "mt5_stream_id" info
    unless
        (is_empty symbol
          || (is_empty stream_id
              || (not (is_text symbol the_symbol) || not (is_text stream_id the_stream))))
        value_error
    complete ← at_key "mt5_positions_complete" info
    unless (not (is_true complete)) value_error
    valid ← at_key "mt5_account_sample_valid" info
    unless (not (is_true valid)) value_error
    observed ← at_key "mt5_account_observed_ns" info
    unless (not (is_fresh observed s.now_ns s.max_account_age_ns max_future)) value_error
    quantity ← at_key "mt5_net_position_ounces" info >>= decimal_value c
    equity ← at_key "mt5_equity" info >>= decimal_value c
    count ← at_key "mt5_position_count" info
    unless (count_disagrees count quantity) value_error
    ok (quantity, equity)

  unfoldable pub hedge_room : HedgeAccountRoute → Sampling → ℤ → ℤ → Result HedgeAccount
  hedge_room route s quantity equity = do
    price ← fresh_ask s.ask s.ask_ts_ns s.now_ns s.max_quote_age_ns s.ask_actionable
    dynamic ← mt5_margin_capacity c s.margin_target (amount sixty) quantity price equity
    room ←
        intersect_capacity dynamic quantity route.hedge_max_long route.hedge_max_short
          s.max_abs_ounces
    ok (record { position_ounces = quantity; max_long_ounces = room.0; max_short_ounces = room.1 })

  -- The body of `mt5_hedge_account`.
  unfoldable pub read_hedge :
      Option AccountEvent → HedgeAccountRoute → String → String → Sampling → Result HedgeAccount
  read_hedge event route symbol stream_id s = do
    info ← account_info event route.hedge_account_id s.client_ready "USD"
    sample ← hedge_sample info symbol stream_id s
    hedge_room route s sample.0 sample.1

  unfoldable pub mt5_hedge_account :
      Option AccountEvent → HedgeAccountRoute → String → String → Sampling → Option HedgeAccount
  mt5_hedge_account event route symbol stream_id s =
      or_none (read_hedge event route symbol stream_id s)

  abbrev pub with_route : HedgeAccountRoute → Option HedgeAccount → Option MakerAccount
  with_route route none = none
  with_route route (some hedge) = some (record {
    account_id = route.hedge_account_id;
    client_id = route.hedge_client_id;
    position_ounces = hedge.position_ounces;
    max_long_ounces = hedge.max_long_ounces;
    max_short_ounces = hedge.max_short_ounces;
  })

  unfoldable pub mt5_maker_account :
      Option AccountEvent → HedgeAccountRoute → String → String → Sampling → Option MakerAccount
  mt5_maker_account event route symbol stream_id s =
      with_route route (mt5_hedge_account event route symbol stream_id s)
