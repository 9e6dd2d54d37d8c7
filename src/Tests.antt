-- ===== src/Tests.antt =====
-- Each property at a concrete input, in the modules below.
mod Custody
mod Fees
mod History
mod Owner
mod Admission
mod Margin
mod Hedges
mod Projection
mod Rules
use arbi_nautilus.Base.{
  ℕ, ◌*◌, ◌≤◌, ◌≡◌, refl, true, false, ℤ, pos, negsuc, neg, magnitude, ◌+ℤ◌, ◌-ℤ◌, ◌*ℤ◌, ◌≤ℤ◌, ◌<ℤ◌,
  max_ℤ, min_ℤ, String, none, some, List, [], ◌∷◌, arith, ok, err, map, pos_part, ◌%◌, ◌/◌, ◌&&◌,
  ltb_ℤ, io_error, ◌↔◌,
}
use arbi_nautilus.Models.{long, short, buy, sell, HedgeIntent, HedgeLeg, submitting, ounce}
use arbi_nautilus.Models.Rounding.{residual-le-half, round_hedge_ounces, of_ounces}
use arbi_nautilus.Durability.{DiskCalls, persist_payload, published_iff}
use arbi_nautilus.Hedge.{Position, plan_hedge_delta}
use arbi_nautilus.Hedge.Total.{IsPlan}
use arbi_nautilus.Hedge.Closing.{ticket_of, plan_hedge_delta-IsPlan}
use arbi_nautilus.Store.{SourceOrderRecord, StoreState, Store, Platform, empty_state}
use arbi_nautilus.Store.Custody.{InSync}
use arbi_nautilus.Store.Source.{SourceRequest, begin_source}
use arbi_nautilus.Store.Source.Single.{Begun, begin_source-Begun}
use arbi_nautilus.Store.Fills.{SourceFill, reserve_source_fill}
use arbi_nautilus.Store.Fills.Outcome.{reserve_source_fill-InSync}
use arbi_nautilus.Store.Fills.Booked.{Booked, reserve_source_fill-Booked}
use arbi_nautilus.Store.Lookup.{intent_for_hedge_order}
use arbi_nautilus.Store.HedgeFill.{HedgeFill, apply_hedge_fill}
use arbi_nautilus.Store.HedgeFill.Booked.{Paid, apply_hedge_fill-Paid}
use arbi_nautilus.Maker.{
  maker_carry_bounds, within_bounds, account_allows, keeps_side, passive_maker_price,
}
use arbi_nautilus.Maker.Bounds.{carry_fills, bought, sold, maker_carry_bounds-covers}
use arbi_nautilus.Maker.Limits.{within_bounds-covers, within_bounds-account_allows}
use arbi_nautilus.Maker.Price.{passive_bid, passive_ask}
use arbi_nautilus.Accounts.{
  SourceAccount, HedgeAccount, MakerAccount, RiskConfig, select_source_account, source_allows,
  select_source,
}
use arbi_nautilus.Accounts.Choice.{IsChosen, IsExtreme, select_source_account-IsExtreme}
use arbi_nautilus.Taker.{
  Decimals, BookTop, CarryConfig, FxConfig, TakerEconomicsConfig, risk_allows, evaluate_taker,
}
use arbi_nautilus.Taker.Risk.{risk_allows-account_allows}
use arbi_nautilus.Taker.Evaluate.{Answers, evaluate_taker-Answers}
use arbi_nautilus.Quote.{MakerEconomicsConfig, maker_quote}
use arbi_nautilus.Quote.Choice.{Quotes, maker_quote-Quotes}
use arbi_nautilus.Cids.{CidStore, allocate}
use arbi_nautilus.Cids.Allocate.{IsBound, IsAllocated}

-- A number of ounces, in units.
abbrev oz : ℕ → ℤ
oz n = pos (n * ounce)

abbrev working_disk : DiskCalls
working_disk = record {
  posix = true;
  writes = true;
  opens = true;
  publishes = true;
  syncs = true;
  closes = true;
}
