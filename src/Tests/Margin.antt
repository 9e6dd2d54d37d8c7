-- ===== src/Tests/Margin.antt =====
-- A source account that holds two ounces, projected from a complete sample.
use arbi_nautilus.Base.{
  ℕ, ◌*◌, ◌/◌, ◌≡◌, refl, Bool, true, false, ℤ, pos, negsuc, pos_part, ◌+ℤ◌, ltb_ℤ, String, Option,
  some, none, Result, ok, err, value_error, ◌==◌, int_eq, if◌then◌else◌,
}
use arbi_nautilus.Accounts.{SourceAccount}
use arbi_nautilus.Margin.{CapacityContext}
use arbi_nautilus.Margin.Facts.{
  Fact, absent, flag, whole, text, decimal, object, Facts, no_facts, fact, AccountEvent,
}
use arbi_nautilus.Margin.Accounts.{SourceAccountRoute, Sampling, bitfinex_source_account}
use arbi_nautilus.Margin.Projected.{SourceProjected, bitfinex_source_account-SourceProjected}
use arbi_nautilus.Tests.{oz}

abbrev quotient : ℤ → ℤ → Result ℤ
quotient a b =
    if ltb_ℤ (pos 0) b then ok (pos (pos_part a * 100000000 / pos_part b)) else err value_error

-- Products and quotients of amounts that are not negative, cut to units.
abbrev cut_context : CapacityContext
cut_context = record {
  Amount = ℤ;
  amount = λ a. a;
  units = λ a. a;
  is_above_zero = λ a. ltb_ℤ (pos 0) a;
  plus = λ a b. ok (a +ℤ b);
  times = λ a b. ok (pos (pos_part a * pos_part b / 100000000));
  over = quotient;
  caller_times = λ a b. ok (pos (pos_part a * pos_part b / 100000000));
  caller_over = quotient;
  floor_whole = λ a. ok (pos (pos_part a / 100000000 * 100000000));
  decimal_of = λ t. err value_error;
  upper = λ t. t;
}

abbrev wallet : Facts
wallet = fact "current" (flag true) (
    fact "observed_ns" (whole (pos 5)) (
      fact "balance" (decimal (oz 10000)) (fact "available_balance" (decimal (oz 10000)) no_facts)))

abbrev row : Facts
row = fact "position_id" (whole (pos 7)) (
    fact "status" (text "ACTIVE") (
      fact "type" (whole (pos 1)) (
        fact "quantity" (decimal (oz 2)) (
          fact "base_price" (decimal (oz 4000)) (
            fact "profit_loss" (decimal (pos 0)) (
              fact "collateral" (decimal (oz 800)) (
                fact "leverage" (decimal (oz 10))
                  (fact "collateral_min" (decimal (oz 8)) no_facts))))))))

abbrev positions : Facts
positions = fact "current" (flag true) (
    fact "complete" (flag true)
      (fact "observed_ns" (whole (pos 5)) (fact "position" (object row) no_facts)))

abbrev info : Facts
info =
    fact "bitfinex_margin"
      (object (
        fact "instrument_id" (text "XAUT")
          (fact "wallet" (object wallet) (fact "positions" (object positions) no_facts))))
      (fact "bitfinex_wallet_currency" (text "UST") no_facts)

abbrev event : AccountEvent
event = record {
  event_account_id = "BFX-1";
  is_margin = true;
  base_currency = some "USDT";
  info = object info;
}

abbrev account_route : SourceAccountRoute
account_route = record {
  route_account_id = "BFX-1";
  route_client_id = none;
  route_max_long = oz 4;
  route_max_short = oz 4;
  base_margin_level = oz 60;
}

abbrev sampling : Sampling
sampling = record {
  margin_target = oz 1000;
  max_abs_ounces = oz 5;
  now_ns = pos 6;
  max_account_age_ns = pos 10;
  client_ready = true;
  ask = oz 4001;
  ask_ts_ns = pos 6;
  max_quote_age_ns = pos 10;
  ask_actionable = true;
}

abbrev projected : SourceAccount
projected = record {
  account_id = "BFX-1";
  client_id = none;
  position_ounces = oz 2;
  max_long_ounces = oz 3;
  max_short_ounces = oz 4;
  base_margin_level = oz 10;
}

projects :
    bitfinex_source_account cut_context (some event) account_route "XAUT" "UST" sampling
    ≡ some projected
unfolding bitfinex_source_account arbi_nautilus.Margin.Accounts.read_source
    arbi_nautilus.Margin.Facts.account_info arbi_nautilus.Margin.Accounts.source_sample
    arbi_nautilus.Margin.Facts.is_fresh arbi_nautilus.Base.neg arbi_nautilus.Base.◌-ℤ◌
    arbi_nautilus.Margin.Accounts.holding_of arbi_nautilus.Margin.Accounts.held_position
    arbi_nautilus.Margin.Accounts.read_row arbi_nautilus.Margin.Accounts.base_of
    arbi_nautilus.Margin.Accounts.source_room arbi_nautilus.Margin.bitfinex_margin_capacity
    arbi_nautilus.Margin.validate_inputs ◌+ℤ◌ arbi_nautilus.Margin.intersect_capacity
projects = refl

bitfinex_source_account-SourceProjected_example :
    SourceProjected cut_context (some event) account_route "XAUT" "UST" sampling projected
bitfinex_source_account-SourceProjected_example =
    bitfinex_source_account-SourceProjected cut_context (some event) account_route "XAUT" "UST"
      sampling projected projects
