-- ===== src/Tests/Rules.antt =====
-- The properties of the rounding and of the Maker's and the Taker's rules at concrete inputs.
use arbi_nautilus.Base.{
  ok, some, get_elem?, ◌*◌, ◌≤◌, ◌≡◌, refl, true, ℤ, pos, negsuc, neg, magnitude, ◌+ℤ◌, ◌-ℤ◌, ◌*ℤ◌,
  ◌≤ℤ◌, ◌<ℤ◌, max_ℤ, min_ℤ, none, List, [], ◌∷◌, arith, pos_part, ◌%◌, ◌/◌, ◌&&◌, ltb_ℤ,
}
use arbi_nautilus.Models.{long, short, ounce}
use arbi_nautilus.Models.Rounding.{residual-le-half, round_hedge_ounces, of_ounces}
use arbi_nautilus.Maker.{
  maker_carry_bounds, within_bounds, account_allows, keeps_side, passive_maker_price,
}
use arbi_nautilus.Maker.Bounds.{carry_fills, bought, sold, maker_carry_bounds-covers}
use arbi_nautilus.Maker.Limits.{within_bounds-covers, within_bounds-account_allows}
use arbi_nautilus.Maker.Price.{passive_bid, passive_ask}
use arbi_nautilus.Accounts.{
  SourceAccount, HedgeAccount, MakerAccount, RiskConfig, select_source_account,
}
use arbi_nautilus.Accounts.Choice.{IsExtreme, select_source_account-IsExtreme}
use arbi_nautilus.Taker.{
  Decimals, BookTop, CarryConfig, FxConfig, TakerEconomicsConfig, risk_allows, evaluate_taker,
}
use arbi_nautilus.Taker.Risk.{risk_allows-account_allows}
use arbi_nautilus.Taker.Evaluate.{Answers, evaluate_taker-Answers}
use arbi_nautilus.Taker.Swap.{
  Calendar, SwapInputs, rated, normalize_mt5_points_swap, normalize_mt5_points_swap-returns,
}
use arbi_nautilus.Quote.{MakerEconomicsConfig, maker_quote}
use arbi_nautilus.Quote.Choice.{Quotes, maker_quote-Quotes}
use arbi_nautilus.Tests.{oz}

residual-le-half_example :
    2 * magnitude (pos 140000000 -ℤ of_ounces (round_hedge_ounces (pos 140000000))) ≤ ounce
residual-le-half_example = residual-le-half (pos 140000000)

-- 0.4 ounce carried, 2 ounces to buy and 1 to sell.
maker_carry_bounds-covers_example :
    let fills = pos 70000000 ∷ negsuc 49999999 ∷ pos 90000000 ∷ [] in
    let hedged = of_ounces (carry_fills (pos 40000000) (pos 0) fills).1 in
    (pos (magnitude (pos 40000000 +ℤ pos (bought fills) -ℤ pos (sold fills))) ≤ℤ pos 250000000)
    × (hedged ≤ℤ oz 2)
    × (neg (oz 1) ≤ℤ hedged)
unfolding maker_carry_bounds bought sold ◌+ℤ◌ neg
maker_carry_bounds-covers_example =
    maker_carry_bounds-covers (pos 40000000) (oz 2) (oz 1)
      (record { exposure = pos 250000000; buy = oz 1; sell = oz 2 })
      (pos 70000000 ∷ negsuc 49999999 ∷ pos 90000000 ∷ []) refl (omega arith) (omega arith)

within_bounds-covers_example :
    let after = oz 2 +ℤ oz 1 -ℤ oz 1 in
    (after ≤ℤ max_ℤ (oz 2) (oz 5))
    × (min_ℤ (oz 2) (neg (oz 5)) ≤ℤ after)
    × (true ≡ true → keeps_side (oz 2) (oz 1) after ≡ true)
unfolding within_bounds ◌+ℤ◌ ◌-ℤ◌ neg ◌*ℤ◌
within_bounds-covers_example =
    within_bounds-covers (oz 2) (oz 3) (oz 1) (oz 5) (oz 1) true (oz 1) (oz 1) refl (omega arith)
      (omega arith) (omega arith) (omega arith)

within_bounds-account_allows_example :
    (within_bounds (oz 2) (oz 1) (pos 0) (oz 5) (oz 1) true ≡ true
      → account_allows (oz 2) (oz 1) (oz 3) (oz 5) (oz 1) true ≡ true)
    × (within_bounds (oz 2) (pos 0) (oz 1) (oz 5) (oz 1) true ≡ true
        → account_allows (oz 2) (neg (oz 1)) (oz 3) (oz 5) (oz 1) true ≡ true)
within_bounds-account_allows_example =
    within_bounds-account_allows (oz 2) (oz 1) (oz 3) (oz 5) (oz 1) true (omega arith) (omega arith)

passive_bid_example :
    (pos 0 <ℤ pos 96)
    × (pos 96 <ℤ pos 98)
    × (pos 96 ≤ℤ pos 100)
    × (pos_part (pos 96) % pos_part (pos 1) ≡ 0)
unfolding passive_maker_price ◌-ℤ◌ ◌*ℤ◌
passive_bid_example = passive_bid (pos 100) (pos 97) (pos 98) (pos 1) (pos 2) (pos 96) refl

passive_ask_example :
    (pos 0 <ℤ pos 99)
    × (pos 97 <ℤ pos 99)
    × (pos 96 ≤ℤ pos 99)
    × (pos_part (pos 99) % pos_part (pos 1) ≡ 0)
unfolding passive_maker_price ◌+ℤ◌ ◌*ℤ◌
passive_ask_example = passive_ask (pos 96) (pos 97) (pos 98) (pos 1) (pos 2) (pos 99) refl

-- Decimals that are whole numbers.
abbrev whole_decimals : Decimals
whole_decimals = record {
  Decimal = ℤ;
  zero_decimal = pos 0;
  one_decimal = pos 1;
  plus = ◌+ℤ◌;
  minus = ◌-ℤ◌;
  times = ◌*ℤ◌;
  over = λ a b. pos (pos_part a / pos_part b);
  less = ltb_ℤ;
}

abbrev low_account : SourceAccount
low_account = record {
  account_id = "BFX-1";
  client_id = none;
  position_ounces = oz 1;
  max_long_ounces = oz 3;
  max_short_ounces = oz 3;
  base_margin_level = oz 100;
}

abbrev high_account : SourceAccount
high_account = record low_account { account_id = "BFX-2"; position_ounces = oz 2 }

abbrev both_accounts : List SourceAccount
both_accounts = high_account ∷ low_account ∷ []

abbrev mt5_account : HedgeAccount
mt5_account = record {
  position_ounces = neg (oz 1);
  max_long_ounces = oz 3;
  max_short_ounces = oz 3;
}

abbrev mt5_maker_account : MakerAccount
mt5_maker_account = record {
  account_id = "MT5-1";
  client_id = none;
  position_ounces = neg (oz 1);
  max_long_ounces = oz 3;
  max_short_ounces = oz 3;
}

abbrev limits : RiskConfig
limits = record {
  source_max_abs = oz 5;
  hedge_max_abs = oz 5;
  source_min_keep_abs = oz 1;
  hedge_min_keep_abs = oz 1;
  only_long = true;
}

abbrev source_top : BookTop ℤ
source_top = record { bid = pos 90; ask = pos 100; bid_size = oz 5; ask_size = oz 5 }

abbrev hedge_top : BookTop ℤ
hedge_top = record { bid = pos 300; ask = pos 310; bid_size = oz 5; ask_size = oz 5 }

abbrev no_carry : CarryConfig ℤ
no_carry = record {
  bitfinex_long = pos 0;
  bitfinex_short = pos 0;
  mt5_long_swap = pos 0;
  mt5_short_swap = pos 0;
  total_trade_fee = pos 0;
}

abbrev par : FxConfig ℤ
par = record { usd_usdt_bid = pos 1; usd_usdt_ask = pos 1 }

abbrev taker_config : TakerEconomicsConfig ℤ
taker_config = record {
  base_book_quantity = oz 1;
  open_quantity_long = oz 2;
  open_quantity_short = oz 2;
  threshold_long = pos 1;
  threshold_short = pos 1;
  margin_level = oz 100;
  risk = limits;
}

abbrev maker_config : MakerEconomicsConfig ℤ
maker_config = record {
  bid = record { open_quantity_ounces = oz 2; open_spread = pos 0; delta = pos 0 };
  ask = record { open_quantity_ounces = oz 2; open_spread = pos 0; delta = pos 0 };
  margin_level = oz 100;
  risk = limits;
}

select_source_account-IsExtreme_example :
    IsExtreme both_accounts
      (λ a. a.max_long_ounces ≡ oz 3)
      short
      (select_source_account both_accounts short)
select_source_account-IsExtreme_example =
    select_source_account-IsExtreme both_accounts (λ a. a.max_long_ounces ≡ oz 3) short
      (refl, (refl, tt))

risk_allows-account_allows_example : risk_allows long (oz 2) low_account mt5_account limits ≡ (
    ltb_ℤ (pos 0) (oz 2)
    && (account_allows (oz 1) (oz 2) (oz 2) (oz 5) (oz 1) true
        && account_allows (neg (oz 1)) (neg (oz 2)) (oz 2) (oz 5) (oz 1) true))
risk_allows-account_allows_example =
    risk_allows-account_allows long (oz 2) low_account mt5_account limits

evaluate_taker-Answers_example :
    Answers whole_decimals source_top hedge_top both_accounts mt5_account taker_config (
      evaluate_taker whole_decimals source_top hedge_top both_accounts mt5_account taker_config none
        no_carry par)
evaluate_taker-Answers_example =
    evaluate_taker-Answers whole_decimals source_top hedge_top both_accounts mt5_account
      taker_config none no_carry par

maker_quote-Quotes_example :
    Quotes whole_decimals long hedge_top maker_config none both_accounts (mt5_maker_account ∷ []) (
      maker_quote whole_decimals long hedge_top both_accounts
        (mt5_maker_account ∷ [])
        maker_config
        no_carry
        par
        none)
maker_quote-Quotes_example =
    maker_quote-Quotes whole_decimals long hedge_top maker_config none both_accounts
      (mt5_maker_account ∷ []) no_carry par

abbrev sunday : Calendar
sunday = record { strip = λ text. text; weekday = λ now zone. some 6 }

abbrev swap_inputs : SwapInputs ℤ
swap_inputs = record {
  swap_long = neg (pos 30);
  swap_short = pos 10;
  point = pos 1;
  ask = pos 5;
  native_swap_mode = pos 1;
  swap_rates = pos 0 ∷ pos 1 ∷ pos 1 ∷ pos 3 ∷ pos 1 ∷ pos 1 ∷ pos 0 ∷ [];
  now_ns = pos 0;
  server_timezone = "Europe/Athens";
}

normalize_mt5_points_swap-returns_example :
    (rate : ℤ) × (get_elem? swap_inputs.swap_rates 0 ≡ some rate)
    × (normalize_mt5_points_swap whole_decimals sunday swap_inputs
        ≡ ok (rated whole_decimals sunday swap_inputs rate))
normalize_mt5_points_swap-returns_example =
    normalize_mt5_points_swap-returns whole_decimals sunday swap_inputs 6 refl refl
