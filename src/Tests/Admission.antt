-- ===== src/Tests/Admission.antt =====
-- The shared admission at one state: a working sell of two ounces of the ask view, and a buy of one
-- ounce that the bid view asks for; and the same with a native order that the store does not know.
use arbi_nautilus.Base.{
  ◌≡◌, refl, inl, inr, true, false, pos, String, Option, some, none, [], ◌∷◌, List, ok, arith,
}
use arbi_nautilus.Models.{buy, sell}
use arbi_nautilus.Store.{SourceOrderRecord, empty_state}
use arbi_nautilus.MakerStore.{Route, Terms, Books, bid}
use arbi_nautilus.MakerStore.Publish.{Owner}
use arbi_nautilus.Admission.{
  NativeOrder, QuoteTick, AccountSample, Surroundings, AdmissionConfig, admit, is_refused, sampled,
}
use arbi_nautilus.Admission.Verdict.{Admitted, admit-Admitted}
use arbi_nautilus.Admission.Mismatch.{Stopped, Differs, admit-Stopped}
use arbi_nautilus.Tests.{oz, working_disk}

abbrev shared_terms : Terms
shared_terms = record {
  shared_strategy_ids = some ("MAKER", "TAKER");
  residual_limit = pos 50000000;
  carry_route = none;
  legacy_sources = none;
  legacy_orders = [];
}

abbrev resting : SourceOrderRecord
resting = record {
  client_order_id = "A-1";
  side = sell;
  quantity_ounces = oz 2;
  source_account_id = some "BFX-1";
  source_client_id = none;
  hedge_account_id = some "MT5-1";
  hedge_client_id = none;
  hedge_position_id = none;
  hedge_position_quantity_ounces = none;
  filled_ounces = pos 0;
  status = "ACCEPTED";
}

abbrev resting_books : Books
resting_books = record {
  bid_state = empty_state;
  ask_state = record empty_state {
    source_orders = ("A-1", resting) ∷ [];
    active_source_order_id = some "A-1";
  };
  taker_state = empty_state;
  allocations = [];
  cycle_freeze_only = false;
}

abbrev resting_owner : Owner
resting_owner = record {
  books = resting_books;
  committed = resting_books;
  file = some resting_books;
  freeze_publication_failed = false;
  revoked = [];
}

abbrev native : NativeOrder
native = record {
  native_order_id = "A-1";
  strategy_id = "MAKER";
  is_buy = false;
  quantity = oz 2;
  filled_qty = pos 0;
  leaves_qty = oz 2;
  native_account_id = some "BFX-1";
  is_closed = false;
}

abbrev tick : QuoteTick
tick = record {
  bid_price = oz 4000;
  ask_price = oz 4001;
  tick_bid_size = oz 5;
  tick_ask_size = oz 5;
  ts_event = 7;
}

abbrev sample : AccountSample
sample = record {
  source = record {
    account_id = "BFX-1";
    client_id = none;
    position_ounces = pos 0;
    max_long_ounces = oz 5;
    max_short_ounces = oz 5;
    base_margin_level = pos 60;
  };
  hedge = record { position_ounces = pos 0; max_long_ounces = oz 5; max_short_ounces = oz 5 };
  expiry = 9;
  new_budget = true;
}

abbrev around : Surroundings
around = record {
  source_tick = some tick;
  hedge_tick = some tick;
  orders = native ∷ [];
  reader = some (λ a n b m new. some sample);
  positions_ready = some true;
  on_position_mismatch = none;
}

abbrev config : AdmissionConfig
config = record {
  risk = record {
    source_max_abs = oz 3;
    hedge_max_abs = oz 3;
    source_min_keep_abs = pos 0;
    hedge_min_keep_abs = pos 0;
    only_long = false;
  };
  max_unhedged_ounces = some (oz 3);
}

admits :
    admit shared_terms working_disk config around bid buy (oz 1) resting_owner
    ≡ (ok true, resting_owner)
unfolding admit is_refused arbi_nautilus.MakerStore.Publish.view_can_submit
    arbi_nautilus.MakerStore.Publish.view_is_admissible
    arbi_nautilus.MakerStore.balance_is_admissible arbi_nautilus.MakerStore.residuals
    arbi_nautilus.MakerStore.route_balances arbi_nautilus.MakerStore.allocation_fold
    arbi_nautilus.MakerStore.checkpoint_balances
    arbi_nautilus.MakerStore.Dispatch.first_unfinished_hedge
    arbi_nautilus.MakerStore.Dispatch.legacy_unfinished
    arbi_nautilus.MakerStore.Dispatch.owned_intents arbi_nautilus.MakerStore.Dispatch.first_owned
    arbi_nautilus.Admission.weigh sampled arbi_nautilus.Admission.compare_orders
    arbi_nautilus.Admission.same_keys arbi_nautilus.Admission.known_records
    arbi_nautilus.Admission.budget_fits arbi_nautilus.Admission.facts_agree
    arbi_nautilus.Admission.hedge_fits arbi_nautilus.Admission.source_fits
    arbi_nautilus.Admission.working_leaves arbi_nautilus.Base.neg arbi_nautilus.Base.◌*ℤ◌
    arbi_nautilus.Base.◌+ℤ◌ arbi_nautilus.Base.◌-ℤ◌ arbi_nautilus.Maker.floor_to
    arbi_nautilus.Maker.maker_carry_bounds arbi_nautilus.Maker.within_bounds
    arbi_nautilus.MakerStore.carry_residual_ounces
admits = refl

admit-Admitted_example :
    Admitted shared_terms config around bid buy (oz 1) resting_owner resting_owner
admit-Admitted_example =
    admit-Admitted shared_terms working_disk config around bid buy (oz 1) resting_owner
      resting_owner admits

-- A native order of which the store has no record.
abbrev unknown : Surroundings
unknown = record around { orders = native ∷ record native { native_order_id = "A-2" } ∷ [] }

asks : is_refused shared_terms unknown bid (oz 1) resting_owner ≡ ok false
unfolding admit is_refused arbi_nautilus.MakerStore.Publish.view_can_submit
    arbi_nautilus.MakerStore.Publish.view_is_admissible
    arbi_nautilus.MakerStore.balance_is_admissible arbi_nautilus.MakerStore.residuals
    arbi_nautilus.MakerStore.route_balances arbi_nautilus.MakerStore.allocation_fold
    arbi_nautilus.MakerStore.checkpoint_balances
    arbi_nautilus.MakerStore.Dispatch.first_unfinished_hedge
    arbi_nautilus.MakerStore.Dispatch.legacy_unfinished
    arbi_nautilus.MakerStore.Dispatch.owned_intents arbi_nautilus.MakerStore.Dispatch.first_owned
    arbi_nautilus.Admission.weigh
asks = refl

reads : sampled unknown ≡ some sample
unfolding sampled
reads = refl

differs :
    Differs shared_terms unknown sample (record { buying = oz 1; selling = pos 0 }) resting_owner
unfolding arbi_nautilus.Admission.same_keys arbi_nautilus.Admission.known_records
differs = inr (inl refl)

admit-Stopped_example :
    Stopped shared_terms
      (admit shared_terms working_disk config unknown bid buy (oz 1) resting_owner)
admit-Stopped_example =
    admit-Stopped shared_terms working_disk config unknown resting_owner bid buy (oz 1) sample asks
      reads differs
