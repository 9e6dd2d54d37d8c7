-- ===== src/Tests/Owner.antt =====
-- The properties of `MakerStateStore` at one state: 1.4 ounces bought by the Maker, one of them to
-- be hedged, 0.4 carried.
use arbi_nautilus.Base.{
  ◌≡◌, refl, true, false, pos, ℤ, String, Option, some, none, [], ◌∷◌, List, ok, ◌⊎◌, arith,
}
use arbi_nautilus.Models.{buy, sell, HedgeIntent, pending}
use arbi_nautilus.Store.{SourceOrderRecord, StoreState, Platform, empty_state}
use arbi_nautilus.Store.Fills.{SourceFill}
use arbi_nautilus.MakerStore.{
  Route, Allocation, Terms, Books, View, bid, taker, Balances, route_balances, balance_of,
  checkpoint_balances, balance_is_admissible, allocate_to_route, append_allocation, new_allocation,
  all_views, is_shared,
}
use arbi_nautilus.MakerStore.Balances.{
  route_total, IsRounded, IsSmall, route_balances-total, allocate_to_route-IsRounded,
}
use arbi_nautilus.MakerStore.Validate.Allocations.{validate}
use arbi_nautilus.MakerStore.Bounded.{validate-IsSmall}
use arbi_nautilus.MakerStore.Publish.{Owner, persist_books, clear_source_freezes}
use arbi_nautilus.MakerStore.Fills.{reserve_view_fill}
use arbi_nautilus.MakerStore.Publish.{freeze_sources}
use arbi_nautilus.MakerStore.Freeze.{Froze, freeze_sources-Froze}
use arbi_nautilus.MakerStore.Frozen.{Persisted, persist_books-Persisted}
use arbi_nautilus.MakerStore.Reserve.{Reserved, reserve_view_fill-Reserved}
use arbi_nautilus.MakerStore.Release.{
  IsCarried, balance_is_admissible-IsCarried, Cleared, clear_source_freezes-Cleared,
}
use arbi_nautilus.MakerStore.Due.{Selected, all_owned, first_unfinished_hedge-Selected}
use arbi_nautilus.MakerStore.Dispatch.{
  owned_intents, legacy_unfinished, first_unfinished_hedge, hedge_dispatch_ready,
  hedge_dispatch_ready_unique,
}
use arbi_nautilus.Tests.{oz, working_disk}

abbrev platform : Platform
platform = record { digest = λ text. text; show = λ amount. "amount" }

abbrev route : Route
route = record {
  source_account_id = some "BFX-1";
  source_client_id = none;
  hedge_account_id = some "MT5-1";
  hedge_client_id = none;
  isolated_source_order_id = none;
}

abbrev terms : Terms
terms = record {
  shared_strategy_ids = some ("MAKER", "TAKER");
  residual_limit = pos 50000000;
  carry_route = some route;
  legacy_sources = none;
  legacy_orders = [];
}

abbrev order : SourceOrderRecord
order = record {
  client_order_id = "S-1";
  side = buy;
  quantity_ounces = oz 2;
  source_account_id = some "BFX-1";
  source_client_id = none;
  hedge_account_id = some "MT5-1";
  hedge_client_id = none;
  hedge_position_id = none;
  hedge_position_quantity_ounces = none;
  filled_ounces = pos 140000000;
  status = "PARTIALLY_FILLED";
}

abbrev intent : HedgeIntent
intent = record {
  intent_id = "hedge-1";
  fill_key = "S-1|V|1";
  source_client_order_id = "S-1";
  source_trade_id = "1";
  source_side = buy;
  source_fill_ounces = pos 140000000;
  hedge_side = sell;
  hedge_quantity_ounces = oz 1;
  hedge_position_id = none;
  hedge_position_quantity_ounces = none;
  status = pending;
  hedge_client_order_id = none;
  hedge_filled_ounces = pos 0;
  hedge_plan = [];
  hedge_leg_index = 0;
  hedge_leg_filled_ounces = pos 0;
  hedge_order_ids = [];
  rejected_attempt = none;
}

abbrev bid_view : StoreState
bid_view = record empty_state {
  source_orders = ("S-1", order) ∷ [];
  active_source_order_id = some "S-1";
  seen_source_fills = "S-1|V|1" ∷ [];
  hedge_intents = ("hedge-1", intent) ∷ [];
}

abbrev allocation : Allocation
allocation = record {
  fill_key = "S-1|V|1";
  route = route;
  signed_fill_ounces = pos 140000000;
  allocated_ounces = oz 1;
}

abbrev books : Books
books = record {
  bid_state = bid_view;
  ask_state = empty_state;
  taker_state = empty_state;
  allocations = allocation ∷ [];
  cycle_freeze_only = false;
}

abbrev owner : Owner
owner = record {
  books = books;
  committed = books;
  file = some books;
  freeze_publication_failed = false;
  revoked = [];
}

abbrev balances : Balances
balances = (route, (pos 40000000, bid)) ∷ []

books-balances : route_balances terms books ≡ ok balances
unfolding route_balances arbi_nautilus.MakerStore.allocation_fold checkpoint_balances
    arbi_nautilus.Base.◌-ℤ◌ arbi_nautilus.Base.◌+ℤ◌
books-balances = refl

books-valid : validate terms books ≡ ok tt
unfolding validate arbi_nautilus.MakerStore.Validate.check_identities arbi_nautilus.Base.split_bar
    arbi_nautilus.MakerStore.Validate.Allocations.check_allocations
    arbi_nautilus.MakerStore.Validate.Allocations.check_checkpoint
    arbi_nautilus.MakerStore.Validate.Allocations.claim_fill
    arbi_nautilus.MakerStore.Validate.Allocations.is_foreign
    arbi_nautilus.MakerStore.Validate.Allocations.is_misplaced arbi_nautilus.MakerStore.route_of
    arbi_nautilus.MakerStore.Validate.Allocations.settle_route
    arbi_nautilus.Models.Rounding.of_ounces arbi_nautilus.Models.Rounding.round_hedge_ounces
    arbi_nautilus.Base.◌+ℤ◌ checkpoint_balances
    arbi_nautilus.MakerStore.Validate.Allocations.claim_intent
    arbi_nautilus.MakerStore.Validate.Allocations.check_closing
books-valid = refl

books-admissible : balance_is_admissible terms books ≡ ok true
unfolding balance_is_admissible route_balances arbi_nautilus.MakerStore.allocation_fold
    checkpoint_balances arbi_nautilus.Base.◌-ℤ◌ arbi_nautilus.Base.◌+ℤ◌
books-admissible = refl

validate-IsSmall_example :
    IsSmall (balance_of route balances)
    ⊎ (balance_of route balances ≡ balance_of route (checkpoint_balances terms))
validate-IsSmall_example = validate-IsSmall terms books balances route books-valid books-balances

route_balances-total_example :
    balance_of route balances
    ≡ route_total route (balance_of route (checkpoint_balances terms)) books.allocations
route_balances-total_example = route_balances-total terms books balances route books-balances

balance_is_admissible-IsCarried_example : IsCarried terms route (balance_of route balances)
balance_is_admissible-IsCarried_example =
    balance_is_admissible-IsCarried terms books balances route books-balances books-admissible

-- 0.2 ounces more round to one ounce with the 0.4 that stayed.
abbrev next_books : Books
next_books = append_allocation (new_allocation order "S-1|V|2" (pos 20000000) (pos 1)) books

allocated : allocate_to_route terms order "S-1|V|2" (pos 20000000) books ≡ ok (pos 1, next_books)
unfolding allocate_to_route route_balances arbi_nautilus.MakerStore.allocation_fold
    arbi_nautilus.Models.Rounding.round_hedge_ounces arbi_nautilus.Base.◌+ℤ◌ checkpoint_balances
    arbi_nautilus.MakerStore.route_of arbi_nautilus.Base.◌-ℤ◌
allocated = refl

books-IsRounded : IsRounded route (balance_of route (checkpoint_balances terms)) books.allocations
unfolding arbi_nautilus.Models.Rounding.of_ounces arbi_nautilus.Models.Rounding.round_hedge_ounces
    arbi_nautilus.Base.◌+ℤ◌ checkpoint_balances
books-IsRounded = (λ same. refl, tt)

allocate_to_route-IsRounded_example :
    IsRounded route (balance_of route (checkpoint_balances terms)) next_books.allocations
allocate_to_route-IsRounded_example =
    allocate_to_route-IsRounded terms order "S-1|V|2" (pos 20000000) books next_books (pos 1) route
      allocated books-IsRounded

abbrev next_fill : SourceFill
next_fill = record {
  fill_key = "S-1|V|2";
  client_order_id = "S-1";
  trade_id = "2";
  side = buy;
  ounces = pos 20000000;
}

reserve_view_fill-Reserved_example :
    Reserved terms platform bid next_fill order owner
      (reserve_view_fill terms platform working_disk bid next_fill owner)
reserve_view_fill-Reserved_example =
    reserve_view_fill-Reserved terms platform working_disk bid next_fill order owner refl refl

persist_books-Persisted_example :
    Persisted terms working_disk owner (persist_books terms working_disk owner)
persist_books-Persisted_example = persist_books-Persisted terms working_disk owner

clear_source_freezes-Cleared_example :
    Cleared terms owner (clear_source_freezes terms working_disk owner)
clear_source_freezes-Cleared_example = clear_source_freezes-Cleared terms working_disk owner

first_unfinished_hedge-Selected_example :
    Selected terms
      (all_owned books (all_views terms))
      books.allocations
      (first_unfinished_hedge terms books)
first_unfinished_hedge-Selected_example = first_unfinished_hedge-Selected terms books refl

is_ready : hedge_dispatch_ready terms books bid "hedge-1" ≡ true
unfolding hedge_dispatch_ready first_unfinished_hedge legacy_unfinished owned_intents
    arbi_nautilus.MakerStore.Dispatch.first_owned
is_ready = refl

abbrev the_id : String
the_id = "hedge-1"

hedge_dispatch_ready_unique_example : (bid ≡ bid) × (the_id ≡ the_id)
hedge_dispatch_ready_unique_example =
    hedge_dispatch_ready_unique terms books bid bid the_id the_id refl is_ready is_ready

freeze_sources-Froze_example :
    Froze terms working_disk "stop" owner (freeze_sources terms working_disk "stop" owner)
freeze_sources-Froze_example = freeze_sources-Froze terms working_disk "stop" owner
