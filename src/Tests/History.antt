-- ===== src/Tests/History.antt =====
-- Properties of every history of the store, at one history: an order is begun, filled, hedged.
use arbi_nautilus.Coordinator.{next_hedge_leg}
use arbi_nautilus.Coordinator.Handed.{Handed, next_hedge_leg-Handed}
use arbi_nautilus.Base.{Error, String, ◌≡◌, refl, true, pos, some, none, All, values, ok, []}
use arbi_nautilus.Durability.{DiskCalls}
use arbi_nautilus.Models.{buy, sell}
use arbi_nautilus.Store.{Store, Platform, empty_state, can_submit_source}
use arbi_nautilus.Store.Source.{SourceRequest, begin_source}
use arbi_nautilus.Store.Fills.{SourceFill, reserve_source_fill}
use arbi_nautilus.Store.HedgeFill.{HedgeFill, apply_hedge_fill}
use arbi_nautilus.Store.Hedges.{bind_hedge_order}
use arbi_nautilus.Store.Sound.History.{
  Reachable, starts, goes_on, begins, fills_source, binds_order, fills_hedge, IsSound,
  Reachable-IsSound,
}
use arbi_nautilus.Store.Sound.Consequences.{IsDone, reached_gate-IsDone}
use arbi_nautilus.Tests.{oz, working_disk}

abbrev platform : Platform
platform = record { digest = λ text. text; show = λ amount. "amount" }

abbrev request : SourceRequest
request = record {
  source_account_id = some "BFX-1";
  source_client_id = none;
  hedge_account_id = some "MT5-1";
  hedge_client_id = none;
  hedge_position_id = none;
  hedge_position_quantity_ounces = none;
  source_freeze_reason = none;
}

abbrev whole_fill : SourceFill
whole_fill = record {
  fill_key = "T-1";
  client_order_id = "S-1";
  trade_id = "1";
  side = buy;
  ounces = oz 2;
}

abbrev hedge_fill : HedgeFill
hedge_fill = record { client_order_id = "H-1"; trade_id = "9"; ounces = oz 2 }

abbrev first : Store
first = record { state = empty_state; file = none; hooks = [] }

abbrev begun : Store
begun = (begin_source working_disk "S-1" buy (oz 2) request first).1

abbrev filled : Store
filled = (reserve_source_fill platform working_disk whole_fill begun).1

abbrev bound : Store
bound = (bind_hedge_order working_disk "hedge-T-1" "H-1" filled).1

abbrev hedged : Store
hedged = (apply_hedge_fill platform working_disk hedge_fill bound).1

filled-Reachable : Reachable platform filled
filled-Reachable =
    goes_on begun filled
      (goes_on first begun (starts first refl)
        (begins working_disk "S-1" buy (oz 2) request first begun refl))
      (fills_source working_disk whole_fill begun filled refl)

hedged-Reachable : Reachable platform hedged
hedged-Reachable =
    goes_on bound hedged
      (goes_on filled bound filled-Reachable
        (binds_order working_disk "hedge-T-1" "H-1" filled bound refl))
      (fills_hedge working_disk hedge_fill bound hedged refl)

abbrev messages : Error → String
messages e = "the plan failed"

-- No ticket is held, so the leg opens a short.
next_hedge_leg-Handed_example :
    Handed [] "hedge-T-1" filled (next_hedge_leg working_disk messages true [] "hedge-T-1" filled)
next_hedge_leg-Handed_example =
    next_hedge_leg-Handed working_disk messages true [] "hedge-T-1" filled
      (Reachable-IsSound platform filled filled-Reachable).memory

Reachable-IsSound_example : IsSound hedged
Reachable-IsSound_example = Reachable-IsSound platform hedged hedged-Reachable

hedged-open : can_submit_source hedged.state ≡ true
unfolding can_submit_source begin_source reserve_source_fill bind_hedge_order apply_hedge_fill
    arbi_nautilus.Store.persist arbi_nautilus.Durability.persist_payload
    arbi_nautilus.Store.transaction arbi_nautilus.Store.Fills.apply_source_fill
    arbi_nautilus.Store.Fills.allocate_source_fill arbi_nautilus.Models.Rounding.round_hedge_ounces
    arbi_nautilus.Base.◌+ℤ◌ arbi_nautilus.Store.Fills.book_fill
    arbi_nautilus.Models.Checks.check_intent arbi_nautilus.Models.Checks.intent_is_valid
    arbi_nautilus.Models.Rounding.of_ounces arbi_nautilus.Store.Lookup.put_intent
    arbi_nautilus.Store.Lookup.intent_for_hedge_order arbi_nautilus.Store.HedgeFill.apply_fill
    arbi_nautilus.Base.◌-ℤ◌
hedged-open = refl

reached_gate-IsDone_example : All IsDone (values hedged.state.hedge_intents)
reached_gate-IsDone_example = reached_gate-IsDone platform hedged hedged-Reachable hedged-open
