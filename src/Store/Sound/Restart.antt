-- ===== src/Store/Sound/Restart.antt =====
-- `recover_for_start` keeps a sound state.
use arbi_nautilus.Base.{◌≡◌, inl, inr, ◌⊎◌, String, Option, List, [], ◌∷◌, arith}
use arbi_nautilus.Durability.{DiskCalls}
use arbi_nautilus.Models.{HedgeIntent, unknown}
use arbi_nautilus.Models.Checks.{check_intent}
use arbi_nautilus.Store.{Store, persist}
use arbi_nautilus.Store.Source.{mark_in_flight, mark_active, unresolved_intents, recover_for_start}
use arbi_nautilus.Store.Sound.{Keeps, same-Sound}
use arbi_nautilus.Store.Sound.Operations.{Writes, Writes-Sound}

mark_intent-Writes :
    (i : HedgeIntent) (s : Store)
    → Writes (record i { status = unknown }) s.state (mark_in_flight (i ∷ []) s).1.state
unfolding mark_in_flight check_intent
mark_intent-Writes i s = ground arith

-- The loop stops at an error, or goes on with the rest.
pub mark_in_flight_cases :
    (i : HedgeIntent) (intents : List HedgeIntent) (s : Store)
    → ((mark_in_flight (i ∷ intents) s).1 ≡ (mark_in_flight (i ∷ []) s).1)
      ⊎ ((mark_in_flight (i ∷ intents) s).1
          ≡ (mark_in_flight intents (mark_in_flight (i ∷ []) s).1).1)
unfolding mark_in_flight check_intent
mark_in_flight_cases i intents s = ground arith

mark_in_flight-Keeps : (intents : List HedgeIntent) → Keeps (mark_in_flight intents)
unfolding mark_in_flight
mark_in_flight-Keeps [] s h = h
mark_in_flight-Keeps (i ∷ intents) s h =
    let marked = Writes-Sound _ s.state _ (mark_intent-Writes i s) h in
    elim (mark_in_flight_cases i intents s) [
      | inl stopped ↦ rw stopped marked
      | inr on ↦ rw on (mark_in_flight-Keeps intents (mark_in_flight (i ∷ []) s).1 marked)
    ]

mark_active-intents :
    (active : Option String) (s : Store)
    → (mark_active active s).1.state.hedge_intents ≡ s.state.hedge_intents
mark_active-intents active s = ground arith

recover_for_start-intents :
    (disk : DiskCalls) (s : Store)
    → ((recover_for_start disk s).1.state.hedge_intents ≡ s.state.hedge_intents)
      ⊎ ((recover_for_start disk s).1.state.hedge_intents
          ≡ (mark_in_flight
              (unresolved_intents s.state)
              (mark_active s.state.active_source_order_id s).1).1.state.hedge_intents)
unfolding recover_for_start persist
recover_for_start-intents disk s = ground arith

pub recover_for_start-Keeps : (disk : DiskCalls) → Keeps (recover_for_start disk)
recover_for_start-Keeps disk s h =
    let active = s.state.active_source_order_id in
    elim (recover_for_start-intents disk s) [
      | inl same ↦ same-Sound s.state (recover_for_start disk s).1.state same h
      | inr marked ↦ same-Sound _ (recover_for_start disk s).1.state marked (
          mark_in_flight-Keeps (unresolved_intents s.state) (mark_active active s).1
            (same-Sound s.state (mark_active active s).1.state (mark_active-intents active s) h))
    ]
