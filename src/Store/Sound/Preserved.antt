-- ===== src/Store/Sound/Preserved.antt =====
-- Every operation of `JsonStateStore` keeps a sound state, however it ends.
use arbi_nautilus.Base.{
  ◌≡◌, refl, ◌⊎◌, inl, inr, String, Option, none, some, List, arith, lookup, Bool-cases,
  Option-cases, length, get_elem?, ◌==◌, nat_eq, add, int_eq,
}
use arbi_nautilus.Durability.{DiskCalls}
use arbi_nautilus.Models.{HedgeIntent, HedgeLeg, ObligationStatus, blocked, is_held}
use arbi_nautilus.Models.Checks.{check_intent}
use arbi_nautilus.Store.{Store, Platform}
use arbi_nautilus.Store.Lookup.{intent_for_hedge_order, hold_rejected_attempt}
use arbi_nautilus.Store.Fills.{SourceFill, apply_source_fill, reserve_source_fill}
use arbi_nautilus.Store.HedgeFill.{
  HedgeFill, hedge_fill_key, fill_intent, apply_fill, apply_hedge_fill,
}
use arbi_nautilus.Store.Hedges.{
  bind_hedge_order, bind_hedge_plan, block_hedge_intent, update_hedge_status,
}
use arbi_nautilus.Store.Sound.{Keeps, same-Sound, lookup-Keyed}
use arbi_nautilus.Store.Sound.Operations.{
  Writes, Writes-Sound, bind_hedge_order-Writes, bind_hedge_plan-Writes, block_hedge_intent-Writes,
  update_hedge_status-Writes, apply_source_fill-Writes, reserve_source_fill-state,
  apply_hedge_fill-state, hold_fill-Writes, unplanned-Writes, advance_leg_end-Writes,
  advance_leg-Writes,
}

module _ (disk : DiskCalls) (id : String) (s : Store) where
  bind_hedge_order_missing :
      (cid : String)
      → lookup id s.state.hedge_intents ≡ none
      → (bind_hedge_order disk id cid s).1 ≡ s
  unfolding bind_hedge_order
  bind_hedge_order_missing cid h = ground arith

  bind_hedge_plan_missing :
      (plan : List HedgeLeg)
      → lookup id s.state.hedge_intents ≡ none
      → (bind_hedge_plan disk id plan s).1 ≡ s
  unfolding bind_hedge_plan
  bind_hedge_plan_missing plan h = ground arith

  block_hedge_intent_missing :
      (reason : String)
      → lookup id s.state.hedge_intents ≡ none
      → (block_hedge_intent disk id reason s).1 ≡ s
  unfolding block_hedge_intent
  block_hedge_intent_missing reason h = ground arith

module _ (disk : DiskCalls) (id : String) where
  pub bind_hedge_order-Keeps : (cid : String) → Keeps (bind_hedge_order disk id cid)
  bind_hedge_order-Keeps cid s h = elim (Option-cases (lookup id s.state.hedge_intents)) [
    | inl missing ↦ rw (bind_hedge_order_missing disk id s cid missing) h
    | inr (i, found) ↦
        Writes-Sound _ s.state _
          (bind_hedge_order-Writes disk id i s cid found (lookup-Keyed id i s.state h found)) h
  ]

  pub bind_hedge_plan-Keeps : (plan : List HedgeLeg) → Keeps (bind_hedge_plan disk id plan)
  bind_hedge_plan-Keeps plan s h = elim (Option-cases (lookup id s.state.hedge_intents)) [
    | inl missing ↦ rw (bind_hedge_plan_missing disk id s plan missing) h
    | inr (i, found) ↦
        Writes-Sound _ s.state _
          (bind_hedge_plan-Writes disk id i s plan found (lookup-Keyed id i s.state h found)) h
  ]

  pub block_hedge_intent-Keeps : (reason : String) → Keeps (block_hedge_intent disk id reason)
  block_hedge_intent-Keeps reason s h = elim (Option-cases (lookup id s.state.hedge_intents)) [
    | inl missing ↦ rw (block_hedge_intent_missing disk id s reason missing) h
    | inr (i, found) ↦
        Writes-Sound _ s.state _
          (block_hedge_intent-Writes disk id i s reason found (lookup-Keyed id i s.state h found)) h
  ]

update_hedge_status_missing :
    (disk : DiskCalls) (cid : String) (status : ObligationStatus) (native : Option String)
    (s : Store)
    → intent_for_hedge_order cid s.state ≡ none
    → (update_hedge_status disk cid status native s).1 ≡ s
unfolding update_hedge_status
update_hedge_status_missing disk cid status native s h = ground arith

pub update_hedge_status-Keeps :
    (disk : DiskCalls) (cid : String) (status : ObligationStatus) (native : Option String)
    → Keeps (update_hedge_status disk cid status native)
update_hedge_status-Keeps disk cid status native s h =
    elim (Option-cases (intent_for_hedge_order cid s.state)) [
      | inl missing ↦ rw (update_hedge_status_missing disk cid status native s missing) h
      | inr (i, found) ↦
          Writes-Sound _ s.state _ (update_hedge_status-Writes disk s i cid status native found) h
    ]

apply_source_fill_missing :
    (platform : Platform) (f : SourceFill) (s : Store)
    → lookup f.client_order_id s.state.source_orders ≡ none
    → (apply_source_fill platform f none s).1 ≡ s
unfolding apply_source_fill
apply_source_fill_missing platform f s h = ground arith

apply_source_fill-Keeps :
    (platform : Platform) (f : SourceFill) → Keeps (apply_source_fill platform f none)
apply_source_fill-Keeps platform f s h =
    elim (Option-cases (lookup f.client_order_id s.state.source_orders)) [
      | inl missing ↦ rw (apply_source_fill_missing platform f s missing) h
      | inr (r, known) ↦ Writes-Sound _ s.state _ (apply_source_fill-Writes platform f r s known) h
    ]

pub reserve_source_fill-Keeps :
    (platform : Platform) (disk : DiskCalls) (f : SourceFill)
    → Keeps (reserve_source_fill platform disk f)
reserve_source_fill-Keeps platform disk f s h = elim (reserve_source_fill-state platform disk f s) [
  | inl same ↦ rw same h
  | inr applied ↦ rw applied (apply_source_fill-Keeps platform f s h)
]

fill_intent-Keeps :
    (platform : Platform) (f : HedgeFill) (i : HedgeIntent) → Keeps (fill_intent platform f none i)
unfolding fill_intent
fill_intent-Keeps platform f i s h = elim (Bool-cases (is_held i.status)) [
  | inl held ↦ rw (held, fill_intent) (Writes-Sound _ s.state _ (hold_fill-Writes platform f i s) h)
  | inr free ↦ elim (Bool-cases (length i.hedge_plan == 0)) [
    | inl unplanned ↦
        rw (free, fill_intent, unplanned)
          (Writes-Sound _ s.state _ (unplanned-Writes platform f i s) h)
    | inr planned ↦ elim (Option-cases (get_elem? i.hedge_plan i.hedge_leg_index)) [
      | inl at_end ↦
          rw (free, fill_intent, planned, at_end)
            (Writes-Sound _ s.state _ (advance_leg_end-Writes platform f i s) h)
      | inr (leg, current) ↦
          rw (free, fill_intent, planned, current)
            (Writes-Sound _ s.state _ (advance_leg-Writes platform f i s leg) h)
    ]
  ]
]

hold_rejected_attempt-Writes :
    (i : HedgeIntent) (cid fact : String) (s : Store)
    → Writes (record i { status = blocked }) s.state (hold_rejected_attempt i cid fact s).1.state
unfolding hold_rejected_attempt check_intent
hold_rejected_attempt-Writes i cid fact s = ground arith

abbrev pub with_seen : HedgeFill → Store → Store
with_seen f s = record s {
  state = record (s.state) { seen_hedge_fills = add (hedge_fill_key f) s.state.seen_hedge_fills };
}

apply_fill_cases :
    (platform : Platform) (f : HedgeFill) (i : HedgeIntent) (s : Store)
    → intent_for_hedge_order f.client_order_id s.state ≡ some i
    → ((apply_fill platform f none s).1 ≡ s)
      ⊎ (((apply_fill platform f none s).1
            ≡ (hold_rejected_attempt i f.client_order_id "late fill" s).1)
          ⊎ ((apply_fill platform f none s).1 ≡ (fill_intent platform f none i (with_seen f s)).1))
unfolding apply_fill
apply_fill_cases platform f i s found = ground arith

apply_fill_missing :
    (platform : Platform) (f : HedgeFill) (s : Store)
    → intent_for_hedge_order f.client_order_id s.state ≡ none
    → (apply_fill platform f none s).1 ≡ s
unfolding apply_fill
apply_fill_missing platform f s h = ground arith

apply_fill-Keeps : (platform : Platform) (f : HedgeFill) → Keeps (apply_fill platform f none)
apply_fill-Keeps platform f s h =
    elim (Option-cases (intent_for_hedge_order f.client_order_id s.state)) [
      | inl missing ↦ rw (apply_fill_missing platform f s missing) h
      | inr (i, found) ↦ elim (apply_fill_cases platform f i s found) [
        | inl same ↦ rw same h
        | inr (inl rejected) ↦ rw rejected (
            Writes-Sound _ s.state _
              (hold_rejected_attempt-Writes i f.client_order_id "late fill" s) h)
        | inr (inr filled) ↦ rw filled (
            fill_intent-Keeps platform f i (with_seen f s)
              (same-Sound s.state (with_seen f s).state refl h))
      ]
    ]

pub apply_hedge_fill-Keeps :
    (platform : Platform) (disk : DiskCalls) (f : HedgeFill)
    → Keeps (apply_hedge_fill platform disk f)
apply_hedge_fill-Keeps platform disk f s h = elim (apply_hedge_fill-state platform disk f s) [
  | inl same ↦ rw same h
  | inr applied ↦ rw applied (apply_fill-Keeps platform f s h)
]
