-- ===== src/Store/Sound/Operations.antt =====
-- What each operation of `JsonStateStore` on an intent writes: one valid intent under its id, or nothing.
use arbi_nautilus.Base.{
  ◌≡◌, ◌⊎◌, inl, inr, true, pos, ◌+ℤ◌, ◌-ℤ◌, String, Option, none, some, List, [], ◌∷◌, ◌++◌, arith,
  lookup, insert, pure, ◌>>◌, if◌then◌else◌, Bool-cases, ◌==◌, int_eq, string_eq, option_eq,
  list_eq, nat_eq,
}
use arbi_nautilus.Durability.{DiskCalls}
use arbi_nautilus.Models.{
  HedgeIntent, HedgeLeg, ObligationStatus, blocked, submitting, leg_eq, side_eq,
}
use arbi_nautilus.Models.Checks.{check_intent, intent_is_valid}
use arbi_nautilus.Store.{StoreState, Store, Platform, persist, transaction, SourceOrderRecord}
use arbi_nautilus.Store.Lookup.{
  put_intent, is_rejected_attempt, intent_for_hedge_order, hold_rejected_attempt,
}
use arbi_nautilus.Models.Rounding.{round_hedge_ounces}
use arbi_nautilus.Store.Fills.{
  SourceFill, signed_fill, book_fill, allocate_source_fill, add_intent, new_intent,
  apply_source_fill, reserve_source_fill,
}
use arbi_nautilus.Store.HedgeFill.{
  HedgeFill, held_intent, unplanned_fill, advanced_intent, hold_fill, advance_leg, apply_fill,
  apply_hedge_fill,
}
use arbi_nautilus.Store.Hedges.{
  bind_hedge_order, bind_hedge_plan, block_hedge_intent, update_hedge_status,
}
use arbi_nautilus.Store.Sound.{Sound, same-Sound, insert-Sound}

-- The state's intents are those of before, or one valid intent was written under its id.
abbrev pub Writes : HedgeIntent → StoreState → StoreState → Type 0
Writes j s t =
    (t.hedge_intents ≡ s.hedge_intents)
    ⊎ ((intent_is_valid j ≡ true) × (t.hedge_intents ≡ insert j.intent_id j s.hedge_intents))

pub Writes-Sound : (j : HedgeIntent) (s t : StoreState) → Writes j s t → Sound s → Sound t
Writes-Sound j s t (inl same) h = same-Sound s t same h
Writes-Sound j s t (inr (valid, written)) h = same-Sound _ t written (insert-Sound j s valid h)

module _ (disk : DiskCalls) (id : String) (i : HedgeIntent) (s : Store) where
  pub bind_hedge_order-Writes :
      (cid : String)
      → lookup id s.state.hedge_intents ≡ some i
      → i.intent_id ≡ id
      → Writes
          (record i {
            hedge_client_order_id = some cid;
            hedge_order_ids = i.hedge_order_ids ++ cid ∷ [];
            status = submitting;
          })
          s.state
          (bind_hedge_order disk id cid s).1.state
  unfolding bind_hedge_order put_intent check_intent persist
  bind_hedge_order-Writes cid found named = ground arith

  pub bind_hedge_plan-Writes :
      (plan : List HedgeLeg)
      → lookup id s.state.hedge_intents ≡ some i
      → i.intent_id ≡ id
      → Writes
          (record i { hedge_plan = plan; hedge_leg_index = 0; hedge_leg_filled_ounces = pos 0 })
          s.state
          (bind_hedge_plan disk id plan s).1.state
  unfolding bind_hedge_plan put_intent check_intent persist
  bind_hedge_plan-Writes plan found named = ground arith

  pub block_hedge_intent-Writes :
      (reason : String)
      → lookup id s.state.hedge_intents ≡ some i
      → i.intent_id ≡ id
      → Writes (record i { status = blocked }) s.state (block_hedge_intent disk id reason s).1.state
  unfolding block_hedge_intent put_intent check_intent persist
  block_hedge_intent-Writes reason found named = ground arith

module _ (disk : DiskCalls) (s : Store) where
  pub update_hedge_status-Writes :
      (i : HedgeIntent) (cid : String) (status : ObligationStatus) (native : Option String)
      → intent_for_hedge_order cid s.state ≡ some i
      → Writes
          (record i { status = if is_rejected_attempt i cid then blocked else status })
          s.state
          (update_hedge_status disk cid status native s).1.state
  unfolding update_hedge_status hold_rejected_attempt put_intent check_intent persist
  update_hedge_status-Writes i cid status native found = ground arith

-- What `_reserve_source_fill` writes.
module _ (platform : Platform) (f : SourceFill) (r : SourceOrderRecord) (s : Store) where
  pub apply_source_fill-Writes :
      lookup f.client_order_id s.state.source_orders ≡ some r
      → Writes
          (new_intent platform f none r (
            round_hedge_ounces ((book_fill f none r s.state).net_unhedged_ounces +ℤ signed_fill f)))
          s.state
          (apply_source_fill platform f none s).1.state
  unfolding apply_source_fill book_fill allocate_source_fill add_intent check_intent
  apply_source_fill-Writes known = ground arith

module _ (platform : Platform) (disk : DiskCalls) where
  pub reserve_source_fill-state :
      (f : SourceFill) (s : Store)
      → ((reserve_source_fill platform disk f s).1.state ≡ s.state)
        ⊎ ((reserve_source_fill platform disk f s).1.state
            ≡ (apply_source_fill platform f none s).1.state)
  unfolding reserve_source_fill transaction persist
  reserve_source_fill-state f s = ground arith

  pub apply_hedge_fill-state :
      (f : HedgeFill) (s : Store)
      → ((apply_hedge_fill platform disk f s).1.state ≡ s.state)
        ⊎ ((apply_hedge_fill platform disk f s).1.state ≡ (apply_fill platform f none s).1.state)
  unfolding apply_hedge_fill transaction persist
  apply_hedge_fill-state f s = ground arith

-- What `_apply_hedge_fill` writes, on each branch of the intent.
module _ (platform : Platform) (f : HedgeFill) (i : HedgeIntent) (s : Store) where
  abbrev pub leg_progress : HedgeIntent
  leg_progress = record i {
    hedge_filled_ounces = i.hedge_filled_ounces +ℤ f.ounces;
    hedge_leg_filled_ounces = i.hedge_leg_filled_ounces +ℤ f.ounces;
    status = blocked;
  }

  pub hold_fill-Writes : Writes (held_intent i f.ounces) s.state (hold_fill f none i s).1.state
  unfolding hold_fill put_intent check_intent
  hold_fill-Writes = ground arith

  pub unplanned-Writes :
      Writes
        (unplanned_fill i f.ounces)
        s.state
        ((do put_intent i.intent_id (unplanned_fill i f.ounces); pure true) s).1.state
  unfolding put_intent check_intent
  unplanned-Writes = ground arith

  pub advance_leg_end-Writes :
      Writes
        (record i { hedge_filled_ounces = i.hedge_filled_ounces +ℤ f.ounces; status = blocked })
        s.state
        (advance_leg platform f i none s).1.state
  unfolding advance_leg put_intent check_intent
  advance_leg_end-Writes = ground arith

  pub advance_leg-Writes :
      (leg : HedgeLeg)
      → Writes
          (if f.ounces == leg.quantity_ounces -ℤ i.hedge_leg_filled_ounces
            then advanced_intent i f.ounces
            else leg_progress)
          s.state
          (advance_leg platform f i (some leg) s).1.state
  unfolding advance_leg put_intent check_intent
  advance_leg-Writes leg =
      elim (Bool-cases (f.ounces == leg.quantity_ounces -ℤ i.hedge_leg_filled_ounces)) [
        | inl exact ↦ rw (exact, advance_leg) (ground arith)
        | inr other ↦ rw (other, advance_leg) (ground arith)
      ]
