-- ===== src/Projection/Hedge/Kept.antt =====
-- What one fill of a projection by src/py000_nautilus/hedge_projection.py leaves alone in the single store.
use arbi_nautilus.Base.{
  ◌≡◌, ◌≢◌, refl, sym, subst, inl, inr, ◌⊎◌, Bool, true, false, ℕ, String, Option, none, some, List,
  arith, Result, err, sync_error, lookup, insert, lookup-insert, member, add, is_some, string_eq,
  pos, leb_ℤ, Bool-cases, Option-cases,
}
use arbi_nautilus.Models.{HedgeIntent, HedgeLeg, blocked}
use arbi_nautilus.Models.Checks.{check_intent, intent_is_valid}
use arbi_nautilus.Store.{StoreState, Store, Platform}
use arbi_nautilus.Store.Keyed.{Keyed, insert-Keyed, find-lookup}
use arbi_nautilus.Store.Lookup.{
  put_intent, hold_rejected_attempt, intent_for_hedge_order, is_rejected_attempt,
}
use arbi_nautilus.Store.HedgeFill.{
  HedgeFill, hedge_fill_key, apply_fill, fill_intent, hold_fill, held_intent,
}
use arbi_nautilus.Projection.Hedge.Live.{SameOrders, has_live, live-insert}

-- What a projection of hedge fills leaves alone: the source orders, their fills and the residual.
pub record SourceKept (s s' : StoreState) : Type 0 where
  pub orders : s'.source_orders ≡ s.source_orders
  pub active : s'.active_source_order_id ≡ s.active_source_order_id
  pub fills : s'.seen_source_fills ≡ s.seen_source_fills
  pub residual : s'.net_unhedged_ounces ≡ s.net_unhedged_ounces

-- From one store to a later one in the loop.
pub record IsAfter (s s' : Store) : Type 0 where
  pub kept : SourceKept s.state s'.state
  pub halt : is_some s.state.halt_reason ≡ true → is_some s'.state.halt_reason ≡ true
  pub freeze : s'.state.source_freeze_reason ≡ s.state.source_freeze_reason
  pub file : s'.file ≡ s.file

module _ (platform : Platform) (reason : String) (f : HedgeFill) (s : Store) where
  abbrev step : Result Bool × Store
  step = apply_fill platform f (some reason) s

  apply-file : step.1.file ≡ s.file
  unfolding apply_fill fill_intent hold_fill hold_rejected_attempt put_intent check_intent
  apply-file = ground arith

  pub apply-not-sync : step.0 ≢ err sync_error
  unfolding apply_fill fill_intent hold_fill hold_rejected_attempt put_intent check_intent
  apply-not-sync = ground arith

  apply-halt : is_some s.state.halt_reason ≡ true → is_some step.1.state.halt_reason ≡ true
  unfolding apply_fill fill_intent hold_fill hold_rejected_attempt put_intent check_intent
  apply-halt h = ground arith

  apply-freeze : step.1.state.source_freeze_reason ≡ s.state.source_freeze_reason
  unfolding apply_fill fill_intent hold_fill hold_rejected_attempt put_intent check_intent
  apply-freeze = ground arith

  apply-kept : SourceKept s.state step.1.state
  unfolding apply_fill fill_intent hold_fill hold_rejected_attempt put_intent check_intent
  apply-kept = record {
    orders = ground arith;
    active = ground arith;
    fills = ground arith;
    residual = ground arith;
  }

  pub apply-IsAfter : IsAfter s step.1
  apply-IsAfter = record {
    kept = apply-kept;
    halt = apply-halt;
    freeze = apply-freeze;
    file = apply-file;
  }

-- What a later dispatch of an intent goes by: its order, its leg and its plan.
abbrev pub dispatch_of : Option HedgeIntent → Option (Option String × (ℕ × List HedgeLeg))
dispatch_of none = none
dispatch_of (some i) = some (i.hedge_client_order_id, (i.hedge_leg_index, i.hedge_plan))

-- No intent gets another order, leg or plan.
abbrev pub LegsKept : StoreState → StoreState → Type 0
LegsKept s s' =
    (id : String)
    → dispatch_of (lookup id s'.hedge_intents) ≡ dispatch_of (lookup id s.hedge_intents)

put_dispatch :
    (i j : HedgeIntent) (s : StoreState) (id : String)
    → lookup i.intent_id s.hedge_intents ≡ some i
    → dispatch_of (some j) ≡ dispatch_of (some i)
    → dispatch_of (lookup id (insert i.intent_id j s.hedge_intents))
      ≡ dispatch_of (lookup id s.hedge_intents)
put_dispatch i j s id at same =
    ground (arith, lookup-insert i.intent_id id j s.hedge_intents, string_eq.beq_iff i.intent_id id)

-- What one fill does to the intents: nothing, or one is put in its place with its dispatch kept.
abbrev pub Puts : Store → Store → Type 0
Puts s t =
    (t.state.hedge_intents ≡ s.state.hedge_intents)
    ⊎ ((i : HedgeIntent) × (j : HedgeIntent) × (lookup i.intent_id s.state.hedge_intents ≡ some i)
        × (j.intent_id ≡ i.intent_id)
        × (dispatch_of (some j) ≡ dispatch_of (some i))
        × SameOrders i j
        × (t.state.hedge_intents ≡ insert i.intent_id j s.state.hedge_intents))

pub Puts-LegsKept : (s t : Store) → Puts s t → LegsKept s.state t.state
Puts-LegsKept s t (inl same) id = rw same refl
Puts-LegsKept s t (inr (i, j, at, name, kept, alike, put)) id =
    rw put (put_dispatch i j s.state id at kept)

pub Puts-Keyed :
    (s t : Store) → Puts s t → Keyed s.state.hedge_intents → Keyed t.state.hedge_intents
Puts-Keyed s t (inl same) h = subst Keyed (sym same) h
Puts-Keyed s t (inr (i, j, at, name, kept, alike, put)) h =
    subst Keyed (sym put) (insert-Keyed i.intent_id j s.state.hedge_intents name h)

pub Puts-live :
    (s t : Store)
    → Puts s t
    → (cid : String) → has_live cid t.state.hedge_intents ≡ has_live cid s.state.hedge_intents
Puts-live s t (inl same) cid = rw same refl
Puts-live s t (inr (i, j, at, name, kept, alike, put)) cid =
    rw put (live-insert cid i.intent_id i j s.state.hedge_intents alike at)

module _ (platform : Platform) (reason : String) (f : HedgeFill) (s : Store) where
  held-Puts :
      (i : HedgeIntent)
      → lookup i.intent_id s.state.hedge_intents ≡ some i
      → (t : Store) → t.state.hedge_intents ≡ s.state.hedge_intents
      → Puts s (hold_fill f (some reason) i t).1
  unfolding hold_fill put_intent check_intent
  held-Puts i at t same = elim (Bool-cases (intent_is_valid (held_intent i f.ounces))) [
    | inl valid ↦ inr (i, held_intent i f.ounces, at, refl, refl, (refl, refl), ground arith)
    | inr invalid ↦ inl (ground arith)
  ]

  rejected-Puts :
      (i : HedgeIntent)
      → lookup i.intent_id s.state.hedge_intents ≡ some i
      → (cid fact : String) → Puts s (hold_rejected_attempt i cid fact s).1
  unfolding hold_rejected_attempt check_intent
  rejected-Puts i at cid fact =
      elim (Bool-cases (intent_is_valid (record i { status = blocked }))) [
        | inl valid ↦
            inr (i, record i { status = blocked }, at, refl, refl, (refl, refl), ground arith)
        | inr invalid ↦ inl (ground arith)
      ]

  own_place :
      (i : HedgeIntent)
      → intent_for_hedge_order f.client_order_id s.state ≡ some i
      → Keyed s.state.hedge_intents
      → lookup i.intent_id s.state.hedge_intents ≡ some i
  unfolding intent_for_hedge_order
  own_place i bound keyed = find-lookup _ i s.state.hedge_intents keyed bound

  abbrev marked : Store
  marked = record s {
    state = record (s.state) { seen_hedge_fills = add (hedge_fill_key f) s.state.seen_hedge_fills };
  }

  module _ (i : HedgeIntent) (new : member (hedge_fill_key f) s.state.seen_hedge_fills ≡ false)
      (bound : intent_for_hedge_order f.client_order_id s.state ≡ some i) where
    late_lem :
        is_rejected_attempt i f.client_order_id ≡ true
        → apply_fill platform f (some reason) s
          ≡ hold_rejected_attempt i f.client_order_id "late fill" s
    unfolding apply_fill
    late_lem late = ground (arith, new, bound, late)

    hold_lem :
        is_rejected_attempt i f.client_order_id ≡ false
        → leb_ℤ f.ounces (pos 0) ≡ false
        → apply_fill platform f (some reason) s ≡ hold_fill f (some reason) i marked
    unfolding apply_fill fill_intent
    hold_lem current positive = ground (arith, new, bound, current, positive)

  -- One fill of the loop, on each of its branches.
  pub apply-Puts : Keyed s.state.hedge_intents → Puts s (apply_fill platform f (some reason) s).1
  unfolding apply_fill fill_intent
  apply-Puts keyed = elim (Bool-cases (member (hedge_fill_key f) s.state.seen_hedge_fills)) [
    | inl seen ↦ inl (ground (arith, seen))
    | inr new ↦ elim (Option-cases (intent_for_hedge_order f.client_order_id s.state)) [
      | inl nobody ↦ inl (ground (arith, new, nobody))
      | inr (i, bound) ↦
          let at = own_place i bound keyed in
          elim (Bool-cases (is_rejected_attempt i f.client_order_id)) [
            | inl late ↦
                subst (λ (p : Result Bool × Store). Puts s p.1) (sym (late_lem i new bound late))
                  (rejected-Puts i at f.client_order_id "late fill")
            | inr current ↦ elim (Bool-cases (leb_ℤ f.ounces (pos 0))) [
              | inl empty ↦ inl (ground (arith, new, bound, current, empty))
              | inr positive ↦
                  subst (λ (p : Result Bool × Store). Puts s p.1)
                    (sym (hold_lem i new bound current positive)) (held-Puts i at marked refl)
            ]
          ]
    ]
  ]
