-- ===== src/Store/HedgeFill.antt =====
-- `apply_hedge_fill` of src/py000_nautilus/store.py: one fill of a hedge order advances exactly one
-- planned leg, or holds the intent.
pub mod Accounting
pub mod Quiet
pub mod Booked
use arbi_nautilus.Base.{
  ℕ, suc, ◌+◌, Bool, true, false, not, ◌&&◌, ◌||◌, ℤ, pos, ◌+ℤ◌, ◌-ℤ◌, leb_ℤ, String, ◌<>◌, Option,
  none, some, List, [], ◌∷◌, is_none, is_some, member, add, length, get_elem?, ltb, ◌==◌, nat_eq,
  int_eq, string_eq, option_eq, if◌then◌else◌, Result, ok, err, Action, pure, raise_if, ◌>>=◌, ◌>>◌,
  value_error,
}
use arbi_nautilus.Durability.{DiskCalls}
use arbi_nautilus.Models.{HedgeIntent, HedgeLeg, pending, accepted, completed, blocked, is_held}
use arbi_nautilus.Store.{
  StoreState, Store, Platform, revoke_pause, call_hook, update_state, persist, transaction,
}
use arbi_nautilus.Store.Source.{halt_if_running}
use arbi_nautilus.Store.Lookup.{
  put_intent, is_rejected_attempt, intent_for_hedge_order, set_halt, status_name,
  hold_rejected_attempt,
}

-- The keyword arguments of `apply_hedge_fill`.
pub record HedgeFill : Type 0 where
  pub client_order_id : String
  pub trade_id : String
  pub ounces : ℤ

abbrev pub hedge_fill_key : HedgeFill → String
hedge_fill_key f = f.client_order_id <> "|" <> f.trade_id

-- The intent of a held fill: its totals grow, and the current leg does not advance.
abbrev pub held_intent : HedgeIntent → ℤ → HedgeIntent
held_intent i ounces = record i {
  hedge_filled_ounces = i.hedge_filled_ounces +ℤ ounces;
  hedge_leg_filled_ounces =
      if ltb i.hedge_leg_index (length i.hedge_plan)
      then i.hedge_leg_filled_ounces +ℤ ounces
      else i.hedge_leg_filled_ounces;
  status = blocked;
}

unfoldable pub hold_fill : HedgeFill → Option String → HedgeIntent → Action Store Bool
hold_fill f none i = do
  put_intent i.intent_id (held_intent i f.ounces)
  call_hook revoke_pause
  set_halt
      ("hedge " <> f.client_order_id <> " filled after unresolved status " <> status_name i.status)
  pure true
hold_fill f (some reason) i = do
  put_intent i.intent_id (held_intent i f.ounces)
  update_state (halt_if_running reason)
  pure true

-- The intent after the exact fill of its current leg.
abbrev pub advanced_intent : HedgeIntent → ℤ → HedgeIntent
advanced_intent i ounces = record i {
  hedge_filled_ounces = i.hedge_filled_ounces +ℤ ounces;
  status = if i.hedge_leg_index + 1 == length i.hedge_plan then completed else pending;
  hedge_client_order_id = none;
  hedge_leg_index = i.hedge_leg_index + 1;
  hedge_leg_filled_ounces = pos 0;
}

-- A planned intent: `none` stands for a leg index at the plan's end.
unfoldable pub advance_leg :
    Platform → HedgeFill → HedgeIntent → Option HedgeLeg → Action Store Bool
advance_leg platform f i none = do
  call_hook revoke_pause
  put_intent i.intent_id
      (record i { hedge_filled_ounces = i.hedge_filled_ounces +ℤ f.ounces; status = blocked })
  set_halt ("hedge " <> f.client_order_id <> " filled after its ticket plan completed")
  pure true
advance_leg platform f i (some leg) =
    let expected = leg.quantity_ounces -ℤ i.hedge_leg_filled_ounces in
    if f.ounces == expected
    then (do put_intent i.intent_id (advanced_intent i f.ounces); pure true)
    else (do
      call_hook revoke_pause
      put_intent i.intent_id (record i {
        hedge_filled_ounces = i.hedge_filled_ounces +ℤ f.ounces;
        hedge_leg_filled_ounces = i.hedge_leg_filled_ounces +ℤ f.ounces;
        status = blocked;
      })
      set_halt (
          "hedge "
          <> f.client_order_id
          <> " fill quantity "
          <> platform.show f.ounces
          <> " does not match planned leg remainder "
          <> platform.show expected)
      pure true)

-- An intent with no plan: it is complete once its quantity is filled.
abbrev pub unplanned_fill : HedgeIntent → ℤ → HedgeIntent
unplanned_fill i ounces =
    let filled = i.hedge_filled_ounces +ℤ ounces in
    record i {
      hedge_filled_ounces = filled;
      status = if leb_ℤ i.hedge_quantity_ounces filled then completed else accepted;
    }

-- The branches on the intent, after the fill key is seen.
unfoldable pub fill_intent : Platform → HedgeFill → Option String → HedgeIntent → Action Store Bool
unfolding hold_fill advance_leg
fill_intent platform f blocked_reason i =
    if is_some blocked_reason || is_held i.status
    then hold_fill f blocked_reason i
    else if length i.hedge_plan == 0
    then (do put_intent i.intent_id (unplanned_fill i f.ounces); pure true)
    else advance_leg platform f i (get_elem? i.hedge_plan i.hedge_leg_index)

-- `_apply_hedge_fill`, without I/O.
unfoldable pub apply_fill : Platform → HedgeFill → Option String → Action Store Bool
unfolding fill_intent
apply_fill platform f blocked_reason s =
    if member (hedge_fill_key f) s.state.seen_hedge_fills
    then (ok false, s)
    else elim (intent_for_hedge_order f.client_order_id s.state) [
      | none ↦ (ok false, s)
      | some i ↦
          if is_rejected_attempt i f.client_order_id
          then hold_rejected_attempt i f.client_order_id "late fill" s
          else (do
            raise_if (leb_ℤ f.ounces (pos 0)) value_error
            update_state
                (λ t. record t { seen_hedge_fills = add (hedge_fill_key f) t.seen_hedge_fills })
            fill_intent platform f blocked_reason i)
              s
    ]

-- `apply_hedge_fill`: published as one step, or taken back.
unfoldable pub apply_hedge_fill : Platform → DiskCalls → HedgeFill → Action Store Bool
apply_hedge_fill platform disk f s =
    if member (hedge_fill_key f) s.state.seen_hedge_fills
      || is_none (intent_for_hedge_order f.client_order_id s.state)
    then (ok false, s)
    else transaction
        (do
          changed ← apply_fill platform f none
          if changed then persist disk else pure tt
          pure changed)
        s
