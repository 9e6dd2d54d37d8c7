-- ===== src/Store/HedgeFill/Quiet.antt =====
-- What the branches of a hedge fill leave alone: the seen fills and the file. They raise no error of
-- a write.
use arbi_nautilus.Base.{
  ◌≡◌, ◌≢◌, inl, inr, String, Option, none, some, arith, get_elem?, Option-cases, Bool-cases, err,
  sync_error, true, ◌||◌, length, ◌==◌, nat_eq, is_some, pure, ◌>>◌,
}
use arbi_nautilus.Models.{HedgeIntent, HedgeLeg, is_held}
use arbi_nautilus.Models.Checks.{check_intent}
use arbi_nautilus.Store.{Store, Platform}
use arbi_nautilus.Store.Lookup.{put_intent}
use arbi_nautilus.Store.HedgeFill.{HedgeFill, hold_fill, advance_leg, unplanned_fill, fill_intent}

module _ (platform : Platform) (f : HedgeFill) (i : HedgeIntent) (s : Store)
    (blocked_reason : Option String) where
  pub fill_intent_seen :
      (fill_intent platform f blocked_reason i s).1.state.seen_hedge_fills
      ≡ s.state.seen_hedge_fills
  unfolding fill_intent put_intent check_intent
  fill_intent_seen = elim (Option-cases (get_elem? i.hedge_plan i.hedge_leg_index)) [
    | inl none_left ↦ ground arith
    | inr (leg, here) ↦ ground arith
  ]

  pub fill_intent_file : (fill_intent platform f blocked_reason i s).1.file ≡ s.file
  unfolding fill_intent put_intent check_intent
  fill_intent_file = elim (Option-cases (get_elem? i.hedge_plan i.hedge_leg_index)) [
    | inl none_left ↦ ground arith
    | inr (leg, here) ↦ ground arith
  ]

  hold_not_sync : (hold_fill f blocked_reason i s).0 ≢ err sync_error
  unfolding hold_fill put_intent check_intent
  hold_not_sync = ground arith

  advance_not_sync : (leg : Option HedgeLeg) → (advance_leg platform f i leg s).0 ≢ err sync_error
  unfolding advance_leg put_intent check_intent
  advance_not_sync none = ground arith
  advance_not_sync (some leg) = ground arith

  unplanned_not_sync :
      ((do put_intent i.intent_id (unplanned_fill i f.ounces); pure true) s).0 ≢ err sync_error
  unfolding put_intent check_intent
  unplanned_not_sync = ground arith

  pub fill_intent_not_sync : (fill_intent platform f blocked_reason i s).0 ≢ err sync_error
  unfolding fill_intent
  fill_intent_not_sync = elim (Bool-cases (is_some blocked_reason || is_held i.status)) [
    | inl held ↦ rw held hold_not_sync
    | inr free ↦ elim (Bool-cases (length i.hedge_plan == 0)) [
      | inl unplanned ↦ rw (free, unplanned) unplanned_not_sync
      | inr planned ↦
          rw (free, planned) (advance_not_sync (get_elem? i.hedge_plan i.hedge_leg_index))
    ]
  ]
