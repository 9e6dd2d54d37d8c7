-- ===== src/Store/HedgeFill/Accounting.antt =====
-- Every hedge fill that is taken pays off exactly its own ounces of the exposure, on each branch:
-- a held intent, an unplanned one, an exact leg, a wrong quantity, a plan already at its end.
use arbi_nautilus.Base.{
  ◌≡◌, refl, inl, inr, Bool, true, ◌||◌, ℤ, neg, ◌+ℤ◌, ◌-ℤ◌, int_laws, parts_of_eq, String, Option,
  none, some, arith, lookup, insert, values, length, get_elem?, ◌==◌, nat_eq, int_eq, string_eq,
  Bool-cases, is_some, if◌then◌else◌, Result, ok, err, pure, ◌>>◌,
}
use arbi_nautilus.Models.{HedgeIntent, HedgeLeg, sell, side_eq, is_held, blocked}
use arbi_nautilus.Models.Checks.{check_intent}
use arbi_nautilus.Store.{StoreState, Store, Platform, outstanding, sum_outstanding, net_unhedged}
use arbi_nautilus.Store.Exposure.{sum_outstanding-insert, sum_outstanding_start}
use arbi_nautilus.Store.Lookup.{put_intent}
use arbi_nautilus.Store.HedgeFill.{
  HedgeFill, hold_fill, advance_leg, fill_intent, held_intent, advanced_intent, unplanned_fill,
}

-- The exposure that a fill of the intent's hedge side pays off.
abbrev pub signed_hedge : HedgeIntent → ℤ → ℤ
signed_hedge i ounces = if i.hedge_side == sell then ounces else neg ounces

outstanding_fill :
    (i j : HedgeIntent) (ounces : ℤ)
    → j.hedge_side ≡ i.hedge_side
    → j.hedge_quantity_ounces ≡ i.hedge_quantity_ounces
    → j.hedge_filled_ounces ≡ i.hedge_filled_ounces +ℤ ounces
    → outstanding j +ℤ signed_hedge i ounces ≡ outstanding i
outstanding_fill i j ounces s q f =
    rw (s, q, f)
      (elim (Bool-cases (i.hedge_side == sell)) [
        | inl down ↦ rw down (omega int_laws)
        | inr up ↦ rw up (omega int_laws)
      ])

module _ (platform : Platform) (f : HedgeFill) (i : HedgeIntent) (s : StoreState) where
  -- By how the application ended: a refused constructor check is taken back by the caller.
  abbrev pub Charged : Result Bool × Store → Type 0
  Charged (err e, s') = Unit
  Charged (ok b, s') =
      (b ≡ true) × (net_unhedged s'.state +ℤ signed_hedge i f.ounces ≡ net_unhedged s)

  -- The intent is rewritten under its id, with the fill added to its total.
  charge :
      (j : HedgeIntent)
      → lookup i.intent_id s.hedge_intents ≡ some i
      → j.hedge_side ≡ i.hedge_side
      → j.hedge_quantity_ounces ≡ i.hedge_quantity_ounces
      → j.hedge_filled_ounces ≡ i.hedge_filled_ounces +ℤ f.ounces
      → sum_outstanding s.net_unhedged_ounces (values (insert i.intent_id j s.hedge_intents))
          +ℤ signed_hedge i f.ounces
        ≡ sum_outstanding s.net_unhedged_ounces (values s.hedge_intents)
  charge j at side quantity filled =
      rw
        (
          sum_outstanding_start s.net_unhedged_ounces
              (values (insert i.intent_id j s.hedge_intents)),
          sum_outstanding_start s.net_unhedged_ounces (values s.hedge_intents),
        )
        (omega (
          int_laws,
          parts_of_eq (sum_outstanding-insert i.intent_id i j s.hedge_intents at),
          parts_of_eq (outstanding_fill i j f.ounces side quantity filled),
        ))

  -- The call has put `j` in place of the intent and left the other exposure alone.
  abbrev Puts : HedgeIntent → Result Bool × Store → Type 0
  Puts j (err e, s') = Unit
  Puts j (ok b, s') =
      (b ≡ true)
      × (s'.state.hedge_intents ≡ insert i.intent_id j s.hedge_intents)
      × (s'.state.net_unhedged_ounces ≡ s.net_unhedged_ounces)

  Puts-Charged :
      (j : HedgeIntent) (p : Result Bool × Store)
      → lookup i.intent_id s.hedge_intents ≡ some i
      → j.hedge_side ≡ i.hedge_side
      → j.hedge_quantity_ounces ≡ i.hedge_quantity_ounces
      → j.hedge_filled_ounces ≡ i.hedge_filled_ounces +ℤ f.ounces
      → Puts j p
      → Charged p
  unfolding net_unhedged
  Puts-Charged j (err e, s') at side quantity filled h = tt
  Puts-Charged j (ok b, s') at side quantity filled h =
      (h.0, rw (h.1, h.2) (charge j at side quantity filled))

module _ (platform : Platform) (f : HedgeFill) (i : HedgeIntent) (s : Store) where
  hold-Puts :
      (blocked_reason : Option String)
      → Puts platform f i s.state (held_intent i f.ounces) (hold_fill f blocked_reason i s)
  unfolding hold_fill put_intent check_intent
  hold-Puts none = ground arith
  hold-Puts (some reason) = ground arith

  unplanned-Puts :
      Puts platform f i s.state
        (unplanned_fill i f.ounces)
        ((do put_intent i.intent_id (unplanned_fill i f.ounces); pure true) s)
  unfolding put_intent check_intent
  unplanned-Puts = ground arith

  advance-Charged :
      (leg : Option HedgeLeg)
      → lookup i.intent_id s.state.hedge_intents ≡ some i
      → Charged platform f i s.state (advance_leg platform f i leg s)
  unfolding advance_leg put_intent check_intent
  advance-Charged none at =
      Puts-Charged platform f i s.state
        (record i { hedge_filled_ounces = i.hedge_filled_ounces +ℤ f.ounces; status = blocked }) _
        at refl refl refl (ground arith)
  advance-Charged (some leg) at =
      elim (Bool-cases (f.ounces == leg.quantity_ounces -ℤ i.hedge_leg_filled_ounces)) [
        | inl exact ↦ rw exact (
            Puts-Charged platform f i s.state (advanced_intent i f.ounces) _ at refl refl refl
              (ground arith))
        | inr other ↦ rw other (
            Puts-Charged platform f i s.state
              (record i {
                hedge_filled_ounces = i.hedge_filled_ounces +ℤ f.ounces;
                hedge_leg_filled_ounces = i.hedge_leg_filled_ounces +ℤ f.ounces;
                status = blocked;
              })
              _ at refl refl refl (ground arith))
      ]

  pub fill_intent-Charged :
      (blocked_reason : Option String)
      → lookup i.intent_id s.state.hedge_intents ≡ some i
      → Charged platform f i s.state (fill_intent platform f blocked_reason i s)
  unfolding fill_intent
  fill_intent-Charged blocked_reason at =
      elim (Bool-cases (is_some blocked_reason || is_held i.status)) [
        | inl held ↦ rw held (
            Puts-Charged platform f i s.state (held_intent i f.ounces) _ at refl refl refl
              (hold-Puts blocked_reason))
        | inr free ↦ elim (Bool-cases (length i.hedge_plan == 0)) [
          | inl unplanned ↦
              rw (free, unplanned)
                (Puts-Charged platform f i s.state (unplanned_fill i f.ounces) _ at refl refl refl
                  unplanned-Puts)
          | inr planned ↦
              rw (free, planned) (advance-Charged (get_elem? i.hedge_plan i.hedge_leg_index) at)
        ]
      ]
