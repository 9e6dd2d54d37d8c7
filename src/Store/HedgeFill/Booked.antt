-- ===== src/Store/HedgeFill/Booked.antt =====
-- The whole of `apply_hedge_fill` on a new fill of a bound hedge order: accounting, publication and
-- replay together.
use arbi_nautilus.Base.{
  ◌≡◌, refl, sym, subst, inl, inr, Bool, true, false, pos, ◌+ℤ◌, ◌<ℤ◌, none, some, arith, Result,
  ok, err, sync_error, member, member-add, add, if◌then◌else◌, string_eq, ◌>>◌, pure, lookup,
}
use text.Mathlib.TextPositions.{eq_refl}
use arbi_nautilus.Durability.{DiskCalls}
use arbi_nautilus.Models.{HedgeIntent}
use arbi_nautilus.Store.{Store, Platform, net_unhedged, persist, transaction, restore}
use arbi_nautilus.Store.Custody.{InSync, saved, persist_cases}
use arbi_nautilus.Store.Keyed.{Keyed, find-lookup}
use arbi_nautilus.Store.Lookup.{is_rejected_attempt, intent_for_hedge_order}
use arbi_nautilus.Store.HedgeFill.{
  HedgeFill, hedge_fill_key, fill_intent, apply_fill, apply_hedge_fill,
}
use arbi_nautilus.Store.HedgeFill.Accounting.{signed_hedge, Charged, fill_intent-Charged}
use arbi_nautilus.Store.HedgeFill.Quiet.{fill_intent_seen, fill_intent_file, fill_intent_not_sync}

module _ (platform : Platform) (f : HedgeFill) (i : HedgeIntent) (s : Store) where
  -- What the store holds after a hedge fill was taken: the exposure is smaller by the fill, the file
  -- holds it, and a replay reports no change and makes none.
  pub record IsPaid (s' : Store) : Type 0 where
    pub exposure : net_unhedged s'.state +ℤ signed_hedge i f.ounces ≡ net_unhedged s.state
    pub published : InSync s'
    pub replayed : (disk : DiskCalls) → apply_hedge_fill platform disk f s' ≡ (ok false, s')

  -- By how the call ended: any other error than that of the directory sync took everything back.
  abbrev pub Paid : Result Bool × Store → Type 0
  Paid (ok b, s') = (b ≡ true) × IsPaid s'
  Paid (err sync_error, s') = IsPaid s'
  Paid (err e, s') = (s'.state ≡ s.state) × (s'.file ≡ s.file)

replay :
    (platform : Platform) (f : HedgeFill) (seen : Store)
    → member (hedge_fill_key f) seen.state.seen_hedge_fills ≡ true
    → (disk : DiskCalls) → apply_hedge_fill platform disk f seen ≡ (ok false, seen)
unfolding apply_hedge_fill
replay platform f seen h disk = rw h

module _ (platform : Platform) (f : HedgeFill) (i : HedgeIntent) (s : Store)
    (keyed : Keyed s.state.hedge_intents)
    (bound : intent_for_hedge_order f.client_order_id s.state ≡ some i)
    (current : is_rejected_attempt i f.client_order_id ≡ false)
    (new : member (hedge_fill_key f) s.state.seen_hedge_fills ≡ false)
    (positive : pos 0 <ℤ f.ounces) (disk : DiskCalls) where
  abbrev marked : Store
  marked = record s {
    state = record (s.state) { seen_hedge_fills = add (hedge_fill_key f) s.state.seen_hedge_fills };
  }

  apply_fill-fill_intent : apply_fill platform f none s ≡ fill_intent platform f none i marked
  unfolding apply_fill
  apply_fill-fill_intent = ground arith

  at : lookup i.intent_id s.state.hedge_intents ≡ some i
  unfolding intent_for_hedge_order
  at = find-lookup _ i s.state.hedge_intents keyed bound

  paid :
      (b : Bool) (s1 : Store)
      → Charged platform f i s.state (ok b, s1)
      → s1.state.seen_hedge_fills ≡ add (hedge_fill_key f) s.state.seen_hedge_fills
      → IsPaid platform f i s (saved s1)
  paid b s1 charged seen = record {
    exposure = charged.1;
    published = refl;
    replayed = replay platform f (saved s1) (
        rw seen (
          rw
            (
              member-add (hedge_fill_key f) (hedge_fill_key f) s.state.seen_hedge_fills,
              eq_refl (hedge_fill_key f),
            )
            (ground arith)));
  }

  finish :
      (p : Result Bool × Store)
      → p.1.file ≡ s.file
      → p.1.state.seen_hedge_fills ≡ add (hedge_fill_key f) s.state.seen_hedge_fills
      → (p.0 ≡ err sync_error → ⊥)
      → Charged platform f i s.state p
      → Paid platform f i s (
          restore s.state (elim p.0 [
            | ok b ↦ (do if b then persist disk else pure tt; pure b) p.1
            | err e ↦ (err e, p.1)
          ]))
  finish (ok false, s1) file seen other charged = absurd (ground arith)
  finish (ok true, s1) file seen other charged = elim (persist_cases disk s1) [
    | inl done ↦ subst Ending (sym done) (refl, paid true s1 charged seen)
    | inr (inl late) ↦ subst Ending (sym late) (paid true s1 charged seen)
    | inr (inr failed) ↦ subst Ending (sym failed) (refl, file)
  ]
    where
      Ending : Result (Unit {0}) × Store → Type 0
      Ending p =
          Paid platform f i s
            (restore s.state (elim p.0 [ ok _ ↦ (ok true, p.1) | err e ↦ (err e, p.1) ]))
  finish (err sync_error, s1) file seen other charged = absurd (other refl)
  finish (err e, s1) file seen other charged = (refl, file)

  -- For a fill that the store has not seen, with a positive quantity, of the order that an intent has
  -- now, not of its archived rejection, where intents stand under their own ids: the call returns
  -- true or raises the directory-sync error with the unhedged exposure smaller by exactly the fill,
  -- the file holding the state, and a replay that returns false and changes nothing; or it
  -- raises another error, and memory and file are as before.
  pub apply_hedge_fill-Paid : Paid platform f i s (apply_hedge_fill platform disk f s)
  unfolding apply_hedge_fill transaction net_unhedged
  apply_hedge_fill-Paid =
      rw (new, bound)
        (subst Ending (sym apply_fill-fill_intent) (
          finish (fill_intent platform f none i marked) (fill_intent_file platform f i marked none)
            (fill_intent_seen platform f i marked none)
            (fill_intent_not_sync platform f i marked none)
            (fill_intent-Charged platform f i marked none at)))
    where
      Ending : Result Bool × Store → Type 0
      Ending p = Paid platform f i s (
          restore s.state (elim p.0 [
            | ok b ↦ (do if b then persist disk else pure tt; pure b) p.1
            | err e ↦ (err e, p.1)
          ]))
