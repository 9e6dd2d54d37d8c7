-- ===== src/Store/Fills/Booked.antt =====
-- The whole of `reserve_source_fill` on a new fill of a known order: accounting, publication and
-- replay together.
use arbi_nautilus.Base.{
  ◌≡◌, refl, sym, subst, inl, inr, true, false, ◌*◌, ◌≤◌, pos, magnitude, ◌+ℤ◌, ◌<ℤ◌, Option, none,
  some, arith, Result, ok, err, sync_error, io_error, lookup, member, member-add, string_eq, ◌>>◌,
  pure,
}
use text.Mathlib.TextPositions.{eq_refl}
use arbi_nautilus.Durability.{DiskCalls}
use arbi_nautilus.Models.{HedgeIntent, ounce}
use arbi_nautilus.Store.{
  SourceOrderRecord, Store, Platform, net_unhedged, persist, transaction, restore,
}
use arbi_nautilus.Store.Custody.{InSync, saved, persist_cases}
use arbi_nautilus.Store.Fills.{
  SourceFill, signed_fill, intent_id_of, apply_source_fill, reserve_source_fill,
}
use arbi_nautilus.Store.Fills.Outcome.{apply-KeepsFile}
use arbi_nautilus.Store.Fills.Exposure.{ticket_is_valid, Accounted, apply-Accounted}

module _ (platform : Platform) (f : SourceFill) (s : Store) where
  -- What the store holds after a fill was booked: the exposure moved by the signed fill, at most
  -- half an ounce stays without an intent, and a replay returns nothing and changes nothing.
  pub record IsBooked (s' : Store) : Type 0 where
    pub exposure : net_unhedged s'.state ≡ net_unhedged s.state +ℤ signed_fill f
    pub residual : 2 * magnitude s'.state.net_unhedged_ounces ≤ ounce
    pub published : InSync s'
    pub replayed : (disk : DiskCalls) → reserve_source_fill platform disk f s' ≡ (ok none, s')

  -- By how the call ended; it raises nothing but what the write raises.
  abbrev pub Booked : Result (Option HedgeIntent) × Store → Type 0
  Booked (ok o, s') = IsBooked s'
  Booked (err sync_error, s') = IsBooked s'
  Booked (err io_error, s') = (s'.state ≡ s.state) × (s'.file ≡ s.file)
  Booked (err e, s') = ⊥

replay :
    (platform : Platform) (f : SourceFill) (seen : Store)
    → member f.fill_key seen.state.seen_source_fills ≡ true
    → (disk : DiskCalls) → reserve_source_fill platform disk f seen ≡ (ok none, seen)
unfolding reserve_source_fill
replay platform f seen h disk = rw h

module _ (platform : Platform) (f : SourceFill) (r : SourceOrderRecord) (s : Store)
    (known : lookup f.client_order_id s.state.source_orders ≡ some r)
    (new : member f.fill_key s.state.seen_source_fills ≡ false) (side : r.side ≡ f.side)
    (positive : pos 0 <ℤ f.ounces) (right : ticket_is_valid r ≡ true)
    (free : lookup (intent_id_of platform f.fill_key) s.state.hedge_intents ≡ none)
    (disk : DiskCalls) where
  -- A published step.
  abbrev BookedBy : Result (Option HedgeIntent) × Store → Type 0
  BookedBy p = Accounted platform f none r s known new side positive p

  booked :
      (o : Option HedgeIntent) (s1 : Store) → BookedBy (ok o, s1) → IsBooked platform f s (saved s1)
  booked o s1 acc = record {
    exposure = acc.0;
    residual = acc.1;
    published = refl;
    replayed = replay platform f (saved s1) (
        rw acc.2 (
          rw (member-add f.fill_key f.fill_key s.state.seen_source_fills, eq_refl f.fill_key)
            (ground arith)));
  }

  finish :
      (p : Result (Option HedgeIntent) × Store)
      → p.1.file ≡ s.file
      → BookedBy p
      → Booked platform f s (
          restore s.state
            (elim p.0 [ ok o ↦ (do persist disk; pure o) p.1 | err e ↦ (err e, p.1) ]))
  finish (ok o, s1) kept acc = elim (persist_cases disk s1) [
    | inl done ↦ subst Ending (sym done) (booked o s1 acc)
    | inr (inl late) ↦ subst Ending (sym late) (booked o s1 acc)
    | inr (inr failed) ↦ subst Ending (sym failed) (refl, kept)
  ]
    where
      Ending : Result (Unit {0}) × Store → Type 0
      Ending p =
          Booked platform f s
            (restore s.state (elim p.0 [ ok _ ↦ (ok o, p.1) | err e ↦ (err e, p.1) ]))
  finish (err e, s1) kept acc = elim acc [ ]

  -- For a fill that the store has not seen, of a known order of that side whose hedge ticket is valid
  -- (`ticket_is_valid`: none with no quantity, or a named one whose quantity is none or positive),
  -- with a positive quantity and an intent id not in use: it is booked, and the directory-sync error leaves it booked too, or the
  -- write raised before it was published and memory and file are as before. Booked means that the
  -- unhedged exposure moved by exactly the signed fill, that at most half an ounce of it is in no
  -- intent, that the file holds the state, and that the same fill again changes nothing.
  pub reserve_source_fill-Booked : Booked platform f s (reserve_source_fill platform disk f s)
  unfolding reserve_source_fill transaction
  reserve_source_fill-Booked =
      rw (new, known)
        (finish (apply_source_fill platform f none s) (apply-KeepsFile platform disk f s)
          (apply-Accounted platform f none r s known new side positive right free))
