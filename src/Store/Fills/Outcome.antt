-- ===== src/Store/Fills/Outcome.antt =====
-- How `reserve_source_fill` ends: published as one step, taken back, or not begun.
use arbi_nautilus.Base.{
  ◌≡◌, ◌≢◌, inl, inr, ◌||◌, none, arith, err, sync_error, Bool-cases, lookup, member, is_none,
  string_eq,
}
use arbi_nautilus.Durability.{DiskCalls}
use arbi_nautilus.Models.Checks.{check_intent}
use arbi_nautilus.Store.{Store, Platform}
use arbi_nautilus.Store.Custody.{InSync, transaction-Settled, Settled-InSync}
use arbi_nautilus.Store.Fills.{
  SourceFill, apply_source_fill, reserve_source_fill, allocate_source_fill,
}

module _ (platform : Platform) (disk : DiskCalls) (f : SourceFill) (s : Store) where
  apply-not-sync : (apply_source_fill platform f none s).0 ≢ err sync_error
  unfolding apply_source_fill allocate_source_fill check_intent
  apply-not-sync = ground arith

  pub apply-KeepsFile : (apply_source_fill platform f none s).1.file ≡ s.file
  unfolding apply_source_fill allocate_source_fill check_intent
  apply-KeepsFile = ground arith

  -- From memory in step with the file, a fill leaves them in step, whatever the disk does: it is in
  -- both, or in neither.
  pub reserve_source_fill-InSync : InSync s → InSync (reserve_source_fill platform disk f s).1
  unfolding reserve_source_fill
  reserve_source_fill-InSync h =
      elim (Bool-cases (
        member f.fill_key s.state.seen_source_fills
        || is_none (lookup f.client_order_id s.state.source_orders))) [
          | inl skip ↦ rw skip h
          | inr go ↦ rw go (
              Settled-InSync s _ h (
                transaction-Settled (apply_source_fill platform f none) disk s apply-not-sync
                  apply-KeepsFile))
        ]
