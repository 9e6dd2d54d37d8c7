-- ===== src/Store/Sound/Quiet.antt =====
-- The operations of `JsonStateStore` that leave the intents alone.
use arbi_nautilus.Base.{◌≡◌, ℤ, String, arith, int_eq, string_eq, option_eq, list_eq, nat_eq}
use arbi_nautilus.Durability.{DiskCalls}
use arbi_nautilus.Models.{BusinessOrderSide, leg_eq, side_eq}
use arbi_nautilus.Store.{Store, persist, transaction}
use arbi_nautilus.Store.Source.{
  SourceRequest, begin_source, freeze_source_submissions, clear_source_freeze, update_source_status,
  confirm_source_reconciled, mark_source_unknown,
}

module _ (disk : DiskCalls) (s : Store) where
  pub begin_source-intents :
      (cid : String) (side : BusinessOrderSide) (quantity : ℤ) (q : SourceRequest)
      → (begin_source disk cid side quantity q s).1.state.hedge_intents ≡ s.state.hedge_intents
  unfolding begin_source persist
  begin_source-intents cid side quantity q = ground arith

  pub freeze_source_submissions-intents :
      (reason : String)
      → (freeze_source_submissions disk reason s).1.state.hedge_intents ≡ s.state.hedge_intents
  unfolding freeze_source_submissions persist
  freeze_source_submissions-intents reason = ground arith

  pub clear_source_freeze-intents :
      (clear_source_freeze disk s).1.state.hedge_intents ≡ s.state.hedge_intents
  unfolding clear_source_freeze persist
  clear_source_freeze-intents = ground arith

  pub update_source_status-intents :
      (cid status : String)
      → (update_source_status disk cid status s).1.state.hedge_intents ≡ s.state.hedge_intents
  unfolding update_source_status persist
  update_source_status-intents cid status = ground arith

  pub confirm_source_reconciled-intents :
      (cid : String)
      → (confirm_source_reconciled disk cid s).1.state.hedge_intents ≡ s.state.hedge_intents
  unfolding confirm_source_reconciled persist transaction
  confirm_source_reconciled-intents cid = ground arith

  pub mark_source_unknown-intents :
      (cid reason : String)
      → (mark_source_unknown disk cid reason s).1.state.hedge_intents ≡ s.state.hedge_intents
  unfolding mark_source_unknown persist
  mark_source_unknown-intents cid reason = ground arith
