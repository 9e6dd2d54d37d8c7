-- ===== src/Store/Sound/History.antt =====
-- A history of a store: calls of its operations, in any order, each with what the disk did.
use arbi_nautilus.Base.{◌≡◌, sym, subst, ◌∙◌, inl, inr, ℤ, String, Option, none, some, List, []}
use arbi_nautilus.Durability.{DiskCalls}
use arbi_nautilus.Models.{BusinessOrderSide, HedgeLeg, ObligationStatus}
use arbi_nautilus.Store.{StoreState, Store, Platform, empty_state}
use arbi_nautilus.Store.Source.{
  SourceRequest, begin_source, freeze_source_submissions, clear_source_freeze, update_source_status,
  confirm_source_reconciled, mark_source_unknown, recover_for_start,
}
use arbi_nautilus.Store.Fills.{SourceFill, reserve_source_fill}
use arbi_nautilus.Store.HedgeFill.{HedgeFill, apply_hedge_fill}
use arbi_nautilus.Store.Hedges.{
  bind_hedge_order, bind_hedge_plan, block_hedge_intent, update_hedge_status,
}
use arbi_nautilus.Store.Sound.{Sound, same-Sound}
use arbi_nautilus.Store.Sound.Quiet.{
  begin_source-intents, freeze_source_submissions-intents, clear_source_freeze-intents,
  update_source_status-intents, confirm_source_reconciled-intents, mark_source_unknown-intents,
}
use arbi_nautilus.Store.Sound.Preserved.{
  bind_hedge_order-Keeps, bind_hedge_plan-Keeps, block_hedge_intent-Keeps,
  update_hedge_status-Keeps, reserve_source_fill-Keeps, apply_hedge_fill-Keeps,
}
use arbi_nautilus.Store.Sound.Filed.{
  IsFiled, begin_source-IsFiled, freeze_source_submissions-IsFiled, clear_source_freeze-IsFiled,
  update_source_status-IsFiled, confirm_source_reconciled-IsFiled, mark_source_unknown-IsFiled,
  recover_for_start-IsFiled, reserve_source_fill-IsFiled, apply_hedge_fill-IsFiled,
  bind_hedge_order-IsFiled, bind_hedge_plan-IsFiled, block_hedge_intent-IsFiled,
  update_hedge_status-IsFiled,
}
use arbi_nautilus.Store.Sound.Restart.{recover_for_start-Keeps}

-- `Step s t`: one call, returning or raising, leads from `s` to `t`. A restart loads the file.
pub data Step (platform : Platform) : Store → Store → Type 0 where
  begins :
      (disk : DiskCalls) (cid : String) (side : BusinessOrderSide) (quantity : ℤ)
      (q : SourceRequest) (s t : Store)
      → (begin_source disk cid side quantity q s).1 ≡ t
      → Step platform s t
  freezes :
      (disk : DiskCalls) (reason : String) (s t : Store)
      → (freeze_source_submissions disk reason s).1 ≡ t
      → Step platform s t
  unfreezes :
      (disk : DiskCalls) (s t : Store) → (clear_source_freeze disk s).1 ≡ t → Step platform s t
  updates_source :
      (disk : DiskCalls) (cid status : String) (s t : Store)
      → (update_source_status disk cid status s).1 ≡ t
      → Step platform s t
  confirms :
      (disk : DiskCalls) (cid : String) (s t : Store)
      → (confirm_source_reconciled disk cid s).1 ≡ t
      → Step platform s t
  loses_source :
      (disk : DiskCalls) (cid reason : String) (s t : Store)
      → (mark_source_unknown disk cid reason s).1 ≡ t
      → Step platform s t
  recovers : (disk : DiskCalls) (s t : Store) → (recover_for_start disk s).1 ≡ t → Step platform s t
  fills_source :
      (disk : DiskCalls) (f : SourceFill) (s t : Store)
      → (reserve_source_fill platform disk f s).1 ≡ t
      → Step platform s t
  fills_hedge :
      (disk : DiskCalls) (f : HedgeFill) (s t : Store)
      → (apply_hedge_fill platform disk f s).1 ≡ t
      → Step platform s t
  binds_order :
      (disk : DiskCalls) (id cid : String) (s t : Store)
      → (bind_hedge_order disk id cid s).1 ≡ t
      → Step platform s t
  binds_plan :
      (disk : DiskCalls) (id : String) (plan : List HedgeLeg) (s t : Store)
      → (bind_hedge_plan disk id plan s).1 ≡ t
      → Step platform s t
  blocks :
      (disk : DiskCalls) (id reason : String) (s t : Store)
      → (block_hedge_intent disk id reason s).1 ≡ t
      → Step platform s t
  updates_hedge :
      (disk : DiskCalls) (cid : String) (status : ObligationStatus) (native : Option String)
      (s t : Store)
      → (update_hedge_status disk cid status native s).1 ≡ t
      → Step platform s t
  restarts :
      (loaded : StoreState) (s t : Store)
      → s.file ≡ some loaded
      → record { state = loaded; file = s.file; hooks = [] } ≡ t
      → Step platform s t

-- What a new process can come to, from the empty state that no file holds.
pub data Reachable (platform : Platform) : Store → Type 0 where
  starts :
      (s : Store)
      → s ≡ record { state = empty_state; file = none; hooks = [] }
      → Reachable platform s
  goes_on : (s t : Store) → Reachable platform s → Step platform s t → Reachable platform t

-- The state is sound, and so is the one that a new process would load.
pub record IsSound (s : Store) : Type 0 where
  pub memory : Sound s.state
  pub filed : (loaded : StoreState) → s.file ≡ some loaded → Sound loaded

loaded_state :
    (s t : Store) (loaded : StoreState)
    → t.file ≡ some t.state
    → t.file ≡ some loaded
    → t.state ≡ loaded
loaded_state s t loaded new e = cc

filed_lem : (s t : Store) → Sound t.state → IsFiled s t → IsSound s → IsSound t
filed_lem s t m (inl same) h = record {
  memory = m;
  filed = λ loaded e. h.filed loaded (sym same ∙ e);
}
filed_lem s t m (inr new) h = record {
  memory = m;
  filed = λ loaded e. subst Sound (loaded_state s t loaded new e) m;
}

pub Step-IsSound : (platform : Platform) (s t : Store) → Step platform s t → IsSound s → IsSound t
Step-IsSound platform _ _ (begins disk cid side quantity q s t e) h = subst IsSound e (
    filed_lem s (begin_source disk cid side quantity q s).1
      (same-Sound s.state _ (begin_source-intents disk s cid side quantity q) h.memory)
      (begin_source-IsFiled disk s cid side quantity q) h)
Step-IsSound platform _ _ (freezes disk reason s t e) h = subst IsSound e (
    filed_lem s (freeze_source_submissions disk reason s).1
      (same-Sound s.state _ (freeze_source_submissions-intents disk s reason) h.memory)
      (freeze_source_submissions-IsFiled disk s reason) h)
Step-IsSound platform _ _ (unfreezes disk s t e) h = subst IsSound e (
    filed_lem s (clear_source_freeze disk s).1
      (same-Sound s.state _ (clear_source_freeze-intents disk s) h.memory)
      (clear_source_freeze-IsFiled disk s) h)
Step-IsSound platform _ _ (updates_source disk cid status s t e) h = subst IsSound e (
    filed_lem s (update_source_status disk cid status s).1
      (same-Sound s.state _ (update_source_status-intents disk s cid status) h.memory)
      (update_source_status-IsFiled disk s cid status) h)
Step-IsSound platform _ _ (confirms disk cid s t e) h = subst IsSound e (
    filed_lem s (confirm_source_reconciled disk cid s).1
      (same-Sound s.state _ (confirm_source_reconciled-intents disk s cid) h.memory)
      (confirm_source_reconciled-IsFiled disk s cid) h)
Step-IsSound platform _ _ (loses_source disk cid reason s t e) h = subst IsSound e (
    filed_lem s (mark_source_unknown disk cid reason s).1
      (same-Sound s.state _ (mark_source_unknown-intents disk s cid reason) h.memory)
      (mark_source_unknown-IsFiled disk s cid reason) h)
Step-IsSound platform _ _ (recovers disk s t e) h = subst IsSound e (
    filed_lem s (recover_for_start disk s).1 (recover_for_start-Keeps disk s h.memory)
      (recover_for_start-IsFiled disk s) h)
Step-IsSound platform _ _ (fills_source disk f s t e) h = subst IsSound e (
    filed_lem s (reserve_source_fill platform disk f s).1
      (reserve_source_fill-Keeps platform disk f s h.memory)
      (reserve_source_fill-IsFiled disk s platform f) h)
Step-IsSound platform _ _ (fills_hedge disk f s t e) h = subst IsSound e (
    filed_lem s (apply_hedge_fill platform disk f s).1
      (apply_hedge_fill-Keeps platform disk f s h.memory)
      (apply_hedge_fill-IsFiled disk s platform f) h)
Step-IsSound platform _ _ (binds_order disk id cid s t e) h = subst IsSound e (
    filed_lem s (bind_hedge_order disk id cid s).1 (bind_hedge_order-Keeps disk id cid s h.memory)
      (bind_hedge_order-IsFiled disk s id cid) h)
Step-IsSound platform _ _ (binds_plan disk id plan s t e) h = subst IsSound e (
    filed_lem s (bind_hedge_plan disk id plan s).1 (bind_hedge_plan-Keeps disk id plan s h.memory)
      (bind_hedge_plan-IsFiled disk s id plan) h)
Step-IsSound platform _ _ (blocks disk id reason s t e) h = subst IsSound e (
    filed_lem s (block_hedge_intent disk id reason s).1
      (block_hedge_intent-Keeps disk id reason s h.memory)
      (block_hedge_intent-IsFiled disk s id reason) h)
Step-IsSound platform _ _ (updates_hedge disk cid status native s t e) h = subst IsSound e (
    filed_lem s (update_hedge_status disk cid status native s).1
      (update_hedge_status-Keeps disk cid status native s h.memory)
      (update_hedge_status-IsFiled disk s cid status native) h)
Step-IsSound platform _ _ (restarts loaded s t file e) h =
    subst IsSound e (record { memory = h.filed loaded file; filed = h.filed })

-- Whatever calls were made, in whatever order, with whatever the disk did and however often the
-- process was started again: every intent in memory, and in the file, stands under its own id and
-- passes the checks of its constructor.
pub Reachable-IsSound : (platform : Platform) (s : Store) → Reachable platform s → IsSound s
Reachable-IsSound platform _ (starts s e) =
    subst IsSound (sym e)
      (record { memory = record { keyed = tt; valid = tt }; filed = λ loaded e. absurd (cc e) })
Reachable-IsSound platform _ (goes_on s t before step) =
    Step-IsSound platform s t step (Reachable-IsSound platform s before)
