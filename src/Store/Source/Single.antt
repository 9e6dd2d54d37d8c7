-- ===== src/Store/Source/Single.antt =====
-- `begin_source` lets one source order through at a time.
use arbi_nautilus.Base.{
  ◌≡◌, refl, sym, subst, inl, inr, true, false, ℤ, String, Option, some, arith, lookup, insert,
  lookup-insert, string_eq, Result, ok, err, sync_error, io_error, runtime_error, Bool-cases,
}
use text.Mathlib.TextPositions.{eq_refl}
use arbi_nautilus.Durability.{DiskCalls}
use arbi_nautilus.Models.{BusinessOrderSide}
use arbi_nautilus.Store.{StoreState, Store, can_submit_source}
use arbi_nautilus.Store.Custody.{InSync, persist_cases}
use arbi_nautilus.Store.Source.{SourceRequest, new_record, request_is_invalid, begin_source}

-- While a store is shut, every `begin_source` raises and changes nothing.
abbrev pub IsShut : Store → Type 0
IsShut s =
    (disk : DiskCalls) (cid : String) (side : BusinessOrderSide) (quantity : ℤ) (q : SourceRequest)
    → begin_source disk cid side quantity q s ≡ (err runtime_error, s)

shut_lem : (s : Store) → can_submit_source s.state ≡ false → IsShut s
unfolding begin_source
shut_lem s h disk cid side quantity q = rw h refl

module _ (cid : String) (side : BusinessOrderSide) (quantity : ℤ) (q : SourceRequest)
    (s : Store) where
  -- The order is the active one, under its record, and the store is shut.
  pub record IsBegun (s' : Store) : Type 0 where
    pub recorded : lookup cid s'.state.source_orders ≡ some (new_record cid side quantity q)
    pub active : s'.state.active_source_order_id ≡ some cid
    pub shut : IsShut s'

  abbrev begun : Store
  begun = record s {
    state = record (s.state) {
      source_orders = insert cid (new_record cid side quantity q) s.state.source_orders;
      active_source_order_id = some cid;
      source_freeze_reason = q.source_freeze_reason;
    };
  }

  -- How `begin_source` ended, by its result.
  abbrev pub Begun : Result (Unit {0}) × Store → Type 0
  Begun (ok _, s') = (can_submit_source s.state ≡ true) × IsBegun s' × InSync s'
  Begun (err sync_error, s') = (can_submit_source s.state ≡ true) × IsBegun s' × InSync s'
  Begun (err io_error, s') = (can_submit_source s.state ≡ true) × IsBegun s' × (s'.file ≡ s.file)
  Begun (err e, s') = s' ≡ s

  begun-IsBegun : (f : Option StoreState) → IsBegun (record begun { file = f })
  unfolding can_submit_source
  begun-IsBegun f = record {
    recorded = ground (
      arith,
      lookup-insert cid cid (new_record cid side quantity q) s.state.source_orders,
      eq_refl cid,
    );
    active = refl;
    shut = shut_lem (record begun { file = f }) (ground arith);
  }

  -- Whatever the disk does, `begin_source` either raises its own refusal and changes nothing, or
  -- it was allowed and leaves the order active under its record; then every further call of
  -- `begin_source` raises and changes nothing, and the file holds the new state unless the write
  -- raised before it was published.
  pub begin_source-Begun : (disk : DiskCalls) → Begun (begin_source disk cid side quantity q s)
  unfolding begin_source
  begin_source-Begun disk = elim (Bool-cases (can_submit_source s.state)) [
    | inr closed ↦ rw closed refl
    | inl allowed ↦ elim (Bool-cases (request_is_invalid quantity q)) [
      | inl bad ↦ rw (allowed, bad) refl
      | inr good ↦
          rw (allowed, good)
            (elim (persist_cases disk begun) [
              | inl done ↦ subst Begun (sym done) (allowed, begun-IsBegun _, refl)
              | inr (inl late) ↦ subst Begun (sym late) (allowed, begun-IsBegun _, refl)
              | inr (inr failed) ↦ subst Begun (sym failed) (allowed, begun-IsBegun _, refl)
            ])
    ]
  ]
