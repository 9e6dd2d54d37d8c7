-- ===== src/MakerStore/Fills.antt =====
-- `_MakerDirectionStore.reserve_source_fill` of src/py000_nautilus/maker_store.py, with the parts of
-- `JsonStateStore` that it inherits: every view is frozen, and the fill is allocated by the owner.
use arbi_nautilus.Base.{
  Bool, true, not, ◌&&◌, ◌||◌, ℤ, pos, leb_ℤ, String, ◌<>◌, Option, none, some, lookup, insert,
  member, is_none, all, ◌==◌, int_eq, string_eq, if◌then◌else◌, Result, ok, err, sync_error,
  value_error, Action, pure, raise_if, lift, ◌>>=◌, ◌>>◌,
}
use arbi_nautilus.Durability.{DiskCalls}
use arbi_nautilus.Models.{HedgeIntent, side_eq}
use arbi_nautilus.Models.Checks.{check_intent}
use arbi_nautilus.Store.{SourceOrderRecord, StoreState, Platform}
use arbi_nautilus.Store.Fills.{SourceFill, signed_fill, book_fill, new_intent}
use arbi_nautilus.MakerStore.{View, Terms, Books, state_of, set_state, all_views, allocate_to_route}
use arbi_nautilus.MakerStore.Publish.{
  Owner, update_view, persist_books, set_freezes, cycle_freeze_only,
}

-- `_allocate_source_fill` of the direction store.
unfoldable pub allocate_view_fill : Terms → SourceOrderRecord → String → ℤ → Action Owner ℤ
allocate_view_fill terms r key signed o = elim (allocate_to_route terms r key signed o.books) [
  | err e ↦ (err e, o)
  | ok result ↦ (ok result.0, record o { books = result.1 })
]

unfoldable pub add_view_intent :
    Platform → View → SourceFill → SourceOrderRecord → ℤ → Action Owner (Option HedgeIntent)
add_view_intent platform v f r rounded = if rounded == pos 0 then pure none else (do
  intent ← lift (check_intent (new_intent platform f none r rounded))
  update_view v (λ s. record s { hedge_intents = insert intent.intent_id intent s.hedge_intents })
  pure (some intent))

-- `_reserve_source_fill` with the owner's allocation, for an order that is known.
unfoldable pub apply_view_fill :
    Terms → Platform → View → SourceFill → SourceOrderRecord → Action Owner (Option HedgeIntent)
unfolding allocate_view_fill add_view_intent
apply_view_fill terms platform v f r = do
  raise_if (not (r.side == f.side)) value_error
  raise_if (leb_ℤ f.ounces (pos 0)) value_error
  update_view v (book_fill f none r)
  rounded ← allocate_view_fill terms r f.fill_key (signed_fill f)
  add_view_intent platform v f r rounded

-- `_persist_source_reservation`: a failed write also gives the view its state back.
abbrev pub persist_reservation :
    View → StoreState → Result (Unit {0}) × Owner → Result (Unit {0}) × Owner
persist_reservation v previous (ok _, o) = (ok tt, o)
persist_reservation v previous (err sync_error, o) = (err sync_error, o)
persist_reservation v previous (err e, o) =
    (err e, record o { books = set_state v previous o.books })

-- `super().reserve_source_fill`, after its guards.
abbrev pub reserve_in_view :
    Terms
    → Platform
    → DiskCalls
    → View
    → SourceFill
    → SourceOrderRecord
    → Action Owner (Option HedgeIntent)
reserve_in_view terms platform disk v f r o =
    let previous = state_of v o.books in
    let (result, applied) = apply_view_fill terms platform v f r o in
    elim result [
      | err e ↦ (err e, record applied { books = set_state v previous applied.books })
      | ok intent ↦
          (do (λ o'. persist_reservation v previous (persist_books terms disk o')); pure intent)
            applied
    ]

-- Whether the freeze of this fill belongs to a cycle that may be released.
abbrev pub starts_cycle : Terms → Owner → Bool
starts_cycle terms o =
    not o.freeze_publication_failed
    && (all (λ v. is_none (state_of v o.books).halt_reason) (all_views terms)
        && (cycle_freeze_only o
            || all (λ v. is_none (state_of v o.books).source_freeze_reason) (all_views terms)))

abbrev pub fill_reason : SourceFill → String
fill_reason f =
    "Maker fill " <> f.client_order_id <> "/" <> f.trade_id
    <> " requires authoritative two-sided reconciliation"

abbrev pub marked_books : Terms → Owner → Books
marked_books terms o =
    if starts_cycle terms o then record (o.books) { cycle_freeze_only = true } else o.books

-- The books with every view frozen.
abbrev pub frozen_books : Terms → SourceFill → Owner → Books
frozen_books terms f o = set_freezes (fill_reason f) (all_views terms) (marked_books terms o)

-- `except ParentDirectorySyncError: raise`, `except Exception: self._owner._restore(previous); raise`
abbrev pub restore_books :
    Books → Result (Option HedgeIntent) × Owner → Result (Option HedgeIntent) × Owner
restore_books previous (ok intent, o) = (ok intent, o)
restore_books previous (err sync_error, o) = (err sync_error, o)
restore_books previous (err e, o) = (err e, record o { books = previous })

-- `reserve_source_fill` of the direction store.
unfoldable pub reserve_view_fill :
    Terms → Platform → DiskCalls → View → SourceFill → Action Owner (Option HedgeIntent)
reserve_view_fill terms platform disk v f o =
    let s = state_of v o.books in
    if member f.fill_key s.seen_source_fills
    then (ok none, o)
    else elim (lookup f.client_order_id s.source_orders) [
      | none ↦ (ok none, o)
      | some r ↦
          restore_books o.books (
            reserve_in_view terms platform disk v f r (record o { books = frozen_books terms f o }))
    ]
