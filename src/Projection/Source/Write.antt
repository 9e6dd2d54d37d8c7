-- ===== src/Projection/Source/Write.antt =====
-- The write of `project_source_fills` in src/py000_nautilus/source_projection.py, for the single store of
-- the Taker: the store is stopped and takes the suffix in one step, or everything is taken back.
use arbi_nautilus.Base.{
  ℕ, String, none, some, List, [], ◌∷◌, lookup, is_none, length, if◌then◌else◌, ok, err,
  value_error, Action, pure, raise, ◌>>=◌, ◌>>◌,
}
use arbi_nautilus.Durability.{DiskCalls}
use arbi_nautilus.Models.Checks.{is_empty}
use arbi_nautilus.Store.{
  SourceOrderRecord, StoreState, Store, Platform, update_state, persist, transaction,
}
use arbi_nautilus.Store.Source.{halt_if_running}
use arbi_nautilus.Store.Fills.{SourceFill, apply_source_fill}
use arbi_nautilus.Projection.{FillFacts, VenueOrder, Owners, orders_by_id}
use arbi_nautilus.Projection.Source.{fill_key_of, check_taker_tail}
use arbi_nautilus.Projection.Source.Scan.{check_projection}

-- The halt and the freeze of a view, where it has none.
abbrev pub freeze_if_free : String → StoreState → StoreState
freeze_if_free reason s =
    if is_none s.source_freeze_reason then record s { source_freeze_reason = some reason } else s

abbrev pub stop : String → StoreState → StoreState
stop reason s = freeze_if_free reason (halt_if_running reason s)

abbrev pub source_fill_of : String → SourceOrderRecord → FillFacts → SourceFill
source_fill_of cid r f = record {
  fill_key = fill_key_of cid f;
  client_order_id = cid;
  trade_id = f.fill_trade_id;
  side = r.side;
  ounces = f.last_qty;
}

-- The loop over the suffix.
unfoldable pub take_fills :
    Platform → String → String → SourceOrderRecord → List FillFacts → Action Store (Unit {0})
take_fills platform reason cid r [] = pure tt
take_fills platform reason cid r (f ∷ suffix) = do
  apply_source_fill platform (source_fill_of cid r f) (some reason)
  take_fills platform reason cid r suffix

abbrev pub take_suffix :
    Platform → String → String → SourceOrderRecord → List FillFacts → Action Store ℕ
take_suffix platform reason cid r suffix = do
  update_state (stop reason)
  take_fills platform reason cid r suffix
  pure (length suffix)

-- The suffix of one order, published as one step.
unfoldable pub write_suffix :
    Platform → DiskCalls → String → List VenueOrder → String → List FillFacts → Action Store ℕ
write_suffix platform disk reason orders cid suffix s =
    elim (check_taker_tail s.state cid (orders_by_id orders [])) [
      | err e ↦ (err e, s)
      | ok _ ↦ elim (lookup cid s.state.source_orders) [
        | none ↦ (err value_error, s)
        | some r ↦
            transaction
              (do count ← take_suffix platform reason cid r suffix; persist disk; pure count) s
      ]
    ]

unfoldable pub write_projection :
    Platform
    → DiskCalls
    → String
    → List VenueOrder
    → List (String × List FillFacts)
    → Action Store ℕ
write_projection platform disk reason orders [] = pure 0
write_projection platform disk reason orders ((cid, suffix) ∷ []) =
    write_suffix platform disk reason orders cid suffix
write_projection platform disk reason orders (_ ∷ (_ ∷ _)) = raise value_error

-- `project_source_fills` of a `JsonStateStore`.
unfoldable pub project_source_fills :
    Platform → DiskCalls → Owners → String → List VenueOrder → Action Store ℕ
project_source_fills platform disk owners reason orders s =
    if is_empty reason
    then (err value_error, s)
    else elim (check_projection owners s.state orders) [
      | err e ↦ (err e, s)
      | ok suffixes ↦ write_projection platform disk reason orders suffixes s
    ]
