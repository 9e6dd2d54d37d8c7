-- ===== src/MakerStore/Publish.antt =====
-- How a `MakerStateStore` publishes, freezes and releases its views: `_persist`, `_freeze_external`
-- and `clear_source_freezes` of src/py000_nautilus/maker_store.py.
use arbi_nautilus.Base.{
  Bool, true, false, not, ◌&&◌, ◌||◌, ℤ, pos, ◌+ℤ◌, String, Option, none, some, List, [], ◌∷◌, ◌++◌,
  values, all, is_some, is_none, ◌==◌, int_eq, string_eq, option_eq, if◌then◌else◌, Result, ok, err,
  sync_error, value_error, Action, pure, raise_if, ◌>>=◌, ◌>>◌,
}
use arbi_nautilus.Durability.{DiskCalls, persist_payload}
use arbi_nautilus.Models.{is_completed}
use arbi_nautilus.Models.Checks.{is_empty}
use arbi_nautilus.Store.{StoreState, sum_outstanding, is_terminal}
use arbi_nautilus.MakerStore.{
  View, bid, ask, taker, Terms, Books, Balances, state_of, set_state, all_views, route_balances,
  balance_is_admissible,
}
use arbi_nautilus.MakerStore.Validate.Allocations.{validate}

-- What the process holds: `file` is what a new process would load, `revoked` the views whose restart
-- permission was withdrawn, in order.
pub record Owner : Type 0 where
  pub books : Books
  pub committed : Books
  pub file : Option Books
  pub freeze_publication_failed : Bool
  pub revoked : List View

abbrev pub update_books : (Books → Books) → Action Owner (Unit {0})
update_books f o = (ok tt, record o { books = f o.books })

-- `view._state = f(view._state)`
abbrev pub update_view : View → (StoreState → StoreState) → Action Owner (Unit {0})
update_view v f = update_books (λ b. set_state v (f (state_of v b)) b)

abbrev pub without_provenance : Books → Books
without_provenance b = record b { cycle_freeze_only = false }

-- The end of `_persist`, by what the write did with the candidate.
unfoldable pub commit : Books → Result (Unit {0}) × Bool → Action Owner (Unit {0})
commit candidate (ok _, published) o =
    (ok tt, record o { committed = candidate; file = if published then some candidate else o.file })
commit candidate (err sync_error, published) o = (
  err sync_error,
  record o {
    committed = candidate;
    file = if published then some candidate else o.file;
    freeze_publication_failed = true;
  },
)
commit candidate (err e, published) o =
    (err e, record o { books = o.committed; file = if published then some candidate else o.file })

-- `_persist`: only a state that validates is written.
unfoldable pub persist_books : Terms → DiskCalls → Action Owner (Unit {0})
unfolding commit
persist_books terms disk o =
    let candidate = if o.freeze_publication_failed then without_provenance o.books else o.books in
    let prepared = record o { books = candidate } in
    elim (validate terms candidate) [
      | err e ↦ commit candidate (err e, false) prepared
      | ok _ ↦ commit candidate (persist_payload disk) prepared
    ]

abbrev pub freeze_view : String → StoreState → StoreState
freeze_view reason s =
    if is_none s.source_freeze_reason then record s { source_freeze_reason = some reason } else s

-- `_set_freezes`, and whether it changed a view.
abbrev pub set_freezes : String → List View → Books → Books
set_freezes reason [] b = b
set_freezes reason (v ∷ views) b =
    set_freezes reason views (set_state v (freeze_view reason (state_of v b)) b)

abbrev pub some_unfrozen : List View → Books → Bool
some_unfrozen [] b = false
some_unfrozen (v ∷ views) b = is_none (state_of v b).source_freeze_reason || some_unfrozen views b

-- `except Exception: self._freeze_publication_failed = True; raise`
abbrev pub latch : Result (Unit {0}) × Owner → Result (Unit {0}) × Owner
latch (ok _, o) = (ok tt, o)
latch (err e, o) = (err e, record o { freeze_publication_failed = true })

-- `_freeze_external`, for a reason that is not empty.
abbrev pub freeze_and_persist : Terms → DiskCalls → String → List View → Action Owner (Unit {0})
freeze_and_persist terms disk reason views o =
    let frozen = record o {
      revoked = o.revoked ++ views;
      books = without_provenance (set_freezes reason views o.books);
    } in
    if some_unfrozen views o.books || o.books.cycle_freeze_only
    then latch (persist_books terms disk frozen)
    else (ok tt, frozen)

-- `_freeze_external`
unfoldable pub freeze_external : Terms → DiskCalls → String → List View → Action Owner (Unit {0})
freeze_external terms disk reason views = do
  raise_if (is_empty reason) value_error
  freeze_and_persist terms disk reason views

-- `freeze_sources`
abbrev pub freeze_sources : Terms → DiskCalls → String → Action Owner (Unit {0})
freeze_sources terms disk reason = freeze_external terms disk reason (all_views terms)

-- `cycle_freeze_only`, the property.
abbrev pub cycle_freeze_only : Owner → Bool
cycle_freeze_only o = o.books.cycle_freeze_only && not o.freeze_publication_failed

-- The view's share of the balances: `rounding_residual_ounces` of the direction store.
abbrev pub same_view : View → View → Bool
same_view bid bid = true
same_view ask ask = true
same_view taker taker = true
same_view _ _ = false

abbrev pub view_residual : View → ℤ → Balances → ℤ
view_residual v sum [] = sum
view_residual v sum ((route, entry) ∷ balances) =
    view_residual v (if same_view entry.1 v then sum +ℤ entry.0 else sum) balances

-- `a and b`, where `b` may raise.
abbrev pub and_then : Bool → Result Bool → Result Bool
and_then a b = if a then b else ok false

abbrev pub and_also : Result Bool → Result Bool → Result Bool
and_also (err e) b = err e
and_also (ok true) b = b
and_also (ok false) b = ok false

abbrev pub residual_agrees : Books → View → Result Balances → Result Bool
residual_agrees b v (err e) = err e
residual_agrees b v (ok balances) =
    let residual = view_residual v (pos 0) balances in
    ok (
      sum_outstanding residual (values (state_of v b).hedge_intents) == residual
      && all (λ i. i.hedge_quantity_ounces == i.hedge_filled_ounces)
          (values (state_of v b).hedge_intents))

-- `_source_balance_is_admissible` of the direction store.
unfoldable pub view_is_admissible : Terms → Books → View → Result Bool
view_is_admissible terms b v =
    and_also (balance_is_admissible terms b) (residual_agrees b v (route_balances terms b))

-- `can_submit_source` of a view, with the balance test of the direction store.
unfoldable pub view_can_submit : Terms → Books → View → Result Bool
view_can_submit terms b v =
    let s = state_of v b in
    and_then
      (is_none s.halt_reason
        && (is_none s.source_freeze_reason && is_none s.active_source_order_id))
      (and_also (view_is_admissible terms b v)
        (ok (all (λ i. is_completed i.status) (values s.hedge_intents))))

-- `cycle_evidence_complete` of a view.
unfoldable pub view_evidence : Terms → Books → View → Result Bool
view_evidence terms b v =
    let s = state_of v b in
    and_then
      (is_none s.halt_reason
        && (is_none s.active_source_order_id
            && (all (λ r. is_terminal r.status) (values s.source_orders)
                && all (λ i. is_completed i.status) (values s.hedge_intents))))
      (view_is_admissible terms b v)

abbrev pub all_evidence : Terms → Books → List View → Result Bool
all_evidence terms b [] = ok true
all_evidence terms b (v ∷ views) = and_also (view_evidence terms b v) (all_evidence terms b views)

-- `len(reasons) == 1`, of the reasons that are set.
abbrev pub agrees : Option String → Option String → Bool
agrees none reason = true
agrees (some r) none = false
agrees (some r) (some q) = r == q

abbrev pub first_reason : Books → List View → Option String
first_reason b [] = none
first_reason b (v ∷ views) = elim ((state_of v b).source_freeze_reason) [
  | some r ↦ some r
  | none ↦ first_reason b views
]

abbrev pub one_reason : Terms → Books → Bool
one_reason terms b =
    is_some (first_reason b (all_views terms))
    && all (λ v. agrees (state_of v b).source_freeze_reason (first_reason b (all_views terms)))
        (all_views terms)

abbrev pub thaw : List View → Books → Books
thaw [] b = b
thaw (v ∷ views) b =
    thaw views (set_state v (record (state_of v b) { source_freeze_reason = none }) b)

-- The four tests of `clear_source_freezes`, in the source's order.
unfoldable pub may_clear : Terms → Owner → Result Bool
may_clear terms o = and_then (not o.freeze_publication_failed) (
    and_also (balance_is_admissible terms o.books)
      (and_then (one_reason terms o.books) (all_evidence terms o.books (all_views terms))))

abbrev pub release : Terms → DiskCalls → Action Owner Bool
release terms disk = do
  update_books (λ b. without_provenance (thaw (all_views terms) b))
  persist_books terms disk
  pure true

-- `clear_source_freezes`
unfoldable pub clear_source_freezes : Terms → DiskCalls → Action Owner Bool
clear_source_freezes terms disk = do
  allowed ← (λ o. (may_clear terms o, o))
  if allowed then release terms disk else pure false
