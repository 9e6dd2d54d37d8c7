-- ===== src/Projection/Source/Project.antt =====
-- How `project_source_fills` of src/py000_nautilus/source_projection.py ends for the single store.
use arbi_nautilus.Base.{
  ◌≡◌, refl, sym, subst, inl, inr, ◌⊎◌, Bool, true, false, ℕ, String, Option, none, some, List, [],
  ◌∷◌, arith, Result, ok, err, sync_error, value_error, type_error, runtime_error, key_error,
  planning_error, lane_busy, io_error, lookup, values, All, length, is_some, string_eq,
  if◌then◌else◌, pure, ◌>>=◌, ◌>>◌,
}
use arbi_nautilus.Durability.{DiskCalls}
use arbi_nautilus.Models.Checks.{is_empty}
use arbi_nautilus.Store.{
  SourceOrderRecord, StoreState, Store, Platform, persist, transaction, restore,
}
use arbi_nautilus.Store.Custody.{InSync, saved, persist_cases}
use arbi_nautilus.Projection.{FillFacts, VenueOrder, Owners, fills_of, orders_by_id}
use arbi_nautilus.Projection.Source.{check_taker_tail}
use arbi_nautilus.Projection.Source.Scan.{keys_of, check_projection}
use arbi_nautilus.Projection.Source.Write.{
  stop, take_fills, take_suffix, write_suffix, write_projection, project_source_fills,
}
use arbi_nautilus.Projection.Source.Took.{IsLater, Took, AllSeen, take_fills-Took}
use arbi_nautilus.Projection.Source.Complete.{
  Suffixes, all_in, SeenIn, Grows, Scanned, check_projection-Scanned,
}

-- Every native fill of every recorded order is seen.
abbrev pub Complete : List VenueOrder → Store → Store → Type 0
Complete orders s s' =
    All
      (λ r.
        (o : VenueOrder) × (lookup r.client_order_id (orders_by_id orders []) ≡ some o)
        × (all_in s'.state.seen_source_fills (keys_of r.client_order_id (fills_of o.events))
            ≡ true))
      (values s.state.source_orders)

-- Halted and frozen.
abbrev pub IsStopped : Store → Type 0
IsStopped s = (is_some s.state.halt_reason ≡ true) × (is_some s.state.source_freeze_reason ≡ true)

-- The state was published, complete and stopped.
abbrev pub Wrote : List VenueOrder → Store → Store → Type 0
Wrote orders s s' = Complete orders s s' × IsStopped s' × InSync s'

-- By how the call ended.
abbrev pub Projected : List VenueOrder → Store → Result ℕ × Store → Type 0
Projected orders s (ok n, s') = (Complete orders s s' × (n ≡ 0) × (s' ≡ s)) ⊎ Wrote orders s s'
Projected orders s (err e, s') =
    ((s'.state ≡ s.state) × (s'.file ≡ s.file)) ⊎ ((e ≡ sync_error) × Wrote orders s s')

pub stop-IsStopped :
    (reason : String) (s : StoreState)
    → (is_some (stop reason s).halt_reason ≡ true)
      × (is_some (stop reason s).source_freeze_reason ≡ true)
stop-IsStopped reason s = ground arith

stop-keeps :
    (reason : String) (s : StoreState)
    → ((stop reason s).seen_source_fills ≡ s.seen_source_fills)
      × ((stop reason s).source_orders ≡ s.source_orders)
stop-keeps reason s = ground arith

completes :
    (orders : List VenueOrder) (suffixes : Suffixes) (seen more : List String)
    (records : List SourceOrderRecord)
    → Grows seen more
    → SeenIn more suffixes
    → All (Scanned seen (orders_by_id orders []) suffixes) records
    → All
        (λ r.
          (o : VenueOrder) × (lookup r.client_order_id (orders_by_id orders []) ≡ some o)
          × (all_in more (keys_of r.client_order_id (fills_of o.events)) ≡ true))
        records
completes orders suffixes seen more [] grows with_suffixes h = tt
completes orders suffixes seen more (r ∷ records) grows with_suffixes ((o, found, here), rest) = (
  (o, found, here more grows with_suffixes),
  completes orders suffixes seen more records grows with_suffixes rest,
)

module _ (platform : Platform) (disk : DiskCalls) (reason : String) (orders : List VenueOrder)
    (s : Store) (cid : String) (r : SourceOrderRecord) (suffix : List FillFacts)
    (scanned : All
      (Scanned s.state.seen_source_fills (orders_by_id orders []) ((cid, suffix) ∷ []))
      (values s.state.source_orders))
    (known : is_some (lookup cid s.state.source_orders) ≡ true) where
  abbrev stopped : Store
  stopped = record s { state = stop reason s.state }

  took : Took cid (keys_of cid suffix) stopped (take_fills platform reason cid r suffix stopped)
  took =
      take_fills-Took platform reason cid r suffix stopped (rw (stop-keeps reason s.state).1 known)

  -- The store after the loop, once it is published.
  wrote :
      (t : Store)
      → IsLater cid stopped t
      → AllSeen (keys_of cid suffix) t
      → Wrote orders s (saved t)
  wrote t later seen =
      let held = stop-IsStopped reason s.state in
      (
        completes orders ((cid, suffix) ∷ []) s.state.seen_source_fills t.state.seen_source_fills
            (values s.state.source_orders)
            (λ k h. later.seen k (rw (stop-keeps reason s.state).0 h)) (seen, tt) scanned,
        (rw later.halt held.0, rw later.freeze held.1),
        refl,
      )

  abbrev Ending : Result (Unit {0}) × Store → Type 0
  Ending p =
      Projected orders s
        (restore s.state (elim p.0 [ ok _ ↦ (ok (length suffix), p.1) | err e ↦ (err e, p.1) ]))

  -- What follows the loop, by how the loop ended.
  abbrev publish : Result (Unit {0}) × Store → Result ℕ × Store
  publish p =
      (do count ← ((λ (x : Store). p) >> pure (length suffix)); persist disk; pure count) stopped

  finish :
      (p : Result (Unit {0}) × Store)
      → Took cid (keys_of cid suffix) stopped p
      → Projected orders s (restore s.state (publish p))
  finish (ok _, t) (later, seen) = elim (persist_cases disk t) [
    | inl done ↦ subst Ending (sym done) (inr (wrote t later seen))
    | inr (inl late) ↦ subst Ending (sym late) (inr (refl, wrote t later seen))
    | inr (inr failed) ↦ subst Ending (sym failed) (inl (refl, later.file))
  ]
  finish (err sync_error, t) (later, other) = absurd (other refl)
  finish (err value_error, t) (later, other) = inl (refl, later.file)
  finish (err type_error, t) (later, other) = inl (refl, later.file)
  finish (err runtime_error, t) (later, other) = inl (refl, later.file)
  finish (err key_error, t) (later, other) = inl (refl, later.file)
  finish (err planning_error, t) (later, other) = inl (refl, later.file)
  finish (err lane_busy, t) (later, other) = inl (refl, later.file)
  finish (err io_error, t) (later, other) = inl (refl, later.file)

  transacted : Projected orders s (
      transaction (do count ← take_suffix platform reason cid r suffix; persist disk; pure count) s)
  unfolding transaction
  transacted = finish (take_fills platform reason cid r suffix stopped) took

module _ (platform : Platform) (disk : DiskCalls) (reason : String) (orders : List VenueOrder)
    (s : Store) where
  write_suffix-Projected :
      (cid : String) (suffix : List FillFacts)
      → All
          (Scanned s.state.seen_source_fills (orders_by_id orders []) ((cid, suffix) ∷ []))
          (values s.state.source_orders)
      → Projected orders s (write_suffix platform disk reason orders cid suffix s)
  unfolding write_suffix
  write_suffix-Projected cid suffix scanned =
      go (check_taker_tail s.state cid (orders_by_id orders [])) (lookup cid s.state.source_orders)
        refl
    where
      go :
          (tail : Result (Unit {0})) (found : Option SourceOrderRecord)
          → lookup cid s.state.source_orders ≡ found
          → Projected orders s (elim tail [
            | err e ↦ (err e, s)
            | ok _ ↦ elim found [
              | none ↦ (err value_error, s)
              | some r ↦
                  transaction
                    (do count ← take_suffix platform reason cid r suffix; persist disk; pure count)
                    s
            ]
          ])
      go (err e) found at = inl (refl, refl)
      go (ok _) none at = inl (refl, refl)
      go (ok _) (some r) at =
          transacted platform disk reason orders s cid r suffix scanned (rw at refl)

  write_projection-Projected :
      (suffixes : Suffixes)
      → All
          (Scanned s.state.seen_source_fills (orders_by_id orders []) suffixes)
          (values s.state.source_orders)
      → Projected orders s (write_projection platform disk reason orders suffixes s)
  unfolding write_projection
  write_projection-Projected [] scanned = inl (
    completes orders [] s.state.seen_source_fills s.state.seen_source_fills
        (values s.state.source_orders) (λ k h. h) tt scanned,
    refl,
    refl,
  )
  write_projection-Projected ((cid, suffix) ∷ []) scanned =
      write_suffix-Projected cid suffix scanned
  write_projection-Projected (_ ∷ (_ ∷ _)) scanned = inl (refl, refl)

  -- When a projection returns, every recorded source order has its native order and every fill of it
  -- is seen: it returned zero and changed nothing, or the store is halted and frozen and its state is
  -- in the file. One that raises changed neither memory nor file, but for the directory-sync error,
  -- which may also come after that complete and stopped state was written to both.
  pub project_source_fills-Projected :
      (owners : Owners)
      → Projected orders s (project_source_fills platform disk owners reason orders s)
  unfolding project_source_fills
  project_source_fills-Projected owners =
      go (is_empty reason) (check_projection owners s.state orders)
        (check_projection-Scanned owners s.state orders)
    where
      go :
          (empty : Bool) (checked : Result Suffixes)
          → ((suffixes : Suffixes)
              → checked ≡ ok suffixes
              → All
                  (Scanned s.state.seen_source_fills (orders_by_id orders []) suffixes)
                  (values s.state.source_orders))
          → Projected orders s (
              if empty then (err value_error, s) else elim checked [
                | err e ↦ (err e, s)
                | ok suffixes ↦ write_projection platform disk reason orders suffixes s
              ])
      go true checked h = inl (refl, refl)
      go false (err e) h = inl (refl, refl)
      go false (ok suffixes) h = write_projection-Projected suffixes (h suffixes refl)
