-- ===== src/Projection/Source/Took.antt =====
-- What the write of src/py000_nautilus/source_projection.py does to the single store: its keys are seen,
-- and the halt and the freeze stay.
use arbi_nautilus.Base.{
  ◌≡◌, ◌≢◌, refl, ◌∙◌, inl, inr, true, String, Option, some, List, [], ◌∷◌, arith, Result, ok, err,
  sync_error, Option-cases, lookup, member, member-add, is_some, string_eq, all, lookup-insert,
}
use text.Mathlib.TextPositions.{eq_refl}
use arbi_nautilus.Models.{HedgeIntent, side_eq}
use arbi_nautilus.Models.Checks.{check_intent}
use arbi_nautilus.Store.{SourceOrderRecord, Store, Platform}
use arbi_nautilus.Store.Fills.{
  SourceFill, apply_source_fill, allocate_source_fill, book_fill, filled_record,
}
use arbi_nautilus.Projection.{FillFacts}
use arbi_nautilus.Projection.Source.{fill_key_of}
use arbi_nautilus.Projection.Source.Scan.{keys_of}
use arbi_nautilus.Projection.Source.Write.{source_fill_of, take_fills}

-- From one store to a later one: no seen key is lost, the order stays known, the store stays stopped
-- and the file is not written.
pub record IsLater (cid : String) (s s' : Store) : Type 0 where
  pub seen :
      (k : String)
      → member k s.state.seen_source_fills ≡ true
      → member k s'.state.seen_source_fills ≡ true
  pub known :
      is_some (lookup cid s.state.source_orders) ≡ true
      → is_some (lookup cid s'.state.source_orders) ≡ true
  pub halt : s'.state.halt_reason ≡ s.state.halt_reason
  pub freeze : s'.state.source_freeze_reason ≡ s.state.source_freeze_reason
  pub file : s'.file ≡ s.file

IsLater-refl : (cid : String) (s : Store) → IsLater cid s s
IsLater-refl cid s = record {
  seen = λ k h. h;
  known = λ h. h;
  halt = refl;
  freeze = refl;
  file = refl;
}

IsLater-trans : (cid : String) (s t u : Store) → IsLater cid s t → IsLater cid t u → IsLater cid s u
IsLater-trans cid s t u a b = record {
  seen = λ k h. b.seen k (a.seen k h);
  known = λ h. b.known (a.known h);
  halt = b.halt ∙ a.halt;
  freeze = b.freeze ∙ a.freeze;
  file = b.file ∙ a.file;
}

module _ (platform : Platform) (reason : String) (f : SourceFill) (s : Store) where
  abbrev step : Result (Option HedgeIntent) × Store
  step = apply_source_fill platform f (some reason) s

  apply-file : step.1.file ≡ s.file
  unfolding apply_source_fill allocate_source_fill check_intent
  apply-file = ground arith

  apply-not-sync : step.0 ≢ err sync_error
  unfolding apply_source_fill allocate_source_fill check_intent
  apply-not-sync = ground arith

  apply-halt : step.1.state.halt_reason ≡ s.state.halt_reason
  unfolding apply_source_fill allocate_source_fill check_intent book_fill
  apply-halt = ground arith

  apply-freeze : step.1.state.source_freeze_reason ≡ s.state.source_freeze_reason
  unfolding apply_source_fill allocate_source_fill check_intent book_fill
  apply-freeze = ground arith

  apply-seen :
      (k : String)
      → member k s.state.seen_source_fills ≡ true
      → member k step.1.state.seen_source_fills ≡ true
  unfolding apply_source_fill allocate_source_fill check_intent book_fill
  apply-seen k h = ground (arith, member-add k f.fill_key s.state.seen_source_fills)

  apply-known :
      (cid : String)
      → is_some (lookup cid s.state.source_orders) ≡ true
      → is_some (lookup cid step.1.state.source_orders) ≡ true
  unfolding apply_source_fill allocate_source_fill check_intent book_fill
  apply-known cid h = elim (Option-cases (lookup f.client_order_id s.state.source_orders)) [
    | inl missing ↦ ground arith
    | inr (r, found) ↦
        let put =
          lookup-insert f.client_order_id cid (filled_record r f.ounces) s.state.source_orders in
        ground arith
  ]

  apply-key :
      is_some (lookup f.client_order_id s.state.source_orders) ≡ true
      → (o : Option HedgeIntent) → step.0 ≡ ok o
      → member f.fill_key step.1.state.seen_source_fills ≡ true
  unfolding apply_source_fill allocate_source_fill check_intent book_fill
  apply-key h o e =
      ground (arith, member-add f.fill_key f.fill_key s.state.seen_source_fills, eq_refl f.fill_key)

  apply-IsLater : (cid : String) → IsLater cid s step.1
  apply-IsLater cid = record {
    seen = apply-seen;
    known = apply-known cid;
    halt = apply-halt;
    freeze = apply-freeze;
    file = apply-file;
  }

abbrev pub AllSeen : List String → Store → Type 0
AllSeen keys s = all (λ k. member k s.state.seen_source_fills) keys ≡ true

AllSeen-IsLater :
    (cid : String) (keys : List String) (s t : Store)
    → IsLater cid s t
    → AllSeen keys s
    → AllSeen keys t
AllSeen-IsLater cid [] s t later h = refl
AllSeen-IsLater cid (k ∷ keys) s t later h =
    ground (arith, later.seen k, AllSeen-IsLater cid keys s t later)

-- How the loop over a suffix ended.
abbrev pub Took : String → List String → Store → Result (Unit {0}) × Store → Type 0
Took cid keys s (ok _, s') = IsLater cid s s' × AllSeen keys s'
Took cid keys s (err e, s') = IsLater cid s s' × (e ≢ sync_error)

module _ (platform : Platform) (reason cid : String) (r : SourceOrderRecord) where
  abbrev rest_of : List FillFacts → Result (Option HedgeIntent) × Store → Result (Unit {0}) × Store
  rest_of suffix p = elim (p.0) [
    | ok o ↦ take_fills platform reason cid r suffix p.1
    | err e ↦ (err e, p.1)
  ]

  -- One fill, and the rest of the suffix after it.
  after_fill :
      (key : String) (keys : List String) (suffix : List FillFacts) (s : Store)
      (p : Result (Option HedgeIntent) × Store)
      → IsLater cid s p.1
      → (p.0 ≢ err sync_error)
      → ((o : Option HedgeIntent) → p.0 ≡ ok o → member key p.1.state.seen_source_fills ≡ true)
      → ((t : Store)
          → is_some (lookup cid t.state.source_orders) ≡ true
          → Took cid keys t (take_fills platform reason cid r suffix t))
      → is_some (lookup cid s.state.source_orders) ≡ true
      → Took cid (key ∷ keys) s (rest_of suffix p)
  after_fill key keys suffix s (err e, t) later other seen rest known =
      (later, λ same. other (rw same refl))
  after_fill key keys suffix s (ok o, t) later other seen rest known =
      go (take_fills platform reason cid r suffix t) (rest t (later.known known))
    where
      go : (q : Result (Unit {0}) × Store) → Took cid keys t q → Took cid (key ∷ keys) s q
      go (ok _, u) h =
          (IsLater-trans cid s t u later h.0, ground (arith, h.0.seen key (seen o refl), h.1))
      go (err e, u) h = (IsLater-trans cid s t u later h.0, h.1)

  pub take_fills-Took :
      (suffix : List FillFacts) (s : Store)
      → is_some (lookup cid s.state.source_orders) ≡ true
      → Took cid (keys_of cid suffix) s (take_fills platform reason cid r suffix s)
  unfolding take_fills
  take_fills-Took [] s known = (IsLater-refl cid s, refl)
  take_fills-Took (f ∷ suffix) s known =
      let fill = source_fill_of cid r f in
      after_fill (fill_key_of cid f) (keys_of cid suffix) suffix s
        (apply_source_fill platform fill (some reason) s) (apply-IsLater platform reason fill s cid)
        (apply-not-sync platform reason fill s) (apply-key platform reason fill s known)
        (take_fills-Took suffix) known
