-- ===== src/MakerStore/Frozen.antt =====
-- `_persist` of src/py000_nautilus/maker_store.py: how a write of all views ends. A view that is frozen
-- lets no source order begin, and the allocation of a fill leaves every freeze as it is.
use arbi_nautilus.Base.{
  ◌≡◌, ◌≢◌, refl, sym, subst, ap, ◌∙◌, inl, inr, ◌⊎◌, Bool, true, false, not, ℤ, pos, String,
  Option, none, some, List, [], ◌∷◌, arith, All, Error, Result, ok, err, sync_error, io_error,
  Result-cases, Bool-cases, Option-cases, put, ◌+ℤ◌, ◌-ℤ◌, if◌then◌else◌, is_none, Action, raise_if,
  value_error, leb_ℤ, ◌==◌, ◌>>=◌, ◌>>◌,
}
use arbi_nautilus.Durability.{DiskCalls, persist_payload, payload_cases}
use arbi_nautilus.Models.{side_eq}
use arbi_nautilus.Models.Checks.{check_intent}
use arbi_nautilus.Store.{SourceOrderRecord, StoreState, Platform}
use arbi_nautilus.Store.Fills.{SourceFill, signed_fill, book_fill}
use arbi_nautilus.MakerStore.{
  Allocation, Balances, balance_of, allocation_fold, view_of_fill, route_balances,
  checkpoint_balances, route_eq, View, bid, ask, taker, Terms, Books, state_of, set_state,
  all_views, is_shared, allocate_to_route,
}
use arbi_nautilus.MakerStore.Validate.Allocations.{validate}
use arbi_nautilus.MakerStore.Validate.Quiet.{validate-not-sync}
use arbi_nautilus.MakerStore.Publish.{
  Owner, update_view, persist_books, commit, set_freezes, some_unfrozen, view_can_submit,
  without_provenance,
}
use arbi_nautilus.MakerStore.Fills.{apply_view_fill, allocate_view_fill, add_view_intent}

-- What `_persist` writes.
abbrev pub candidate : Owner → Books
candidate o = if o.freeze_publication_failed then without_provenance o.books else o.books

-- Why `_persist` raises: the state does not validate, or the write raised.
abbrev pub Failed : Terms → DiskCalls → Books → Error → Type 0
Failed terms disk b e =
    (validate terms b ≡ err e) ⊎ ((validate terms b ≡ ok tt) × ((persist_payload disk).0 ≡ err e))

-- How `_persist` ended: the state is valid, committed and in the file; so it is, and that the
-- directory was not synced is remembered; or the state does not validate or the write failed, and
-- memory is the last committed state again and the file is untouched.
abbrev pub Persisted : Terms → DiskCalls → Owner → Result (Unit {0}) × Owner → Type 0
Persisted terms disk o (ok _, o') =
    (o'.books ≡ candidate o)
    × ((o'.committed ≡ o'.books) × ((o'.file ≡ some o'.books) × (validate terms o'.books ≡ ok tt)))
Persisted terms disk o (err sync_error, o') =
    (o'.books ≡ candidate o)
    × ((o'.committed ≡ o'.books)
        × ((o'.freeze_publication_failed ≡ true)
            × ((o'.file ≡ some o'.books)
                × ((validate terms o'.books ≡ ok tt)
                    × ((persist_payload disk).0 ≡ err sync_error)))))
Persisted terms disk o (err e, o') =
    (o'.books ≡ o.committed)
    × ((o'.committed ≡ o.committed) × ((o'.file ≡ o.file) × Failed terms disk (candidate o) e))

invalid :
    (terms : Terms) (disk : DiskCalls) (o : Owner) (e : Error)
    → validate terms (candidate o) ≡ err e
    → Persisted terms disk o
        (commit (candidate o) (err e, false) (record o { books = candidate o }))
unfolding commit
invalid terms disk o sync_error h = absurd (validate-not-sync terms (candidate o) h)
invalid terms disk o e h = (refl, (refl, (refl, inl h)))

unfoldable prepared : Owner → Owner
prepared o = record o { books = candidate o }

module _ (terms : Terms) (disk : DiskCalls) (o : Owner) where
  refused :
      (e : Error)
      → validate terms (candidate o) ≡ err e
      → persist_books terms disk o ≡ commit (candidate o) (err e, false) (prepared o)
  unfolding persist_books prepared
  refused e h = ground (arith, h)

  written :
      validate terms (candidate o) ≡ ok tt
      → persist_books terms disk o ≡ commit (candidate o) (persist_payload disk) (prepared o)
  unfolding persist_books prepared
  written h = ground (arith, h)

  committed_lem :
      (p : Result (Unit {0}) × Bool)
      → validate terms (candidate o) ≡ ok tt
      → persist_payload disk ≡ p
      → (p ≡ (ok tt, true)) ⊎ ((p ≡ (err sync_error, true)) ⊎ (p ≡ (err io_error, false)))
      → Persisted terms disk o (commit (candidate o) p (prepared o))
  unfolding commit prepared
  committed_lem p h wrote (inl e) =
      subst (λ q. Persisted terms disk o (commit (candidate o) q (prepared o))) (sym e)
        (refl, (refl, (refl, h)))
  committed_lem p h wrote (inr (inl e)) =
      subst (λ q. Persisted terms disk o (commit (candidate o) q (prepared o))) (sym e)
        (refl, (refl, (refl, (refl, (h, ap (λ q. q.0) (wrote ∙ e))))))
  committed_lem p h wrote (inr (inr e)) =
      subst (λ q. Persisted terms disk o (commit (candidate o) q (prepared o))) (sym e)
        (refl, (refl, (refl, inr (h, ap (λ q. q.0) (wrote ∙ e)))))

  -- Only a state that validates is published, to memory's committed state and to the file, also where
  -- the directory sync fails, which is latched; any other error is that of `_validate` or of the
  -- write, leaves the file untouched and takes memory back to what is committed.
  pub persist_books-Persisted : Persisted terms disk o (persist_books terms disk o)
  unfolding prepared
  persist_books-Persisted = elim (Result-cases (validate terms (candidate o))) [
    | inl (e, failed) ↦
        subst (Persisted terms disk o) (sym (refused e failed)) (invalid terms disk o e failed)
    | inr (_, passed) ↦
        subst (Persisted terms disk o) (sym (written passed))
          (committed_lem (persist_payload disk) passed refl (payload_cases disk))
  ]

abbrev pub reason_of : View → Books → Option String
reason_of v b = (state_of v b).source_freeze_reason

pub set_freezes-lem :
    (terms : Terms) (reason : String) (b : Books)
    → some_unfrozen (all_views terms) (set_freezes reason (all_views terms) b) ≡ false
set_freezes-lem terms reason b = elim (Bool-cases (is_shared terms)) [
  | inl shared ↦ ground arith
  | inr alone ↦ ground arith
]

book_fill-reason :
    (f : SourceFill) (r : SourceOrderRecord) (s : StoreState)
    → (book_fill f none r s).source_freeze_reason ≡ s.source_freeze_reason
unfolding book_fill
book_fill-reason f r s = ground arith

set_state-reason :
    (v w : View) (s : StoreState) (b : Books)
    → s.source_freeze_reason ≡ reason_of v b
    → reason_of w (set_state v s b) ≡ reason_of w b
set_state-reason v w s b h = ground (arith, h)

pub unfrozen-same :
    (terms : Terms) (b b' : Books)
    → ((w : View) → reason_of w b' ≡ reason_of w b)
    → some_unfrozen (all_views terms) b' ≡ some_unfrozen (all_views terms) b
unfrozen-same terms b b' h = elim (Bool-cases (is_shared terms)) [
  | inl shared ↦ ground (arith, h bid, h ask, h taker)
  | inr alone ↦ ground (arith, h bid, h ask)
]

-- The file, the committed state and every view's freeze are as before.
abbrev pub Kept : Owner → Owner → Type 0
Kept o o' =
    (o'.file ≡ o.file)
    × ((o'.committed ≡ o.committed) × ((w : View) → reason_of w o'.books ≡ reason_of w o.books))

Kept-trans : (o o1 o2 : Owner) → Kept o o1 → Kept o1 o2 → Kept o o2
Kept-trans o o1 o2 h k = (k.0 ∙ h.0, (k.1.0 ∙ h.1.0, λ w. k.1.1 w ∙ h.1.1 w))

-- And the write's own error is not raised.
abbrev pub KeepsFreezes : {A : Type 0} → Action Owner A → Type 0
KeepsFreezes m = (o : Owner) → Kept o (m o).1 × ((m o).0 ≢ err sync_error)

bind-KeepsFreezes :
    {A B : Type 0} (m : Action Owner A) (k : A → Action Owner B)
    → KeepsFreezes m
    → ((a : A) → KeepsFreezes (k a))
    → KeepsFreezes (m >>= k)
bind-KeepsFreezes {A} {B} m k h g o = elim (Result-cases (m o).0) [
  | inl (e, failed) ↦
      subst Fine (sym (raised e failed)) ((h o).0, λ sync. (h o).1 (failed ∙ ground (arith, sync)))
  | inr (a, done) ↦
      subst Fine (sym (returned a done))
        (Kept-trans o (m o).1 (k a (m o).1).1 (h o).0 (g a (m o).1).0, (g a (m o).1).1)
]
  where
    Fine : Result B × Owner → Type 0
    Fine p = Kept o p.1 × (p.0 ≢ err sync_error)

    raised : (e : Error) → (m o).0 ≡ err e → (m >>= k) o ≡ (err e, (m o).1)
    raised e failed = ground arith

    returned : (a : A) → (m o).0 ≡ ok a → (m >>= k) o ≡ k a (m o).1
    returned a done = ground arith

raise_if-KeepsFreezes : (b : Bool) → KeepsFreezes (raise_if b value_error)
raise_if-KeepsFreezes b o = ((ground arith, (ground arith, λ w. ground arith)), ground arith)

fold-not-sync :
    (terms : Terms) (b : Books) (items : List Allocation) (balances : Balances)
    → allocation_fold terms b items balances ≢ err sync_error
unfolding allocation_fold
fold-not-sync terms b [] balances = ground arith
fold-not-sync terms b (a ∷ items) balances =
    elim (Option-cases (view_of_fill b a.fill_key (all_views terms))) [
      | inl missing ↦ ground arith
      | inr (v, found) ↦ ground (
        arith,
        fold-not-sync terms b items (
            put a.route
              (balance_of a.route balances +ℤ a.signed_fill_ounces -ℤ a.allocated_ounces, v)
              balances),
      )
    ]

module _ (terms : Terms) (platform : Platform) (v : View) (f : SourceFill)
    (r : SourceOrderRecord) where
  allocate-KeepsFreezes :
      (key : String) (signed : ℤ) → KeepsFreezes (allocate_view_fill terms r key signed)
  unfolding allocate_view_fill allocate_to_route route_balances
  allocate-KeepsFreezes key signed o = (
    (ground arith, (ground arith, λ w. ground arith)),
    ground (arith, fold-not-sync terms o.books o.books.allocations (checkpoint_balances terms)),
  )

  add-KeepsFreezes : (rounded : ℤ) → KeepsFreezes (add_view_intent platform v f r rounded)
  unfolding add_view_intent check_intent
  add-KeepsFreezes rounded o = ((ground arith, (ground arith, λ w. ground arith)), ground arith)

  book-KeepsFreezes : KeepsFreezes (update_view v (book_fill f none r))
  book-KeepsFreezes o = (
    (
      refl,
      (
        refl,
        λ w.
            set_state-reason v w (book_fill f none r (state_of v o.books)) o.books
              (book_fill-reason f r (state_of v o.books)),
      ),
    ),
    ground arith,
  )

  pub apply-KeepsFreezes : KeepsFreezes (apply_view_fill terms platform v f r)
  unfolding apply_view_fill
  apply-KeepsFreezes =
      let bad_side = raise_if (not (r.side == f.side)) value_error in
      let not_positive = raise_if (leb_ℤ f.ounces (pos 0)) value_error in
      let book = update_view v (book_fill f none r) in
      let allocated = allocate_view_fill terms r f.fill_key (signed_fill f) in
      let add = add_view_intent platform v f r in
      bind-KeepsFreezes bad_side (λ _. do not_positive; book; rounded ← allocated; add rounded)
        (raise_if-KeepsFreezes (not (r.side == f.side)))
        (λ _.
          bind-KeepsFreezes not_positive (λ _. do book; rounded ← allocated; add rounded)
            (raise_if-KeepsFreezes (leb_ℤ f.ounces (pos 0)))
            (λ _.
              bind-KeepsFreezes book (λ _. allocated >>= add) book-KeepsFreezes
                (λ _.
                  bind-KeepsFreezes allocated add (allocate-KeepsFreezes f.fill_key (signed_fill f))
                    add-KeepsFreezes)))

frozen_gate :
    (terms : Terms) (b : Books) (v : View)
    → is_none (reason_of v b) ≡ false
    → view_can_submit terms b v ≡ ok false
unfolding view_can_submit
frozen_gate terms b v h = elim (Bool-cases (is_none (state_of v b).halt_reason)) [
  | inl running ↦ rw (running, h) refl
  | inr halted ↦ rw halted refl
]

-- No view lets a source order begin.
abbrev pub IsShut : Terms → Books → Type 0
IsShut terms b = All (λ v. view_can_submit terms b v ≡ ok false) (all_views terms)

pub frozen-IsShut :
    (terms : Terms) (b : Books) (views : List View)
    → some_unfrozen views b ≡ false
    → All (λ v. view_can_submit terms b v ≡ ok false) views
frozen-IsShut terms b [] h = tt
frozen-IsShut terms b (v ∷ views) h =
    (frozen_gate terms b v (ground (arith, h)), frozen-IsShut terms b views (ground (arith, h)))
