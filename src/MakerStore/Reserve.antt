-- ===== src/MakerStore/Reserve.antt =====
-- `reserve_source_fill` of a view of src/py000_nautilus/maker_store.py: a new fill is booked and all views
-- are frozen with it, in one published step, or nothing happened.
use arbi_nautilus.Base.{
  ◌≡◌, ◌≢◌, refl, sym, subst, ◌∙◌, inl, inr, true, false, Option, some, String, List, [], ◌∷◌,
  arith, Result, ok, err, sync_error, Bool-cases, lookup, member, pure, ◌>>◌,
}
use arbi_nautilus.Durability.{DiskCalls}
use arbi_nautilus.Models.{HedgeIntent}
use arbi_nautilus.Store.{SourceOrderRecord, StoreState, Platform}
use arbi_nautilus.Store.Fills.{SourceFill}
use arbi_nautilus.MakerStore.{View, Terms, Books, state_of, set_state, all_views}
use arbi_nautilus.MakerStore.Validate.Allocations.{validate}
use arbi_nautilus.MakerStore.Booked.{
  IsBooked, IsBooked-from, IsBooked-unmarked, Applied, apply_view_fill-Applied,
}
use arbi_nautilus.MakerStore.Publish.{
  Owner, persist_books, some_unfrozen, without_provenance, set_freezes, freeze_view,
}
use arbi_nautilus.MakerStore.Fills.{
  apply_view_fill, reserve_view_fill, frozen_books, restore_books, fill_reason, persist_reservation,
  marked_books,
}
use arbi_nautilus.MakerStore.Frozen.{
  candidate, Persisted, persist_books-Persisted, Kept, apply-KeepsFreezes, unfrozen-same,
  set_freezes-lem, IsShut, frozen-IsShut,
}

module _ (terms : Terms) (platform : Platform) (v : View) (f : SourceFill) (r : SourceOrderRecord)
    (o : Owner) where
  -- What `o'` is after a new fill, by how the call ended.
  abbrev pub Reserved : Result (Option HedgeIntent) × Owner → Type 0
  Reserved (ok intent, o') =
      IsBooked terms platform v f r o.books intent o'.books
      × (IsShut terms o'.books × ((o'.file ≡ some o'.books) × (validate terms o'.books ≡ ok tt)))
  Reserved (err sync_error, o') =
      ((intent : Option HedgeIntent) × IsBooked terms platform v f r o.books intent o'.books)
      × (IsShut terms o'.books
          × ((o'.freeze_publication_failed ≡ true)
              × ((o'.file ≡ some o'.books) × (validate terms o'.books ≡ ok tt))))
  Reserved (err e, o') = (o'.books ≡ o.books) × ((o'.file ≡ o.file) × (o'.committed ≡ o.committed))

pub candidate-frozen :
    (terms : Terms) (o : Owner)
    → some_unfrozen (all_views terms) o.books ≡ false
    → IsShut terms (candidate o)
candidate-frozen terms o h = elim (Bool-cases o.freeze_publication_failed) [
  | inl failed ↦ subst (IsShut terms) (sym (rw failed refl)) (
      frozen-IsShut terms (without_provenance o.books) (all_views terms)
        (unfrozen-same terms o.books (without_provenance o.books) (λ w. ground arith) ∙ h))
  | inr fine ↦
      subst (IsShut terms) (sym (rw fine refl)) (frozen-IsShut terms o.books (all_views terms) h)
]

module _ (terms : Terms) (platform : Platform) (disk : DiskCalls) (v : View) (f : SourceFill)
    (r : SourceOrderRecord) (o : Owner) where
  abbrev frozen : Owner
  frozen = record o { books = frozen_books terms f o }

  set_freezes-allocations :
      (reason : String) (views : List View) (b : Books)
      → (set_freezes reason views b).allocations ≡ b.allocations
  set_freezes-allocations reason [] b = refl
  set_freezes-allocations reason (w ∷ views) b =
      set_freezes-allocations reason views (set_state w (freeze_view reason (state_of w b)) b)
      ∙ ground arith

  set_freezes-intents :
      (reason : String) (views : List View) (b : Books)
      → (state_of v (set_freezes reason views b)).hedge_intents ≡ (state_of v b).hedge_intents
  set_freezes-intents reason [] b = refl
  set_freezes-intents reason (w ∷ views) b =
      set_freezes-intents reason views (set_state w (freeze_view reason (state_of w b)) b)
      ∙ ground arith

  marked-same :
      ((marked_books terms o).allocations ≡ o.books.allocations)
      × ((state_of v (marked_books terms o)).hedge_intents ≡ (state_of v o.books).hedge_intents)
  marked-same = (ground arith, ground arith)

  -- The fill is booked in what `_persist` writes.
  candidate-IsBooked :
      (intent : Option HedgeIntent) (applied : Owner)
      → IsBooked terms platform v f r frozen.books intent applied.books
      → IsBooked terms platform v f r o.books intent (candidate applied)
  candidate-IsBooked intent applied h =
      let from_start =
        IsBooked-from terms platform v f r frozen.books o.books intent applied.books
          (set_freezes-allocations (fill_reason f) (all_views terms) (marked_books terms o)
            ∙ marked-same.0)
          (set_freezes-intents (fill_reason f) (all_views terms) (marked_books terms o)
            ∙ marked-same.1)
          h in
      elim (Bool-cases applied.freeze_publication_failed) [
        | inl failed ↦
            subst (IsBooked terms platform v f r o.books intent) (sym (rw failed refl))
              (IsBooked-unmarked terms platform v f r o.books intent applied.books from_start)
        | inr fine ↦
            subst (IsBooked terms platform v f r o.books intent) (sym (rw fine refl)) from_start
      ]

  abbrev Ended : Result (Option HedgeIntent) × Owner → Type 0
  Ended = Reserved terms platform v f r o

  -- The last step: what `_persist` left, seen from the call.
  after_persist :
      (intent : Option HedgeIntent) (previous : StoreState) (applied : Owner)
      (p : Result (Unit {0}) × Owner)
      → Persisted terms disk applied p
      → IsBooked terms platform v f r frozen.books intent applied.books
      → some_unfrozen (all_views terms) applied.books ≡ false
      → applied.file ≡ o.file
      → applied.committed ≡ o.committed
      → Ended (
          restore_books o.books ((do (λ _. persist_reservation v previous p); pure intent) applied))
  after_persist intent previous applied (ok _, o') h booked shut file committed = (
    subst (IsBooked terms platform v f r o.books intent) (sym h.0)
        (candidate-IsBooked intent applied booked),
    (subst (IsShut terms) (sym h.0) (candidate-frozen terms applied shut), (h.1.1.0, h.1.1.1)),
  )
  after_persist intent previous applied (err sync_error, o') h booked shut file committed = (
    (
      intent,
      subst (IsBooked terms platform v f r o.books intent) (sym h.0)
          (candidate-IsBooked intent applied booked),
    ),
    (
      subst (IsShut terms) (sym h.0) (candidate-frozen terms applied shut),
      (h.1.1.0, (h.1.1.1.0, h.1.1.1.1.0)),
    ),
  )
  after_persist intent previous applied (err e, o') h booked shut file committed =
      (refl, (h.1.1.0 ∙ file, h.1.0 ∙ committed))

  from_apply :
      (p : Result (Option HedgeIntent) × Owner)
      → Applied terms platform v f r frozen p
      → Kept frozen p.1
      → p.0 ≢ err sync_error
      → Ended (
          restore_books o.books (elim (p.0) [
            | err e ↦
                (err e, record (p.1) { books = set_state v (state_of v frozen.books) p.1.books })
            | ok intent ↦
                (do
                  (λ o'.
                      persist_reservation v (state_of v frozen.books) (persist_books terms disk o'))
                  pure intent)
                  p.1
          ]))
  from_apply (ok intent, applied) booked kept other =
      after_persist intent (state_of v frozen.books) applied (persist_books terms disk applied)
        (persist_books-Persisted terms disk applied) booked
        (unfrozen-same terms frozen.books applied.books kept.1.1
          ∙ set_freezes-lem terms (fill_reason f) (marked_books terms o))
        kept.0 kept.1.0
  from_apply (err sync_error, applied) booked kept other = absurd (other refl)
  from_apply (err e, applied) booked kept other = (refl, (kept.0, kept.1.0))

  -- A fill that its view has not seen, of an order `r` that it knows: the call returns and the fill
  -- is booked, the whole state validates and is in the file, and no view lets a source order begin; or
  -- the directory sync failed with all of this in place and the failure latched; or the call raised
  -- another error and memory, file and committed state are as before. Booked means that the fill is of
  -- the order's side and positive, its key is seen and the order has filled that much more, one
  -- allocation on the order's route was appended whose ounces are the rounding of the route's total
  -- with the fill, and the view got the intent over those ounces, or none where they are zero.
  pub reserve_view_fill-Reserved :
      member f.fill_key (state_of v o.books).seen_source_fills ≡ false
      → lookup f.client_order_id (state_of v o.books).source_orders ≡ some r
      → Ended (reserve_view_fill terms platform disk v f o)
  unfolding reserve_view_fill
  reserve_view_fill-Reserved new known =
      rw (new, known)
        (let kept = apply-KeepsFreezes terms platform v f r frozen in
          from_apply (apply_view_fill terms platform v f r frozen)
            (apply_view_fill-Applied terms platform v f r frozen) kept.0 kept.1)
