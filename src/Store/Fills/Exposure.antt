-- ===== src/Store/Fills/Exposure.antt =====
-- The exposure that `reserve_source_fill` books: what a fill adds, what stays as residual, and that
-- a replayed fill adds nothing.
use arbi_nautilus.Base.{
  ◌≡◌, ◌≢◌, inl, inr, Bool, true, false, not, ◌&&◌, ◌*◌, ◌≤◌, ℤ, pos, magnitude, ◌+ℤ◌, ◌-ℤ◌, ◌<ℤ◌,
  ltb_ℤ, String, Option, none, some, arith, int_laws, Result, ok, err, Bool-cases, lookup, insert,
  member, add, ◌==◌, is_none, is_some, string_eq, int_eq,
}
use arbi_nautilus.Models.{HedgeIntent, side_eq, ounce}
use arbi_nautilus.Models.Checks.{check_intent, intent_is_valid}
use arbi_nautilus.Models.Rounding.{round_hedge_ounces, of_ounces, residual-le-half}
use arbi_nautilus.Store.{SourceOrderRecord, StoreState, Store, Platform, net_unhedged, outstanding}
use arbi_nautilus.Store.Exposure.{net_unhedged_lem, sum_outstanding-insert_new, of_ounces_signed}
use arbi_nautilus.Store.Fills.{
  SourceFill, signed_fill, book_fill, allocate_source_fill, new_intent, intent_id_of,
  apply_source_fill,
}

-- What `begin_source` grants of a record: a ticket's quantity comes with its id, and is positive.
abbrev pub ticket_is_valid : SourceOrderRecord → Bool
ticket_is_valid r =
    not (is_none r.hedge_position_id && is_some r.hedge_position_quantity_ounces)
    && elim r.hedge_position_quantity_ounces [ none ↦ true | some q ↦ ltb_ℤ (pos 0) q ]

of_ounces_positive : (r : ℤ) → r ≢ pos 0 → pos 0 <ℤ of_ounces (pos (magnitude r))
unfolding of_ounces
of_ounces_positive r h = ground arith

-- The state after the fill is booked and its whole ounces are allocated.
abbrev allocated : SourceFill → Option String → SourceOrderRecord → StoreState → StoreState
allocated f blocked_reason r s =
    let booked = book_fill f blocked_reason r s in
    let combined = booked.net_unhedged_ounces +ℤ signed_fill f in
    record booked { net_unhedged_ounces = combined -ℤ of_ounces (round_hedge_ounces combined) }

module _ (platform : Platform) (f : SourceFill) (blocked_reason : Option String)
    (r : SourceOrderRecord) where
  -- The intent that a fill makes always passes the checks of its constructor.
  new_intent-valid :
      (rounded : ℤ)
      → ticket_is_valid r ≡ true
      → rounded ≢ pos 0
      → intent_is_valid (new_intent platform f blocked_reason r rounded) ≡ true
  unfolding intent_is_valid
  new_intent-valid rounded h k = ground (arith, of_ounces_positive rounded k)

  new_intent-outstanding :
      (rounded : ℤ)
      → outstanding (new_intent platform f blocked_reason r rounded) ≡ of_ounces rounded
  new_intent-outstanding rounded = elim (Bool-cases (ltb_ℤ (pos 0) rounded)) [
    | inl up ↦ rw (up, ← of_ounces_signed rounded, up) (omega int_laws)
    | inr down ↦ rw (down, ← of_ounces_signed rounded, down) (omega int_laws)
  ]

  book_fill_keeps :
      (s : StoreState)
      → ((book_fill f blocked_reason r s).hedge_intents ≡ s.hedge_intents)
        × ((book_fill f blocked_reason r s).net_unhedged_ounces ≡ s.net_unhedged_ounces)
        × ((book_fill f blocked_reason r s).seen_source_fills ≡ add f.fill_key s.seen_source_fills)
  unfolding book_fill
  book_fill_keeps s = ground arith

  module _ (s : Store) (known : lookup f.client_order_id s.state.source_orders ≡ some r)
      (new : member f.fill_key s.state.seen_source_fills ≡ false) (side : r.side ≡ f.side)
      (positive : pos 0 <ℤ f.ounces) where
    abbrev rounded : ℤ
    rounded =
        round_hedge_ounces
          ((book_fill f blocked_reason r s.state).net_unhedged_ounces +ℤ signed_fill f)

    apply_none :
        rounded ≡ pos 0
        → apply_source_fill platform f blocked_reason s
          ≡ (ok none, record s { state = allocated f blocked_reason r s.state })
    unfolding apply_source_fill allocate_source_fill
    apply_none zero_ounces = ground (arith, side_eq.beq_iff r.side f.side)

    apply_some :
        ticket_is_valid r ≡ true
        → rounded ≢ pos 0
        → let i = new_intent platform f blocked_reason r rounded in
          let after = allocated f blocked_reason r s.state in
          apply_source_fill platform f blocked_reason s ≡ (
            ok (some i),
            record s {
              state = record after { hedge_intents = insert i.intent_id i after.hedge_intents };
            },
          )
    unfolding apply_source_fill allocate_source_fill check_intent
    apply_some right some_ounces =
        ground (arith, side_eq.beq_iff r.side f.side, new_intent-valid rounded right some_ounces)

    -- The accounting of one new fill of a known order, when its intent id is free.
    abbrev pub Accounted : Result (Option HedgeIntent) × Store → Type 0
    Accounted (err e, s') = ⊥
    Accounted (ok o, s') =
        (net_unhedged s'.state ≡ net_unhedged s.state +ℤ signed_fill f)
        × (2 * magnitude s'.state.net_unhedged_ounces ≤ ounce)
        × (s'.state.seen_source_fills ≡ add f.fill_key s.state.seen_source_fills)

    exposure_none :
        rounded ≡ pos 0
        → net_unhedged (allocated f blocked_reason r s.state)
          ≡ net_unhedged s.state +ℤ signed_fill f
    unfolding of_ounces
    exposure_none zero_ounces =
        rw (net_unhedged_lem (allocated f blocked_reason r s.state), net_unhedged_lem s.state)
          (rw (zero_ounces, (book_fill_keeps s.state).0, (book_fill_keeps s.state).1)
            (omega int_laws))

    exposure_some :
        lookup (intent_id_of platform f.fill_key) s.state.hedge_intents ≡ none
        → let i = new_intent platform f blocked_reason r rounded in
          let after = allocated f blocked_reason r s.state in
          net_unhedged (record after { hedge_intents = insert i.intent_id i after.hedge_intents })
          ≡ net_unhedged s.state +ℤ signed_fill f
    exposure_some free =
        let i = new_intent platform f blocked_reason r rounded in
        let after = allocated f blocked_reason r s.state in
        rw
          (
            net_unhedged_lem
                (record after { hedge_intents = insert i.intent_id i after.hedge_intents }),
            net_unhedged_lem s.state,
            (book_fill_keeps s.state).0,
            sum_outstanding-insert_new i.intent_id i s.state.hedge_intents free,
            new_intent-outstanding rounded,
            (book_fill_keeps s.state).1,
          )
          (omega int_laws)

    pub apply-Accounted :
        ticket_is_valid r ≡ true
        → lookup (intent_id_of platform f.fill_key) s.state.hedge_intents ≡ none
        → Accounted (apply_source_fill platform f blocked_reason s)
    apply-Accounted right free =
        let keeps = book_fill_keeps s.state in
        let booked = book_fill f blocked_reason r s.state in
        let combined = booked.net_unhedged_ounces +ℤ signed_fill f in
        elim (Bool-cases (rounded == pos 0)) [
          | inl zero_ounces ↦ rw (apply_none ((int_eq.beq_iff _ _).0 zero_ounces)) (
            exposure_none ((int_eq.beq_iff _ _).0 zero_ounces),
            residual-le-half combined,
            keeps.2,
          )
          | inr some_ounces ↦
              rw (apply_some right (ground arith))
                (exposure_some free, residual-le-half combined, keeps.2)
        ]
