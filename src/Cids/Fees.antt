-- ===== src/Cids/Fees.antt =====
-- The fee rows of `BitfinexV1CidStore`: what was observed of a fill, and its final fee.
use arbi_nautilus.Base.{
  ℕ, Bool, true, false, not, ◌&&◌, ◌||◌, String, Option, none, some, List, [], ◌∷◌, ◌++◌, values,
  get, put, Table, any, find, is_some, is_none, length, ◌==◌, nat_eq, int_eq, string_eq, option_eq,
  if◌then◌else◌, Result, ok, err, value_error, Action,
}
use arbi_nautilus.Durability.{DiskCalls}
use arbi_nautilus.Cids.{NativeFill, FeeTrade, FeeMetadata, CidStore, cid_lookup, persist}

-- `==` of two rows, field by field.
unfoldable pub same_fill : NativeFill → NativeFill → Bool
same_fill a b =
    a.trade_id == b.trade_id
    && (a.native_fill_origin == b.native_fill_origin
        && (a.signed_quantity == b.signed_quantity
            && (a.price == b.price
                && (a.ts_event_ns == b.ts_event_ns
                    && (a.liquidity_side == b.liquidity_side
                        && (a.commission == b.commission
                            && (a.commission_currency == b.commission_currency)))))))

abbrev same_maker : Bool → Bool → Bool
same_maker a b = if a then b else not b

-- Equal but for the fee.
unfoldable pub same_facts : FeeTrade → FeeTrade → Bool
same_facts a b =
    a.trade_id == b.trade_id
    && (a.ts_event_ms == b.ts_event_ms
        && (a.execution_qty == b.execution_qty
            && (a.execution_price == b.execution_price
                && (a.order_type == b.order_type
                    && (a.order_price == b.order_price && same_maker a.maker b.maker)))))

unfoldable pub same_fee : FeeTrade → FeeTrade → Bool
same_fee a b = a.raw_fee == b.raw_fee && (a.fee_currency == b.fee_currency)

abbrev same_rows {ℓ} : {A : Type ℓ} → (A → A → Bool) → List A → List A → Bool
same_rows same [] [] = true
same_rows same [] (b ∷ bs) = false
same_rows same (a ∷ rows) [] = false
same_rows same (a ∷ rows) (b ∷ bs) = same a b && same_rows same rows bs

unfoldable pub same_scope : FeeMetadata → FeeMetadata → Bool
same_scope a b =
    a.cid == b.cid
    && (a.venue_order_id == b.venue_order_id
        && (a.instrument_id == b.instrument_id && (a.raw_symbol == b.raw_symbol)))

unfoldable pub same_metadata : FeeMetadata → FeeMetadata → Bool
same_metadata a b =
    same_scope a b
    && (same_rows same_fill a.native_fills b.native_fills
        && same_rows (λ x y. same_facts x y && same_fee x y) a.venue_trades b.venue_trades)

abbrev pub other_order : FeeMetadata → FeeMetadata → Bool
other_order scope row = not (row.cid == scope.cid) && (row.venue_order_id == scope.venue_order_id)

abbrev pub rows_of : Table ℕ FeeMetadata → List FeeMetadata
rows_of [] = []
rows_of ((cid, m) ∷ rows) = m ∷ rows_of rows

abbrev pub current_scope : FeeMetadata → CidStore → FeeMetadata
current_scope scope s = elim (get scope.cid s.fee_metadata) [ none ↦ scope | some m ↦ m ]

-- The two tests of `_fee_scope`.
unfoldable pub scope_is_bad : FeeMetadata → CidStore → Bool
scope_is_bad scope s =
    is_none (cid_lookup scope.cid s.by_cid)
    || (not (length scope.native_fills == 0)
        || (not (length scope.venue_trades == 0)
            || (not (same_scope (current_scope scope s) scope)
                || any (other_order scope) (rows_of s.fee_metadata))))

-- `_fee_scope`
abbrev pub fee_scope : FeeMetadata → CidStore → Result FeeMetadata
fee_scope scope s = if scope_is_bad scope s then err value_error else ok (current_scope scope s)

abbrev is_stored : FeeMetadata → Option FeeMetadata → Bool
is_stored m none = false
is_stored m (some stored) = same_metadata stored m

-- `_save_fee_metadata`
unfoldable pub save_fee_metadata : DiskCalls → FeeMetadata → Action CidStore (Unit {0})
save_fee_metadata disk m s =
    if is_stored m (get m.cid s.fee_metadata) && s.fees_durable
    then (ok tt, s)
    else persist disk s.last_cid (values s.by_client)
        (record s { fee_metadata = put m.cid m s.fee_metadata; fees_durable = false })

abbrev pub find_trade : ℕ → List FeeTrade → Option FeeTrade
find_trade id trades = find (λ row. row.trade_id == id) trades

-- `rows[trade.trade_id] = trade`
abbrev pub put_trade : FeeTrade → List FeeTrade → List FeeTrade
put_trade trade [] = trade ∷ []
put_trade trade (row ∷ rows) =
    let rest = put_trade trade rows in
    if row.trade_id == trade.trade_id then trade ∷ rows else row ∷ rest

-- What is kept of an observation, after the one before: a final fee is never erased.
abbrev pub merge_trade : FeeTrade → Option FeeTrade → Result FeeTrade
merge_trade trade none = ok trade
merge_trade trade (some previous) =
    if not (same_facts previous trade)
    then err value_error
    else if is_some previous.raw_fee && (is_some trade.raw_fee && not (same_fee previous trade))
    then err value_error
    else if is_some previous.raw_fee
    then ok previous
    else ok trade

abbrev pub save_trade : DiskCalls → FeeMetadata → Result FeeTrade → Action CidStore (Unit {0})
save_trade disk current (err e) s = (err e, s)
save_trade disk current (ok trade) s =
    save_fee_metadata disk (record current { venue_trades = put_trade trade current.venue_trades })
      s

-- `current = self._fee_scope(scope)`, and the rest of the call.
abbrev pub in_scope :
    Result FeeMetadata → (FeeMetadata → Action CidStore (Unit {0})) → Action CidStore (Unit {0})
in_scope (err e) k s = (err e, s)
in_scope (ok current) k s = k current s

-- `record_venue_trade`
unfoldable pub record_venue_trade : DiskCalls → FeeMetadata → FeeTrade → Action CidStore (Unit {0})
record_venue_trade disk scope trade s =
    in_scope (fee_scope scope s)
      (λ current.
        save_trade disk current
          (merge_trade trade (find_trade trade.trade_id current.venue_trades)))
      s

abbrev pub find_fill : String → List NativeFill → Option NativeFill
find_fill id fills = find (λ row. row.trade_id == id) fills

abbrev pub save_fill :
    DiskCalls → FeeMetadata → NativeFill → Option NativeFill → Action CidStore (Unit {0})
save_fill disk current fill none s =
    save_fee_metadata disk (record current { native_fills = current.native_fills ++ fill ∷ [] }) s
save_fill disk current fill (some previous) s =
    if same_fill previous fill then save_fee_metadata disk current s else (err value_error, s)

-- `record_native_fill`
unfoldable pub record_native_fill :
    DiskCalls → FeeMetadata → NativeFill → Action CidStore (Unit {0})
record_native_fill disk scope fill s =
    in_scope (fee_scope scope s)
      (λ current. save_fill disk current fill (find_fill fill.trade_id current.native_fills)) s
