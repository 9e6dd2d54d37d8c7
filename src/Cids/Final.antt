-- ===== src/Cids/Final.antt =====
-- A final fee stays what it was, whatever is observed after it.
use arbi_nautilus.Base.{
  ℕ, ◌≡◌, refl, sym, ◌∙◌, ap, inl, inr, ◌⊎◌, Bool, true, false, not, ◌||◌, Option, none, some, List,
  [], ◌∷◌, ◌++◌, arith, get, put, get-put, Table, find-holds, is_some, is_none, any, length, ◌==◌,
  nat_eq, if◌then◌else◌, Bool-cases, Option-cases, Result, ok, err, Action, Action,
}
use arbi_nautilus.Durability.{DiskCalls}
use arbi_nautilus.Cids.{NativeFill, FeeTrade, FeeMetadata, CidStore, persist, cid_lookup}
use arbi_nautilus.Cids.Fees.{
  same_fill, same_scope, current_scope, scope_is_bad, fee_scope, save_fee_metadata, other_order,
  rows_of, find_trade, find_fill, put_trade, merge_trade, in_scope, save_trade, save_fill,
  record_venue_trade, record_native_fill,
}

-- The row of a trade under a CID.
abbrev pub trade_of : ℕ → ℕ → Table ℕ FeeMetadata → Option FeeTrade
trade_of cid id rows = elim (get cid rows) [ none ↦ none | some m ↦ find_trade id m.venue_trades ]

-- The store holds `p` with its final fee.
abbrev pub IsFinal : ℕ → ℕ → FeeTrade → CidStore → Type 0
IsFinal cid id p s = (trade_of cid id s.fee_metadata ≡ some p) × (is_some p.raw_fee ≡ true)

find-put_trade :
    (id : ℕ) (x : FeeTrade) (rows : List FeeTrade)
    → find_trade id (put_trade x rows) ≡ (if x.trade_id == id then some x else find_trade id rows)
find-put_trade id x [] = ground arith
find-put_trade id x (row ∷ rows) = ground (arith, find-put_trade id x rows)

-- What a save does to the rows.
save-rows :
    (disk : DiskCalls) (m : FeeMetadata) (s : CidStore)
    → ((save_fee_metadata disk m s).1.fee_metadata ≡ s.fee_metadata)
      ⊎ ((save_fee_metadata disk m s).1.fee_metadata ≡ put m.cid m s.fee_metadata)
unfolding save_fee_metadata persist
save-rows disk m s = ground arith

merge-cases :
    (trade merged : FeeTrade) (before : Option FeeTrade)
    → merge_trade trade before ≡ ok merged
    → (before ≡ some merged)
      ⊎ ((merged ≡ trade) × ((q : FeeTrade) → before ≡ some q → is_some q.raw_fee ≡ false))
merge-cases trade merged none e =
    inr (ground (arith, e), λ q none_is. absurd (ground (arith, none_is)))
merge-cases trade merged (some q) e = elim (Bool-cases (is_some q.raw_fee)) [
  | inl final ↦ inl (ground (arith, e))
  | inr pending ↦ inr (ground (arith, e), λ r same. ground (arith, same))
]

fourth : (a b c d e : Bool) → (a || (b || (c || (not d || e)))) ≡ false → d ≡ true
fourth a b c d e h = ground (arith, h)

same_scope-cid : (a b : FeeMetadata) → same_scope a b ≡ true → a.cid ≡ b.cid
unfolding same_scope
same_scope-cid a b h = ground (arith, h)

good_scope :
    (scope : FeeMetadata) (s : CidStore)
    → scope_is_bad scope s ≡ false
    → same_scope (current_scope scope s) scope ≡ true
unfolding scope_is_bad
good_scope scope s =
    fourth (is_none (cid_lookup scope.cid s.by_cid)) (not (length scope.native_fills == 0))
      (not (length scope.venue_trades == 0)) (same_scope (current_scope scope s) scope)
      (any (other_order scope) (rows_of s.fee_metadata))

scope-ok :
    (scope current : FeeMetadata) (s : CidStore)
    → fee_scope scope s ≡ ok current
    → (current ≡ current_scope scope s) × (current.cid ≡ scope.cid)
scope-ok scope current s e = elim (Bool-cases (scope_is_bad scope s)) [
  | inl bad ↦ absurd (ground (arith, e))
  | inr good ↦
      let same : current ≡ current_scope scope s = ground (arith, e) in
      (
        same,
        ap (λ m. m.cid) same
            ∙ same_scope-cid (current_scope scope s) scope (good_scope scope s good),
      )
]

module _ (cid id : ℕ) (p : FeeTrade) (s : CidStore) (final : IsFinal cid id p s) where
  -- Rows that replace those of the current scope, and agree with them on the trade.
  replaced :
      (m : FeeMetadata)
      → (m.cid ≡ cid → find_trade id m.venue_trades ≡ some p)
      → trade_of cid id (put m.cid m s.fee_metadata) ≡ some p
  replaced m h = elim (Bool-cases (m.cid == cid)) [
    | inl here ↦ ground (arith, get-put m.cid cid m s.fee_metadata, h)
    | inr there ↦ ground (arith, get-put m.cid cid m s.fee_metadata, final.0)
  ]

  saved-IsFinal :
      (disk : DiskCalls) (m : FeeMetadata)
      → (m.cid ≡ cid → find_trade id m.venue_trades ≡ some p)
      → IsFinal cid id p (save_fee_metadata disk m s).1
  saved-IsFinal disk m h = elim (save-rows disk m s) [
    | inl same ↦ (ap (trade_of cid id) same ∙ final.0, final.1)
    | inr put_rows ↦ (ap (trade_of cid id) put_rows ∙ replaced m h, final.1)
  ]

  -- The current rows hold the trade.
  current_trade :
      (scope current : FeeMetadata)
      → fee_scope scope s ≡ ok current
      → current.cid ≡ cid
      → find_trade id current.venue_trades ≡ some p
  current_trade scope current e here =
      let (same, own) = scope-ok scope current s e in
      let there : trade_of scope.cid id s.fee_metadata ≡ some p =
        ap (λ c. trade_of c id s.fee_metadata) (sym own ∙ here) ∙ final.0 in
      elim (Option-cases (get scope.cid s.fee_metadata)) [
        | inl missing ↦ absurd (ground (arith, missing, there))
        | inr (m, found) ↦
            let its : current_scope scope s ≡ m = ground (arith, found) in
            ap (λ x. find_trade id x.venue_trades) (same ∙ its) ∙ ground (arith, found, there)
      ]

  merged_trade :
      (trade merged : FeeTrade) (rows : List FeeTrade)
      → merge_trade trade (find_trade trade.trade_id rows) ≡ ok merged
      → find_trade id rows ≡ some p
      → find_trade id (put_trade merged rows) ≡ some p
  merged_trade trade merged rows e h = elim (Bool-cases (merged.trade_id == id)) [
    | inr there ↦ find-put_trade id merged rows ∙ rw there h
    | inl here ↦
        find-put_trade id merged rows
        ∙ rw here (ap some (is_p ((nat_eq.beq_iff merged.trade_id id).0 here)))
  ]
    where
      some_inj : some merged ≡ some p → merged ≡ p
      some_inj same = ground (arith, same)

      true≢false : true ≡ false → ⊥
      true≢false bad = ground (arith, bad)

      is_p : merged.trade_id ≡ id → merged ≡ p
      is_p own = elim (merge-cases trade merged (find_trade trade.trade_id rows) e) [
        | inl known ↦
            let its : merged.trade_id ≡ trade.trade_id =
              (nat_eq.beq_iff merged.trade_id trade.trade_id).0
                (find-holds (λ row. row.trade_id == trade.trade_id) merged rows known) in
            some_inj (sym known ∙ ap (λ k. find_trade k rows) (sym its ∙ own) ∙ h)
        | inr fresh ↦
            let at : trade.trade_id ≡ id = ap (λ x. x.trade_id) (sym fresh.0) ∙ own in
            absurd (true≢false (sym final.1 ∙ fresh.1 p (ap (λ k. find_trade k rows) at ∙ h)))
      ]

  in_scope-IsFinal :
      (scope : FeeMetadata) (k : FeeMetadata → Action CidStore (Unit {0}))
      → ((current : FeeMetadata)
          → fee_scope scope s ≡ ok current
          → IsFinal cid id p (k current s).1)
      → IsFinal cid id p (in_scope (fee_scope scope s) k s).1
  in_scope-IsFinal scope k h = go (fee_scope scope s) refl
    where
      go : (r : Result FeeMetadata) → fee_scope scope s ≡ r → IsFinal cid id p (in_scope r k s).1
      go (err e) same = final
      go (ok current) same = h current same

  pub trade-IsFinal :
      (disk : DiskCalls) (scope : FeeMetadata) (trade : FeeTrade)
      → IsFinal cid id p (record_venue_trade disk scope trade s).1
  unfolding record_venue_trade
  trade-IsFinal disk scope trade =
      in_scope-IsFinal scope
        (λ current.
          save_trade disk current
            (merge_trade trade (find_trade trade.trade_id current.venue_trades)))
        (λ current e.
          by_merge current e (merge_trade trade (find_trade trade.trade_id current.venue_trades))
            refl)
    where
      by_merge :
          (current : FeeMetadata)
          → fee_scope scope s ≡ ok current
          → (r : Result FeeTrade)
          → merge_trade trade (find_trade trade.trade_id current.venue_trades) ≡ r
          → IsFinal cid id p (save_trade disk current r s).1
      by_merge current e (err x) same = final
      by_merge current e (ok merged) same =
          saved-IsFinal disk
            (record current { venue_trades = put_trade merged current.venue_trades })
            (λ here.
              merged_trade trade merged current.venue_trades same
                (current_trade scope current e here))

  pub fill-IsFinal :
      (disk : DiskCalls) (scope : FeeMetadata) (fill : NativeFill)
      → IsFinal cid id p (record_native_fill disk scope fill s).1
  unfolding record_native_fill
  fill-IsFinal disk scope fill =
      in_scope-IsFinal scope
        (λ current. save_fill disk current fill (find_fill fill.trade_id current.native_fills))
        (λ current e. by_fill current e (find_fill fill.trade_id current.native_fills))
    where
      by_fill :
          (current : FeeMetadata)
          → fee_scope scope s ≡ ok current
          → (o : Option NativeFill) → IsFinal cid id p (save_fill disk current fill o s).1
      by_fill current e none =
          saved-IsFinal disk (record current { native_fills = current.native_fills ++ fill ∷ [] })
            (current_trade scope current e)
      by_fill current e (some previous) = elim (Bool-cases (same_fill previous fill)) [
        | inl same ↦
            rw (IsFinal, save_fill, same)
              (saved-IsFinal disk current (current_trade scope current e))
        | inr other ↦ rw (IsFinal, save_fill, other) final
      ]

-- What a store may be told of a CID: a trade of the venue, or a fill of the native cache.
pub data Observation : Type 0 where
  saw_trade : DiskCalls → FeeMetadata → FeeTrade → Observation
  saw_fill : DiskCalls → FeeMetadata → NativeFill → Observation

-- The store after the call, whether it returned or raised.
abbrev pub observe : Observation → CidStore → CidStore
observe (saw_trade disk scope trade) s = (record_venue_trade disk scope trade s).1
observe (saw_fill disk scope fill) s = (record_native_fill disk scope fill s).1

abbrev pub observe_all : List Observation → CidStore → CidStore
observe_all [] s = s
observe_all (o ∷ observations) s = observe_all observations (observe o s)

-- Once a trade has its final fee, no further observations change its row, in whatever order they
-- come, whatever the disk does, and whether the calls return or raise.
pub observe_all-IsFinal :
    (cid id : ℕ) (p : FeeTrade) (observations : List Observation) (s : CidStore)
    → IsFinal cid id p s
    → IsFinal cid id p (observe_all observations s)
observe_all-IsFinal cid id p [] s h = h
observe_all-IsFinal cid id p (saw_trade disk scope trade ∷ observations) s h =
    observe_all-IsFinal cid id p observations _ (trade-IsFinal cid id p s h disk scope trade)
observe_all-IsFinal cid id p (saw_fill disk scope fill ∷ observations) s h =
    observe_all-IsFinal cid id p observations _ (fill-IsFinal cid id p s h disk scope fill)
