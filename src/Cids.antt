-- ===== src/Cids.antt =====
-- `BitfinexV1CidStore` of src/py000_nautilus/bitfinex_v1_cids.py, its identifiers: the integer client
-- id of Bitfinex (45 bits) that each order text is bound to, for ever, and the fee rows in `Cids.Fees`.
-- The file is the payload that was last published. `utc_date` is the library's date of a time in seconds.
pub mod Allocate
pub mod Fees
pub mod Final
use arbi_nautilus.Base.{
  ℤ, Table, ℕ, ◌+◌, ◌/◌, Bool, true, false, ◌&&◌, not, String, ◌==◌, string_eq, nat_eq, Option,
  none, some, List, [], ◌∷◌, ◌++◌, Dict, lookup, insert, values, ltb, leb, is_some, Result, ok, err,
  value_error, sync_error, Action, pure, raise, raise_if, modify, if◌then◌else◌,
}
use arbi_nautilus.Durability.{DiskCalls, persist_payload}

-- 2^45 - 1
abbrev pub max_cid : ℕ
max_cid = 35184372088831

pub record CidBinding : Type 0 where
  pub client_order_id : String
  pub cid : ℕ
  pub allocated_utc_date : String

-- `BitfinexNativeFill`, amounts as whole numbers of a small unit.
pub record NativeFill : Type 0 where
  pub trade_id : String
  pub native_fill_origin : String
  pub signed_quantity : ℤ
  pub price : ℤ
  pub ts_event_ns : ℕ
  pub liquidity_side : String
  pub commission : ℤ
  pub commission_currency : String

-- `BitfinexFeeTrade`; the final fee has an amount and a currency, a pending one neither.
pub record FeeTrade : Type 0 where
  pub trade_id : ℕ
  pub ts_event_ms : ℕ
  pub execution_qty : ℤ
  pub execution_price : ℤ
  pub order_type : String
  pub order_price : ℤ
  pub maker : Bool
  pub raw_fee : Option ℤ
  pub fee_currency : Option String

pub record FeeMetadata : Type 0 where
  pub cid : ℕ
  pub venue_order_id : ℕ
  pub instrument_id : String
  pub raw_symbol : String
  pub native_fills : List NativeFill
  pub venue_trades : List FeeTrade

pub record CidPayload : Type 0 where
  pub saved_last_cid : ℕ
  pub saved_conflict : Bool
  pub saved_bindings : List CidBinding
  pub saved_fees : List FeeMetadata

pub record CidStore : Type 0 where
  pub by_client : Dict CidBinding
  pub by_cid : List (ℕ × CidBinding)
  pub last_cid : ℕ
  pub accounting_conflict : Bool
  pub fees_durable : Bool
  pub fee_metadata : Table ℕ FeeMetadata
  pub file : Option CidPayload

-- A dict keyed by integers.
abbrev pub cid_lookup : ℕ → List (ℕ × CidBinding) → Option CidBinding
cid_lookup k [] = none
cid_lookup k ((j, v) ∷ d) = if j == k then some v else cid_lookup k d

abbrev pub cid_insert : ℕ → CidBinding → List (ℕ × CidBinding) → List (ℕ × CidBinding)
cid_insert k v [] = (k, v) ∷ []
cid_insert k v ((j, w) ∷ d) = if j == k then (j, v) ∷ d else (j, w) ∷ cid_insert k v d

-- `sorted(bindings, key=lambda item: item.cid)`
abbrev pub insert_binding : CidBinding → List CidBinding → List CidBinding
insert_binding b [] = b ∷ []
insert_binding b (c ∷ cs) = if leb b.cid c.cid then b ∷ c ∷ cs else c ∷ insert_binding b cs

abbrev pub sort_bindings : List CidBinding → List CidBinding
sort_bindings [] = []
sort_bindings (b ∷ bs) = insert_binding b (sort_bindings bs)

abbrev insert_fees : FeeMetadata → List FeeMetadata → List FeeMetadata
insert_fees m [] = m ∷ []
insert_fees m (n ∷ rows) =
    let rest = insert_fees m rows in if leb m.cid n.cid then m ∷ n ∷ rows else n ∷ rest

-- `sorted(fee_metadata.values(), key=lambda item: item.cid)`
abbrev pub sort_fees : Table ℕ FeeMetadata → List FeeMetadata
sort_fees [] = []
sort_fees ((cid, m) ∷ rows) = insert_fees m (sort_fees rows)

-- `_persist` once the disk has answered: `fees_durable` is set only where the call returns.
abbrev pub written : CidPayload → CidStore → Result (Unit {0}) × Bool → Result (Unit {0}) × CidStore
written payload s (ok _, published) =
    (ok tt, record s { file = if published then some payload else s.file; fees_durable = true })
written payload s (err e, published) =
    (err e, record s { file = if published then some payload else s.file })

unfoldable pub persist : DiskCalls → ℕ → List CidBinding → Action CidStore (Unit {0})
persist disk last bindings s =
    let payload : CidPayload = record {
      saved_last_cid = last;
      saved_conflict = s.accounting_conflict;
      saved_bindings = sort_bindings bindings;
      saved_fees = sort_fees s.fee_metadata;
    } in
    written payload s (persist_payload disk)

unfoldable pub mark_accounting_conflict : DiskCalls → Action CidStore (Unit {0})
mark_accounting_conflict disk s =
    if s.accounting_conflict && s.fees_durable
    then (ok tt, s)
    else persist disk s.last_cid (values s.by_client)
        (record s { accounting_conflict = true; fees_durable = false })

-- `_remember`
unfoldable pub remember : CidBinding → CidStore → CidStore
remember b s = record s {
  by_client = insert b.client_order_id b s.by_client;
  by_cid = cid_insert b.cid b s.by_cid;
  last_cid = b.cid;
}

-- The `try` of `allocate`: a sync error leaves the binding remembered, since it is published.
abbrev remembered : CidBinding → Result (Unit {0}) × CidStore → Result CidBinding × CidStore
remembered b (ok _, s) = (ok b, remember b s)
remembered b (err sync_error, s) = (err sync_error, remember b s)
remembered b (err e, s) = (err e, s)

abbrev pub next_cid : ℕ → ℕ → ℕ
next_cid epoch_ms last = if leb epoch_ms (last + 1) then last + 1 else epoch_ms

unfoldable pub allocate : (ℕ → String) → DiskCalls → String → ℕ → Action CidStore CidBinding
allocate utc_date disk client_id epoch_ms s =
    let cid = next_cid epoch_ms s.last_cid in
    let b : CidBinding = record {
      client_order_id = client_id;
      cid = cid;
      allocated_utc_date = utc_date (epoch_ms / 1000);
    } in
    if client_id == ""
    then (err value_error, s)
    else if is_some (lookup client_id s.by_client)
    then (err value_error, s)
    else if ltb max_cid cid
    then (err value_error, s)
    else remembered b (persist disk cid (values s.by_client ++ b ∷ []) s)
