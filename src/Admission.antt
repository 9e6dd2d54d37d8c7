-- ===== src/Admission.antt =====
-- `SharedSourceAdmission` of src/py000_nautilus/shared_admission.py: whether a new source order may go
-- out, by the worst that all working orders can fill. What the Nautilus cache and the account
-- reader answer is an argument.
pub mod Working
pub mod Loop
pub mod Admitted
pub mod Verdict
pub mod Mismatch
use arbi_nautilus.Base.{
  Bool, true, false, not, ◌&&◌, ◌||◌, ℕ, ℤ, pos, ◌+ℤ◌, leb_ℤ, ltb_ℤ, String, Option, none, some,
  List, [], ◌∷◌, Dict, lookup, insert, values, keys, contained, any, is_some, is_none, ◌==◌, int_eq,
  string_eq, option_eq, if◌then◌else◌, Result, ok, err, key_error, Action, pure, ◌>>=◌, ◌>>◌, lift,
  member,
}
use arbi_nautilus.Durability.{DiskCalls}
use arbi_nautilus.Models.{BusinessOrderSide, buy, sell}
use arbi_nautilus.Store.{SourceOrderRecord}
use arbi_nautilus.Maker.{CarryBounds, maker_carry_bounds, within_bounds}
use arbi_nautilus.Accounts.{SourceAccount, HedgeAccount, RiskConfig}
use arbi_nautilus.Taker.{BookTop}
use arbi_nautilus.MakerStore.{
  View, bid, ask, taker, Terms, Books, state_of, all_views, is_shared, balance_is_admissible,
  carry_residual_ounces,
}
use arbi_nautilus.MakerStore.Publish.{Owner, same_view, freeze_sources, view_can_submit}
use arbi_nautilus.MakerStore.Dispatch.{first_unfinished_hedge}

-- What the code reads of a native order.
pub record NativeOrder : Type 0 where
  pub native_order_id : String
  pub strategy_id : String
  pub is_buy : Bool
  pub quantity : ℤ
  pub filled_qty : ℤ
  pub leaves_qty : ℤ
  pub native_account_id : Option String
  pub is_closed : Bool

pub record QuoteTick : Type 0 where
  pub bid_price : ℤ
  pub ask_price : ℤ
  pub tick_bid_size : ℤ
  pub tick_ask_size : ℤ
  pub ts_event : ℕ

-- The reader's answer: source, hedge, earliest expiry, and whether a new budget is allowed.
pub record AccountSample : Type 0 where
  pub source : SourceAccount
  pub hedge : HedgeAccount
  pub expiry : ℕ
  pub new_budget : Bool

abbrev pub AccountReader : Type 0
AccountReader = BookTop ℤ → ℕ → BookTop ℤ → ℕ → Bool → Option AccountSample

-- The collaborators of one call: the cache's quotes and source orders, the reader, and what the two
-- hooks answer or raise, which do not touch the store.
pub record Surroundings : Type 0 where
  pub source_tick : Option QuoteTick
  pub hedge_tick : Option QuoteTick
  pub orders : List NativeOrder
  pub reader : Option AccountReader
  pub positions_ready : Option Bool
  pub on_position_mismatch : Option (Result (Unit {0}))

-- What the call reads of `MakerStrategyConfig`.
pub record AdmissionConfig : Type 0 where
  pub risk : RiskConfig
  pub max_unhedged_ounces : Option ℤ

-- The working amount of each side.
pub record Leaves : Type 0 where
  pub buying : ℤ
  pub selling : ℤ

abbrev pub Known : Type 0
Known = Dict (View × SourceOrderRecord)

-- `or` of two tests, of which the second may raise.
abbrev pub or_else : Bool → Result Bool → Result Bool
or_else a b = if a then ok true else b

abbrev refuses : Result Bool → Result Bool
refuses (ok b) = ok (not b)
refuses (err e) = err e

abbrev or_then : Result Bool → Result Bool → Result Bool
or_then (ok a) b = or_else a b
or_then (err e) b = err e

abbrev pub some_stopped : Books → List View → Bool
some_stopped b [] = false
some_stopped b (v ∷ views) =
    is_some (state_of v b).halt_reason
    || (is_some (state_of v b).source_freeze_reason || some_stopped b views)

-- The first refusal of the call, in the order of its tests.
unfoldable pub is_refused : Terms → Surroundings → View → ℤ → Owner → Result Bool
is_refused terms around view quantity o =
    or_else
      (not (any (same_view view) (all_views terms))
        || (leb_ℤ quantity (pos 0) || is_none around.reader))
      (or_then (refuses (view_can_submit terms o.books view)) (
        or_else
          (o.freeze_publication_failed
            || (some_stopped o.books (all_views terms)
                || is_some (first_unfinished_hedge terms o.books)))
          (refuses (balance_is_admissible terms o.books))))

abbrev book_of : QuoteTick → BookTop ℤ
book_of t = record {
  bid = t.bid_price;
  ask = t.ask_price;
  bid_size = t.tick_bid_size;
  ask_size = t.tick_ask_size;
}

abbrev read_with : QuoteTick → QuoteTick → AccountReader → Option AccountSample
read_with s h reader = reader (book_of s) s.ts_event (book_of h) h.ts_event true

-- The accounts that the reader gives for the two quotes, where a new budget is allowed.
unfoldable pub sampled : Surroundings → Option AccountSample
sampled around = elim around.source_tick [
  | none ↦ none
  | some s ↦ elim around.hedge_tick [
    | none ↦ none
    | some h ↦ elim around.reader [
      | none ↦ none
      | some reader ↦ elim (read_with s h reader) [
        | none ↦ none
        | some accounts ↦ if accounts.new_budget then some accounts else none
      ]
    ]
  ]
]

-- `{record.client_order_id: (target, record) ...}` over the views.
abbrev know_records : View → List SourceOrderRecord → Known → Known
know_records v [] d = d
know_records v (r ∷ records) d = know_records v records (insert r.client_order_id (v, r) d)

abbrev know_views : Books → List View → Known → Known
know_views b [] d = d
know_views b (v ∷ views) d =
    know_views b views (know_records v (values (state_of v b).source_orders) d)

unfoldable pub known_records : Terms → Books → Known
known_records terms b = know_views b (all_views terms) []

-- `{order.client_order_id.value: order ...}`
abbrev pub native_by_id : List NativeOrder → Dict NativeOrder → Dict NativeOrder
native_by_id [] d = d
native_by_id (n ∷ orders) d = native_by_id orders (insert n.native_order_id n d)

-- `records.keys() == native.keys()`
unfoldable pub same_keys : Known → Dict NativeOrder → Bool
same_keys records native =
    contained (keys records) (keys native) && contained (keys native) (keys records)

-- `strategy_id_for`
abbrev pub strategy_id_for : Terms → View → Option String
strategy_id_for terms v = elim terms.shared_strategy_ids [
  | none ↦ none
  | some ids ↦ some (if same_view v taker then ids.1 else ids.0)
]

abbrev pub is_buying : BusinessOrderSide → Bool
is_buying buy = true
is_buying sell = false

abbrev same_bool : Bool → Bool → Bool
same_bool true b = b
same_bool false b = not b

-- The facts that a native order and its record share.
unfoldable pub facts_agree : Terms → SourceAccount → View → SourceOrderRecord → NativeOrder → Bool
facts_agree terms account v r n =
    (some n.strategy_id == strategy_id_for terms v)
    && (same_bool n.is_buy (is_buying r.side)
        && (n.quantity == r.quantity_ounces
            && (n.filled_qty == r.filled_ounces
                && (is_none n.native_account_id
                    || (n.native_account_id == some account.account_id)))))

-- A working order counts with all that it has left, on its record's side.
abbrev pub add_leaves : SourceOrderRecord → NativeOrder → Leaves → Leaves
add_leaves r n t =
    if n.is_closed
    then t
    else if is_buying r.side
    then record t { buying = t.buying +ℤ n.leaves_qty }
    else record t { selling = t.selling +ℤ n.leaves_qty }

-- The loop over the records: the working amounts, or none where the facts differ.
unfoldable pub working_leaves :
    Terms → SourceAccount → Dict NativeOrder → Known → Leaves → Result (Option Leaves)
unfolding facts_agree
working_leaves terms account native [] t = ok (some t)
working_leaves terms account native ((cid, (v, r)) ∷ records) t = elim (lookup cid native) [
  | none ↦ err key_error
  | some n ↦
      let rest = working_leaves terms account native records (add_leaves r n t) in
      if facts_agree terms account v r n then rest else ok none
]

-- The new order itself.
abbrev pub own_leaves : BusinessOrderSide → ℤ → Leaves
own_leaves buy quantity = record { buying = quantity; selling = pos 0 }
own_leaves sell quantity = record { buying = pos 0; selling = quantity }

-- The test on the source account.
unfoldable pub source_fits : SourceAccount → RiskConfig → Leaves → Bool
source_fits source risk t =
    not (ltb_ℤ source.max_long_ounces t.buying || ltb_ℤ source.max_short_ounces t.selling)
    && within_bounds source.position_ounces t.buying t.selling risk.source_max_abs
        risk.source_min_keep_abs risk.only_long

-- The test on the hedge account and on what may be unhedged.
unfoldable pub hedge_fits : HedgeAccount → AdmissionConfig → CarryBounds → Bool
hedge_fits hedge config bounds =
    elim config.max_unhedged_ounces [ none ↦ true | some most ↦ leb_ℤ bounds.exposure most ]
    && (leb_ℤ bounds.buy hedge.max_long_ounces
        && (leb_ℤ bounds.sell hedge.max_short_ounces
            && within_bounds hedge.position_ounces bounds.buy bounds.sell config.risk.hedge_max_abs
                config.risk.hedge_min_keep_abs config.risk.only_long))

abbrev hedge_test : HedgeAccount → AdmissionConfig → Result CarryBounds → Result Bool
hedge_test hedge config (err e) = err e
hedge_test hedge config (ok bounds) = ok (hedge_fits hedge config bounds)

abbrev residual_test : HedgeAccount → AdmissionConfig → Leaves → Result ℤ → Result Bool
residual_test hedge config t (err e) = err e
residual_test hedge config t (ok residual) =
    hedge_test hedge config (maker_carry_bounds residual t.buying t.selling)

-- What follows the loop.
unfoldable pub budget_fits : Terms → AdmissionConfig → AccountSample → Leaves → Books → Result Bool
budget_fits terms config accounts t b =
    if source_fits accounts.source config.risk t
    then residual_test accounts.hedge config t (carry_residual_ounces terms b)
    else ok false

-- A freeze of every view, and the refusal.
abbrev pub freeze_and_refuse : Terms → DiskCalls → String → Action Owner Bool
freeze_and_refuse terms disk reason = freeze_sources terms disk reason >> pure false

abbrev pub call_mismatch : Option (Result (Unit {0})) → Action Owner (Unit {0})
call_mismatch none = pure tt
call_mismatch (some hook) = lift hook

abbrev pub refuse_positions : Terms → DiskCalls → Surroundings → Action Owner Bool
refuse_positions terms disk around = do
  freeze_sources terms disk "shared current venue/native positions differ"
  call_mismatch around.on_position_mismatch
  pure false

abbrev pub judge :
    Terms → DiskCalls → AdmissionConfig → AccountSample → Result (Option Leaves) → Action Owner Bool
judge terms disk config accounts (err e) o = (err e, o)
judge terms disk config accounts (ok none) o =
    freeze_and_refuse terms disk "shared source/native facts differ" o
judge terms disk config accounts (ok (some t)) o = (budget_fits terms config accounts t o.books, o)

-- The comparison with the native orders, and the budget.
unfoldable pub compare_orders :
    Terms → DiskCalls → AdmissionConfig → Surroundings → AccountSample → Leaves → Action Owner Bool
compare_orders terms disk config around accounts own o =
    let records = known_records terms o.books in
    let native = native_by_id around.orders [] in
    if same_keys records native
    then judge terms disk config accounts (working_leaves terms accounts.source native records own)
        o
    else freeze_and_refuse terms disk "shared source/native ownership differs" o

abbrev pub positions_differ : Surroundings → Bool
positions_differ around = elim around.positions_ready [ none ↦ false | some ready ↦ not ready ]

-- `__call__`, where no guard refused.
unfoldable pub weigh :
    Terms → DiskCalls → AdmissionConfig → Surroundings → BusinessOrderSide → ℤ → Action Owner Bool
weigh terms disk config around side quantity o = elim (sampled around) [
  | none ↦ (ok false, o)
  | some accounts ↦
      if positions_differ around
      then refuse_positions terms disk around o
      else compare_orders terms disk config around accounts (own_leaves side quantity) o
]

-- `SharedSourceAdmission.__call__`
unfoldable pub admit :
    Terms
    → DiskCalls
    → AdmissionConfig
    → Surroundings
    → View
    → BusinessOrderSide
    → ℤ
    → Action Owner Bool
admit terms disk config around view side quantity o =
    elim (is_refused terms around view quantity o) [
      | err e ↦ (err e, o)
      | ok refused ↦
          if refused then (ok false, o) else weigh terms disk config around side quantity o
    ]
