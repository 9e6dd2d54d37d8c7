-- ===== src/Projection/Hedge/Bound.antt =====
-- The first loop of `project_hedge_fills` in src/py000_nautilus/hedge_projection.py, for the single store of
-- the Taker: every hedge order belongs to one intent.
use arbi_nautilus.Base.{
  Bool, false, not, ◌&&◌, ◌||◌, ℕ, suc, String, Option, none, some, List, [], ◌∷◌, Dict, lookup,
  insert, member, is_some, split_bar, ◌==◌, string_eq, nat_eq, list_eq, option_eq, Result, ok, err,
  value_error,
}
use arbi_nautilus.Base.Raises.{◌>>=◌, ◌>>◌, unless}
use arbi_nautilus.Models.{HedgeIntent, RejectedHedgeAttempt, side_eq}
use arbi_nautilus.Models.Checks.{is_empty}
use arbi_nautilus.Store.{SourceOrderRecord, StoreState}
use arbi_nautilus.Projection.Hedge.{order_ids}

-- Whose order it is, and which leg.
pub record Binding : Type 0 where
  pub bound_intent : HedgeIntent
  pub bound_record : SourceOrderRecord
  pub bound_leg : ℕ

-- The identities met so far.
pub record Bindings : Type 0 where
  pub intents : List String
  pub source_fills : List String
  pub bound : Dict Binding

abbrev pub no_bindings : Bindings
no_bindings = record { intents = []; source_fills = []; bound = [] }

abbrev bind_one : String → Binding → Dict Binding → Result (Dict Binding)
bind_one cid b d = do unless (is_some (lookup cid d)) value_error; ok (insert cid b d)

abbrev binding_at : HedgeIntent → SourceOrderRecord → ℕ → Binding
binding_at i r index = record { bound_intent = i; bound_record = r; bound_leg = index }

-- `for index, cid in enumerate(ids)`
unfoldable pub bind_ids :
    HedgeIntent → SourceOrderRecord → ℕ → List String → Dict Binding → Result (Dict Binding)
bind_ids i r index [] d = ok d
bind_ids i r index (cid ∷ ids) d = do
  more ← bind_one cid (binding_at i r index) d
  bind_ids i r (suc index) ids more

abbrev bind_attempt :
    HedgeIntent
    → SourceOrderRecord
    → Option RejectedHedgeAttempt
    → Dict Binding
    → Result (Dict Binding)
bind_attempt i r none d = ok d
bind_attempt i r (some attempt) d =
    bind_one attempt.client_order_id (binding_at i r attempt.leg_index) d

abbrev names_fill : HedgeIntent → List String → Bool
names_fill i (cid ∷ venue ∷ trade ∷ []) =
    not (is_empty cid || (is_empty venue || is_empty trade))
    && (cid == i.source_client_order_id && (trade == i.source_trade_id))
names_fill i _ = false

-- The test on an intent whose record is known.
abbrev intent_is_foreign : StoreState → String → HedgeIntent → SourceOrderRecord → Bindings → Bool
intent_is_foreign s identity i r b =
    is_empty identity
    || (not (identity == i.intent_id)
        || (member identity b.intents
            || (member i.fill_key b.source_fills
                || (not (i.source_side == r.side)
                    || (not (member i.fill_key s.seen_source_fills)
                        || not (names_fill i (split_bar i.fill_key)))))))

abbrev bind_known :
    StoreState → String → HedgeIntent → Option SourceOrderRecord → Bindings → Result Bindings
bind_known s identity i none b = err value_error
bind_known s identity i (some r) b = do
  unless (intent_is_foreign s identity i r b) value_error
  ids ← order_ids i r
  with_ids ← bind_ids i r 0 ids b.bound
  with_attempt ← bind_attempt i r i.rejected_attempt with_ids
  ok (record {
    intents = identity ∷ b.intents;
    source_fills = i.fill_key ∷ b.source_fills;
    bound = with_attempt;
  })

-- The loop over the intents.
unfoldable pub bind_intents : StoreState → Dict HedgeIntent → Bindings → Result Bindings
bind_intents s [] b = ok b
bind_intents s ((identity, i) ∷ intents) b = do
  more ← bind_known s identity i (lookup i.source_client_order_id s.source_orders) b
  bind_intents s intents more

-- The loop over the source orders, and their ids.
unfoldable pub check_sources : Dict SourceOrderRecord → List String → Result (List String)
check_sources [] sources = ok sources
check_sources ((cid, r) ∷ orders) sources = do
  unless (is_empty cid || (not (cid == r.client_order_id) || member cid sources)) value_error
  check_sources orders (cid ∷ sources)
