-- ===== src/Store.antt =====
-- `JsonStateStore` of src/py000_nautilus/store.py: the state that it keeps in memory and the file
-- that holds its last published copy. The operations stand in the modules below.
pub mod Source
pub mod Fills
pub mod Lookup
pub mod HedgeFill
pub mod Hedges
pub mod Custody
pub mod Exposure
pub mod Keyed
pub mod Sound
use arbi_nautilus.Base.{
  ◌≡◌, Bool, true, false, ◌&&◌, ◌||◌, not, ℤ, pos, neg, ◌+ℤ◌, ◌-ℤ◌, ◌==◌, int_eq, string_eq,
  option_eq, String, ◌<>◌, Option, none, some, List, [], ◌∷◌, ◌++◌, Dict, lookup, insert, values,
  all, any, find, is_none, Result, ok, err, Action, pure, raise, sync_error, modify, if◌then◌else◌,
}
use arbi_nautilus.Durability.{DiskCalls, persist_payload}
use arbi_nautilus.Models.{
  BusinessOrderSide, buy, sell, ObligationStatus, HedgeIntent, is_completed, side_eq,
}

pub record SourceOrderRecord : Type 0 where
  pub client_order_id : String
  pub side : BusinessOrderSide
  pub quantity_ounces : ℤ
  pub source_account_id : Option String
  pub source_client_id : Option String
  pub hedge_account_id : Option String
  pub hedge_client_id : Option String
  pub hedge_position_id : Option String
  pub hedge_position_quantity_ounces : Option ℤ
  pub filled_ounces : ℤ
  pub status : String

pub record StoreState : Type 0 where
  pub source_orders : Dict SourceOrderRecord
  pub active_source_order_id : Option String
  pub seen_source_fills : List String
  pub seen_hedge_fills : List String
  pub hedge_intents : Dict HedgeIntent
  pub net_unhedged_ounces : ℤ
  pub halt_reason : Option String
  pub source_freeze_reason : Option String

-- The calls of the three hooks that a restart coordinator may install, in order.
pub data Hook : Type 0 where
  revoke_pause record_failure : Hook
  record_halt : String → Hook

-- `file` is what a new process would load; `none` where no file was ever published.
pub record Store : Type 0 where
  pub state : StoreState
  pub file : Option StoreState
  pub hooks : List Hook

-- What the code takes from the platform: 24 hex digits of SHA-256, and `str` of a `Decimal`.
pub record Platform : Type 0 where
  pub digest : String → String
  pub show : ℤ → String

abbrev pub empty_state : StoreState
empty_state = record {
  source_orders = [];
  active_source_order_id = none;
  seen_source_fills = [];
  seen_hedge_fills = [];
  hedge_intents = [];
  net_unhedged_ounces = pos 0;
  halt_reason = none;
  source_freeze_reason = none;
}

abbrev pub call_hook : Hook → Action Store (Unit {0})
call_hook h s = (ok tt, record s { hooks = s.hooks ++ h ∷ [] })

abbrev pub update_state : (StoreState → StoreState) → Action Store (Unit {0})
update_state f s = (ok tt, record s { state = f s.state })

-- `_persist`
unfoldable pub persist : DiskCalls → Action Store (Unit {0})
persist disk s =
    let (r, published) = persist_payload disk in
    (r, if published then record s { file = some s.state } else s)

-- `except ParentDirectorySyncError: raise`, `except Exception: self._state = previous; raise`
abbrev pub restore : {A : Type 0} → StoreState → Result A × Store → Result A × Store
restore previous (ok a, s) = (ok a, s)
restore previous (err sync_error, s) = (err sync_error, s)
restore previous (err e, s) = (err e, record s { state = previous })

unfoldable pub transaction : {A : Type 0} → Action Store A → Action Store A
transaction m s = restore s.state (m s)

-- What an intent still has to hedge, signed as the source exposure that it covers.
abbrev pub outstanding : HedgeIntent → ℤ
outstanding i =
    let remaining = i.hedge_quantity_ounces -ℤ i.hedge_filled_ounces in
    if i.hedge_side == sell then remaining else neg remaining

abbrev pub sum_outstanding : ℤ → List HedgeIntent → ℤ
sum_outstanding start [] = start
sum_outstanding start (i ∷ intents) = sum_outstanding (start +ℤ outstanding i) intents

-- `net_unhedged_ounces`, the property: the rounding residual and what the intents still owe.
unfoldable pub net_unhedged : StoreState → ℤ
net_unhedged s = sum_outstanding s.net_unhedged_ounces (values s.hedge_intents)

unfoldable pub source_balance_is_admissible : StoreState → Bool
unfolding net_unhedged
source_balance_is_admissible s = s.net_unhedged_ounces == pos 0 && (net_unhedged s == pos 0)

abbrev all_completed : StoreState → Bool
all_completed s = all (λ i. is_completed i.status) (values s.hedge_intents)

unfoldable pub can_submit_source : StoreState → Bool
unfolding source_balance_is_admissible
can_submit_source s =
    is_none s.halt_reason
    && (is_none s.source_freeze_reason
        && (is_none s.active_source_order_id
            && (source_balance_is_admissible s && all_completed s)))

unfoldable pub has_unresolved_hedges : StoreState → Bool
has_unresolved_hedges s = any (λ i. not (is_completed i.status)) (values s.hedge_intents)

-- `record.status in terminal`
abbrev pub is_terminal : String → Bool
is_terminal status =
    status == "FILLED"
    || (status == "DENIED"
        || (status == "REJECTED" || (status == "CANCELED" || status == "EXPIRED")))

unfoldable pub cycle_evidence_complete : StoreState → Bool
unfolding source_balance_is_admissible
cycle_evidence_complete s =
    is_none s.halt_reason
    && (is_none s.active_source_order_id
        && (all (λ r. is_terminal r.status) (values s.source_orders)
            && (all_completed s && source_balance_is_admissible s)))

-- `_source_reconcile_reason`
unfoldable pub source_reconcile_reason : String → String
source_reconcile_reason cid = "source " <> cid <> " terminal event requires fill reconciliation"
