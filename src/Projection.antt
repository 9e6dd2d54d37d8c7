-- ===== src/Projection.antt =====
-- The native orders that src/py000_nautilus/source_projection.py and hedge_projection.py compare with a
-- store: what the code reads of a Nautilus order and of its events.
pub mod Source
pub mod Hedge
use arbi_nautilus.Base.{
  Bool, true, false, not, ◌&&◌, ◌||◌, ℕ, zero, suc, ℤ, pos, ◌+ℤ◌, String, ◌<>◌, Option, none, some,
  List, [], ◌∷◌, Dict, insert, member, ◌==◌, string_eq, if◌then◌else◌,
}
use arbi_nautilus.Models.{BusinessOrderSide}

-- What every event carries.
pub record EventHead : Type 0 where
  pub trader_id : String
  pub strategy_id : String
  pub instrument_id : String
  pub order_id : String
  pub event_account_id : Option String

-- The facts of `OrderInitialized` and of `OrderFilled`.
pub record Initial : Type 0 where
  pub initial_quantity : ℤ
  pub initial_side : BusinessOrderSide
  pub initial_type : String
  pub initial_time_in_force : String
  pub initial_quote_quantity : Bool
  pub initial_reduce_only : Bool

pub record FillFacts : Type 0 where
  pub fill_account_id : String
  pub fill_venue_order_id : String
  pub fill_trade_id : String
  pub fill_side : BusinessOrderSide
  pub fill_type : String
  pub last_qty : ℤ
  pub fill_position_id : Option String

pub data OrderEvent : Type 0 where
  initialized : EventHead → Initial → OrderEvent
  filled : EventHead → FillFacts → OrderEvent
  other_event : EventHead → OrderEvent

pub record VenueOrder : Type 0 where
  pub order_trader_id : String
  pub order_strategy_id : String
  pub order_instrument_id : String
  pub client_order_id : String
  pub order_side : BusinessOrderSide
  pub order_quantity : ℤ
  pub order_filled_qty : ℤ
  pub order_account_id : Option String
  pub order_venue_id : Option String
  pub order_type : String
  pub time_in_force : String
  pub is_quote_quantity : Bool
  pub is_reduce_only : Bool
  pub order_position_id : Option String
  pub trade_ids : List String
  pub order_status : String
  pub events : List OrderEvent

-- The keyword arguments that name an owner of native orders.
pub record Owners : Type 0 where
  pub trader : String
  pub strategy : String
  pub instrument : String

abbrev pub head_of : OrderEvent → EventHead
head_of (initialized head initial) = head
head_of (filled head facts) = head
head_of (other_event head) = head

abbrev pub is_owned_by : Owners → String → EventHead → Bool
is_owned_by owners cid head =
    head.trader_id == owners.trader
    && (head.strategy_id == owners.strategy
        && (head.instrument_id == owners.instrument && (head.order_id == cid)))

-- `tuple(event for event in events if isinstance(event, OrderFilled))`
abbrev pub fills_of : List OrderEvent → List FillFacts
fills_of [] = []
fills_of (initialized head initial ∷ events) = fills_of events
fills_of (filled head facts ∷ events) = facts ∷ fills_of events
fills_of (other_event head ∷ events) = fills_of events

-- `sum((fill.last_qty ...), Decimal(0))`
abbrev pub sum_fills : List FillFacts → ℤ
sum_fills [] = pos 0
sum_fills (f ∷ fills) = f.last_qty +ℤ sum_fills fills

abbrev pub trade_ids_of : List FillFacts → List String
trade_ids_of [] = []
trade_ids_of (f ∷ fills) = f.fill_trade_id ∷ trade_ids_of fills

-- `{order.client_order_id.value: order for order in orders}`
abbrev pub orders_by_id : List VenueOrder → Dict VenueOrder → Dict VenueOrder
orders_by_id [] d = d
orders_by_id (o ∷ orders) d = orders_by_id orders (insert o.client_order_id o d)

abbrev pub drop {ℓ} : {A : Type ℓ} → ℕ → List A → List A
drop zero xs = xs
drop (suc n) [] = []
drop (suc n) (x ∷ xs) = drop n xs
