-- ===== src/Models.antt =====
-- The business records of src/py000_nautilus/models.py, and the quantities they are written in.
-- A `Decimal` of ounces is a whole number of units of 10^-8 ounce, positive or negative; the
-- values are finite. The checks of the constructors stand in `Models.Checks`.
pub mod Checks
pub mod Rounding
use arbi_nautilus.Base.{
  ℕ, ◌+◌, ◌≡◌, refl, ◌↔◌, Bool, true, false, ◌&&◌, ℤ, String, Option, none, some, List, [], ◌∷◌,
  arith, ◌+ℤ◌, ◌==◌, Eq, int_eq, string_eq, option_eq, is_some, pos, option_beq_iff,
}

-- One ounce, in units.
abbrev pub ounce : ℕ
ounce = 100000000

pub data SourceDirection : Type 0 where
  long short : SourceDirection

pub data BusinessOrderSide : Type 0 where
  buy sell : BusinessOrderSide

pub data ObligationStatus : Type 0 where
  pending submitting submitted accepted completed blocked rejected unknown : ObligationStatus

-- `is` on the members of an enum.
abbrev pub same_side : BusinessOrderSide → BusinessOrderSide → Bool
same_side buy buy = true
same_side buy sell = false
same_side sell buy = false
same_side sell sell = true

pub same_side_iff : (a b : BusinessOrderSide) → (same_side a b ≡ true) ↔ (a ≡ b)
same_side_iff a b = ground arith

instance abbrev pub side_eq : Eq BusinessOrderSide
side_eq = record { beq = same_side; beq_iff = same_side_iff }

abbrev pub is_completed : ObligationStatus → Bool
is_completed completed = true
is_completed _ = false

abbrev pub is_pending : ObligationStatus → Bool
is_pending pending = true
is_pending _ = false

abbrev pub is_blocked : ObligationStatus → Bool
is_blocked blocked = true
is_blocked _ = false

-- The statuses in which a venue outcome is not known to be good: BLOCKED, REJECTED, UNKNOWN.
abbrev pub is_held : ObligationStatus → Bool
is_held blocked = true
is_held rejected = true
is_held unknown = true
is_held _ = false

pub record HedgeLeg : Type 0 where
  pub side : BusinessOrderSide
  pub quantity_ounces : ℤ
  pub position_id : Option String
  pub expected_position_side : Option BusinessOrderSide
  pub expected_position_quantity_ounces : Option ℤ

abbrev pub is_close : HedgeLeg → Bool
is_close leg = is_some leg.position_id

abbrev pub leg_beq : HedgeLeg → HedgeLeg → Bool
leg_beq a b =
    a.side == b.side
    && (a.quantity_ounces == b.quantity_ounces
        && (a.position_id == b.position_id
            && (a.expected_position_side == b.expected_position_side
                && (a.expected_position_quantity_ounces == b.expected_position_quantity_ounces))))

pub record RejectedHedgeAttempt : Type 0 where
  pub client_order_id : String
  pub leg_index : ℕ

pub record HedgeIntent : Type 0 where
  pub intent_id : String
  pub fill_key : String
  pub source_client_order_id : String
  pub source_trade_id : String
  pub source_side : BusinessOrderSide
  pub source_fill_ounces : ℤ
  pub hedge_side : BusinessOrderSide
  pub hedge_quantity_ounces : ℤ
  pub hedge_position_id : Option String
  pub hedge_position_quantity_ounces : Option ℤ
  pub status : ObligationStatus
  pub hedge_client_order_id : Option String
  pub hedge_filled_ounces : ℤ
  pub hedge_plan : List HedgeLeg
  pub hedge_leg_index : ℕ
  pub hedge_leg_filled_ounces : ℤ
  pub hedge_order_ids : List String
  pub rejected_attempt : Option RejectedHedgeAttempt

-- `sum((leg.quantity_ounces for leg in legs), start)`
abbrev pub sum_legs : ℤ → List HedgeLeg → ℤ
sum_legs start [] = start
sum_legs start (leg ∷ legs) = sum_legs (start +ℤ leg.quantity_ounces) legs

pub leg_beq_iff : (a b : HedgeLeg) → (leg_beq a b ≡ true) ↔ (a ≡ b)
leg_beq_iff a b = ground (
  arith,
  side_eq.beq_iff a.side b.side,
  int_eq.beq_iff a.quantity_ounces b.quantity_ounces,
  option_beq_iff a.position_id b.position_id,
  option_beq_iff a.expected_position_side b.expected_position_side,
  option_beq_iff a.expected_position_quantity_ounces b.expected_position_quantity_ounces,
)

instance abbrev pub leg_eq : Eq HedgeLeg
leg_eq = record { beq = leg_beq; beq_iff = leg_beq_iff }
