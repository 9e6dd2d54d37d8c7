-- ===== src/Store/Sound/Consequences.antt =====
-- What follows for every store that a history reaches.
use arbi_nautilus.Base.{
  ◌≡◌, inl, inr, ◌⊎◌, Bool, true, false, ◌&&◌, pos, ◌<ℤ◌, some, List, [], ◌∷◌, arith, All, all,
  values, length, ◌==◌, nat_eq, int_eq, member, Bool-cases, if◌then◌else◌,
}
use arbi_nautilus.Durability.{DiskCalls}
use arbi_nautilus.Models.{HedgeIntent, is_completed}
use arbi_nautilus.Models.Checks.{
  intent_is_valid, plan_is_valid, quantities_are_valid, attempt_is_valid, unplanned_is_valid,
}
use arbi_nautilus.Store.{StoreState, Store, Platform, can_submit_source}
use arbi_nautilus.Store.Lookup.{intent_for_hedge_order, is_rejected_attempt}
use arbi_nautilus.Store.HedgeFill.{HedgeFill, hedge_fill_key, apply_hedge_fill}
use arbi_nautilus.Store.HedgeFill.Booked.{Paid, apply_hedge_fill-Paid}
use arbi_nautilus.Store.Sound.{IsValidIntent}
use arbi_nautilus.Store.Sound.History.{Reachable, Reachable-IsSound}

-- In every reachable store, a new positive fill of the current order of an intent moves the exposure
-- by exactly its ounces, is published and idempotent, or is taken back.
pub reached_fill-Paid :
    (platform : Platform) (f : HedgeFill) (i : HedgeIntent) (s : Store)
    → Reachable platform s
    → intent_for_hedge_order f.client_order_id s.state ≡ some i
    → is_rejected_attempt i f.client_order_id ≡ false
    → member (hedge_fill_key f) s.state.seen_hedge_fills ≡ false
    → pos 0 <ℤ f.ounces
    → (disk : DiskCalls) → Paid platform f i s (apply_hedge_fill platform disk f s)
reached_fill-Paid platform f i s r bound current new positive disk =
    apply_hedge_fill-Paid platform f i s (Reachable-IsSound platform s r).memory.keyed bound current
      new positive disk

-- A completed intent with a plan is hedged exactly, leg by leg to the plan's end.
abbrev pub IsDone : HedgeIntent → Type 0
IsDone i =
    (length i.hedge_plan ≡ 0)
    ⊎ ((i.hedge_leg_index ≡ length i.hedge_plan)
        × (i.hedge_filled_ounces ≡ i.hedge_quantity_ounces))

last_test : (a b c d e : Bool) → (a && (b && (if c then d else e))) ≡ true → c ≡ false → e ≡ true
last_test a b c d e h k = ground (arith, h, k)

plan_valid :
    (i : HedgeIntent)
    → intent_is_valid i ≡ true
    → (length i.hedge_plan == 0) ≡ false
    → plan_is_valid i ≡ true
unfolding intent_is_valid
plan_valid i =
    last_test (quantities_are_valid i) (attempt_is_valid i) (length i.hedge_plan == 0)
      (unplanned_is_valid i) (plan_is_valid i)

at_end :
    (i : HedgeIntent)
    → plan_is_valid i ≡ true
    → is_completed i.status ≡ true
    → (i.hedge_leg_index == length i.hedge_plan
        && (i.hedge_filled_ounces == i.hedge_quantity_ounces))
      ≡ true
at_end i v c = ground (arith, v, c)

completed-IsDone :
    (i : HedgeIntent) → intent_is_valid i ≡ true → is_completed i.status ≡ true → IsDone i
completed-IsDone i v c = elim (Bool-cases (length i.hedge_plan == 0)) [
  | inl unplanned ↦ inl ((nat_eq.beq_iff (length i.hedge_plan) 0).0 unplanned)
  | inr planned ↦ inr (
      ground (
        arith,
        int_eq.beq_iff i.hedge_filled_ounces i.hedge_quantity_ounces,
        nat_eq.beq_iff i.hedge_leg_index (length i.hedge_plan),
        at_end i (plan_valid i v planned) c,
      ))
]

all-IsDone :
    (intents : List HedgeIntent)
    → All IsValidIntent intents
    → all (λ i. is_completed i.status) intents ≡ true
    → All IsDone intents
all-IsDone [] v c = tt
all-IsDone (i ∷ intents) v c =
    (completed-IsDone i v.0 (ground (arith, c)), all-IsDone intents v.1 (ground (arith, c)))

gate_open :
    (s : StoreState)
    → can_submit_source s ≡ true
    → all (λ i. is_completed i.status) (values s.hedge_intents) ≡ true
unfolding can_submit_source
gate_open s h = ground arith

-- In every reachable store that would let a source order begin, each intent that has a plan has gone
-- through all of its legs and is hedged for exactly its quantity.
pub reached_gate-IsDone :
    (platform : Platform) (s : Store)
    → Reachable platform s
    → can_submit_source s.state ≡ true
    → All IsDone (values s.state.hedge_intents)
reached_gate-IsDone platform s r g =
    all-IsDone (values s.state.hedge_intents) (Reachable-IsSound platform s r).memory.valid
      (gate_open s.state g)
