-- ===== src/Models/Checks.antt =====
-- The checks of the record constructors (`__post_init__`) in src/py000_nautilus/models.py. An
-- `isinstance` test, and finiteness, hold by the types of the model.
use Prim.Native.Char.{code}
use arbi_nautilus.Base.{
  ℕ, suc, ◌+◌, Bool, true, false, not, ◌&&◌, ◌||◌, ℤ, pos, leb_ℤ, ltb_ℤ, String, Option, none, some,
  List, [], ◌∷◌, ◌==◌, nat_eq, int_eq, string_eq, option_eq, is_some, is_none, length, get_elem?,
  take, all, keep, leb, ltb, if◌then◌else◌, Result, ok, err, value_error, type_error, member,
}
use arbi_nautilus.Models.{
  BusinessOrderSide, HedgeLeg, RejectedHedgeAttempt, HedgeIntent, side_eq, is_completed, is_blocked,
  sum_legs,
}

-- `"|" in text`
abbrev pub has_bar : String → Bool
has_bar String.[] = false
has_bar (String.◌∷◌ c s) = code c == b'|' || has_bar s

abbrev pub is_empty : String → Bool
is_empty s = s == ""

-- `len(set(ids)) == len(ids)`
abbrev pub distinct : List String → Bool
distinct [] = true
distinct (a ∷ ids) = not (member a ids) && distinct ids

-- `ids.index(cid)`, which is only asked of a member.
abbrev pub index_of : String → List String → ℕ
index_of a [] = 0
index_of a (b ∷ ids) = if b == a then 0 else suc (index_of a ids)

-- The four tests that a close leg adds, in the source's order.
abbrev check_close : HedgeLeg → String → Option BusinessOrderSide → Option ℤ → Result HedgeLeg
check_close leg id none quantity = if is_empty id then err value_error else err type_error
check_close leg id (some side) none = err value_error
check_close leg id (some side) (some quantity) =
    if is_empty id
    then err value_error
    else if leb_ℤ quantity (pos 0)
    then err value_error
    else if side == leg.side
    then err value_error
    else if ltb_ℤ quantity leg.quantity_ounces
    then err value_error
    else ok leg

abbrev check_target : HedgeLeg → Option String → Result HedgeLeg
check_target leg none =
    if is_some leg.expected_position_side
    then err value_error
    else if is_some leg.expected_position_quantity_ounces
    then err value_error
    else ok leg
check_target leg (some id) =
    check_close leg id leg.expected_position_side leg.expected_position_quantity_ounces

-- `HedgeLeg(...)`
unfoldable pub check_leg : HedgeLeg → Result HedgeLeg
check_leg leg =
    if leb_ℤ leg.quantity_ounces (pos 0) then err value_error else check_target leg leg.position_id

-- `RejectedHedgeAttempt(...)`; the index is a natural number.
unfoldable pub check_attempt : RejectedHedgeAttempt → Result RejectedHedgeAttempt
check_attempt attempt =
    if is_empty attempt.client_order_id || has_bar attempt.client_order_id
    then err value_error
    else ok attempt

-- One order per planned leg: the history without the rejected order.
unfoldable pub hedge_leg_order_ids : HedgeIntent → List String
hedge_leg_order_ids i = elim i.rejected_attempt [
  | none ↦ i.hedge_order_ids
  | some attempt ↦ keep (λ cid. not (cid == attempt.client_order_id)) i.hedge_order_ids
]

-- The quantities, the index and the order history.
abbrev pub quantities_are_valid : HedgeIntent → Bool
quantities_are_valid i =
    not (is_none i.hedge_position_id && is_some i.hedge_position_quantity_ounces)
    && (elim i.hedge_position_quantity_ounces [ none ↦ true | some q ↦ ltb_ℤ (pos 0) q ]
        && (ltb_ℤ (pos 0) i.hedge_quantity_ounces
            && (leb_ℤ (pos 0) i.hedge_filled_ounces
                && (leb i.hedge_leg_index (length i.hedge_plan)
                    && (leb_ℤ (pos 0) i.hedge_leg_filled_ounces
                        && (all (λ cid. not (is_empty cid)) i.hedge_order_ids
                            && distinct i.hedge_order_ids))))))

-- The archived rejection fits the plan, and the later history fits the leg index.
abbrev attempt_fits : HedgeIntent → RejectedHedgeAttempt → Bool
attempt_fits i attempt =
    not (length i.hedge_plan == 0)
    && (member attempt.client_order_id i.hedge_order_ids
        && (ltb attempt.leg_index (length i.hedge_plan)
            && (index_of attempt.client_order_id i.hedge_order_ids == attempt.leg_index
                && (leb attempt.leg_index i.hedge_leg_index
                    && not (i.hedge_client_order_id == some attempt.client_order_id)))))

abbrev later_history_fits : HedgeIntent → Bool
later_history_fits i =
    length (hedge_leg_order_ids i)
      == i.hedge_leg_index + (if is_some i.hedge_client_order_id then 1 else 0)
    && (is_none i.hedge_client_order_id
        || (not (i.hedge_leg_index == length i.hedge_plan)
            && (i.hedge_client_order_id == get_elem? (hedge_leg_order_ids i) i.hedge_leg_index)))

abbrev pub attempt_is_valid : HedgeIntent → Bool
attempt_is_valid i = elim i.rejected_attempt [
  | none ↦ true
  | some attempt ↦ attempt_fits i attempt && later_history_fits i
]

-- The quantity of the leg at an index, for a test `filled >= plan[index].quantity`.
abbrev reaches_leg : ℤ → Option HedgeLeg → Bool
reaches_leg filled none = false
reaches_leg filled (some leg) = leb_ℤ leg.quantity_ounces filled

-- What a bound plan asks of the progress through its legs.
abbrev pub plan_is_valid : HedgeIntent → Bool
plan_is_valid i =
    all (λ leg. leg.side == i.hedge_side) i.hedge_plan
    && (sum_legs (pos 0) i.hedge_plan == i.hedge_quantity_ounces
        && ((if i.hedge_leg_index == length i.hedge_plan
              then i.hedge_leg_filled_ounces == pos 0
              else is_blocked i.status
                || not (
                    reaches_leg i.hedge_leg_filled_ounces
                      (get_elem? i.hedge_plan i.hedge_leg_index)))
            && ((is_blocked i.status
                  || (i.hedge_filled_ounces
                      == sum_legs i.hedge_leg_filled_ounces (take i.hedge_leg_index i.hedge_plan)))
                && (not (is_completed i.status)
                    || (i.hedge_leg_index == length i.hedge_plan
                        && (i.hedge_filled_ounces == i.hedge_quantity_ounces))))))

abbrev pub unplanned_is_valid : HedgeIntent → Bool
unplanned_is_valid i = i.hedge_leg_index == 0 && (i.hedge_leg_filled_ounces == pos 0)

unfoldable pub intent_is_valid : HedgeIntent → Bool
intent_is_valid i =
    quantities_are_valid i
    && (attempt_is_valid i
        && (if length i.hedge_plan == 0 then unplanned_is_valid i else plan_is_valid i))

-- `HedgeIntent(...)`, also through `replace`.
unfoldable pub check_intent : HedgeIntent → Result HedgeIntent
check_intent i = if intent_is_valid i then ok i else err value_error
