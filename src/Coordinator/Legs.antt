-- ===== src/Coordinator/Legs.antt =====
-- The legs that a coordinator hands out come from a plan that is bound.
use arbi_nautilus.Base.{
  ◌≡◌, refl, sym, subst, ◌∙◌, ap, inl, inr, ◌⊎◌, String, some, List, arith, lookup, lookup-insert,
  length, get_elem?, ◌==◌, nat_eq, list_eq, string_eq, Result, ok, value_error, bind-ok,
  Result-cases, Bool-cases, Option-cases, pure, raise, raise_if, lift, ◌>>=◌, ◌>>◌,
}
use text.Mathlib.TextPositions.{eq_refl}
use arbi_nautilus.Durability.{DiskCalls}
use arbi_nautilus.Models.{HedgeIntent, HedgeLeg, leg_eq}
use arbi_nautilus.Models.Checks.{check_intent}
use arbi_nautilus.Store.{Store, persist}
use arbi_nautilus.Store.Custody.{persist_cases, InSync}
use arbi_nautilus.Store.Lookup.{get_intent, put_intent}
use arbi_nautilus.Store.Hedges.{
  bind_hedge_plan, plan_intent, first_plan, with_plan, plan_does_not_fit,
}
use arbi_nautilus.Hedge.{Position, validate_hedge_leg}
use arbi_nautilus.Coordinator.{
  planned_intent, bind_planned, remaining_plan, checked_leg, validate_bound_exit,
}

put_intent-ok :
    (id : String) (i p : HedgeIntent) (s : Store)
    → (put_intent id i s).0 ≡ ok p
    → (lookup id (put_intent id i s).1.state.hedge_intents ≡ some p) × (p ≡ i)
unfolding put_intent check_intent
put_intent-ok id i p s e = ground (arith, lookup-insert id id i s.state.hedge_intents, eq_refl id)

pub persist-ok :
    (disk : DiskCalls) (s : Store)
    → (persist disk s).0 ≡ ok tt
    → ((persist disk s).1.state ≡ s.state) × InSync (persist disk s).1
persist-ok disk s e = ground (arith, persist_cases disk s)

-- The store knows the intent, and it is as it was, or in step with the file.
abbrev pub Holds : String → HedgeIntent → Store → Store → Type 0
Holds id p s s' = (lookup id s'.state.hedge_intents ≡ some p) × ((s' ≡ s) ⊎ InSync s')

-- A new plan is written before it is returned.
put_and_persist-ok :
    (disk : DiskCalls) (id : String) (i p : HedgeIntent) (s : Store)
    → let m = put_intent id i >>= (λ planned. persist disk >> pure planned) in
      (m s).0 ≡ ok p → (lookup id (m s).1.state.hedge_intents ≡ some p) × InSync (m s).1
put_and_persist-ok disk id i p s e =
    let (a, stored, rest, last) =
      bind-ok (put_intent id i) (λ planned. persist disk >> pure planned) s p e in
    let s1 = (put_intent id i s).1 in
    let (_, written, returned, last') = bind-ok (persist disk) (λ _. pure a) s1 p rest in
    let kept = persist-ok disk s1 written in
    let found = (put_intent-ok id i a s stored).0 in
    subst (λ t. (lookup id t.state.hedge_intents ≡ some p) × InSync t) (sym (last ∙ last'))
      (ap (λ t. lookup id t.hedge_intents) kept.0 ∙ found ∙ ground (arith, returned), kept.1)

pub get_intent-ok :
    (id : String) (i : HedgeIntent) (s : Store)
    → (get_intent id s).0 ≡ ok i
    → (lookup id s.state.hedge_intents ≡ some i) × ((get_intent id s).1 ≡ s)
get_intent-ok id i s e = ground arith

first_plan-ok :
    (disk : DiskCalls) (id : String) (plan : List HedgeLeg) (i p : HedgeIntent) (s : Store)
    → (first_plan disk id plan i s).0 ≡ ok p
    → Holds id p s (first_plan disk id plan i s).1
first_plan-ok disk id plan i p s e =
    let write = put_intent id (with_plan plan i) >>= (λ planned. persist disk >> pure planned) in
    let (_, fits, rest, last) =
      bind-ok (raise_if (plan_does_not_fit i plan) value_error) (λ _. write) s p e in
    let s1 = (raise_if (plan_does_not_fit i plan) value_error s).1 in
    let done = put_and_persist-ok disk id (with_plan plan i) p s1 rest in
    subst (Holds id p s) (sym last) (done.0, inr done.1)

plan_intent-ok :
    (disk : DiskCalls) (id : String) (plan : List HedgeLeg) (i p : HedgeIntent) (s : Store)
    → lookup id s.state.hedge_intents ≡ some i
    → (plan_intent disk id plan i s).0 ≡ ok p
    → Holds id p s (plan_intent disk id plan i s).1
plan_intent-ok disk id plan i p s found e = elim (Bool-cases (length i.hedge_plan == 0)) [
  | inl unplanned ↦
      by_equation (first_plan disk id plan i s) (rw unplanned refl)
        (first_plan-ok disk id plan i p s)
  | inr planned ↦ elim (Bool-cases (i.hedge_plan == plan)) [
    | inl same ↦
        by_equation (pure i s) (rw (planned, same) refl)
          (λ same_intent. (found ∙ ground (arith, same_intent), inl refl))
    | inr other ↦
        by_equation (raise value_error s) (rw (planned, other) refl)
          (λ bad. absurd (ground (arith, bad)))
  ]
]
  where
    by_equation :
        (r : Result HedgeIntent × Store)
        → plan_intent disk id plan i s ≡ r
        → (r.0 ≡ ok p → Holds id p s r.1)
        → Holds id p s (plan_intent disk id plan i s).1
    by_equation r eq h = subst (λ q. Holds id p s q.1) (sym eq) (h (sym (ap (λ q. q.0) eq) ∙ e))

bind_hedge_plan-ok :
    (disk : DiskCalls) (id : String) (plan : List HedgeLeg) (p : HedgeIntent) (s : Store)
    → (bind_hedge_plan disk id plan s).0 ≡ ok p
    → Holds id p s (bind_hedge_plan disk id plan s).1
unfolding bind_hedge_plan
bind_hedge_plan-ok disk id plan p s e =
    let (i, got, rest, last) = bind-ok (get_intent id) (plan_intent disk id plan) s p e in
    let (found, same) = get_intent-ok id i s got in
    subst (Holds id p s) (sym (last ∙ ap (λ t. (plan_intent disk id plan i t).1) same)) (
      plan_intent-ok disk id plan i p s found
        (ap (λ t. (plan_intent disk id plan i t).0) (sym same) ∙ rest))

pub checked_leg-ok :
    (positions : List Position) (p : HedgeIntent) (leg : HedgeLeg) (s : Store)
    → (checked_leg positions p s).0 ≡ ok leg
    → (get_elem? p.hedge_plan p.hedge_leg_index ≡ some leg)
      × (validate_hedge_leg leg positions ≡ ok tt)
      × ((checked_leg positions p s).1 ≡ s)
unfolding checked_leg
checked_leg-ok positions p leg s e =
    elim (Option-cases (get_elem? p.hedge_plan p.hedge_leg_index)) [
      | inl missing ↦ absurd (ground arith)
      | inr (l, found) ↦ elim (Result-cases (validate_hedge_leg l positions)) [
        | inl (x, failed) ↦ absurd (ground arith)
        | inr (_, passed) ↦ ground arith
      ]
    ]

pub planned_intent-ok :
    (disk : DiskCalls) (positions : List Position) (i p : HedgeIntent) (s : Store)
    → lookup i.intent_id s.state.hedge_intents ≡ some i
    → (planned_intent disk positions i s).0 ≡ ok p
    → Holds i.intent_id p s (planned_intent disk positions i s).1
planned_intent-ok disk positions i p s found e = elim (Bool-cases (length i.hedge_plan == 0)) [
  | inl unplanned ↦
      by_equation ((lift (remaining_plan positions i) >>= bind_planned disk i) s)
        (rw unplanned refl) fresh
  | inr planned ↦
      by_equation (pure i s) (rw planned refl) (λ same. (found ∙ ground (arith, same), inl refl))
]
  where
    by_equation :
        (r : Result HedgeIntent × Store)
        → planned_intent disk positions i s ≡ r
        → (r.0 ≡ ok p → Holds i.intent_id p s r.1)
        → Holds i.intent_id p s (planned_intent disk positions i s).1
    by_equation r eq h =
        subst (λ q. Holds i.intent_id p s q.1) (sym eq) (h (sym (ap (λ q. q.0) eq) ∙ e))

    fresh :
        ((lift (remaining_plan positions i) >>= bind_planned disk i) s).0 ≡ ok p
        → Holds i.intent_id p s ((lift (remaining_plan positions i) >>= bind_planned disk i) s).1
    fresh h =
        let (plan, made, rest, last) =
          bind-ok (lift (remaining_plan positions i)) (bind_planned disk i) s p h in
        let (_, fits, bound, last') =
          bind-ok (lift (validate_bound_exit i plan)) (λ _. bind_hedge_plan disk i.intent_id plan) s
            p rest in
        subst (Holds i.intent_id p s) (sym (last ∙ last'))
          (bind_hedge_plan-ok disk i.intent_id plan p s bound)

-- A leg that may be sent: it is the next one of the intent that the store holds, it fits the tickets,
-- and its plan was bound before, or is in the file now.
abbrev pub IsNextLeg : List Position → String → HedgeLeg → Store → Store → Type 0
IsNextLeg positions id leg s s' =
    (p : HedgeIntent) × Holds id p s s'
    × (get_elem? p.hedge_plan p.hedge_leg_index ≡ some leg)
    × (validate_hedge_leg leg positions ≡ ok tt)
