-- ===== src/Coordinator/Handed.antt =====
-- Every end of `next_hedge_leg`.
use arbi_nautilus.Base.{
  ◌≡◌, refl, sym, subst, ◌∙◌, ap, inl, inr, Bool, not, String, some, List, arith, lookup, nat_eq,
  list_eq, string_eq, Error, Result, ok, err, planning_error, value_error, lane_busy, bind-ok,
  bind_step, key_error, type_error, Result-cases, Bool-cases, Option-cases, Action, raise, raise_if,
  ◌>>=◌, ◌>>◌,
}
use arbi_nautilus.Durability.{DiskCalls}
use arbi_nautilus.Models.{HedgeIntent, HedgeLeg, leg_eq}
use arbi_nautilus.Store.{Store}
use arbi_nautilus.Store.Sound.{Sound, lookup-Keyed}
use arbi_nautilus.Store.Lookup.{get_intent}
use arbi_nautilus.Hedge.{Position}
use arbi_nautilus.Coordinator.{
  planned_intent, checked_leg, on_failure, block_unless_completed, guarded_leg, next_hedge_leg,
}
use arbi_nautilus.Coordinator.Legs.{planned_intent-ok, checked_leg-ok, Holds, IsNextLeg}
use arbi_nautilus.Coordinator.Blocked.{
  IsBlocked, block_unless_completed-ok, block_unless_completed-NotPlanning,
}

-- By how `next_hedge_leg` ended.
abbrev pub Handed : List Position → String → Store → Result HedgeLeg × Store → Type 0
Handed positions id s (ok leg, s') = IsNextLeg positions id leg s s'
Handed positions id s (err planning_error, s') = IsBlocked id s'
Handed positions id s (err e, s') = Unit

module _ (disk : DiskCalls) (message : Error → String) (positions : List Position) (id : String)
    (i : HedgeIntent) (s : Store) where
  abbrev attempt : Action Store HedgeLeg
  attempt = planned_intent disk positions i >>= checked_leg positions

  next_leg :
      (leg : HedgeLeg)
      → lookup i.intent_id s.state.hedge_intents ≡ some i
      → (attempt s).0 ≡ ok leg
      → IsNextLeg positions i.intent_id leg s (attempt s).1
  next_leg leg found e =
      let (p, planned, rest, last) =
        bind-ok (planned_intent disk positions i) (checked_leg positions) s leg e in
      let t = (planned_intent disk positions i s).1 in
      let (next, valid, same) = checked_leg-ok positions p leg t rest in
      (
        p,
        subst (Holds i.intent_id p s) (sym (last ∙ same))
            (planned_intent-ok disk positions i p s found planned),
        next,
        valid,
      )

  blocked_leg :
      (reason : String) (t : Store)
      → Handed positions id s ((do block_unless_completed disk id reason; raise planning_error) t)
  blocked_leg reason t = by_result (block_unless_completed disk id reason t) refl
    where
      by_result :
          (r : Result (Unit {0}) × Store)
          → block_unless_completed disk id reason t ≡ r
          → Handed positions id s ((do (λ _. r); raise planning_error) t)
      by_result (ok _, t') e =
          subst (λ q. IsBlocked id q.1) e
            (block_unless_completed-ok disk id reason t (ap (λ q. q.0) e))
      by_result (err planning_error, t') e =
          absurd (block_unless_completed-NotPlanning disk id reason t (ap (λ q. q.0) e))
      by_result (err x, t') e = tt

  failed_leg :
      (e : Error) (t : Store) → Handed positions id s (on_failure disk message id (err e, t))
  failed_leg planning_error t = blocked_leg (message planning_error) t
  failed_leg type_error t = blocked_leg (message type_error) t
  failed_leg value_error t = blocked_leg (message value_error) t
  failed_leg e t = tt

  guarded_leg-Handed :
      lookup id s.state.hedge_intents ≡ some i
      → i.intent_id ≡ id
      → Handed positions id s (guarded_leg disk message positions id i s)
  guarded_leg-Handed found own = elim (Result-cases (attempt s).0) [
    | inl (e, failed) ↦
        subst (λ r. Handed positions id s (on_failure disk message id (r, (attempt s).1)))
          (sym failed) (failed_leg e (attempt s).1)
    | inr (leg, done) ↦
        subst (λ r. Handed positions id s (on_failure disk message id (r, (attempt s).1)))
          (sym done)
          (subst (λ k. IsNextLeg positions k leg s (attempt s).1) own
            (next_leg leg (ap (λ k. lookup k s.state.hedge_intents) own ∙ found) done))
  ]

-- In a sound store, a leg that is returned is the next one of the intent's plan in the store, it
-- passes the check against the tickets at that moment, and the plan was bound before the call or is
-- in the file; where the call raises `HedgePlanningError` itself, not its subclass `HedgeLaneBusy`,
-- the intent is completed, or it is blocked and the store halted.
pub next_hedge_leg-Handed :
    (disk : DiskCalls) (message : Error → String) (ready : Bool) (positions : List Position)
    (id : String) (s : Store)
    → Sound s.state
    → Handed positions id s (next_hedge_leg disk message ready positions id s)
unfolding next_hedge_leg
next_hedge_leg-Handed disk message ready positions id s sound =
    elim (Option-cases (lookup id s.state.hedge_intents)) [
      | inl missing ↦
          subst (Handed positions id s)
            (sym (bind_step (get_intent id) body s s (err key_error) (ground (arith, missing)))) tt
      | inr (i, found) ↦
          subst (Handed positions id s)
            (sym (bind_step (get_intent id) body s s (ok i) (ground (arith, found))))
            (when_ready i found)
    ]
  where
    body : HedgeIntent → Action Store HedgeLeg
    body i = do raise_if (not ready) lane_busy; guarded_leg disk message positions id i

    when_ready :
        (i : HedgeIntent)
        → lookup id s.state.hedge_intents ≡ some i
        → Handed positions id s (body i s)
    when_ready i found = elim (Bool-cases ready) [
      | inl go ↦
          subst (Handed positions id s)
            (sym (
              bind_step (raise_if (not ready) lane_busy)
                (λ _. guarded_leg disk message positions id i) s s (ok tt) (rw go refl)))
            (guarded_leg-Handed disk message positions id i s found
              (lookup-Keyed id i s.state sound found))
      | inr busy ↦
          subst (Handed positions id s)
            (sym (
              bind_step (raise_if (not ready) lane_busy)
                (λ _. guarded_leg disk message positions id i) s s (err lane_busy) (rw busy refl)))
            tt
    ]
