-- ===== src/Coordinator/Blocked.antt =====
-- What a failed plan leaves of the intent.
use arbi_nautilus.Base.{
  ◌≡◌, ◌≢◌, refl, sym, subst, ◌∙◌, ap, inl, inr, ◌⊎◌, true, false, String, some, arith, lookup,
  lookup-insert, is_some, nat_eq, list_eq, string_eq, ok, err, planning_error, bind-ok,
  Result-cases, Bool-cases, Action, ◌>>=◌, ◌>>◌,
}
use text.Mathlib.TextPositions.{eq_refl}
use arbi_nautilus.Durability.{DiskCalls}
use arbi_nautilus.Models.{HedgeIntent, blocked, is_completed, is_blocked, leg_eq}
use arbi_nautilus.Models.Checks.{check_intent}
use arbi_nautilus.Store.{Store, persist}
use arbi_nautilus.Store.Custody.{persist_cases}
use arbi_nautilus.Store.Lookup.{get_intent, put_intent}
use arbi_nautilus.Store.Hedges.{set_blocked, block_hedge_intent}
use arbi_nautilus.Coordinator.{block_unless_completed, block_or_leave}
use arbi_nautilus.Coordinator.Legs.{persist-ok, get_intent-ok}

-- After a failed plan the intent is completed, or it is blocked and the store halted.
abbrev pub IsBlocked : String → Store → Type 0
IsBlocked id s' =
    (p : HedgeIntent) × (lookup id s'.state.hedge_intents ≡ some p)
    × ((is_completed p.status ≡ true)
        ⊎ ((is_blocked p.status ≡ true) × (is_some s'.state.halt_reason ≡ true)))

set_blocked-ok :
    (id reason : String) (i : HedgeIntent) (s : Store)
    → (set_blocked id reason i s).0 ≡ ok tt
    → (lookup id (set_blocked id reason i s).1.state.hedge_intents
        ≡ some (record i { status = blocked }))
      × (is_some (set_blocked id reason i s).1.state.halt_reason ≡ true)
unfolding put_intent check_intent
set_blocked-ok id reason i s e =
    ground
      (arith, lookup-insert id id (record i { status = blocked }) s.state.hedge_intents, eq_refl id)

block_hedge_intent-ok :
    (disk : DiskCalls) (id reason : String) (s : Store)
    → (block_hedge_intent disk id reason s).0 ≡ ok tt
    → IsBlocked id (block_hedge_intent disk id reason s).1
unfolding block_hedge_intent
block_hedge_intent-ok disk id reason s e =
    let (i, got, rest, last) =
      bind-ok (get_intent id) (λ i. set_blocked id reason i >> persist disk) s tt e in
    let s0 = (get_intent id s).1 in
    let (_, blocking, written, last') =
      bind-ok (set_blocked id reason i) (λ _. persist disk) s0 tt rest in
    let s1 = (set_blocked id reason i s0).1 in
    let done = set_blocked-ok id reason i s0 blocking in
    let kept = (persist-ok disk s1 written).0 in
    subst (IsBlocked id) (sym (last ∙ last')) (
      record i { status = blocked },
      ap (λ t. lookup id t.hedge_intents) kept ∙ done.0,
      inr (refl, ap (λ t. is_some t.halt_reason) kept ∙ done.1),
    )

pub block_unless_completed-ok :
    (disk : DiskCalls) (id reason : String) (s : Store)
    → (block_unless_completed disk id reason s).0 ≡ ok tt
    → IsBlocked id (block_unless_completed disk id reason s).1
unfolding block_unless_completed
block_unless_completed-ok disk id reason s e =
    let (i, got, rest, last) = bind-ok (get_intent id) (block_or_leave disk id reason) s tt e in
    let (found, same) = get_intent-ok id i s got in
    subst (IsBlocked id) (sym (last ∙ ap (λ t. (block_or_leave disk id reason i t).1) same))
      (by_status i s found (ap (λ t. (block_or_leave disk id reason i t).0) (sym same) ∙ rest))
  where
    left :
        (i : HedgeIntent) (t : Store)
        → is_completed i.status ≡ true
        → block_or_leave disk id reason i t ≡ (ok tt, t)
    left i t done = rw done refl

    blocks :
        (i : HedgeIntent) (t : Store)
        → is_completed i.status ≡ false
        → block_or_leave disk id reason i t ≡ block_hedge_intent disk id reason t
    blocks i t going = rw going refl

    by_status :
        (i : HedgeIntent) (t : Store)
        → lookup id t.state.hedge_intents ≡ some i
        → (block_or_leave disk id reason i t).0 ≡ ok tt
        → IsBlocked id (block_or_leave disk id reason i t).1
    by_status i t found h = elim (Bool-cases (is_completed i.status)) [
      | inl done ↦ subst (λ q. IsBlocked id q.1) (sym (left i t done)) (i, found, inl done)
      | inr going ↦
          subst (λ q. IsBlocked id q.1) (sym (blocks i t going))
            (block_hedge_intent-ok disk id reason t (sym (ap (λ q. q.0) (blocks i t going)) ∙ h))
    ]

-- An action that does not raise the planner's error.
abbrev NotPlanning : {A : Type 0} → Action Store A → Type 0
NotPlanning m = (s : Store) → (m s).0 ≢ err planning_error

bind-NotPlanning :
    {A B : Type 0} (m : Action Store A) (k : A → Action Store B)
    → NotPlanning m
    → ((a : A) → NotPlanning (k a))
    → NotPlanning (m >>= k)
bind-NotPlanning m k h g s bad = elim (Result-cases (m s).0) [
  | inl (x, failed) ↦ h s (failed ∙ ground (arith, bad))
  | inr (a, done) ↦ g a (m s).1 (ground (arith, bad))
]

get_intent-NotPlanning : (id : String) → NotPlanning (get_intent id)
get_intent-NotPlanning id s = ground arith

set_blocked-NotPlanning :
    (id reason : String) (i : HedgeIntent) → NotPlanning (set_blocked id reason i)
unfolding put_intent check_intent
set_blocked-NotPlanning id reason i s = ground arith

persist-NotPlanning : (disk : DiskCalls) → NotPlanning (persist disk)
persist-NotPlanning disk s = ground (arith, persist_cases disk s)

block_hedge_intent-NotPlanning :
    (disk : DiskCalls) (id reason : String) → NotPlanning (block_hedge_intent disk id reason)
unfolding block_hedge_intent
block_hedge_intent-NotPlanning disk id reason =
    bind-NotPlanning (get_intent id) (λ i. set_blocked id reason i >> persist disk)
      (get_intent-NotPlanning id)
      (λ i.
        bind-NotPlanning (set_blocked id reason i) (λ _. persist disk)
          (set_blocked-NotPlanning id reason i) (λ _. persist-NotPlanning disk))

block_or_leave-NotPlanning :
    (disk : DiskCalls) (id reason : String) (i : HedgeIntent)
    → NotPlanning (block_or_leave disk id reason i)
block_or_leave-NotPlanning disk id reason i s bad =
    block_hedge_intent-NotPlanning disk id reason s (ground (arith, bad))

pub block_unless_completed-NotPlanning :
    (disk : DiskCalls) (id reason : String) → NotPlanning (block_unless_completed disk id reason)
unfolding block_unless_completed
block_unless_completed-NotPlanning disk id reason =
    bind-NotPlanning (get_intent id) (block_or_leave disk id reason) (get_intent-NotPlanning id)
      (block_or_leave-NotPlanning disk id reason)
