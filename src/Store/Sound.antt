-- ===== src/Store/Sound.antt =====
-- A sound state of `JsonStateStore`: intents stand under their own ids, and each passes the checks
-- of its constructor. The actions that keep a state sound compose.
pub mod Quiet
pub mod Operations
pub mod Preserved
pub mod Filed
pub mod Restart
pub mod History
pub mod Consequences
use arbi_nautilus.Base.{
  ◌≡◌, refl, sym, subst, inl, inr, Bool, true, false, String, Option, none, some, List, [], ◌∷◌,
  arith, lookup, insert, values, All, All-insert, All-lookup, Result, ok, err, Error, sync_error,
  Action, pure, raise_if, lift, gets, ◌>>=◌, ◌>>◌, if◌then◌else◌, Bool-cases, ◌==◌, string_eq,
}
use text.Mathlib.TextEquality.{eq_iff}
use arbi_nautilus.Durability.{DiskCalls, persist_payload}
use arbi_nautilus.Models.{HedgeIntent}
use arbi_nautilus.Models.Checks.{check_intent, intent_is_valid}
use arbi_nautilus.Store.{
  StoreState, Store, Hook, persist, transaction, restore, call_hook, update_state,
}
use arbi_nautilus.Store.Keyed.{Keyed, insert-Keyed}
use arbi_nautilus.Store.Lookup.{put_intent}

abbrev pub IsValidIntent : HedgeIntent → Type 0
IsValidIntent i = intent_is_valid i ≡ true

pub record Sound (s : StoreState) : Type 0 where
  pub keyed : Keyed s.hedge_intents
  pub valid : All IsValidIntent (values s.hedge_intents)

-- An intent that is found stands under its own id.
pub lookup-Keyed :
    (k : String) (i : HedgeIntent) (s : StoreState)
    → Sound s
    → lookup k s.hedge_intents ≡ some i
    → i.intent_id ≡ k
lookup-Keyed k i s h e = go s.hedge_intents h.keyed e
  where
    go : (d : List (String × HedgeIntent)) → Keyed d → lookup k d ≡ some i → i.intent_id ≡ k
    go [] h e = absurd (ground arith)
    go ((j, w) ∷ d) h e = ground (arith, eq_iff j k, go d h.2)

-- A change of the other fields.
pub same-Sound : (s t : StoreState) → t.hedge_intents ≡ s.hedge_intents → Sound s → Sound t
same-Sound s t e h = record { keyed = rw e h.keyed; valid = rw e h.valid }

pub insert-Sound :
    (i : HedgeIntent) (s : StoreState)
    → IsValidIntent i
    → Sound s
    → Sound (record s { hedge_intents = insert i.intent_id i s.hedge_intents })
insert-Sound i s v h = record {
  keyed = insert-Keyed i.intent_id i s.hedge_intents refl h.keyed;
  valid = All-insert IsValidIntent i.intent_id i s.hedge_intents v h.valid;
}

-- An action after which a sound state is sound, however it ended.
abbrev pub Keeps : {A : Type 0} → Action Store A → Type 0
Keeps m = (s : Store) → Sound s.state → Sound (m s).1.state

module _ {A : Type 0} where
  pub pure-Keeps : (a : A) → Keeps (pure {S = Store} a)
  pure-Keeps a s h = h

  pub bind-Keeps :
      {B : Type 0} (m : Action Store A) (k : A → Action Store B)
      → Keeps m
      → ((a : A) → Keeps (k a))
      → Keeps (m >>= k)
  bind-Keeps {B} m k hm hk s h = go (m s) (hm s h)
    where
      go :
          (p : Result A × Store)
          → Sound p.1.state
          → Sound
              (elim p.0 as (λ _. Result B × Store) [
                | ok a ↦ k a p.1
                | err e ↦ (err e, p.1)
              ]).1.state
      go (ok a, t) h = hk a t h
      go (err e, t) h = h

  pub transaction-Keeps : (m : Action Store A) → Keeps m → Keeps (transaction m)
  unfolding transaction
  transaction-Keeps m hm s h = go (m s) (hm s h)
    where
      go : (p : Result A × Store) → Sound p.1.state → Sound (restore s.state p).1.state
      go (ok a, t) k = k
      go (err e, t) k = ground (arith, k, h)

pub persist-Keeps : (disk : DiskCalls) → Keeps (persist disk)
unfolding persist
persist-Keeps disk s h = go (persist_payload disk).1
  where
    go : (b : Bool) → Sound (if b then record s { file = some s.state } else s).state
    go true = h
    go false = h

pub hook-Keeps : (hook : Hook) → Keeps (call_hook hook)
hook-Keeps hook s h = h

-- A change of fields other than the intents.
pub update-Keeps :
    (f : StoreState → StoreState)
    → ((s : StoreState) → (f s).hedge_intents ≡ s.hedge_intents)
    → Keeps (update_state f)
update-Keeps f same s h = same-Sound s.state (f s.state) (same s.state) h

-- An intent is rewritten under its own id, through the constructor.
pub put_intent-Keeps : (id : String) (i : HedgeIntent) → i.intent_id ≡ id → Keeps (put_intent id i)
unfolding put_intent check_intent
put_intent-Keeps id i e s h = elim (Bool-cases (intent_is_valid i)) [
  | inl valid ↦ rw (valid, sym e) (insert-Sound i s.state valid h)
  | inr invalid ↦ rw invalid h
]
