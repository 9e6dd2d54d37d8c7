-- ===== src/Projection/Hedge/Run.antt =====
-- The loop over the missing fills in src/py000_nautilus/hedge_projection.py: what it takes, and what it
-- leaves alone.
use arbi_nautilus.Base.{
  member, All, ◌≡◌, ◌≢◌, refl, ◌∙◌, Bool, true, String, some, List, [], ◌∷◌, Result, ok, err,
  sync_error,
}
use arbi_nautilus.Store.{Store, Platform}
use arbi_nautilus.Store.Keyed.{Keyed}
use arbi_nautilus.Store.HedgeFill.{HedgeFill, hedge_fill_key, apply_fill}
use arbi_nautilus.Projection.Hedge.Live.{has_live, apply-key, apply-seen}
use arbi_nautilus.Projection.Hedge.Kept.{
  IsAfter, LegsKept, apply-IsAfter, apply-not-sync, apply-Puts, Puts-Keyed, Puts-LegsKept,
  Puts-live,
}
use arbi_nautilus.Projection.Hedge.Write.{take_hedges}

-- From one store to a later one: what the loop leaves alone, the intents' legs and orders included.
pub record Kept (s t : Store) : Type 0 where
  pub after : IsAfter s t
  pub legs : LegsKept s.state t.state
  pub keyed : Keyed t.state.hedge_intents
  pub live :
      (cid : String) → has_live cid t.state.hedge_intents ≡ has_live cid s.state.hedge_intents
  pub seen :
      (k : String)
      → member k s.state.seen_hedge_fills ≡ true
      → member k t.state.seen_hedge_fills ≡ true

Kept-trans : (s t u : Store) → Kept s t → Kept t u → Kept s u
Kept-trans s t u a b = record {
  after = record {
    kept = record {
      orders = b.after.kept.orders ∙ a.after.kept.orders;
      active = b.after.kept.active ∙ a.after.kept.active;
      fills = b.after.kept.fills ∙ a.after.kept.fills;
      residual = b.after.kept.residual ∙ a.after.kept.residual;
    };
    halt = λ h. b.after.halt (a.after.halt h);
    freeze = b.after.freeze ∙ a.after.freeze;
    file = b.after.file ∙ a.after.file;
  };
  legs = λ id. b.legs id ∙ a.legs id;
  keyed = b.keyed;
  live = λ cid. b.live cid ∙ a.live cid;
  seen = λ k h. b.seen k (a.seen k h);
}

Kept-refl : (s : Store) → Keyed s.state.hedge_intents → Kept s s
Kept-refl s keyed = record {
  after = record {
    kept = record { orders = refl; active = refl; fills = refl; residual = refl };
    halt = λ h. h;
    freeze = refl;
    file = refl;
  };
  legs = λ id. refl;
  keyed = keyed;
  live = λ cid. refl;
  seen = λ k h. h;
}

-- Every fill of an order that an intent had at first is seen at last.
abbrev pub AllTaken : List HedgeFill → Store → Store → Type 0
AllTaken fills s t =
    All
      (λ f.
        has_live f.client_order_id s.state.hedge_intents ≡ true
        → member (hedge_fill_key f) t.state.seen_hedge_fills ≡ true)
      fills

AllTaken-before :
    (fills : List HedgeFill) (s t u : Store) → Kept s t → AllTaken fills t u → AllTaken fills s u
AllTaken-before [] s t u kept h = tt
AllTaken-before (f ∷ fills) s t u kept h =
    (λ live. h.0 (kept.live f.client_order_id ∙ live), AllTaken-before fills s t u kept h.1)

-- How the loop over the missing fills ended.
abbrev pub Ran : List HedgeFill → Store → Result (Unit {0}) × Store → Type 0
Ran fills s (ok _, t) = Kept s t × AllTaken fills s t
Ran fills s (err e, t) = Kept s t × (e ≢ sync_error)

module _ (platform : Platform) (reason : String) where
  abbrev rest_of : List HedgeFill → Result Bool × Store → Result (Unit {0}) × Store
  rest_of fills p = elim (p.0) [
    | ok changed ↦ take_hedges platform reason fills p.1
    | err e ↦ (err e, p.1)
  ]

  take_one :
      (f : HedgeFill) (s : Store)
      → Keyed s.state.hedge_intents
      → Kept s (apply_fill platform f (some reason) s).1
  take_one f s keyed =
      let t = (apply_fill platform f (some reason) s).1 in
      let puts = apply-Puts platform reason f s keyed in
      record {
        after = apply-IsAfter platform reason f s;
        legs = Puts-LegsKept s t puts;
        keyed = Puts-Keyed s t puts keyed;
        live = Puts-live s t puts;
        seen = apply-seen platform reason f s;
      }

  -- The rest of the loop after one fill, by how the rest ended.
  then_rest :
      (f : HedgeFill) (fills : List HedgeFill) (s t : Store) (q : Result (Unit {0}) × Store)
      → Kept s t
      → (has_live f.client_order_id s.state.hedge_intents ≡ true
          → member (hedge_fill_key f) t.state.seen_hedge_fills ≡ true)
      → Ran fills t q
      → Ran (f ∷ fills) s q
  then_rest f fills s t (ok _, u) kept taken (later, all_taken) = (
    Kept-trans s t u kept later,
    (
      λ live. later.seen (hedge_fill_key f) (taken live),
      AllTaken-before fills s t u kept all_taken,
    ),
  )
  then_rest f fills s t (err e, u) kept taken (later, other) = (Kept-trans s t u kept later, other)

  after_one :
      (f : HedgeFill) (fills : List HedgeFill) (s : Store) (p : Result Bool × Store)
      → Kept s p.1
      → p.0 ≢ err sync_error
      → ((b : Bool)
          → has_live f.client_order_id s.state.hedge_intents ≡ true
          → p.0 ≡ ok b
          → member (hedge_fill_key f) p.1.state.seen_hedge_fills ≡ true)
      → ((t : Store)
          → Keyed t.state.hedge_intents
          → Ran fills t (take_hedges platform reason fills t))
      → Ran (f ∷ fills) s (rest_of fills p)
  after_one f fills s (ok changed, t) kept other taken rest =
      then_rest f fills s t (take_hedges platform reason fills t) kept
        (λ live. taken changed live refl) (rest t kept.keyed)
  after_one f fills s (err e, t) kept other taken rest = (kept, λ same. other (rw same refl))

  pub take_hedges-Ran :
      (fills : List HedgeFill) (s : Store)
      → Keyed s.state.hedge_intents
      → Ran fills s (take_hedges platform reason fills s)
  unfolding take_hedges
  take_hedges-Ran [] s keyed = (Kept-refl s keyed, tt)
  take_hedges-Ran (f ∷ fills) s keyed =
      after_one f fills s (apply_fill platform f (some reason) s) (take_one f s keyed)
        (apply-not-sync platform reason f s) (apply-key platform reason f s) (take_hedges-Ran fills)
