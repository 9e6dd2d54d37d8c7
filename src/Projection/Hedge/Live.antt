-- ===== src/Projection/Hedge/Live.antt =====
-- The projection of src/py000_nautilus/hedge_projection.py takes every fill of an order that an intent has
-- now: the order stays the intent's through the whole loop.
use arbi_nautilus.Base.{
  ◌≡◌, refl, sym, ap, subst, ◌∙◌, inl, inr, Bool, true, false, not, ◌||◌, String, Option, none,
  some, [], ◌∷◌, arith, ok, Dict, lookup, insert, values, find, find_here, find_skip, member,
  member-add, string_eq, option_eq, ◌==◌, Bool-cases,
}
use text.Mathlib.TextPositions.{eq_refl}
use arbi_nautilus.Models.{HedgeIntent}
use arbi_nautilus.Models.Checks.{check_intent}
use arbi_nautilus.Store.{Store, Platform}
use arbi_nautilus.Store.Lookup.{
  intent_for_hedge_order, is_rejected_attempt, put_intent, hold_rejected_attempt,
}
use arbi_nautilus.Store.HedgeFill.{HedgeFill, hedge_fill_key, apply_fill, fill_intent, hold_fill}

abbrev is_for : String → HedgeIntent → Bool
is_for cid i = (i.hedge_client_order_id == some cid) || is_rejected_attempt i cid

abbrev is_live : String → Option HedgeIntent → Bool
is_live cid none = false
is_live cid (some i) = not (is_rejected_attempt i cid)

-- The order is one that an intent has now, not an archived rejection.
unfoldable pub has_live : String → Dict HedgeIntent → Bool
has_live cid intents = is_live cid (find (is_for cid) (values intents))

-- Two intents with the same order and the same archived rejection.
abbrev pub SameOrders : HedgeIntent → HedgeIntent → Type 0
SameOrders i j =
    (j.hedge_client_order_id ≡ i.hedge_client_order_id) × (j.rejected_attempt ≡ i.rejected_attempt)

is_for-same : (cid : String) (i j : HedgeIntent) → SameOrders i j → is_for cid j ≡ is_for cid i
is_for-same cid i j (same, archived) = rw (same, archived) refl

rejected_same :
    (cid : String) (i j : HedgeIntent)
    → SameOrders i j
    → is_rejected_attempt j cid ≡ is_rejected_attempt i cid
rejected_same cid i j (same, archived) = rw archived refl

module _ (cid l : String) (w : HedgeIntent) where
  live_here :
      (d : Dict HedgeIntent)
      → is_for cid w ≡ true
      → has_live cid ((l, w) ∷ d) ≡ not (is_rejected_attempt w cid)
  unfolding has_live
  live_here d h = ap (is_live cid) (find_here (is_for cid) w (values d) h)

  live_skip :
      (d : Dict HedgeIntent) → is_for cid w ≡ false → has_live cid ((l, w) ∷ d) ≡ has_live cid d
  unfolding has_live
  live_skip d h = ap (is_live cid) (find_skip (is_for cid) w (values d) h)

  live-tail :
      (d e : Dict HedgeIntent)
      → has_live cid d ≡ has_live cid e
      → has_live cid ((l, w) ∷ d) ≡ has_live cid ((l, w) ∷ e)
  live-tail d e h = elim (Bool-cases (is_for cid w)) [
    | inl yours ↦ live_here d yours ∙ sym (live_here e yours)
    | inr other ↦ live_skip d other ∙ h ∙ sym (live_skip e other)
  ]

live-head :
    (cid l : String) (i j : HedgeIntent) (d : Dict HedgeIntent)
    → SameOrders i j
    → has_live cid ((l, j) ∷ d) ≡ has_live cid ((l, i) ∷ d)
live-head cid l i j d alike = elim (Bool-cases (is_for cid i)) [
  | inl yours ↦
      live_here cid l j d (is_for-same cid i j alike ∙ yours)
      ∙ ap not (rejected_same cid i j alike)
      ∙ sym (live_here cid l i d yours)
  | inr other ↦
      live_skip cid l j d (is_for-same cid i j alike ∙ other) ∙ sym (live_skip cid l i d other)
]

-- An intent that is put in the place of one with the same orders changes no order's owner.
pub live-insert :
    (cid k : String) (i j : HedgeIntent) (d : Dict HedgeIntent)
    → SameOrders i j
    → lookup k d ≡ some i
    → has_live cid (insert k j d) ≡ has_live cid d
live-insert cid k i j [] alike at = absurd (ground arith)
live-insert cid k i j ((l, w) ∷ d) alike at = elim (Bool-cases (l == k)) [
  | inl same ↦
      let here : w ≡ i = ground arith in
      rw same (
        subst (λ v. has_live cid ((l, j) ∷ d) ≡ has_live cid ((l, v) ∷ d)) (sym here)
          (live-head cid l i j d alike))
  | inr other ↦
      let rest = live-insert cid k i j d alike (ground arith) in
      rw other (live-tail cid l w (insert k j d) d rest)
]

-- A positive fill that the loop took of such an order is seen.
pub apply-key :
    (platform : Platform) (reason : String) (f : HedgeFill) (s : Store) (b : Bool)
    → has_live f.client_order_id s.state.hedge_intents ≡ true
    → (apply_fill platform f (some reason) s).0 ≡ ok b
    → member (hedge_fill_key f) (apply_fill platform f (some reason) s).1.state.seen_hedge_fills
      ≡ true
unfolding has_live apply_fill fill_intent hold_fill put_intent check_intent intent_for_hedge_order
apply-key platform reason f s b live h = ground (
  arith,
  member-add (hedge_fill_key f) (hedge_fill_key f) s.state.seen_hedge_fills,
  eq_refl (hedge_fill_key f),
)

pub apply-seen :
    (platform : Platform) (reason : String) (f : HedgeFill) (s : Store) (k : String)
    → member k s.state.seen_hedge_fills ≡ true
    → member k (apply_fill platform f (some reason) s).1.state.seen_hedge_fills ≡ true
unfolding apply_fill fill_intent hold_fill hold_rejected_attempt put_intent check_intent
apply-seen platform reason f s k h =
    ground (arith, member-add k (hedge_fill_key f) s.state.seen_hedge_fills)
