-- ===== src/Coordinator/Keys.antt =====
-- The fill key that a coordinator writes is the one that the Maker's validation takes apart.
use arbi_nautilus.Base.{
  ◌≡◌, refl, ◌∙◌, ap, false, String, ◌<>◌, [], ◌∷◌, arith, split_bar, glue, eqb,
}
use Prim.Native.Char.{Char, code}
use Prim.Native.String.append.{nil as append_nil, cons as append_cons}
use arbi_nautilus.Models.Checks.{has_bar}
use arbi_nautilus.Coordinator.{OrderFilled, source_fill_key}

not_bar :
    (c : Char) (s : String)
    → has_bar (String.◌∷◌ c s) ≡ false
    → (eqb (code c) b'|' ≡ false) × (has_bar s ≡ false)
not_bar c s h = ground (arith, h)

split-cons :
    (c : Char) (s : String)
    → eqb (code c) b'|' ≡ false
    → split_bar (String.◌∷◌ c s) ≡ glue c (split_bar s)
unfolding split_bar
split-cons c s h = rw h refl

-- A text without a bar is one part.
split_whole : (s : String) → has_bar s ≡ false → split_bar s ≡ s ∷ []
unfolding split_bar
split_whole String.[] h = refl
split_whole (String.◌∷◌ c s) h =
    let (other, rest) = not_bar c s h in split-cons c s other ∙ ap (glue c) (split_whole s rest)

bar_first : (t : String) → split_bar ("|" <> t) ≡ "" ∷ split_bar t
unfolding split_bar
bar_first t = ap split_bar (append_cons "|" "" t) ∙ ap (λ x. "" ∷ split_bar x) (append_nil t)

-- A bar after a text without one ends its part.
split_at : (s t : String) → has_bar s ≡ false → split_bar (s <> "|" <> t) ≡ s ∷ split_bar t
split_at String.[] t h = ap split_bar (append_nil ("|" <> t)) ∙ bar_first t
split_at (String.◌∷◌ c s) t h =
    let (other, rest) = not_bar c s h in
    ap split_bar (append_cons c s ("|" <> t))
    ∙ split-cons c (s <> "|" <> t) other
    ∙ ap (glue c) (split_at s t rest)

-- Where none of the three identities of an event holds a bar, the parts of its fill key are the
-- identities, in order.
pub source_fill_key-split :
    (event : OrderFilled)
    → has_bar event.client_order_id ≡ false
    → has_bar event.venue_order_id ≡ false
    → has_bar event.trade_id ≡ false
    → split_bar (source_fill_key event)
      ≡ event.client_order_id ∷ event.venue_order_id ∷ event.trade_id ∷ []
source_fill_key-split event h k l =
    split_at event.client_order_id (event.venue_order_id <> "|" <> event.trade_id) h
    ∙ ap (λ parts. event.client_order_id ∷ parts)
        (split_at event.venue_order_id event.trade_id k
          ∙ ap (λ parts. event.venue_order_id ∷ parts) (split_whole event.trade_id l))
