-- ===== src/Maker/Limits.antt =====
-- The account limits: `_within_bounds` of src/py000_nautilus/shared_admission.py looks at the two
-- ends of what the working orders can do, `_account_allows` at one order that fills whole.
use arbi_nautilus.Base.{
  ℕ, zero, suc, ◌≤◌, ◌≡◌, Bool, true, false, ◌&&◌, ℤ, pos, negsuc, magnitude, neg, ◌+ℤ◌, ◌-ℤ◌, ◌*ℤ◌,
  ◌≤ℤ◌, leb_ℤ, min_ℤ, max_ℤ, int_laws, arith, ◌⊎◌, parts_cases, subst,
}
use arbi_nautilus.Maker.{keeps_side, within_bounds, account_allows}

-- The sign of a product with a number that is not zero.
positive_product : (n : ℕ) (a : ℤ) → leb_ℤ (pos 0) (pos (suc n) *ℤ a) ≡ leb_ℤ (pos 0) a
unfolding ◌*ℤ◌
positive_product n (pos m) = ground arith
positive_product n (negsuc m) = grind arith

negative_product : (n : ℕ) (a : ℤ) → leb_ℤ (pos 0) (negsuc n *ℤ a) ≡ leb_ℤ a (pos 0)
unfolding ◌*ℤ◌
negative_product n (pos zero) = ground arith
negative_product n (pos (suc m)) = grind arith
negative_product n (negsuc m) = grind arith

zero_product : (a : ℤ) → leb_ℤ (pos 0) (pos zero *ℤ a) ≡ true
unfolding ◌*ℤ◌
zero_product a = ground arith

-- What lies between two positions that keep the account's side keeps it too.
keeps_between :
    (net minimum lower after upper : ℤ)
    → lower ≤ℤ after
    → after ≤ℤ upper
    → (keeps_side net minimum upper && keeps_side net minimum lower) ≡ true
    → keeps_side net minimum after ≡ true
keeps_between (pos zero) m l a u h k e = ground (arith, zero_product a)
keeps_between (pos (suc n)) m l a u h k e =
    ground (arith, positive_product n a, positive_product n l)
keeps_between (negsuc n) m l a u h k e = ground (arith, negative_product n a, negative_product n u)

-- What the test asks of the two ends of the range.
ends :
    (net B S M m : ℤ) (o : Bool)
    → within_bounds net B S M m o ≡ true
    → (net +ℤ B ≤ℤ max_ℤ net M)
      × (min_ℤ net (neg M) ≤ℤ net -ℤ S)
      × (o ≡ true → (keeps_side net m (net +ℤ B) && keeps_side net m (net -ℤ S)) ≡ true)
unfolding within_bounds
ends net B S M m true h = ground arith
ends net B S M m false h = ground arith

-- When `_within_bounds` accepts the working amounts of an account, every partial outcome of them,
-- `bought` of the buys and `sold` of the sells, leaves a position above neither the maximum nor
-- the present position, below neither the negated maximum nor the present one, and under
-- `only_long` on the present side and not shrunk below the minimum.
pub within_bounds-covers :
    (net buy sell maximum minimum : ℤ) (only_long : Bool) (bought sold : ℤ)
    → within_bounds net buy sell maximum minimum only_long ≡ true
    → pos 0 ≤ℤ bought
    → bought ≤ℤ buy
    → pos 0 ≤ℤ sold
    → sold ≤ℤ sell
    → let after = net +ℤ bought -ℤ sold in
      (after ≤ℤ max_ℤ net maximum)
      × (min_ℤ net (neg maximum) ≤ℤ after)
      × (only_long ≡ true → keeps_side net minimum after ≡ true)
unfolding within_bounds
within_bounds-covers net B S M m o b s h b0 bB s0 sS =
    let (top, bottom, sides) = ends net B S M m o h in
    (
      omega (int_laws, top),
      omega (int_laws, bottom),
      λ long_only.
          keeps_between net m (net -ℤ S) (net +ℤ b -ℤ s) (net +ℤ B) (omega int_laws)
            (omega int_laws) (sides long_only),
    )

pub max_ℤ_cases : (a b : ℤ) → (max_ℤ a b ≤ℤ a) ⊎ (max_ℤ a b ≤ℤ b)
max_ℤ_cases a b = ground arith

pub min_ℤ_cases : (a b : ℤ) → (a ≤ℤ min_ℤ a b) ⊎ (b ≤ℤ min_ℤ a b)
min_ℤ_cases a b = ground arith

+ℤ-neg : (a b : ℤ) → a -ℤ b ≡ a +ℤ neg b
+ℤ-neg a b = omega int_laws

-- What the standalone test asks of the position that an order leads to.
allows :
    (net change capacity maximum minimum : ℤ) (only_long : Bool)
    → pos (magnitude change) ≤ℤ capacity
    → ((pos (magnitude (net +ℤ change)) ≤ℤ maximum) ⊎ (magnitude (net +ℤ change) ≤ magnitude net))
    → (only_long ≡ true → keeps_side net minimum (net +ℤ change) ≡ true)
    → account_allows net change capacity maximum minimum only_long ≡ true
unfolding account_allows
allows net change C M m true h k e = ground arith
allows net change C M m false h k e = ground arith

-- An order that the shared admission accepts on its own, within the account's capacity, is one
-- that the standalone account test accepts: a buy of `quantity`, and a sell of it.
pub within_bounds-account_allows :
    (net quantity capacity maximum minimum : ℤ) (only_long : Bool)
    → pos 0 ≤ℤ quantity
    → quantity ≤ℤ capacity
    → (within_bounds net quantity (pos 0) maximum minimum only_long ≡ true
        → account_allows net quantity capacity maximum minimum only_long ≡ true)
      × (within_bounds net (pos 0) quantity maximum minimum only_long ≡ true
          → account_allows net (neg quantity) capacity maximum minimum only_long ≡ true)
within_bounds-account_allows net q C M m o h k = (
  λ e.
      let (top, bottom, sides) = ends net q (pos 0) M m o e in
      allows net q C M m o (omega (arith, parts_cases q))
        (omega (int_laws, top, max_ℤ_cases net M, parts_cases net, parts_cases (net +ℤ q)))
        (λ long_only. ground (arith, sides long_only)),
  λ e.
      let (top, bottom, sides) = ends net (pos 0) q M m o e in
      allows net (neg q) C M m o (omega (int_laws, parts_cases (neg q)))
        (omega
          (int_laws, bottom, min_ℤ_cases net (neg M), parts_cases net, parts_cases (net +ℤ neg q)))
        (λ long_only.
          subst (λ z. keeps_side net m z ≡ true) (+ℤ-neg net q) (ground (arith, sides long_only))),
)
