-- ===== src/Accounts/Choice.antt =====
-- Which account a direction chooses, by the position it has.
use arbi_nautilus.Base.{
  ◌≡◌, refl, Bool, true, false, ℤ, ◌≤ℤ◌, ◌<ℤ◌, List, [], ◌∷◌, All, arith, Option, none, some,
  Result, ok, err,
}
use arbi_nautilus.Models.{SourceDirection, long, short}
use arbi_nautilus.Accounts.{SourceAccount, sorted, last_of, pick, select_source_account}
use arbi_nautilus.Accounts.Sorted.{
  InOrder, All-sorted, sorted-InOrder, sorted-All, last_of-greatest, last_of-All,
}

-- The first place for a long is the lowest position, for a short the highest.
abbrev pub Before : SourceDirection → ℤ → ℤ → Type 0
Before long x y = x <ℤ y
Before short x y = y <ℤ x

module _ {A : Type 0} (direction : SourceDirection) (key : A → ℤ) (allows : A → Bool) where
  -- None is allowed, or the chosen account is, and none that comes before it by its position.
  abbrev pub IsChosen : List A → Option A → Type 0
  IsChosen xs none = All (λ b. allows b ≡ false) xs
  IsChosen xs (some a) =
      (allows a ≡ true) × All (λ b. Before direction (key b) (key a) → allows b ≡ false) xs

-- No account, or one that is at the end which the direction asks for.
module _ (accounts : List SourceAccount) (P : SourceAccount → Type 0)
    (direction : SourceDirection) where
  abbrev pub IsExtreme : Result SourceAccount → Type 0
  IsExtreme (err e) = accounts ≡ []
  IsExtreme (ok a) =
      P a
      × All
          (λ (b : SourceAccount). elim direction [
            | long ↦ a.position_ounces ≤ℤ b.position_ounces
            | short ↦ b.position_ounces ≤ℤ a.position_ounces
          ])
          accounts

nothing_in : {A : Type 0} (xs : List A) → All (λ _. ⊥) xs → xs ≡ []
nothing_in [] h = refl
nothing_in (x ∷ xs) h = elim (h.0) [ ]

picked :
    (accounts : List SourceAccount) (P : SourceAccount → Type 0) (direction : SourceDirection)
    (ordered : List SourceAccount)
    → InOrder (λ a. a.position_ounces) ordered
    → All P ordered
    → ((Q : SourceAccount → Type 0) → All Q ordered → All Q accounts)
    → IsExtreme accounts P direction (pick direction ordered)
picked accounts P direction [] o h back = nothing_in accounts (back (λ _. ⊥) tt)
picked accounts P long (a ∷ xs) o h back =
    (h.0, back (λ b. a.position_ounces ≤ℤ b.position_ounces) (ground arith, o.0))
picked accounts P short (a ∷ xs) o h back = (
  last_of-All (λ a. a.position_ounces) P a xs h,
  back (λ b. b.position_ounces ≤ℤ (last_of a xs).position_ounces)
      (last_of-greatest (λ a. a.position_ounces) a xs o),
)

-- `select_source_account` raises only when there is no account; else it returns one of them (what
-- holds of all of them holds of it), of the least position for a long, of the greatest for a short.
pub select_source_account-IsExtreme :
    (accounts : List SourceAccount) (P : SourceAccount → Type 0) (direction : SourceDirection)
    → All P accounts
    → IsExtreme accounts P direction (select_source_account accounts direction)
unfolding select_source_account
select_source_account-IsExtreme accounts P direction h =
    let key : SourceAccount → ℤ = λ a. a.position_ounces in
    picked accounts P direction (sorted key accounts) (sorted-InOrder key accounts)
      (All-sorted key P accounts h) (λ Q. sorted-All key Q accounts)
