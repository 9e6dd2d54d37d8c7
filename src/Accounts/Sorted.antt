-- ===== src/Accounts/Sorted.antt =====
-- What a stable sort by a key gives: the same elements, in order of the key.
use arbi_nautilus.Base.{inl, inr, ℤ, ◌≤ℤ◌, leb_ℤ, List, [], ◌∷◌, ◌++◌, All, arith, Bool-cases}
use arbi_nautilus.Accounts.{insert_by, sorted, reversed, last_of}

module _ {A : Type 0} (key : A → ℤ) where
  -- The keys never fall.
  abbrev pub InOrder : List A → Type 0
  InOrder [] = Unit
  InOrder (a ∷ xs) = All (λ b. key a ≤ℤ key b) xs × InOrder xs

  -- The keys never rise.
  abbrev pub Falling : List A → Type 0
  Falling [] = Unit
  Falling (a ∷ xs) = All (λ b. key b ≤ℤ key a) xs × Falling xs

  pub All-weaken : (P Q : A → Type 0) (xs : List A) → ((a : A) → P a → Q a) → All P xs → All Q xs
  All-weaken P Q [] f h = tt
  All-weaken P Q (a ∷ xs) f h = (f a h.0, All-weaken P Q xs f h.1)

  pub All-insert_by :
      (P : A → Type 0) (a : A) (xs : List A) → P a → All P xs → All P (insert_by key a xs)
  unfolding insert_by
  All-insert_by P a [] p h = (p, tt)
  All-insert_by P a (b ∷ bs) p h = elim (Bool-cases (leb_ℤ (key a) (key b))) [
    | inl first ↦ rw (first, insert_by) (p, h)
    | inr later ↦ rw (later, insert_by) (h.0, All-insert_by P a bs p h.1)
  ]

  pub All-sorted : (P : A → Type 0) (xs : List A) → All P xs → All P (sorted key xs)
  unfolding sorted
  All-sorted P [] h = tt
  All-sorted P (a ∷ xs) h = All-insert_by P a (sorted key xs) h.0 (All-sorted P xs h.1)

  insert_by-InOrder : (a : A) (xs : List A) → InOrder xs → InOrder (insert_by key a xs)
  unfolding insert_by
  insert_by-InOrder a [] h = (tt, tt)
  insert_by-InOrder a (b ∷ bs) h = elim (Bool-cases (leb_ℤ (key a) (key b))) [
    | inl first ↦
        rw (first, insert_by)
          (
            (
              ground arith,
              All-weaken (λ c. key b ≤ℤ key c) (λ c. key a ≤ℤ key c) bs (λ c le. ground arith) h.0,
            ),
            h,
          )
    | inr later ↦
        rw (later, insert_by)
          (All-insert_by (λ c. key b ≤ℤ key c) a bs (ground arith) h.0, insert_by-InOrder a bs h.1)
  ]

  pub sorted-InOrder : (xs : List A) → InOrder (sorted key xs)
  unfolding sorted
  sorted-InOrder [] = tt
  sorted-InOrder (a ∷ xs) = insert_by-InOrder a (sorted key xs) (sorted-InOrder xs)

  -- What holds of all elements after the sort held before.
  insert_by-All :
      (P : A → Type 0) (a : A) (xs : List A) → All P (insert_by key a xs) → P a × All P xs
  unfolding insert_by
  insert_by-All P a [] h = h
  insert_by-All P a (b ∷ bs) h = elim (Bool-cases (leb_ℤ (key a) (key b))) [
    | inl first ↦ rw (first, insert_by) at h
    | inr later ↦
        let parts : P b × All P (insert_by key a bs) = rw (later, insert_by) at h in
        let rest = insert_by-All P a bs parts.1 in (rest.0, (parts.0, rest.1))
  ]

  pub sorted-All : (P : A → Type 0) (xs : List A) → All P (sorted key xs) → All P xs
  unfolding sorted
  sorted-All P [] h = tt
  sorted-All P (a ∷ xs) h =
      let (here, rest) = insert_by-All P a (sorted key xs) h in (here, sorted-All P xs rest)

  All-snoc : (P : A → Type 0) (xs : List A) (a : A) → All P xs → P a → All P (xs ++ a ∷ [])
  All-snoc P [] a h p = (p, tt)
  All-snoc P (b ∷ bs) a h p = (h.0, All-snoc P bs a h.1 p)

  pub All-reversed : (P : A → Type 0) (xs : List A) → All P xs → All P (reversed xs)
  unfolding reversed
  All-reversed P [] h = tt
  All-reversed P (a ∷ xs) h = All-snoc P (reversed xs) a (All-reversed P xs h.1) h.0

  snoc-All : (P : A → Type 0) (xs : List A) (a : A) → All P (xs ++ a ∷ []) → All P xs × P a
  snoc-All P [] a h = (tt, h.0)
  snoc-All P (b ∷ bs) a h = let rest = snoc-All P bs a h.1 in ((h.0, rest.0), rest.1)

  pub reversed-All : (P : A → Type 0) (xs : List A) → All P (reversed xs) → All P xs
  unfolding reversed
  reversed-All P [] h = tt
  reversed-All P (a ∷ xs) h =
      let (rest, here) = snoc-All P (reversed xs) a h in (here, reversed-All P xs rest)

  snoc-Falling :
      (xs : List A) (a : A) → Falling xs → All (λ b. key a ≤ℤ key b) xs → Falling (xs ++ a ∷ [])
  snoc-Falling [] a f h = (tt, tt)
  snoc-Falling (b ∷ bs) a f h =
      (All-snoc (λ c. key c ≤ℤ key b) bs a f.0 h.0, snoc-Falling bs a f.1 h.1)

  pub reversed-Falling : (xs : List A) → InOrder xs → Falling (reversed xs)
  unfolding reversed
  reversed-Falling [] h = tt
  reversed-Falling (a ∷ xs) h =
      snoc-Falling (reversed xs) a (reversed-Falling xs h.1)
        (All-reversed (λ b. key a ≤ℤ key b) xs h.0)

  pub last_of-greatest :
      (a : A) (xs : List A) → InOrder (a ∷ xs) → All (λ b. key b ≤ℤ key (last_of a xs)) (a ∷ xs)
  last_of-greatest a [] h = (ground arith, tt)
  last_of-greatest a (b ∷ bs) h =
      let rest = last_of-greatest b bs h.1 in (ground (arith, h.0.0, rest.0), rest)

  pub last_of-All : (P : A → Type 0) (a : A) (xs : List A) → All P (a ∷ xs) → P (last_of a xs)
  last_of-All P a [] h = h.0
  last_of-All P a (b ∷ bs) h = last_of-All P b bs h.1
