-- ===== src/Hedge/Order.antt =====
-- `_position_id_sort_key` of src/py000_nautilus/hedge.py, and Python's stable `sorted` by it.
-- Ticket ids are ASCII: `isdecimal` asks for the digits 0 to 9, and texts compare by code points.
use arbi_nautilus.Base.{
  codes, codes_le, ℕ, ◌+◌, ◌-◌, ◌*◌, Bool, true, false, ◌&&◌, ◌||◌, String, List, [], ◌∷◌, leb, ltb,
  eqb, all, if◌then◌else◌, nat_eq,
}

abbrev is_digit : ℕ → Bool
is_digit c = leb b'0' c && leb c b'9'

-- `text.isdecimal()`
abbrev is_decimal : List ℕ → Bool
is_decimal [] = false
is_decimal (c ∷ cs) = is_digit c && all is_digit cs

-- `int(text)`
abbrev decimal_value : ℕ → List ℕ → ℕ
decimal_value n [] = n
decimal_value n (c ∷ cs) = decimal_value (n * 10 + (c - b'0')) cs

pub data SortKey : Type 0 where
  numeric : ℕ → List ℕ → SortKey
  textual : List ℕ → SortKey

abbrev key_of_codes : List ℕ → SortKey
key_of_codes cs = if is_decimal cs then numeric (decimal_value 0 cs) cs else textual cs

unfoldable pub position_id_sort_key : String → SortKey
position_id_sort_key id = key_of_codes (codes id)

-- `a <= b` on the key tuples.
unfoldable pub key_le : SortKey → SortKey → Bool
key_le (numeric m xs) (numeric n ys) = ltb m n || (eqb m n && codes_le xs ys)
key_le (numeric m xs) (textual ys) = true
key_le (textual xs) (numeric n ys) = false
key_le (textual xs) (textual ys) = codes_le xs ys

module _ {ℓ} {A : Type ℓ} (id_of : A → String) where
  abbrev pub before : A → A → Bool
  before a b = key_le (position_id_sort_key (id_of a)) (position_id_sort_key (id_of b))

  -- A stable sort: an item goes before the first later item that is not smaller.
  unfoldable pub insert_by_id : A → List A → List A
  insert_by_id a [] = a ∷ []
  insert_by_id a (b ∷ bs) = if before a b then a ∷ b ∷ bs else b ∷ insert_by_id a bs

  unfoldable pub sort_by_id : List A → List A
  unfolding insert_by_id
  sort_by_id [] = []
  sort_by_id (a ∷ items) = insert_by_id a (sort_by_id items)
