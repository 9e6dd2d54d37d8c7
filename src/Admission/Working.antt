-- ===== src/Admission/Working.antt =====
-- The working amounts of src/py000_nautilus/shared_admission.py, summed over the records, are those of
-- the native orders: two dictionaries with the same keys list them in different orders.
use arbi_nautilus.Base.{
  ◌≡◌, refl, sym, ap, ◌∙◌, inl, inr, Bool, true, false, not, ◌&&◌, ℤ, pos, ◌+ℤ◌, String, Option,
  none, some, List, [], ◌∷◌, Dict, lookup, insert, values, keys, contained, member, ◌==◌, string_eq,
  if◌then◌else◌, arith, Bool-cases, +ℤ_left_comm,
}
use arbi_nautilus.Models.Checks.{distinct}
use arbi_nautilus.Store.{SourceOrderRecord}
use arbi_nautilus.MakerStore.{View, Terms, Books, state_of, all_views}
use arbi_nautilus.Admission.{
  NativeOrder, Known, same_keys, native_by_id, known_records, know_views, know_records, same_bool,
}

abbrev pub sum_over : (String → ℤ) → List String → ℤ
sum_over f [] = pos 0
sum_over f (k ∷ ks) = f k +ℤ sum_over f ks

abbrev without : String → List String → List String
without k [] = []
without k (j ∷ js) = let rest = without k js in if j == k then js else j ∷ rest

member-without :
    (x k : String) (js : List String)
    → distinct js ≡ true
    → member x (without k js) ≡ (member x js && not (x == k))
member-without x k [] h = refl
member-without x k (j ∷ js) h = ground (
  arith,
  member-without x k js,
  string_eq.beq_iff j k,
  string_eq.beq_iff x k,
  string_eq.beq_iff j x,
)

distinct-without :
    (k : String) (js : List String) → distinct js ≡ true → distinct (without k js) ≡ true
distinct-without k [] h = refl
distinct-without k (j ∷ js) h = ground (arith, member-without j k js, distinct-without k js)

sum_over-without :
    (f : String → ℤ) (k : String) (js : List String)
    → member k js ≡ true
    → sum_over f js ≡ f k +ℤ sum_over f (without k js)
sum_over-without f k [] h = absurd (ground arith)
sum_over-without f k (j ∷ js) h = elim (Bool-cases (j == k)) [
  | inl same ↦ ground (arith, string_eq.beq_iff j k)
  | inr other ↦
      let rest = sum_over-without f k js (ground arith) in
      rw (other, rest) (+ℤ_left_comm (f j) (f k) (sum_over f (without k js)))
]

no_members : (js : List String) → ((x : String) → member x js ≡ false) → js ≡ []
no_members [] h = refl
no_members (j ∷ js) h = absurd (ground (arith, h j, string_eq.beq_iff j j))

-- A sum over distinct keys does not depend on their order.
sum_over_same :
    (f : String → ℤ) (ks js : List String)
    → distinct ks ≡ true
    → distinct js ≡ true
    → ((x : String) → member x ks ≡ member x js)
    → sum_over f ks ≡ sum_over f js
sum_over_same f [] js h g same = ap (sum_over f) (sym (no_members js (λ x. sym (same x))))
sum_over_same f (k ∷ ks) js h g same =
    let inside : member k js ≡ true = ground (arith, same k, string_eq.beq_iff k k) in
    let rest = sum_over_same f ks (without k js) (ground arith) (distinct-without k js g) (λ x.
      ground
        (arith, same x, member-without x k js g, string_eq.beq_iff x k, string_eq.beq_iff k x)) in
    ap (λ z. f k +ℤ z) rest ∙ sym (sum_over-without f k js inside)

module _ {ℓ} {V : Type ℓ} where
  member-insert :
      (x k : String) (v : V) (d : Dict V)
      → member x (keys (insert k v d)) ≡ (if k == x then true else member x (keys d))
  member-insert x k v [] = ground arith
  member-insert x k v ((j, w) ∷ d) =
      ground (arith, member-insert x k v d, string_eq.beq_iff j k, string_eq.beq_iff j x)

  distinct-insert :
      (k : String) (v : V) (d : Dict V)
      → distinct (keys d) ≡ true
      → distinct (keys (insert k v d)) ≡ true
  distinct-insert k v [] h = refl
  distinct-insert k v ((j, w) ∷ d) h = ground (
    arith,
    member-insert j k v d,
    distinct-insert k v d,
    string_eq.beq_iff j k,
    string_eq.beq_iff k j,
  )

  lookup-later :
      (f : Option V → ℤ) (j : String) (w : V) (d : Dict V) (ks : List String)
      → member j ks ≡ false
      → sum_over (λ k. f (lookup k ((j, w) ∷ d))) ks ≡ sum_over (λ k. f (lookup k d)) ks
  lookup-later f j w d [] h = refl
  lookup-later f j w d (k ∷ ks) h =
      ground (arith, lookup-later f j w d ks, string_eq.beq_iff j k, string_eq.beq_iff k j)

contained-member :
    (ks js : List String) (x : String)
    → contained ks js ≡ true
    → member x ks ≡ true
    → member x js ≡ true
contained-member [] js x h m = absurd (ground arith)
contained-member (k ∷ ks) js x h m = ground (arith, contained-member ks js x, string_eq.beq_iff k x)

same_members :
    (ks js : List String) (x : String)
    → (contained ks js && contained js ks) ≡ true
    → member x ks ≡ member x js
same_members ks js x h = ground (arith, contained-member ks js x, contained-member js ks x)

distinct_records :
    (v : View) (records : List SourceOrderRecord) (d : Known)
    → distinct (keys d) ≡ true
    → distinct (keys (know_records v records d)) ≡ true
distinct_records v [] d h = h
distinct_records v (r ∷ records) d h =
    distinct_records v records (insert r.client_order_id (v, r) d)
      (distinct-insert r.client_order_id (v, r) d h)

distinct_views :
    (b : Books) (views : List View) (d : Known)
    → distinct (keys d) ≡ true
    → distinct (keys (know_views b views d)) ≡ true
distinct_views b [] d h = h
distinct_views b (v ∷ views) d h =
    distinct_views b views (know_records v (values (state_of v b).source_orders) d)
      (distinct_records v (values (state_of v b).source_orders) d h)

pub known_records-distinct :
    (terms : Terms) (b : Books) → distinct (keys (known_records terms b)) ≡ true
unfolding known_records
known_records-distinct terms b = distinct_views b (all_views terms) [] refl

pub native_by_id-distinct :
    (orders : List NativeOrder) (d : Dict NativeOrder)
    → distinct (keys d) ≡ true
    → distinct (keys (native_by_id orders d)) ≡ true
native_by_id-distinct [] d h = h
native_by_id-distinct (n ∷ orders) d h =
    native_by_id-distinct orders (insert n.native_order_id n d)
      (distinct-insert n.native_order_id n d h)

-- What a native order can still buy, or sell.
unfoldable pub working_amount : Bool → NativeOrder → ℤ
working_amount buys n =
    if n.is_closed then pos 0 else if same_bool n.is_buy buys then n.leaves_qty else pos 0

-- What the native orders can still buy, or sell, together.
unfoldable pub working_total : Bool → Dict NativeOrder → ℤ
working_total buys [] = pos 0
working_total buys ((k, n) ∷ native) = working_amount buys n +ℤ working_total buys native

abbrev pub amount_at : Bool → Option NativeOrder → ℤ
amount_at buys none = pos 0
amount_at buys (some n) = working_amount buys n

working_total-sum :
    (buys : Bool) (native : Dict NativeOrder)
    → distinct (keys native) ≡ true
    → sum_over (λ k. amount_at buys (lookup k native)) (keys native) ≡ working_total buys native
unfolding working_total
working_total-sum buys [] h = refl
working_total-sum buys ((k, n) ∷ native) h = ground (
  arith,
  lookup-later (amount_at buys) k n native (keys native),
  working_total-sum buys native,
  string_eq.beq_iff k k,
)

abbrev pub recorded : Bool → Dict NativeOrder → Known → ℤ
recorded buys native records = sum_over (λ k. amount_at buys (lookup k native)) (keys records)

pub recorded-total :
    (buys : Bool) (records : Known) (native : Dict NativeOrder)
    → same_keys records native ≡ true
    → distinct (keys records) ≡ true
    → distinct (keys native) ≡ true
    → recorded buys native records ≡ working_total buys native
unfolding same_keys
recorded-total buys records native h d e =
    sum_over_same (λ k. amount_at buys (lookup k native)) (keys records) (keys native) d e
      (λ x. same_members (keys records) (keys native) x h)
    ∙ working_total-sum buys native e
