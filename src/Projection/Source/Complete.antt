-- ===== src/Projection/Source/Complete.antt =====
-- What `project_source_fills` of src/py000_nautilus/source_projection.py leaves of the single store:
-- every native fill is seen, or nothing changed.
use arbi_nautilus.Base.{
  ◌≡◌, refl, subst, inl, inr, Bool, true, ℕ, zero, suc, String, some, List, [], ◌∷◌, ◌++◌, arith,
  ok, Result-cases, Option-cases, Dict, lookup, values, member, contained, All, all, keep, take,
  length, string_eq,
}
use arbi_nautilus.Store.{SourceOrderRecord, StoreState}
use arbi_nautilus.Projection.{FillFacts, VenueOrder, Owners, fills_of, orders_by_id, drop}
use arbi_nautilus.Projection.Source.{checked_fills}
use arbi_nautilus.Projection.Source.Scan.{
  Gathered, nothing_yet, keys_of, seen_of, add_suffix, split_fills, gather_fill, gather_fills,
  scan_record, scan_records, check_projection,
}

abbrev pub Suffixes : Type 0
Suffixes = List (String × List FillFacts)

abbrev pub all_in : List String → List String → Bool
all_in seen keys = all (λ k. member k seen) keys

-- Every key of the suffixes is among the seen.
abbrev pub SeenIn : List String → Suffixes → Type 0
SeenIn seen suffixes = All (λ entry. all_in seen (keys_of entry.0 entry.1) ≡ true) suffixes

abbrev pub Grows : List String → List String → Type 0
Grows seen more = (k : String) → member k seen ≡ true → member k more ≡ true

-- Once the suffixes are seen, all fills of this order are.
abbrev pub Scanned : List String → Dict VenueOrder → Suffixes → SourceOrderRecord → Type 0
Scanned seen by_id suffixes r =
    (o : VenueOrder) × (lookup r.client_order_id by_id ≡ some o)
    × ((more : List String)
        → Grows seen more
        → SeenIn more suffixes
        → all_in more (keys_of r.client_order_id (fills_of o.events)) ≡ true)

member-keep :
    (p : String → Bool) (k : String) (keys : List String)
    → member k (keep p keys) ≡ true
    → member k keys ≡ true
member-keep p k [] h = h
member-keep p k (j ∷ keys) h = ground (arith, member-keep p k keys)

all_in-contained :
    (p : String → Bool) (keys seen more : List String)
    → Grows seen more
    → contained keys (keep p seen) ≡ true
    → all_in more keys ≡ true
all_in-contained p [] seen more grows h = refl
all_in-contained p (k ∷ keys) seen more grows h =
    ground (arith, grows k, member-keep p k seen, all_in-contained p keys seen more grows)

-- The keys of a list are those of its first part and of the rest.
all_in-split :
    (cid : String) (n : ℕ) (fills : List FillFacts) (more : List String)
    → all_in more (keys_of cid (take n fills)) ≡ true
    → all_in more (keys_of cid (drop n fills)) ≡ true
    → all_in more (keys_of cid fills) ≡ true
all_in-split cid zero fills more h g = g
all_in-split cid (suc n) [] more h g = refl
all_in-split cid (suc n) (f ∷ fills) more h g = ground (arith, all_in-split cid n fills more)

All-append :
    (P : String × List FillFacts → Type 0) (xs ys : Suffixes)
    → All P (xs ++ ys)
    → All P xs × All P ys
All-append P [] ys h = (tt, h)
All-append P (x ∷ xs) ys h = let (a, b) = All-append P xs ys h.1 in ((h.0, a), b)

-- A suffix that was added is seen with the others.
add_suffix-SeenIn :
    (cid : String) (suffix : List FillFacts) (g : Gathered) (more : List String)
    → SeenIn more (add_suffix cid suffix g).suffixes
    → SeenIn more g.suffixes × (all_in more (keys_of cid suffix) ≡ true)
add_suffix-SeenIn cid [] g more h = (h, refl)
add_suffix-SeenIn cid (f ∷ suffix) g more h =
    let (a, b) =
      All-append (λ entry. all_in more (keys_of entry.0 entry.1) ≡ true) g.suffixes
        ((cid, f ∷ suffix) ∷ []) h in
    (a, b.0)

-- From one gathering to a later one: what is seen with the later suffixes is seen with the first.
abbrev pub Extends : Gathered → Gathered → Type 0
Extends g h = (more : List String) → SeenIn more h.suffixes → SeenIn more g.suffixes

gather_fills-suffixes :
    (cid : String) (fills : List FillFacts) (g h : Gathered)
    → gather_fills cid fills g ≡ ok h
    → h.suffixes ≡ g.suffixes
unfolding gather_fills
gather_fills-suffixes cid [] g h e = ground arith
gather_fills-suffixes cid (f ∷ fills) g h e =
    ground (arith, gather_fills-suffixes cid fills (gather_fill cid f g) h)

module _ (s : StoreState) where
  split_fills-lem :
      (r : SourceOrderRecord) (fills : List FillFacts) (g h : Gathered)
      → split_fills s r fills g ≡ ok h
      → let n = length (seen_of r.client_order_id s) in
        (contained (keys_of r.client_order_id (take n fills)) (seen_of r.client_order_id s) ≡ true)
        × (h ≡ add_suffix r.client_order_id (drop n fills) g)
  unfolding split_fills
  split_fills-lem r fills g h e = ground arith

module _ (owners : Owners) (s : StoreState) (by_id : Dict VenueOrder) where
  -- What one round of the loop has shown of its record.
  scan_record-Scanned :
      (r : SourceOrderRecord) (g h : Gathered)
      → scan_record owners s by_id r g ≡ ok h
      → Extends g h × Scanned s.seen_source_fills by_id h.suffixes r
  unfolding scan_record checked_fills
  scan_record-Scanned r g h e = elim (Option-cases (lookup r.client_order_id by_id)) [
    | inl missing ↦ absurd (ground arith)
    | inr (o, found) ↦ elim (Result-cases (gather_fills r.client_order_id (fills_of o.events) g)) [
      | inl (x, failed) ↦ absurd (ground arith)
      | inr (t, gathered) ↦
          let fills = fills_of o.events in
          let n = length (seen_of r.client_order_id s) in
          let (first, same) = split_fills-lem s r fills t h (ground arith) in
          let kept = gather_fills-suffixes r.client_order_id fills g t gathered in
          let added : (more : List String)
              → SeenIn more h.suffixes
              → SeenIn more t.suffixes
                × (all_in more (keys_of r.client_order_id (drop n fills)) ≡ true) =
            λ more seen.
              add_suffix-SeenIn r.client_order_id (drop n fills) t more
                (subst (λ (z : Gathered). SeenIn more z.suffixes) same seen) in
          (
            λ more seen. subst (SeenIn more) kept (added more seen).0,
            (
              o,
              found,
              λ more grows seen.
                  all_in-split r.client_order_id n fills more
                    (all_in-contained _ (keys_of r.client_order_id (take n fills))
                      s.seen_source_fills more grows first)
                    (added more seen).1,
            ),
          )
    ]
  ]

  Scanned-Extends :
      (r : SourceOrderRecord) (g h : Gathered)
      → Extends g h
      → Scanned s.seen_source_fills by_id g.suffixes r
      → Scanned s.seen_source_fills by_id h.suffixes r
  Scanned-Extends r g h later (o, found, seen) =
      (o, found, λ more grows with_suffixes. seen more grows (later more with_suffixes))

  scan_records-Scanned :
      (records : List SourceOrderRecord) (g h : Gathered)
      → scan_records owners s by_id records g ≡ ok h
      → Extends g h × All (Scanned s.seen_source_fills by_id h.suffixes) records
  unfolding scan_records
  scan_records-Scanned [] g h e =
      let same : h ≡ g = ground arith in
      (λ more seen. subst (λ (z : Gathered). SeenIn more z.suffixes) same seen, tt)
  scan_records-Scanned (r ∷ records) g h e = elim (Result-cases (scan_record owners s by_id r g)) [
    | inl (x, failed) ↦ absurd (ground arith)
    | inr (t, scanned) ↦
        let (first, here) = scan_record-Scanned r g t scanned in
        let (second, rest) = scan_records-Scanned records t h (ground arith) in
        (λ more seen. first more (second more seen), (Scanned-Extends r t h second here, rest))
  ]

-- What the checks leave: with their suffixes, every native fill of every recorded order is seen.
pub check_projection-Scanned :
    (owners : Owners) (s : StoreState) (orders : List VenueOrder) (suffixes : Suffixes)
    → check_projection owners s orders ≡ ok suffixes
    → All (Scanned s.seen_source_fills (orders_by_id orders []) suffixes) (values s.source_orders)
unfolding check_projection
check_projection-Scanned owners s orders suffixes e =
    elim (Result-cases
      (scan_records owners s (orders_by_id orders []) (values s.source_orders) nothing_yet)) [
        | inl (x, failed) ↦ absurd (ground arith)
        | inr (g, scanned) ↦
            let same : g.suffixes ≡ suffixes = ground arith in
            subst
              (λ z.
                All (Scanned s.seen_source_fills (orders_by_id orders []) z)
                  (values s.source_orders))
              same
              (scan_records-Scanned owners s (orders_by_id orders []) (values s.source_orders)
                nothing_yet g scanned).1
      ]
