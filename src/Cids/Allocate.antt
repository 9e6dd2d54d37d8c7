-- ===== src/Cids/Allocate.antt =====
-- `allocate`: client ids only grow, fit in 45 bits, and none is ever bound twice.
use arbi_nautilus.Base.{
  ℕ, ◌≤◌, ◌<◌, ◌≡◌, Bool, String, string_eq, nat_eq, none, some, List, [], ◌∷◌, ◌++◌, lookup,
  values, Result, ok, err, sync_error,
}
use mathlib.Core.List.{Perm}
use mathlib.Core.List.Perm
use arbi_nautilus.Cids.{
  CidBinding, CidStore, CidPayload, max_cid, cid_lookup, sort_bindings, sort_fees,
}

-- Every bound id lies between 1 and the last one, under its own number, and its order text leads to
-- it; and every order text leads to a binding of its own, which its number leads to.
abbrev pub IsBound : CidStore → Type 0
IsBound s =
    (s.last_cid ≤ max_cid)
    × ((k : ℕ) (b : CidBinding)
        → cid_lookup k s.by_cid ≡ some b
        → (b.cid ≡ k) × (k ≤ s.last_cid) × (lookup b.client_order_id s.by_client ≡ some b))
    × ((name : String) (b : CidBinding)
        → lookup name s.by_client ≡ some b
        → (b.client_order_id ≡ name) × (cid_lookup b.cid s.by_cid ≡ some b))

-- The file holds the last id and exactly the bindings of memory.
abbrev pub IsPublished : CidStore → Type 0
IsPublished s =
    (payload : CidPayload) × (s.file ≡ some payload)
    × (payload.saved_last_cid ≡ s.last_cid)
    × Perm payload.saved_bindings (values s.by_client)

-- What a new binding is, and what the store holds with it.
abbrev pub IsNew : CidStore → String → ℕ → CidBinding → CidStore → Type 0
IsNew s client_id epoch_ms b s' =
    (b.client_order_id ≡ client_id)
    × (s.last_cid < b.cid)
    × (epoch_ms ≤ b.cid)
    × (cid_lookup b.cid s.by_cid ≡ none)
    × (lookup client_id s'.by_client ≡ some b)
    × (cid_lookup b.cid s'.by_cid ≡ some b)
    × ((name : String) (c : CidBinding)
        → lookup name s.by_client ≡ some c
        → lookup name s'.by_client ≡ some c)
    × IsPublished s'

-- How a call of `allocate` for `client_id` at `epoch_ms` ended, by its result.
abbrev pub IsAllocated : CidStore → String → ℕ → Result CidBinding × CidStore → Type 0
IsAllocated s client_id epoch_ms (ok b, s') = IsNew s client_id epoch_ms b s'
IsAllocated s client_id epoch_ms (err sync_error, s') =
    (b : CidBinding) × IsNew s client_id epoch_ms b s'
IsAllocated s client_id epoch_ms (err e, s') =
    (s'.by_client ≡ s.by_client)
    × (s'.by_cid ≡ s.by_cid)
    × (s'.last_cid ≡ s.last_cid)
    × (s'.file ≡ s.file)

abbrev payload_of : ℕ → List CidBinding → CidStore → CidPayload
payload_of last bindings s = record {
  saved_last_cid = last;
  saved_conflict = s.accounting_conflict;
  saved_bindings = sort_bindings bindings;
  saved_fees = sort_fees s.fee_metadata;
}

module _ (b : CidBinding) (s : CidStore) (epoch_ms : ℕ) (h : IsBound s) (grows : s.last_cid < b.cid)
    (late : epoch_ms ≤ b.cid) (fits : b.cid ≤ max_cid)
    (fresh : lookup b.client_order_id s.by_client ≡ none) where
  -- The store once the write has published the new binding.
  abbrev stored : Bool → CidStore
  stored durable = record s {
    file = some (payload_of b.cid (values s.by_client ++ b ∷ []) s);
    fees_durable = durable;
  }
