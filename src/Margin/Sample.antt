-- ===== src/Margin/Sample.antt =====
-- What `bitfinex_source_account` of src/py000_nautilus/margin.py asks of an account's sample before it
-- projects anything, said of the facts themselves.
use arbi_nautilus.Base.{
  ◌≡◌, refl, ap, ◌∙◌, true, ℤ, pos, ◌≤ℤ◌, ◌-ℤ◌, neg_parts, String, string_eq, ok, arith,
  Result-cases, inl, inr,
}
use arbi_nautilus.Base.Raises.{◌>>=◌}
use arbi_nautilus.Margin.{CapacityContext}
use arbi_nautilus.Margin.Facts.{
  Fact, absent, object, whole, text, flag, decimal, other, Facts, object_of, at_key, decimal_value,
  is_fresh, is_true, is_text,
}
use arbi_nautilus.Margin.Accounts.{Sampling, source_sample}

-- The observation is not from the future and not older than the limit.
abbrev pub IsFresh : Facts → Sampling → Type 0
IsFresh facts s =
    (observed : ℤ) × (at_key "observed_ns" facts ≡ ok (whole observed))
    × ((pos 0 ≤ℤ observed)
        × (pos 0 ≤ℤ s.now_ns -ℤ observed)
        × (s.now_ns -ℤ observed ≤ℤ s.max_account_age_ns))

fresh-lem :
    (f : Fact) (now age : ℤ)
    → is_fresh f now age (pos 0) ≡ true
    → (observed : ℤ) × (f ≡ whole observed)
      × ((pos 0 ≤ℤ observed) × (pos 0 ≤ℤ now -ℤ observed) × (now -ℤ observed ≤ℤ age))
unfolding is_fresh
fresh-lem (whole n) now age h =
    (n, refl, (ground arith, ground (arith, neg_parts (pos 0)), ground arith))
fresh-lem absent now age h = absurd (ground arith)
fresh-lem (flag b) now age h = absurd (ground arith)
fresh-lem (text t) now age h = absurd (ground arith)
fresh-lem (decimal n) now age h = absurd (ground arith)
fresh-lem (object facts) now age h = absurd (ground arith)
fresh-lem other now age h = absurd (ground arith)

IsFresh-at :
    (facts : Facts) (s : Sampling) (f : Fact)
    → at_key "observed_ns" facts ≡ ok f
    → is_fresh f s.now_ns s.max_account_age_ns (pos 0) ≡ true
    → IsFresh facts s
IsFresh-at facts s f at h =
    let (observed, is_whole, within) = fresh-lem f s.now_ns s.max_account_age_ns h in
    (observed, at ∙ ap ok is_whole, within)

true-lem : (f : Fact) → is_true f ≡ true → f ≡ flag true
true-lem f h = ground arith

pub text-lem : (name : String) (f : Fact) → is_text name f ≡ true → f ≡ text name
text-lem name (text t) h = ground (arith, string_eq.beq_iff t name)
text-lem name f h = absurd (ground arith)

pub object-lem : (f : Fact) (facts : Facts) → object_of f ≡ ok facts → f ≡ object facts
object-lem f facts h = ground arith

-- `info` holds an object under a name.
at_object :
    (name : String) (info facts : Facts)
    → (at_key name info >>= object_of) ≡ ok facts
    → at_key name info ≡ ok (object facts)
at_object name info facts h = elim (Result-cases (at_key name info)) [
  | inl (e, failed) ↦ absurd (ground arith)
  | inr (f, found) ↦ ground (arith, object-lem f facts)
]

module _ (c : CapacityContext) where
  -- The sample is the instrument's and the wallet currency's, its wallet and its positions are
  -- current and fresh, the positions are complete, and it states the available balance and the
  -- position.
  pub record IsSample (info : Facts) (instrument_id wallet_currency : String) (s : Sampling)
      (available : ℤ) (position : Fact) (facts wallet positions : Facts) : Type 0 where
    pub at_facts : at_key "bitfinex_margin" info ≡ ok (object facts)
    pub at_wallet : at_key "wallet" facts ≡ ok (object wallet)
    pub at_positions : at_key "positions" facts ≡ ok (object positions)
    pub instrument : at_key "instrument_id" facts ≡ ok (text instrument_id)
    pub wallet_current : at_key "current" wallet ≡ ok (flag true)
    pub positions_current : at_key "current" positions ≡ ok (flag true)
    pub positions_complete : at_key "complete" positions ≡ ok (flag true)
    pub wallet_fresh : IsFresh wallet s
    pub positions_fresh : IsFresh positions s
    pub stated_balance : (at_key "available_balance" wallet >>= decimal_value c) ≡ ok available
    pub stated_position : at_key "position" positions ≡ ok position

  module _ (info : Facts) (instrument_id wallet_currency : String) (s : Sampling) (available : ℤ)
      (position : Fact) (facts wallet positions : Facts)
      (h : source_sample c info instrument_id wallet_currency s ≡ ok (available, position))
      (f : (at_key "bitfinex_margin" info >>= object_of) ≡ ok facts)
      (w : (at_key "wallet" facts >>= object_of) ≡ ok wallet)
      (p : (at_key "positions" facts >>= object_of) ≡ ok positions) where
    its_instrument : at_key "instrument_id" facts ≡ ok (text instrument_id)
    unfolding source_sample
    its_instrument = elim (Result-cases (at_key "instrument_id" facts)) [
      | inl (e, failed) ↦ absurd (ground arith)
      | inr (found, at) ↦ ground (arith, text-lem instrument_id found)
    ]

    current_wallet : at_key "current" wallet ≡ ok (flag true)
    unfolding source_sample
    current_wallet = elim (Result-cases (at_key "current" wallet)) [
      | inl (e, failed) ↦ absurd (ground arith)
      | inr (found, at) ↦ ground (arith, true-lem found)
    ]

    current_positions : at_key "current" positions ≡ ok (flag true)
    unfolding source_sample
    current_positions = elim (Result-cases (at_key "current" positions)) [
      | inl (e, failed) ↦ absurd (ground arith)
      | inr (found, at) ↦ ground (arith, true-lem found)
    ]

    complete_positions : at_key "complete" positions ≡ ok (flag true)
    unfolding source_sample
    complete_positions = elim (Result-cases (at_key "complete" positions)) [
      | inl (e, failed) ↦ absurd (ground arith)
      | inr (found, at) ↦ ground (arith, true-lem found)
    ]

    IsFresh-wallet : IsFresh wallet s
    unfolding source_sample
    IsFresh-wallet = elim (Result-cases (at_key "observed_ns" wallet)) [
      | inl (e, failed) ↦ absurd (ground arith)
      | inr (found, at) ↦ IsFresh-at wallet s found at (ground arith)
    ]

    IsFresh-positions : IsFresh positions s
    unfolding source_sample
    IsFresh-positions = elim (Result-cases (at_key "observed_ns" positions)) [
      | inl (e, failed) ↦ absurd (ground arith)
      | inr (found, at) ↦ IsFresh-at positions s found at (ground arith)
    ]

    facts-IsSample :
        IsSample info instrument_id wallet_currency s available position facts wallet positions
    unfolding source_sample
    facts-IsSample = record {
      at_facts = at_object "bitfinex_margin" info facts f;
      at_wallet = at_object "wallet" facts wallet w;
      at_positions = at_object "positions" facts positions p;
      instrument = its_instrument;
      wallet_current = current_wallet;
      positions_current = current_positions;
      positions_complete = complete_positions;
      wallet_fresh = IsFresh-wallet;
      positions_fresh = IsFresh-positions;
      stated_balance = ground arith;
      stated_position = ground arith;
    }

  -- A sample that passes is such a sample.
  pub accepted-IsSample :
      (info : Facts) (instrument_id wallet_currency : String) (s : Sampling) (available : ℤ)
      (position : Fact)
      → source_sample c info instrument_id wallet_currency s ≡ ok (available, position)
      → (facts : Facts) × (wallet : Facts) × (positions : Facts) × IsSample info instrument_id
          wallet_currency s available position facts wallet positions
  unfolding source_sample
  accepted-IsSample info instrument_id wallet_currency s available position h =
      elim (Result-cases (at_key "bitfinex_margin" info >>= object_of)) [
        | inl (e, failed) ↦ absurd (ground arith)
        | inr (facts, f) ↦ elim (Result-cases (at_key "wallet" facts >>= object_of)) [
          | inl (e, failed) ↦ absurd (ground arith)
          | inr (wallet, w) ↦ elim (Result-cases (at_key "positions" facts >>= object_of)) [
            | inl (e, failed) ↦ absurd (ground arith)
            | inr (positions, p) ↦ (
              facts,
              wallet,
              positions,
              facts-IsSample info instrument_id wallet_currency s available position facts wallet
                  positions h f w p,
            )
          ]
        ]
      ]
