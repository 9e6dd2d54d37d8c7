-- ===== src/Admission/Mismatch.antt =====
-- Where `SharedSourceAdmission.__call__` of src/py000_nautilus/shared_admission.py finds that the venue,
-- the native orders and the store differ.
use arbi_nautilus.Base.{
  ◌≡◌, refl, sym, subst, inl, inr, Bool, true, false, ◌⊎◌, ℤ, Option, none, some, [], Result, ok,
  err, arith, Bool-cases, pure, ◌>>◌, String,
}
use arbi_nautilus.Durability.{DiskCalls}
use arbi_nautilus.Models.Checks.{is_empty}
use arbi_nautilus.Models.{BusinessOrderSide}
use arbi_nautilus.MakerStore.{View, Terms}
use arbi_nautilus.MakerStore.Publish.{Owner, freeze_sources}
use arbi_nautilus.MakerStore.Frozen.{IsShut}
use arbi_nautilus.MakerStore.Freeze.{Held, IsLatched, freeze_sources-Held}
use arbi_nautilus.Admission.{
  Surroundings, AdmissionConfig, AccountSample, Leaves, native_by_id, known_records, own_leaves,
  sampled, working_leaves, same_keys, compare_orders, weigh, admit, is_refused, positions_differ,
  call_mismatch, freeze_and_refuse, refuse_positions,
}

-- The three differences that the call looks for, in its order.
abbrev pub Differs : Terms → Surroundings → AccountSample → Leaves → Owner → Type 0
Differs terms around accounts own o =
    let records = known_records terms o.books in
    let native = native_by_id around.orders [] in
    (positions_differ around ≡ true)
    ⊎ ((same_keys records native ≡ false)
        ⊎ (working_leaves terms accounts.source native records own ≡ ok none))

-- No: every view is shut, or no later release of this process succeeds.
abbrev pub Stopped : Terms → Result Bool × Owner → Type 0
Stopped terms (ok admitted, o') = (admitted ≡ false) × IsShut terms o'.books
Stopped terms (err e, o') = IsShut terms o'.books ⊎ IsLatched terms o'

module _ (terms : Terms) where
  refuse-Stopped :
      (p : Result (Unit {0}) × Owner)
      → Held terms p
      → Stopped terms (((λ (o : Owner). p) >> pure false) p.1)
  refuse-Stopped (ok _, o') h = (refl, h)
  refuse-Stopped (err e, o') h = inr h

  hook-Stopped :
      (p : Result (Unit {0}) × Owner) (hook : Option (Result (Unit {0})))
      → Held terms p
      → Stopped terms (((λ (o : Owner). p) >> (call_mismatch hook >> pure false)) p.1)
  hook-Stopped (ok _, o') none h = (refl, h)
  hook-Stopped (ok _, o') (some (ok _)) h = (refl, h)
  hook-Stopped (ok _, o') (some (err e)) h = inl h
  hook-Stopped (err e, o') hook h = inr h

module _ (terms : Terms) (disk : DiskCalls) (config : AdmissionConfig) (around : Surroundings)
    (o : Owner) where
  freeze-Stopped :
      (reason : String)
      → is_empty reason ≡ false
      → Stopped terms (freeze_and_refuse terms disk reason o)
  freeze-Stopped reason given =
      refuse-Stopped terms (freeze_sources terms disk reason o)
        (freeze_sources-Held terms disk reason o given)

  compare-Stopped :
      (accounts : AccountSample) (own : Leaves)
      → (same_keys (known_records terms o.books) (native_by_id around.orders []) ≡ false)
        ⊎ (working_leaves terms accounts.source
              (native_by_id around.orders [])
              (known_records terms o.books)
              own
            ≡ ok none)
      → Stopped terms (compare_orders terms disk config around accounts own o)
  unfolding compare_orders
  compare-Stopped accounts own (inl differ) =
      rw differ (freeze-Stopped "shared source/native ownership differs" refl)
  compare-Stopped accounts own (inr differ) =
      elim (Bool-cases (same_keys (known_records terms o.books) (native_by_id around.orders []))) [
        | inl same ↦ rw (same, differ) (freeze-Stopped "shared source/native facts differ" refl)
        | inr other ↦ rw other (freeze-Stopped "shared source/native ownership differs" refl)
      ]

  apart_lem :
      (side : BusinessOrderSide) (quantity : ℤ) (accounts : AccountSample)
      → sampled around ≡ some accounts
      → positions_differ around ≡ true
      → weigh terms disk config around side quantity o ≡ refuse_positions terms disk around o
  unfolding weigh
  apart_lem side quantity accounts read apart = ground (arith, read, apart)

  together_lem :
      (side : BusinessOrderSide) (quantity : ℤ) (accounts : AccountSample)
      → sampled around ≡ some accounts
      → positions_differ around ≡ false
      → weigh terms disk config around side quantity o
        ≡ compare_orders terms disk config around accounts (own_leaves side quantity) o
  unfolding weigh
  together_lem side quantity accounts read together = ground (arith, read, together)

  weigh-Stopped :
      (side : BusinessOrderSide) (quantity : ℤ) (accounts : AccountSample)
      → sampled around ≡ some accounts
      → Differs terms around accounts (own_leaves side quantity) o
      → Stopped terms (weigh terms disk config around side quantity o)
  weigh-Stopped side quantity accounts read differ = elim (Bool-cases (positions_differ around)) [
    | inl apart ↦ subst (Stopped terms) (sym (apart_lem side quantity accounts read apart)) (
        hook-Stopped terms
          (freeze_sources terms disk "shared current venue/native positions differ" o)
          around.on_position_mismatch
          (freeze_sources-Held terms disk "shared current venue/native positions differ" o refl))
    | inr together ↦
        subst (Stopped terms) (sym (together_lem side quantity accounts read together))
          (compare-Stopped accounts (own_leaves side quantity) (ground arith))
  ]

  weighs :
      (view : View) (side : BusinessOrderSide) (quantity : ℤ)
      → is_refused terms around view quantity o ≡ ok false
      → admit terms disk config around view side quantity o
        ≡ weigh terms disk config around side quantity o
  unfolding admit
  weighs view side quantity clear = ground (arith, clear)

  -- When nothing refused earlier and accounts were read, a difference between the venue's positions
  -- and the native ones, between the native source orders and the recorded ones, or between the
  -- facts of one order, is a refusal that leaves every view shut; where the freeze could not be
  -- published the call raises, and no later release of this process succeeds; and where the hook
  -- raises, every view is shut.
  pub admit-Stopped :
      (view : View) (side : BusinessOrderSide) (quantity : ℤ) (accounts : AccountSample)
      → is_refused terms around view quantity o ≡ ok false
      → sampled around ≡ some accounts
      → Differs terms around accounts (own_leaves side quantity) o
      → Stopped terms (admit terms disk config around view side quantity o)
  admit-Stopped view side quantity accounts clear read differ =
      subst (Stopped terms) (sym (weighs view side quantity clear))
        (weigh-Stopped side quantity accounts read differ)
