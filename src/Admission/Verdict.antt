-- ===== src/Admission/Verdict.antt =====
-- Where `SharedSourceAdmission.__call__` of src/py000_nautilus/shared_admission.py says yes.
use arbi_nautilus.Base.{
  ◌≡◌, ◌≢◌, refl, sym, ap, subst, ◌∙◌, inl, inr, true, false, ℤ, Option, none, some, [], Result, ok,
  err, arith, Bool-cases, Option-cases, Result-cases, pure, ◌>>◌, bind-ok,
}
use arbi_nautilus.Durability.{DiskCalls}
use arbi_nautilus.Models.{BusinessOrderSide}
use arbi_nautilus.MakerStore.{View, Terms, all_views, balance_is_admissible, carry_residual_ounces}
use arbi_nautilus.MakerStore.Publish.{Owner, view_can_submit, freeze_sources}
use arbi_nautilus.MakerStore.Dispatch.{first_unfinished_hedge}
use arbi_nautilus.Admission.{
  Surroundings, AdmissionConfig, AccountSample, Leaves, native_by_id, known_records, own_leaves,
  sampled, working_leaves, same_keys, compare_orders, weigh, admit, is_refused, some_stopped, judge,
  positions_differ, call_mismatch, freeze_and_refuse, refuse_positions,
}
use arbi_nautilus.Admission.Working.{working_total}
use arbi_nautilus.Admission.Loop.{IsSum, working_leaves-total}
use arbi_nautilus.Admission.Admitted.{
  Covered, Budgeted, budget_fits-Budgeted, refused, buys_of, sells_of,
}

-- The state did not change, and every run of fills of the working orders and the new one keeps
-- every limit.
abbrev Weighed :
    Terms → AdmissionConfig → Surroundings → AccountSample → Leaves → Owner → Owner → Type 0
Weighed terms config around accounts own o o' =
    (o' ≡ o)
    × ((residual : ℤ) × ((carry_residual_ounces terms o.books ≡ ok residual)
          × Covered config accounts residual (buys_of around own) (sells_of around own)))

module _ (terms : Terms) (disk : DiskCalls) (config : AdmissionConfig) (around : Surroundings)
    (o o' : Owner) where
  summed :
      (accounts : AccountSample) (own t : Leaves)
      → IsSum own
          (working_total true (native_by_id around.orders []))
          (working_total false (native_by_id around.orders []))
          t
      → Budgeted terms config accounts t o.books
      → Weighed terms config around accounts own o o
  summed accounts own t (b, s) (residual, (found, covered)) = (
    refl,
    (
      residual,
      (
        found,
        subst (λ z. Covered config accounts residual (buys_of around own) z) s
            (subst (λ z. Covered config accounts residual z t.selling) b covered),
      ),
    ),
  )

  judged :
      (accounts : AccountSample) (own : Leaves) (r : Result (Option Leaves))
      → same_keys (known_records terms o.books) (native_by_id around.orders []) ≡ true
      → working_leaves terms accounts.source
          (native_by_id around.orders [])
          (known_records terms o.books)
          own
        ≡ r
      → judge terms disk config accounts r o ≡ (ok true, o')
      → Weighed terms config around accounts own o o'
  judged accounts own (err e) same found h = absurd (ground arith)
  judged accounts own (ok none) same found h =
      absurd (
        refused (freeze_sources terms disk "shared source/native facts differ") o (ap (λ p. p.0) h))
  judged accounts own (ok (some t)) same found h =
      subst (Weighed terms config around accounts own o) (ap (λ p. p.1) h) (
        summed accounts own t
          (working_leaves-total terms accounts.source o.books around.orders own t same found)
          (budget_fits-Budgeted terms config accounts t o.books (ap (λ p. p.0) h)))

  agreed :
      (accounts : AccountSample) (own : Leaves)
      → same_keys (known_records terms o.books) (native_by_id around.orders []) ≡ true
      → compare_orders terms disk config around accounts own o
        ≡ judge terms disk config accounts
            (working_leaves terms accounts.source
              (native_by_id around.orders [])
              (known_records terms o.books)
              own)
            o
  unfolding compare_orders
  agreed accounts own same = rw same refl

  differed :
      (accounts : AccountSample) (own : Leaves)
      → same_keys (known_records terms o.books) (native_by_id around.orders []) ≡ false
      → compare_orders terms disk config around accounts own o
        ≡ freeze_and_refuse terms disk "shared source/native ownership differs" o
  unfolding compare_orders
  differed accounts own differ = rw differ refl

  not_ready : ((refuse_positions terms disk around) o).0 ≢ ok true
  not_ready h =
      let rest = call_mismatch around.on_position_mismatch >> pure false in
      let (_, _, e, _) =
        bind-ok (freeze_sources terms disk "shared current venue/native positions differ")
          (λ _. rest) o true h in
      refused (call_mismatch around.on_position_mismatch) _ e

  compared :
      (accounts : AccountSample) (own : Leaves)
      → compare_orders terms disk config around accounts own o ≡ (ok true, o')
      → Weighed terms config around accounts own o o'
  unfolding compare_orders
  compared accounts own h =
      elim (Bool-cases (same_keys (known_records terms o.books) (native_by_id around.orders []))) [
        | inl same ↦
            judged accounts own _ same refl
              (subst (λ p. p ≡ (ok true, o')) (agreed accounts own same) h)
        | inr differ ↦ absurd (
            refused (freeze_sources terms disk "shared source/native ownership differs") o
              (ap (λ p. p.0) (sym (differed accounts own differ) ∙ h)))
      ]

  weighed :
      (side : BusinessOrderSide) (quantity : ℤ)
      → weigh terms disk config around side quantity o ≡ (ok true, o')
      → (accounts : AccountSample) × ((sampled around ≡ some accounts)
          × Weighed terms config around accounts (own_leaves side quantity) o o')
  unfolding weigh
  weighed side quantity h = elim (Option-cases (sampled around)) [
    | inl none_read ↦ absurd (ground (arith, none_read, h))
    | inr (accounts, read) ↦ (
      accounts,
      (
        read,
        elim (Bool-cases (positions_differ around)) [
          | inl differ ↦ absurd (not_ready (ground (arith, read, differ, h)))
          | inr same ↦ compared accounts (own_leaves side quantity) (ground (arith, read, same, h))
        ],
      ),
    )
  ]

-- No view is halted or frozen, no hedge is due, and the balances are admissible.
abbrev pub Clear : Terms → View → Owner → Type 0
Clear terms view o =
    (view_can_submit terms o.books view ≡ ok true)
    × ((balance_is_admissible terms o.books ≡ ok true)
        × ((some_stopped o.books (all_views terms) ≡ false)
            × (first_unfinished_hedge terms o.books ≡ none)))

passed :
    (terms : Terms) (around : Surroundings) (view : View) (quantity : ℤ) (o : Owner)
    → is_refused terms around view quantity o ≡ ok false
    → Clear terms view o
unfolding is_refused
passed terms around view quantity o h = elim (Result-cases (view_can_submit terms o.books view)) [
  | inl (e, failed) ↦ absurd (ground arith)
  | inr (can, asked) ↦ elim (Result-cases (balance_is_admissible terms o.books)) [
    | inl (e, failed) ↦ absurd (ground arith)
    | inr (balanced, found) ↦ ground arith
  ]
]

-- What an admission found: a clear state that it left as it was, the accounts that were read, and a
-- carried residual with which every run of fills keeps every limit.
abbrev pub Admitted :
    Terms → AdmissionConfig → Surroundings → View → BusinessOrderSide → ℤ → Owner → Owner → Type 0
Admitted terms config around view side quantity o o' =
    Clear terms view o
    × ((accounts : AccountSample) × ((sampled around ≡ some accounts)
          × Weighed terms config around accounts (own_leaves side quantity) o o'))

-- When the shared admission says yes to a new source order, it has changed nothing, no view was
-- stopped and no hedge due, and for every run of fills that buys and sells no more than what all
-- native source orders have left together with the new order: the source account stays within its
-- capacities and limits, the unhedged amount within the configured one even if nothing were
-- hedged, and the hedge account within its own with the whole ounces that the fills are rounded to.
pub admit-Admitted :
    (terms : Terms) (disk : DiskCalls) (config : AdmissionConfig) (around : Surroundings)
    (view : View) (side : BusinessOrderSide) (quantity : ℤ) (o o' : Owner)
    → admit terms disk config around view side quantity o ≡ (ok true, o')
    → Admitted terms config around view side quantity o o'
unfolding admit
admit-Admitted terms disk config around view side quantity o o' h =
    elim (Result-cases (is_refused terms around view quantity o)) [
      | inl (e, failed) ↦ absurd (ground (arith, failed, h))
      | inr (true, refusing) ↦ absurd (ground (arith, refusing, h))
      | inr (false, clear) ↦ (
        passed terms around view quantity o clear,
        weighed terms disk config around o o' side quantity (ground (arith, clear, h)),
      )
    ]
