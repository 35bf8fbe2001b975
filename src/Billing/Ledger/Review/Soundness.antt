-- ===== src/Billing/Ledger/Review/Soundness.antt =====
-- The balance of the ledger through the review of payments and the voiding of invoices.
use Prim.Native.String.{String}
use mathlib.Core.Path.{subst}
use mathlib.Core.Option.{some-injective}
use vaketta_backend.Prelude.{
  ℕ, ◌≡◌, inl, inr, refl, ap, arith, true, Option, none, some, List, [], ◌∷◌, ltb, ◌==◌, Bool-cases,
  ltb→le, ==_iff, ◌∙◌,
}
use vaketta_backend.Billing.Ledger.{Invoice, voided, Payment, Ledger}
use vaketta_backend.Billing.Ledger.Payments.{
  find_invoice, find_payment, update_invoice, update_payment, outstanding_of, credit, is_void,
  is_paid, is_pending,
}
use vaketta_backend.Billing.Ledger.Review.{
  Settlement, to_succeeded, to_failed, claimed, approve, claim, transition_of, transition_payment,
  void_found, void_invoice, status_eq,
}
use vaketta_backend.Billing.Ledger.Credit.{
  AllBalanced, IsSound, find_invoice-IsBalanced, AllBalanced-credit, AllBalanced-void, Takes,
}
use vaketta_backend.Billing.Ledger.Received.{AllDated-update, received-update}
use vaketta_backend.Billing.Ledger.Soundness.{AllBalanced-same}

approve-IsSound :
    (found : Option Invoice) (p : Payment) (actor : Option ℕ) (now : ℕ) (ledger : Ledger)
    → find_invoice p.invoice_id ledger.invoices ≡ found
    → find_payment p.id ledger.payments ≡ some p
    → is_pending p.status ≡ true
    → IsSound ledger
    → IsSound (approve found p actor now ledger).0
unfolding approve
approve-IsSound none p actor now ledger e f pend s = s
approve-IsSound (some inv) p actor now ledger e f pend s =
    let (same, below, bal) =
      find_invoice-IsBalanced ledger.next_id p.invoice_id ledger.payments ledger.invoices inv e
        s.balanced in
    let qs = update_payment p.id (claimed to_succeeded actor none) ledger.payments in
    let dated =
      AllDated-update ledger.next_id p.id to_succeeded actor none ledger.payments s.dated in
    let credited : Takes p.amount (some inv)
        → AllBalanced ledger.next_id qs
            (update_invoice inv.id (credit p.amount now) ledger.invoices) =
      λ t.
        AllBalanced-credit ledger.next_id inv.id p.amount now ledger.payments qs ledger.invoices
          s.balanced (rw (ap (λ k. find_invoice k ledger.invoices) same ∙ e) t)
          (λ k.
            received-update ledger.next_id p.id to_succeeded actor none ledger.payments k s.dated
              (rw f pend)
            ∙ rw f (rw same refl)) in
    elim (Bool-cases (is_void inv.status)) [
      | inl v ↦ rw v s
      | inr live ↦ rw live (elim (Bool-cases (is_paid inv.status)) [
        | inl full ↦ rw full s
        | inr owing ↦ rw owing (elim (Bool-cases (ltb (outstanding_of inv) p.amount)) [
          | inl over ↦ rw over s
          | inr fits ↦
              rw fits (record {
                balanced = credited (omega (arith, ltb→le _ _ fits), live);
                dated = dated;
              })
        ])
      ])
    ]

pub find_payment-id :
    (id : ℕ) (ps : List Payment) (p : Payment) → find_payment id ps ≡ some p → p.id ≡ id
unfolding find_payment
find_payment-id id [] p e = absurd (ground arith)
find_payment-id id (x ∷ ps) p e = elim (Bool-cases (x.id == id)) [
  | inl same ↦ subst (λ q. q.id ≡ id) (some-injective _ _ (rw same at e)) ((==_iff x.id id).0 same)
  | inr other ↦ find_payment-id id ps p (rw other at e)
]

claim-IsSound :
    (target : Settlement) (p : Payment) (actor : Option ℕ) (reason : Option String) (now : ℕ)
    (ledger : Ledger)
    → find_payment p.id ledger.payments ≡ some p
    → is_pending p.status ≡ true
    → IsSound ledger
    → IsSound (claim target p actor reason now ledger).0
unfolding claim
claim-IsSound to_succeeded p actor reason now ledger f pend s =
    approve-IsSound (find_invoice p.invoice_id ledger.invoices) p actor now ledger refl f pend s
claim-IsSound to_failed p actor reason now ledger f pend s = record {
  balanced =
      AllBalanced-same ledger.next_id ledger.payments
        (update_payment p.id (claimed to_failed actor reason) ledger.payments) ledger.invoices
        s.balanced
        (λ k.
          received-update ledger.next_id p.id to_failed actor reason ledger.payments k s.dated
            (rw f pend)
          ∙ omega arith);
  dated = AllDated-update ledger.next_id p.id to_failed actor reason ledger.payments s.dated;
}

transition_of-IsSound :
    (found : Option Payment) (id : ℕ) (target : Settlement) (actor : Option ℕ)
    (reason : Option String) (now : ℕ) (ledger : Ledger)
    → find_payment id ledger.payments ≡ found
    → IsSound ledger
    → IsSound (transition_of found target actor reason now ledger).0
unfolding transition_of
transition_of-IsSound none id target actor reason now ledger e s = s
transition_of-IsSound (some p) id target actor reason now ledger e s =
    let i = find_payment-id id ledger.payments p e in
    let f : find_payment p.id ledger.payments ≡ some p =
      ap (λ k. find_payment k ledger.payments) i ∙ e in
    elim (Bool-cases (status_eq p.status target)) [
      | inl there ↦ rw there s
      | inr elsewhere ↦ rw elsewhere (elim (Bool-cases (is_pending p.status)) [
        | inl pend ↦ rw pend (claim-IsSound target p actor reason now ledger f pend s)
        | inr settled ↦ rw settled s
      ])
    ]

-- Settling a pending payment keeps the ledger sound, whichever way it goes.
pub transition_payment-IsSound :
    (id : ℕ) (target : Settlement) (actor : Option ℕ) (reason : Option String) (now : ℕ)
    (ledger : Ledger)
    → IsSound ledger
    → IsSound (transition_payment id target actor reason now ledger).0
unfolding transition_payment
transition_payment-IsSound id target actor reason now ledger s =
    transition_of-IsSound (find_payment id ledger.payments) id target actor reason now ledger refl s

void_found-IsSound :
    (found : Option Invoice) (id : ℕ) (ledger : Ledger)
    → find_invoice id ledger.invoices ≡ found
    → IsSound ledger
    → IsSound (void_found found ledger).0
unfolding void_found
void_found-IsSound none id ledger e s = s
void_found-IsSound (some inv) id ledger e s =
    let (same, below, bal) =
      find_invoice-IsBalanced ledger.next_id id ledger.payments ledger.invoices inv e s.balanced in
    let there = ap (λ k. find_invoice k ledger.invoices) same ∙ e in
    let voids : inv.amount_paid ≡ 0
        → AllBalanced ledger.next_id ledger.payments
            (update_invoice inv.id (λ i. record i { status = voided }) ledger.invoices) =
      λ h.
        AllBalanced-void ledger.next_id inv.id ledger.payments ledger.invoices s.balanced
          (rw there h) in
    elim (Bool-cases (is_void inv.status)) [
      | inl v ↦ rw v s
      | inr live ↦ rw live (elim (Bool-cases (is_paid inv.status)) [
        | inl full ↦ rw full s
        | inr owing ↦ rw owing (elim (Bool-cases (ltb 0 inv.amount_paid)) [
          | inl some_paid ↦ rw some_paid s
          | inr unpaid ↦
              rw unpaid
                (record { balanced = voids (omega (arith, ltb→le _ _ unpaid)); dated = s.dated })
        ])
      ])
    ]

-- Voiding an invoice keeps the ledger sound.
pub void_invoice-IsSound :
    (id : ℕ) (ledger : Ledger) → IsSound ledger → IsSound (void_invoice id ledger).0
unfolding void_invoice
void_invoice-IsSound id ledger s =
    void_found-IsSound (find_invoice id ledger.invoices) id ledger refl s
