-- ===== src/Billing/Ledger/Soundness.antt =====
-- The balance of the ledger through the issuing of an invoice and the recording of a payment.
use vaketta_backend.Prelude.{
  ℕ, ◌+◌, ◌≤◌, ◌≡◌, inl, inr, refl, ap, arith, false, Option, none, some, List, [], ◌∷◌, Bool-cases,
  ◌∙◌,
}
use vaketta_backend.Billing.Ledger.{
  Invoice, Payment, Ledger, IssueInvoiceInput, issue_invoice, issue_found, new_invoice, find_period,
}
use vaketta_backend.Billing.Ledger.Payments.{
  find_invoice, update_invoice, outstanding_of, credit, is_void, is_succeeded, RecordPaymentInput,
  requested_amount, new_payment, write_payment, record_payment_to, record_payment,
}
use vaketta_backend.Billing.Ledger.Credit.{
  received, IsBalanced, AllBalanced, AllDated, IsSound, AllDated-le, AllBalanced-le, received_fresh,
  find_invoice-IsBalanced, AllBalanced-credit, IsBalanced-other,
}

pub AllBalanced-same :
    (n : ℕ) (ps qs : List Payment) (invs : List Invoice)
    → AllBalanced n ps invs
    → ((k : ℕ) → received k qs ≡ received k ps)
    → AllBalanced n qs invs
AllBalanced-same n ps qs [] b r = tt
AllBalanced-same n ps qs (x ∷ invs) b r =
    (b.0, IsBalanced-other ps qs x (r x.id) b.1, AllBalanced-same x.id ps qs invs b.2 r)

issue_found-IsSound :
    (found : Option Invoice) (input : IssueInvoiceInput) (now year : ℕ) (ledger : Ledger)
    → IsSound ledger
    → IsSound (issue_found found input now year ledger).0
unfolding issue_found
issue_found-IsSound (some old) input now year ledger s = s
issue_found-IsSound none input now year ledger s = record {
  balanced = (
    (unfold new_invoice in omega arith),
    new_invoice-IsBalanced,
    (unfold new_invoice in s.balanced),
  );
  dated = AllDated-le ledger.next_id (ledger.next_id + 1) ledger.payments (omega arith) s.dated;
}
  where
    new_invoice-IsBalanced : IsBalanced ledger.payments (new_invoice input now year ledger)
    new_invoice-IsBalanced =
        let none_yet =
          received_fresh ledger.next_id ledger.next_id ledger.payments (omega arith) s.dated in
        unfold new_invoice in
        (record { backed = omega arith; within = omega arith; fits = ground arith })

pub issue_invoice-IsSound :
    (input : IssueInvoiceInput) (now year : ℕ) (ledger : Ledger)
    → IsSound ledger
    → IsSound (issue_invoice input now year ledger).0
unfolding issue_invoice
issue_invoice-IsSound input now year ledger s =
    issue_found-IsSound (find_period input.hotel_id input.period_start ledger.invoices) input now
      year ledger s

write_payment-IsSound :
    (input : RecordPaymentInput) (inv : Invoice) (amount now : ℕ) (ledger : Ledger)
    → IsSound ledger
    → find_invoice inv.id ledger.invoices ≡ some inv
    → amount ≤ outstanding_of inv
    → is_void inv.status ≡ false
    → IsSound (write_payment input inv amount now ledger).0
unfolding write_payment
write_payment-IsSound input inv amount now ledger s e fits v =
    let row = new_payment input inv amount ledger.next_id in
    let (same, below, bal) =
      find_invoice-IsBalanced ledger.next_id inv.id ledger.payments ledger.invoices inv e
        s.balanced in
    let dated : AllDated (ledger.next_id + 1) (row ∷ ledger.payments) =
      (omega arith, below, s.dated) in
    elim (Bool-cases (is_succeeded input.status)) [
      | inl arrived ↦ rw arrived (record {
        balanced =
            AllBalanced-le ledger.next_id (ledger.next_id + 1) (row ∷ ledger.payments)
              (update_invoice inv.id (credit amount now) ledger.invoices) (omega arith)
              (AllBalanced-credit ledger.next_id inv.id amount now ledger.payments
                (row ∷ ledger.payments) ledger.invoices s.balanced (rw e (fits, v))
                (λ k. rw arrived (ground arith)));
        dated = dated;
      })
      | inr claimed_only ↦ rw claimed_only (record {
        balanced =
            AllBalanced-le ledger.next_id (ledger.next_id + 1) (row ∷ ledger.payments)
              ledger.invoices (omega arith)
              (AllBalanced-same ledger.next_id ledger.payments (row ∷ ledger.payments)
                ledger.invoices s.balanced (λ k. rw claimed_only (ground arith)));
        dated = dated;
      })
    ]

record_payment_to-IsSound :
    (found : Option Invoice) (input : RecordPaymentInput) (now : ℕ) (ledger : Ledger)
    → find_invoice input.invoice_id ledger.invoices ≡ found
    → IsSound ledger
    → IsSound (record_payment_to found input now ledger).0
unfolding record_payment_to
record_payment_to-IsSound none input now ledger e s = s
record_payment_to-IsSound (some inv) input now ledger e s =
    let (same, below, bal) =
      find_invoice-IsBalanced ledger.next_id input.invoice_id ledger.payments ledger.invoices inv e
        s.balanced in
    let amount = requested_amount input.amount (outstanding_of inv) in
    ground (
      arith,
      write_payment-IsSound input inv amount now ledger s
          (ap (λ k. find_invoice k ledger.invoices) same ∙ e),
    )

-- Recording a payment keeps the ledger sound, whatever is asked for and however it ends.
pub record_payment-IsSound :
    (input : RecordPaymentInput) (now : ℕ) (ledger : Ledger)
    → IsSound ledger
    → IsSound (record_payment input now ledger).0
unfolding record_payment
record_payment-IsSound input now ledger s =
    record_payment_to-IsSound (find_invoice input.invoice_id ledger.invoices) input now ledger refl
      s
