-- ===== src/Billing/Ledger/Records.antt =====
-- What `recordPayment` of src/services/invoice.service.ts does to the tables, by what it returns.
use vaketta_backend.Prelude.{
  ℕ, ◌+◌, ◌≤◌, ◌≡◌, ◌↔◌, inl, inr, refl, sym, subst, arith, Bool, true, Option, none, some, List,
  [], ◌∷◌, ltb, ◌==◌, if◌then◌else◌, Bool-cases,
}
use vaketta_backend.Billing.Ledger.{Invoice, Payment, Ledger}
use vaketta_backend.Billing.Ledger.Payments.{
  PaymentResult, threw, unchanged, done, RecordPaymentInput, record_payment, record_payment_to,
  requested_amount, write_payment, has_provider_payment, find_invoice, update_invoice, credit,
  outstanding_of, is_void, is_paid, is_succeeded,
}

find_invoice-credit :
    (id amount now : ℕ) (invs : List Invoice) (inv : Invoice)
    → find_invoice id invs ≡ some inv
    → find_invoice id (update_invoice id (credit amount now) invs) ≡ some (credit amount now inv)
unfolding find_invoice update_invoice credit
find_invoice-credit id amount now [] inv e = absurd (ground (arith, e))
find_invoice-credit id amount now (x ∷ invs) inv e =
    ground (arith, e, find_invoice-credit id amount now invs inv)

find_invoice_id :
    (id : ℕ) (invs : List Invoice) (inv : Invoice) → find_invoice id invs ≡ some inv → inv.id ≡ id
unfolding find_invoice
find_invoice_id id [] inv e = absurd (ground (arith, e))
find_invoice_id id (x ∷ invs) inv e = ground (arith, e, find_invoice_id id invs inv)

-- The invoice before and after a row of a payment: a positive amount, at most what was owed, is added
-- to what is paid where the payment has succeeded, and the invoice is settled exactly where that fills
-- its total.
pub record Credits (inv inv' : Invoice) (row : Payment) (settled : Bool) : Type 0 where
  pub positive : 1 ≤ row.amount
  pub fits : row.amount ≤ outstanding_of inv
  pub credited :
      inv'.amount_paid ≡ inv.amount_paid + (if is_succeeded row.status then row.amount else 0)
  pub same_total : inv'.total ≡ inv.total
  pub settles_when :
      (settled ≡ true) ↔ ((is_succeeded row.status ≡ true) × (inv'.amount_paid ≡ inv'.total))
  pub marked : settled ≡ true → is_paid inv'.status ≡ true

-- What a result says of the tables before and after.
abbrev pub Records : ℕ → Ledger → Ledger × PaymentResult → Type 0
Records id before (after, threw e) = after ≡ before
Records id before (after, unchanged) = ⊥
Records id before (after, done settled row) =
    (after.payments ≡ row ∷ before.payments)
    × ((inv : Invoice) × (inv' : Invoice) × (find_invoice id before.invoices ≡ some inv)
        × (find_invoice id after.invoices ≡ some inv')
        × Credits inv inv' row settled)

write_payment-Records :
    (input : RecordPaymentInput) (inv : Invoice) (amount now : ℕ) (ledger : Ledger)
    → find_invoice input.invoice_id ledger.invoices ≡ some inv
    → 1 ≤ amount
    → amount ≤ outstanding_of inv
    → Records input.invoice_id ledger (write_payment input inv amount now ledger)
unfolding write_payment credit
write_payment-Records input inv amount now ledger e positive fits =
    let same = find_invoice_id input.invoice_id ledger.invoices inv e in
    elim (Bool-cases (is_succeeded input.status)) [
      | inl arrived ↦ rw arrived (
        refl,
        (
          inv,
          credit amount now inv,
          e,
          subst
              (λ k.
                find_invoice input.invoice_id (update_invoice k (credit amount now) ledger.invoices)
                ≡ some (credit amount now inv))
              (sym same) (find_invoice-credit input.invoice_id amount now ledger.invoices inv e),
          record {
            positive = positive;
            fits = fits;
            credited = rw arrived (ground arith);
            same_total = ground arith;
            settles_when = ((λ k. (arrived, ground arith)), λ k. ground (arith, k.1));
            marked = λ k. ground (arith, k);
          },
        ),
      )
      | inr claimed_only ↦ rw claimed_only (
        refl,
        (
          inv,
          inv,
          e,
          e,
          record {
            positive = positive;
            fits = fits;
            credited = rw claimed_only (omega arith);
            same_total = refl;
            settles_when = (
              (λ k. absurd (ground (arith, k))),
              λ k. absurd (ground (arith, k.0, claimed_only)),
            );
            marked = λ k. absurd (ground (arith, k));
          },
        ),
      )
    ]

record_payment_to-Records :
    (found : Option Invoice) (input : RecordPaymentInput) (now : ℕ) (ledger : Ledger)
    → find_invoice input.invoice_id ledger.invoices ≡ found
    → Records input.invoice_id ledger (record_payment_to found input now ledger)
unfolding record_payment_to
record_payment_to-Records none input now ledger e = refl
record_payment_to-Records (some inv) input now ledger e =
    let amount = requested_amount input.amount (outstanding_of inv) in
    elim (Bool-cases (is_void inv.status)) [
      | inl v ↦ rw v refl
      | inr live ↦ elim (Bool-cases (amount == 0)) [
        | inl z ↦ rw (live, z) refl
        | inr positive ↦ elim (Bool-cases (ltb (outstanding_of inv) amount)) [
          | inl over ↦ rw (live, positive, over) refl
          | inr fits ↦
              elim (Bool-cases (has_provider_payment input.provider_payment_id ledger.payments)) [
                | inl twice ↦ rw (live, positive, fits, twice) refl
                | inr once ↦
                    rw (live, positive, fits, once)
                      (write_payment-Records input inv amount now ledger e (ground arith)
                        (ground arith))
              ]
        ]
      ]
    ]

-- A payment is recorded or leaves the tables as they were. A recorded one adds one row, of a positive
-- amount that is at most what the invoice owed; where it has succeeded, just that amount is added to
-- what the invoice shows as paid, and else nothing; and it is reported as settling exactly where it has
-- succeeded and the invoice is paid in full by it, which then has the status paid.
pub record_payment-Records :
    (input : RecordPaymentInput) (now : ℕ) (ledger : Ledger)
    → Records input.invoice_id ledger (record_payment input now ledger)
unfolding record_payment
record_payment-Records input now ledger =
    record_payment_to-Records (find_invoice input.invoice_id ledger.invoices) input now ledger refl
