-- ===== src/Billing/Ledger/Manual.antt =====
-- The claim of an offline payment: `submitManualPayment` of src/services/manualPayment.service.ts. The
-- amount is a whole number, as the handler's validation leaves it; the proof of payment is left out.
use Prim.Native.String.{String}
use vaketta_backend.Prelude.{
  ℕ, Bool, false, not, ◌&&◌, ◌||◌, Option, none, some, List, [], ◌∷◌, ltb, ◌==◌, if◌then◌else◌,
}
use vaketta_backend.Js.{of_ℕ}
use vaketta_backend.Billing.Ledger.{Invoice, Payment, Ledger, pending}
use vaketta_backend.Billing.Ledger.Payments.{
  PaymentError, PaymentResult, threw, unchanged, done, voided_invoice, amount_not_positive,
  exceeds_outstanding, RecordPaymentInput, record_payment, find_invoice, outstanding_of, is_void,
  is_paid, is_pending,
}

pub data SubmitResult : Type 0 where
  submit_not_found submit_void submit_paid nothing_outstanding amount_exceeds_outstanding
        duplicate_pending :
      SubmitResult
  submitted : Payment → SubmitResult
  submit_threw : PaymentError → SubmitResult

unfoldable pub has_pending : ℕ → List Payment → Bool
has_pending id [] = false
has_pending id (p ∷ ps) =
    let rest = has_pending id ps in (p.invoice_id == id && is_pending p.status) || rest

abbrev pub manual_payment : ℕ → ℕ → String → RecordPaymentInput
manual_payment invoice_id amount method = record {
  invoice_id = invoice_id;
  amount = some (of_ℕ amount);
  status = pending;
  method = method;
  provider_payment_id = none;
  recorded_by = none;
  failure_reason = none;
}

-- The guards of `recordPayment` on the amount come back as a refusal.
abbrev pub submit_result : PaymentResult → SubmitResult
submit_result (threw voided_invoice) = amount_exceeds_outstanding
submit_result (threw amount_not_positive) = amount_exceeds_outstanding
submit_result (threw exceeds_outstanding) = amount_exceeds_outstanding
submit_result (threw e) = submit_threw e
submit_result unchanged = duplicate_pending
submit_result (done settled_now row) = submitted row

unfoldable pub submit_found : Option Invoice → ℕ → ℕ → String → ℕ → Ledger → Ledger × SubmitResult
submit_found none hotel_id amount method now ledger = (ledger, submit_not_found)
submit_found (some inv) hotel_id amount method now ledger =
    if not (inv.hotel_id == hotel_id)
    then (ledger, submit_not_found)
    else (if is_void inv.status
        then (ledger, submit_void)
        else (if is_paid inv.status
            then (ledger, submit_paid)
            else (if outstanding_of inv == 0
                then (ledger, nothing_outstanding)
                else (if ltb (outstanding_of inv) amount
                    then (ledger, amount_exceeds_outstanding)
                    else (if has_pending inv.id ledger.payments
                        then (ledger, duplicate_pending)
                        else (let (after, result) =
                              record_payment (manual_payment inv.id amount method) now ledger in
                            (after, submit_result result)))))))

-- `submitManualPayment` of an amount against one of the hotel's own invoices.
unfoldable pub submit_manual_payment : ℕ → ℕ → ℕ → String → ℕ → Ledger → Ledger × SubmitResult
unfolding submit_found
submit_manual_payment id hotel_id amount method now ledger =
    submit_found (find_invoice id ledger.invoices) hotel_id amount method now ledger
