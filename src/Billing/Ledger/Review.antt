-- ===== src/Billing/Ledger/Review.antt =====
-- The review of a pending payment by `transitionPayment` of src/services/invoice.service.ts, and the
-- voiding of an invoice by src/controllers/adminBilling.controller.ts.
pub mod Soundness
use Prim.Native.String.{String}
use vaketta_backend.Prelude.{ℕ, Bool, true, false, Option, none, some, ltb, if◌then◌else◌}
use vaketta_backend.Billing.Ledger.{
  Invoice, Payment, PaymentStatus, pending, succeeded, failed, refunded, Ledger, voided,
}
use vaketta_backend.Billing.Ledger.Payments.{
  PaymentError, PaymentResult, threw, unchanged, done, invoice_not_found, voided_invoice,
  exceeds_outstanding, payment_not_found, not_pending, already_paid, already_void, has_payments,
  find_invoice, find_payment, update_invoice, update_payment, credit, settles, outstanding_of,
  is_void, is_paid, is_pending,
}

-- Where a pending payment can go.
pub data Settlement : Type 0 where
  to_succeeded to_failed : Settlement

abbrev pub status_eq : PaymentStatus → Settlement → Bool
status_eq pending s = false
status_eq succeeded to_succeeded = true
status_eq succeeded to_failed = false
status_eq failed to_succeeded = false
status_eq failed to_failed = true
status_eq refunded s = false

-- `...(actorId ? { reviewedByAdminId: actorId } : {})`.
abbrev pub or_kept : Option ℕ → Option ℕ → Option ℕ
or_kept (some actor) old = some actor
or_kept none old = old

-- The claim on the row: a reviewer is noted where there is one, and the reason of a rejection.
abbrev pub claimed : Settlement → Option ℕ → Option String → Payment → Payment
claimed to_succeeded actor reason p = record p {
  status = succeeded;
  reviewed_by = or_kept actor p.reviewed_by;
}
claimed to_failed actor reason p = record p {
  status = failed;
  reviewed_by = or_kept actor p.reviewed_by;
  failure_reason = reason;
}

-- The approval of a payment, by the invoice that it is for.
unfoldable pub approve : Option Invoice → Payment → Option ℕ → ℕ → Ledger → Ledger × PaymentResult
approve none p actor now ledger = (ledger, threw invoice_not_found)
approve (some inv) p actor now ledger =
    if is_void inv.status
    then (ledger, threw voided_invoice)
    else (if is_paid inv.status
        then (ledger, threw already_paid)
        else (if ltb (outstanding_of inv) p.amount then (ledger, threw exceeds_outstanding) else (
          record ledger {
            payments = update_payment p.id (claimed to_succeeded actor none) ledger.payments;
            invoices = update_invoice inv.id (credit p.amount now) ledger.invoices;
          },
          done (settles p.amount inv) (claimed to_succeeded actor none p),
        )))

-- A pending payment that is claimed.
unfoldable pub claim :
    Settlement → Payment → Option ℕ → Option String → ℕ → Ledger → Ledger × PaymentResult
unfolding approve
claim to_succeeded p actor reason now ledger =
    approve (find_invoice p.invoice_id ledger.invoices) p actor now ledger
claim to_failed p actor reason now ledger = (
  record ledger { payments = update_payment p.id (claimed to_failed actor reason) ledger.payments },
  done false (claimed to_failed actor reason p),
)

unfoldable pub transition_of :
    Option Payment → Settlement → Option ℕ → Option String → ℕ → Ledger → Ledger × PaymentResult
unfolding claim
transition_of none target actor reason now ledger = (ledger, threw payment_not_found)
transition_of (some p) target actor reason now ledger =
    if status_eq p.status target
    then (ledger, unchanged)
    else (if is_pending p.status
        then claim target p actor reason now ledger
        else (ledger, threw not_pending))

unfoldable pub transition_payment :
    ℕ → Settlement → Option ℕ → Option String → ℕ → Ledger → Ledger × PaymentResult
unfolding transition_of
transition_payment id target actor reason now ledger =
    transition_of (find_payment id ledger.payments) target actor reason now ledger

-- `voidInvoiceHandler`.
unfoldable pub void_found : Option Invoice → Ledger → Ledger × Option PaymentError
void_found none ledger = (ledger, some invoice_not_found)
void_found (some inv) ledger =
    if is_void inv.status
    then (ledger, some already_void)
    else (if is_paid inv.status
        then (ledger, some already_paid)
        else (if ltb 0 inv.amount_paid then (ledger, some has_payments) else (
          record ledger {
            invoices = update_invoice inv.id (λ i. record i { status = voided }) ledger.invoices;
          },
          none,
        )))

unfoldable pub void_invoice : ℕ → Ledger → Ledger × Option PaymentError
unfolding void_found
void_invoice id ledger = void_found (find_invoice id ledger.invoices) ledger
