-- ===== src/Billing/Ledger/Payments.antt =====
-- Payments against invoices: `recordPayment` and `applyPaymentToInvoice` of
-- src/services/invoice.service.ts. A thrown error leaves the tables as they were, since
-- each operation is one transaction. What follows a settlement outside the tables, the events and the
-- reactivation of the hotel, is left to the callers of these operations.
use Prim.Native.String.{String}
use text.Mathlib.Text.{◌==◌ as str_eq}
use vaketta_backend.Prelude.{
  ℕ, ◌+◌, ◌-◌, Bool, true, false, Option, none, some, List, [], ◌∷◌, ltb, leb, ◌==◌, if◌then◌else◌,
}
use vaketta_backend.Js.{exact, below_half, from_half, JsNumber, nan, infinite, finite}
use vaketta_backend.Billing.Ledger.{
  Invoice, InvoiceStatus, draft, open_, paid, voided, uncollectible, Payment, PaymentStatus,
  pending, succeeded, failed, refunded, Ledger,
}

pub data PaymentError : Type 0 where
  invoice_not_found voided_invoice amount_not_positive exceeds_outstanding duplicate_payment
        payment_not_found not_pending already_paid already_void has_payments :
      PaymentError

-- What an operation returns: an error, or whether the invoice was settled and the row written.
pub data PaymentResult : Type 0 where
  threw : PaymentError → PaymentResult
  unchanged : PaymentResult
  done : Bool → Payment → PaymentResult

unfoldable pub find_invoice : ℕ → List Invoice → Option Invoice
find_invoice id [] = none
find_invoice id (inv ∷ invs) = if inv.id == id then some inv else find_invoice id invs

unfoldable pub find_payment : ℕ → List Payment → Option Payment
find_payment id [] = none
find_payment id (p ∷ ps) = if p.id == id then some p else find_payment id ps

unfoldable pub update_invoice : ℕ → (Invoice → Invoice) → List Invoice → List Invoice
update_invoice id f [] = []
update_invoice id f (inv ∷ invs) =
    if inv.id == id then f inv ∷ update_invoice id f invs else inv ∷ update_invoice id f invs

unfoldable pub update_payment : ℕ → (Payment → Payment) → List Payment → List Payment
update_payment id f [] = []
update_payment id f (p ∷ ps) =
    if p.id == id then f p ∷ update_payment id f ps else p ∷ update_payment id f ps

-- Whether a unique column holds a key.
abbrev pub carries : String → Option String → Bool
carries key none = false
carries key (some other) = str_eq other key

-- The unique column `providerPaymentId` of prisma/schema.prisma: the database refuses a second row with
-- a key, which `recordPayment` does not look for itself.
unfoldable pub has_provider_payment : Option String → List Payment → Bool
has_provider_payment none ps = false
has_provider_payment (some key) [] = false
has_provider_payment (some key) (p ∷ ps) =
    if carries key p.provider_payment_id then true else has_provider_payment (some key) ps

abbrev pub outstanding_of : Invoice → ℕ
outstanding_of inv = inv.total - inv.amount_paid

-- `applyPaymentToInvoice`: the only place that credits an invoice and settles it.
unfoldable pub credit : ℕ → ℕ → Invoice → Invoice
credit amount now inv =
    if leb inv.total (inv.amount_paid + amount)
    then record inv { amount_paid = inv.amount_paid + amount; status = paid; paid_at = some now }
    else record inv { amount_paid = inv.amount_paid + amount }

abbrev pub settles : ℕ → Invoice → Bool
settles amount inv = leb inv.total (inv.amount_paid + amount)

pub record RecordPaymentInput : Type 0 where
  pub invoice_id : ℕ
  pub amount : Option JsNumber
  pub status : PaymentStatus
  pub method : String
  pub provider_payment_id : Option String
  pub recorded_by : Option ℕ
  pub failure_reason : Option String

-- The amount that is asked for, as `Math.round` leaves it; 0 stands for each amount that is refused as
-- not positive.
unfoldable pub requested_amount : Option JsNumber → ℕ → ℕ
requested_amount none outstanding = outstanding
requested_amount (some (finite false whole exact)) outstanding = whole
requested_amount (some (finite false whole below_half)) outstanding = whole
requested_amount (some (finite false whole from_half)) outstanding = whole + 1
requested_amount (some (finite true _ _)) outstanding = 0
requested_amount (some nan) outstanding = 0
requested_amount (some (infinite _)) outstanding = 0

abbrev pub is_void : InvoiceStatus → Bool
is_void draft = false
is_void open_ = false
is_void paid = false
is_void voided = true
is_void uncollectible = false

abbrev pub is_paid : InvoiceStatus → Bool
is_paid draft = false
is_paid open_ = false
is_paid paid = true
is_paid voided = false
is_paid uncollectible = false

abbrev pub is_succeeded : PaymentStatus → Bool
is_succeeded pending = false
is_succeeded succeeded = true
is_succeeded failed = false
is_succeeded refunded = false

abbrev pub new_payment : RecordPaymentInput → Invoice → ℕ → ℕ → Payment
new_payment input inv amount id = record {
  id = id;
  hotel_id = inv.hotel_id;
  invoice_id = inv.id;
  status = input.status;
  currency = inv.currency;
  amount = amount;
  method = input.method;
  provider_payment_id = input.provider_payment_id;
  recorded_by = input.recorded_by;
  reviewed_by = none;
  failure_reason = input.failure_reason;
}

-- The row is written; only one that has succeeded moves the balance.
unfoldable pub write_payment :
    RecordPaymentInput → Invoice → ℕ → ℕ → Ledger → Ledger × PaymentResult
write_payment input inv amount now ledger =
    let row = new_payment input inv amount ledger.next_id in
    let written = record ledger {
      payments = row ∷ ledger.payments;
      next_id = ledger.next_id + 1;
    } in
    if is_succeeded input.status
    then (
      record written { invoices = update_invoice inv.id (credit amount now) ledger.invoices },
      done (settles amount inv) row,
    )
    else (written, done false row)

unfoldable pub record_payment_to :
    Option Invoice → RecordPaymentInput → ℕ → Ledger → Ledger × PaymentResult
record_payment_to none input now ledger = (ledger, threw invoice_not_found)
record_payment_to (some inv) input now ledger =
    let outstanding = outstanding_of inv in
    let amount = requested_amount input.amount outstanding in
    if is_void inv.status
    then (ledger, threw voided_invoice)
    else (if amount == 0
        then (ledger, threw amount_not_positive)
        else (if ltb outstanding amount
            then (ledger, threw exceeds_outstanding)
            else (if has_provider_payment input.provider_payment_id ledger.payments
                then (ledger, threw duplicate_payment)
                else write_payment input inv amount now ledger)))

unfoldable pub record_payment : RecordPaymentInput → ℕ → Ledger → Ledger × PaymentResult
unfolding record_payment_to
record_payment input now ledger =
    record_payment_to (find_invoice input.invoice_id ledger.invoices) input now ledger

abbrev pub is_pending : PaymentStatus → Bool
is_pending pending = true
is_pending succeeded = false
is_pending failed = false
is_pending refunded = false
