-- ===== src/Billing/Ledger/Gateway.antt =====
-- The settlement of a payment that the provider reports: `settleRazorpayPayment` of
-- src/services/razorpayPayment.service.ts. Audit events are left out.
pub mod Redelivery
use Prim.Native.String.{String, [] as nil, ◌∷◌ as cons}
use Prim.Native.Char.{code}
use vaketta_backend.Prelude.{
  ℕ, ◌-◌, Bool, true, false, not, ◌&&◌, ◌||◌, Option, none, some, List, [], ◌∷◌, ltb, leb, ◌==◌,
  if◌then◌else◌,
}
use vaketta_backend.Js.{JsNumber, nan, infinite, finite, of_ℕ, is_integer, is_finite, is_exact}
use vaketta_backend.Billing.Ledger.{Invoice, Payment, Ledger, succeeded, pending}
use vaketta_backend.Billing.Ledger.Payments.{
  PaymentError, PaymentResult, threw, unchanged, done, voided_invoice, amount_not_positive,
  exceeds_outstanding, duplicate_payment, RecordPaymentInput, record_payment, find_invoice, carries,
  update_invoice, outstanding_of, is_void, is_paid, is_pending,
}

-- The letters of an ASCII text as `toUpperCase` leaves them.
unfoldable pub upper_codes : String → List ℕ
upper_codes nil = []
upper_codes (cons c s) =
    (if leb 97 (code c) && leb (code c) 122 then code c - 32 else code c) ∷ upper_codes s

unfoldable pub same_codes : List ℕ → List ℕ → Bool
same_codes [] [] = true
same_codes [] (y ∷ ys) = false
same_codes (x ∷ xs) [] = false
same_codes (x ∷ xs) (y ∷ ys) = let rest = same_codes xs ys in x == y && rest

abbrev pub is_supported_currency : String → Bool
is_supported_currency currency = same_codes (upper_codes currency) (upper_codes "INR")

pub record SettleInput : Type 0 where
  pub order_id : String
  pub payment_id : String
  pub amount : JsNumber
  pub currency : String

pub data RejectReason : Type 0 where
  unknown_order invoice_void invoice_already_paid amount_mismatch currency_mismatch invalid_amount :
      RejectReason

-- What a settlement returns; an error of `recordPayment` other than a duplicate is thrown on.
pub data SettleResult : Type 0 where
  settled partial : ℕ → SettleResult
  already_processed : ℕ → SettleResult
  rejected : RejectReason → Option ℕ → SettleResult
  settle_threw : PaymentError → SettleResult

unfoldable pub find_provider_payment : String → List Payment → Option Payment
find_provider_payment key [] = none
find_provider_payment key (p ∷ ps) =
    if carries key p.provider_payment_id then some p else find_provider_payment key ps

unfoldable pub find_order : String → List Invoice → Option Invoice
find_order key [] = none
find_order key (inv ∷ invs) =
    if carries key inv.provider_order_id then some inv else find_order key invs

-- `Number.isFinite(amount) && Number.isInteger(amount) && amount > 0`.
abbrev pub is_positive_integer : JsNumber → Bool
is_positive_integer nan = false
is_positive_integer (infinite _) = false
is_positive_integer (finite true _ _) = false
is_positive_integer (finite false whole fraction) = is_exact fraction && ltb 0 whole

abbrev pub whole_part : JsNumber → ℕ
whole_part nan = 0
whole_part (infinite _) = 0
whole_part (finite _ whole _) = whole

-- What the checks before the write decide: a result, or the invoice to credit.
pub data GatewayCheck : Type 0 where
  answered : SettleResult → GatewayCheck
  passed : Invoice → GatewayCheck

unfoldable pub check_invoice : Option Invoice → SettleInput → GatewayCheck
check_invoice none input = answered (rejected unknown_order none)
check_invoice (some inv) input =
    if is_void inv.status
    then answered (rejected invoice_void (some inv.id))
    else (if is_paid inv.status
        then answered (rejected invoice_already_paid (some inv.id))
        else (if not (same_codes (upper_codes inv.currency) (upper_codes input.currency))
              || not (is_supported_currency input.currency)
            then answered (rejected currency_mismatch (some inv.id))
            else (if not (is_positive_integer input.amount)
                then answered (rejected invalid_amount (some inv.id))
                else (if not (whole_part input.amount == outstanding_of inv)
                    then answered (rejected amount_mismatch (some inv.id))
                    else passed inv))))

-- Layer 1 asks whether this attempt is recorded already.
unfoldable pub check_recorded : Option Payment → SettleInput → Ledger → GatewayCheck
unfolding check_invoice
check_recorded (some p) input ledger = answered (already_processed p.invoice_id)
check_recorded none input ledger = check_invoice (find_order input.order_id ledger.invoices) input

unfoldable pub gateway_check : SettleInput → Ledger → GatewayCheck
unfolding check_recorded
gateway_check input ledger =
    check_recorded (find_provider_payment input.payment_id ledger.payments) input ledger

abbrev pub gateway_payment : SettleInput → ℕ → RecordPaymentInput
gateway_payment input invoice_id = record {
  invoice_id = invoice_id;
  amount = some input.amount;
  status = succeeded;
  method = "razorpay";
  provider_payment_id = some input.payment_id;
  recorded_by = none;
  failure_reason = none;
}

-- Layer 2: a duplicate that the database refuses was recorded by the other path.
abbrev pub gateway_result : PaymentResult → ℕ → SettleResult
gateway_result (threw duplicate_payment) id = already_processed id
gateway_result (threw e) id = settle_threw e
gateway_result unchanged id = partial id
gateway_result (done true row) id = settled id
gateway_result (done false row) id = partial id

-- The write that follows the checks, on the tables as they are by then.
unfoldable pub gateway_record : SettleInput → ℕ → ℕ → Ledger → Ledger × SettleResult
gateway_record input id now ledger =
    let (after, result) = record_payment (gateway_payment input id) now ledger in
    (after, gateway_result result id)

unfoldable pub settle_checked : GatewayCheck → SettleInput → ℕ → Ledger → Ledger × SettleResult
settle_checked (answered result) input now ledger = (ledger, result)
settle_checked (passed inv) input now ledger = gateway_record input inv.id now ledger

unfoldable pub settle_razorpay_payment : SettleInput → ℕ → Ledger → Ledger × SettleResult
unfolding settle_checked
settle_razorpay_payment input now ledger =
    settle_checked (gateway_check input ledger) input now ledger
