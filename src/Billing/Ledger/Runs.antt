-- ===== src/Billing/Ledger/Runs.antt =====
-- Everything that changes invoices and payments, in any order: requests of admins and hotels, the
-- callback and the webhook of the provider, and the billing jobs. A delivery whose checks passed on
-- older tables, so that only its write is left, is an event of its own, and the callback brings the
-- tables that its handler read before the settlement.
pub mod Soundness
use Prim.Native.String.{String}
use vaketta_backend.Prelude.{ℕ, Bool, Option, none, List, [], ◌∷◌}
use vaketta_backend.Billing.Ledger.{Invoice, Ledger, IssueInvoiceInput, issue_invoice}
use vaketta_backend.Billing.Ledger.Payments.{RecordPaymentInput, record_payment}
use vaketta_backend.Billing.Ledger.Review.{Settlement, transition_payment, void_invoice}
use vaketta_backend.Billing.Ledger.Gateway.{SettleInput, settle_razorpay_payment, gateway_record}
use vaketta_backend.Billing.Ledger.Manual.{submit_manual_payment}
use vaketta_backend.Billing.Ledger.Checkout.{verify_razorpay_payment, create_invoice_order}

pub data Event : Type 0 where
  issue : IssueInvoiceInput → ℕ → Event
  record_ : RecordPaymentInput → Event
  transition : ℕ → Settlement → Option ℕ → Option String → Event
  void_ : ℕ → Event
  webhook : SettleInput → Event
  late_write : SettleInput → ℕ → Event
  callback : Bool → ℕ → String → String → Ledger → Event
  order : ℕ → ℕ → (ℕ → Option String) → Event
  submit : ℕ → ℕ → ℕ → String → Event

abbrev pub handle : Event → ℕ → Ledger → Ledger
handle (issue input year) now ledger = (issue_invoice input now year ledger).0
handle (record_ input) now ledger = (record_payment input now ledger).0
handle (transition id target actor reason) now ledger =
    (transition_payment id target actor reason now ledger).0
handle (void_ id) now ledger = (void_invoice id ledger).0
handle (webhook input) now ledger = (settle_razorpay_payment input now ledger).0
handle (late_write input id) now ledger = (gateway_record input id now ledger).0
handle (callback verified hotel_id order_id payment_id seen) now ledger =
    (verify_razorpay_payment verified hotel_id order_id payment_id now seen ledger).0
handle (order id hotel_id create) now ledger = (create_invoice_order id hotel_id create ledger).0
handle (submit id hotel_id amount method) now ledger =
    (submit_manual_payment id hotel_id amount method now ledger).0

-- The tables after a list of events, the last event first.
abbrev pub run : List (Event × ℕ) → Ledger
run [] = record { invoices = []; payments = []; next_id = 1 }
run ((event, now) ∷ earlier) = handle event now (run earlier)
