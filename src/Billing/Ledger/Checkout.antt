-- ===== src/Billing/Ledger/Checkout.antt =====
-- The two handlers of a checkout, `createInvoiceOrderHandler` and `verifyRazorpayPaymentHandler` of
-- src/controllers/razorpay.controller.ts. Whether the signature is right and what the provider answers
-- are arguments.
use Prim.Native.String.{String}
use vaketta_backend.Prelude.{
  ℕ, Bool, true, false, not, ◌||◌, Option, none, some, ◌==◌, if◌then◌else◌,
}
use vaketta_backend.Js.{of_ℕ}
use vaketta_backend.Billing.Ledger.{Invoice, Ledger}
use vaketta_backend.Billing.Ledger.Payments.{
  find_invoice, update_invoice, outstanding_of, is_void, is_paid,
}
use vaketta_backend.Billing.Ledger.Gateway.{
  SettleResult, settle_razorpay_payment, find_order, is_supported_currency,
}

-- What the checkout callback replies.
pub data VerifyReply : Type 0 where
  unverified order_not_found : VerifyReply
  verified_as : SettleResult → VerifyReply

-- By the invoice that the handler has read.
unfoldable pub verify_found :
    Option Invoice → ℕ → String → String → ℕ → Ledger → Ledger × VerifyReply
verify_found none hotel_id order_id payment_id now ledger = (ledger, order_not_found)
verify_found (some inv) hotel_id order_id payment_id now ledger =
    if inv.hotel_id == hotel_id
    then (let (after, result) =
          settle_razorpay_payment
            (record {
              order_id = order_id;
              payment_id = payment_id;
              amount = of_ℕ (outstanding_of inv);
              currency = inv.currency;
            })
            now ledger in
        (after, verified_as result))
    else (ledger, order_not_found)

-- `verifyRazorpayPaymentHandler`, by whether the request is complete and its signature is right. The
-- handler reads the invoice in the tables `seen`, and the settlement works on those of its own time.
unfoldable pub verify_razorpay_payment :
    Bool → ℕ → String → String → ℕ → Ledger → Ledger → Ledger × VerifyReply
unfolding verify_found
verify_razorpay_payment false hotel_id order_id payment_id now seen ledger = (ledger, unverified)
verify_razorpay_payment true hotel_id order_id payment_id now seen ledger =
    verify_found (find_order order_id seen.invoices) hotel_id order_id payment_id now ledger

pub data OrderReply : Type 0 where
  order_refused : OrderReply
  ordered : (order_id : String) (amount : ℕ) (reused : Bool) → OrderReply

-- What the provider's answer to the creation of an order writes.
unfoldable pub order_created : Option String → Invoice → Ledger → Ledger × OrderReply
order_created none inv ledger = (ledger, order_refused)
order_created (some fresh) inv ledger = (
  record ledger {
    invoices =
        update_invoice inv.id (λ i. record i { provider_order_id = some fresh }) ledger.invoices;
  },
  ordered fresh (outstanding_of inv) false,
)

-- The order that an invoice has, and else the one that the provider gives for the amount.
unfoldable pub order_for :
    Option String → (ℕ → Option String) → Invoice → Ledger → Ledger × OrderReply
unfolding order_created
order_for (some old) create inv ledger = (ledger, ordered old (outstanding_of inv) true)
order_for none create inv ledger = order_created (create (outstanding_of inv)) inv ledger

unfoldable pub order_found : Option Invoice → ℕ → (ℕ → Option String) → Ledger → Ledger × OrderReply
unfolding order_for
order_found none hotel_id create ledger = (ledger, order_refused)
order_found (some inv) hotel_id create ledger =
    let reply = order_for inv.provider_order_id create inv ledger in
    if not (inv.hotel_id == hotel_id)
      || is_void inv.status
      || is_paid inv.status
      || outstanding_of inv == 0
      || not (is_supported_currency inv.currency)
    then (ledger, order_refused)
    else reply

-- `createInvoiceOrderHandler` with the provider configured; every refusal is one reply.
unfoldable pub create_invoice_order : ℕ → ℕ → (ℕ → Option String) → Ledger → Ledger × OrderReply
unfolding order_found
create_invoice_order id hotel_id create ledger =
    order_found (find_invoice id ledger.invoices) hotel_id create ledger
