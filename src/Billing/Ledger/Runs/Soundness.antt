-- ===== src/Billing/Ledger/Runs/Soundness.antt =====
-- The balance of the ledger through runs.
use Prim.Native.String.{String}
use vaketta_backend.Prelude.{
  ℕ, inl, inr, arith, Bool, true, false, Option, none, some, List, [], ◌∷◌, ◌==◌, Bool-cases,
}
use vaketta_backend.Billing.Ledger.{Invoice, Payment, Ledger}
use vaketta_backend.Billing.Ledger.Payments.{find_invoice, update_invoice, outstanding_of}
use vaketta_backend.Billing.Ledger.Credit.{AllBalanced, IsSound}
use vaketta_backend.Billing.Ledger.Soundness.{issue_invoice-IsSound, record_payment-IsSound}
use vaketta_backend.Billing.Ledger.Review.Soundness.{
  transition_payment-IsSound, void_invoice-IsSound,
}
use vaketta_backend.Billing.Ledger.Gateway.{
  SettleInput, GatewayCheck, answered, passed, settle_razorpay_payment, settle_checked,
  gateway_check, gateway_record, gateway_payment, find_order,
}
use vaketta_backend.Billing.Ledger.Manual.{submit_manual_payment, submit_found, manual_payment}
use vaketta_backend.Billing.Ledger.Checkout.{
  verify_razorpay_payment, verify_found, create_invoice_order, order_found, order_for,
  order_created,
}
use vaketta_backend.Billing.Ledger.Runs.{
  Event, issue, record_, transition, void_, webhook, late_write, callback, order, submit, handle,
  run,
}

gateway_record-IsSound :
    (input : SettleInput) (id now : ℕ) (ledger : Ledger)
    → IsSound ledger
    → IsSound (gateway_record input id now ledger).0
unfolding gateway_record
gateway_record-IsSound input id now ledger s =
    record_payment-IsSound (gateway_payment input id) now ledger s

settle_checked-IsSound :
    (c : GatewayCheck) (input : SettleInput) (now : ℕ) (ledger : Ledger)
    → IsSound ledger
    → IsSound (settle_checked c input now ledger).0
unfolding settle_checked
settle_checked-IsSound (answered result) input now ledger s = s
settle_checked-IsSound (passed inv) input now ledger s =
    gateway_record-IsSound input inv.id now ledger s

settle_razorpay_payment-IsSound :
    (input : SettleInput) (now : ℕ) (ledger : Ledger)
    → IsSound ledger
    → IsSound (settle_razorpay_payment input now ledger).0
unfolding settle_razorpay_payment
settle_razorpay_payment-IsSound input now ledger s =
    settle_checked-IsSound (gateway_check input ledger) input now ledger s

verify_found-IsSound :
    (found : Option Invoice) (hotel_id : ℕ) (order_id payment_id : String) (now : ℕ)
    (ledger : Ledger)
    → IsSound ledger
    → IsSound (verify_found found hotel_id order_id payment_id now ledger).0
unfolding verify_found
verify_found-IsSound none hotel_id order_id payment_id now ledger s = s
verify_found-IsSound (some inv) hotel_id order_id payment_id now ledger s =
    elim (Bool-cases (inv.hotel_id == hotel_id)) [
      | inl own ↦ rw own (settle_razorpay_payment-IsSound _ now ledger s)
      | inr foreign ↦ rw foreign s
    ]

verify_razorpay_payment-IsSound :
    (verified : Bool) (hotel_id : ℕ) (order_id payment_id : String) (now : ℕ) (seen ledger : Ledger)
    → IsSound ledger
    → IsSound (verify_razorpay_payment verified hotel_id order_id payment_id now seen ledger).0
unfolding verify_razorpay_payment
verify_razorpay_payment-IsSound false hotel_id order_id payment_id now seen ledger s = s
verify_razorpay_payment-IsSound true hotel_id order_id payment_id now seen ledger s =
    verify_found-IsSound (find_order order_id seen.invoices) hotel_id order_id payment_id now ledger
      s

-- A change of an invoice that leaves its amounts and its status.
AllBalanced-ordered :
    (n id : ℕ) (fresh : Option String) (ps : List Payment) (invs : List Invoice)
    → AllBalanced n ps invs
    → AllBalanced n ps (update_invoice id (λ i. record i { provider_order_id = fresh }) invs)
unfolding update_invoice
AllBalanced-ordered n id fresh ps [] b = tt
AllBalanced-ordered n id fresh ps (x ∷ invs) b =
    let rest = AllBalanced-ordered x.id id fresh ps invs b.2 in
    elim (Bool-cases (x.id == id)) [
      | inl same ↦
          rw same (b.0, record { backed = b.1.backed; within = b.1.within; fits = b.1.fits }, rest)
      | inr other ↦ rw other (b.0, b.1, rest)
    ]

order_created-IsSound :
    (fresh : Option String) (inv : Invoice) (ledger : Ledger)
    → IsSound ledger
    → IsSound (order_created fresh inv ledger).0
unfolding order_created
order_created-IsSound none inv ledger s = s
order_created-IsSound (some fresh) inv ledger s = record {
  balanced =
      AllBalanced-ordered ledger.next_id inv.id (some fresh) ledger.payments ledger.invoices
        s.balanced;
  dated = s.dated;
}

order_for-IsSound :
    (old : Option String) (create : ℕ → Option String) (inv : Invoice) (ledger : Ledger)
    → IsSound ledger
    → IsSound (order_for old create inv ledger).0
unfolding order_for
order_for-IsSound (some old) create inv ledger s = s
order_for-IsSound none create inv ledger s =
    order_created-IsSound (create (outstanding_of inv)) inv ledger s

order_found-IsSound :
    (found : Option Invoice) (hotel_id : ℕ) (create : ℕ → Option String) (ledger : Ledger)
    → IsSound ledger
    → IsSound (order_found found hotel_id create ledger).0
unfolding order_found
order_found-IsSound none hotel_id create ledger s = s
order_found-IsSound (some inv) hotel_id create ledger s =
    ground (arith, order_for-IsSound inv.provider_order_id create inv ledger s)

submit_found-IsSound :
    (found : Option Invoice) (hotel_id amount : ℕ) (method : String) (now : ℕ) (ledger : Ledger)
    → IsSound ledger
    → IsSound (submit_found found hotel_id amount method now ledger).0
unfolding submit_found
submit_found-IsSound none hotel_id amount method now ledger s = s
submit_found-IsSound (some inv) hotel_id amount method now ledger s =
    ground (arith, record_payment-IsSound (manual_payment inv.id amount method) now ledger s)

handle-IsSound :
    (event : Event) (now : ℕ) (ledger : Ledger) → IsSound ledger → IsSound (handle event now ledger)
unfolding create_invoice_order submit_manual_payment
handle-IsSound (issue input year) now ledger s = issue_invoice-IsSound input now year ledger s
handle-IsSound (record_ input) now ledger s = record_payment-IsSound input now ledger s
handle-IsSound (transition id target actor reason) now ledger s =
    transition_payment-IsSound id target actor reason now ledger s
handle-IsSound (void_ id) now ledger s = void_invoice-IsSound id ledger s
handle-IsSound (webhook input) now ledger s = settle_razorpay_payment-IsSound input now ledger s
handle-IsSound (late_write input id) now ledger s = gateway_record-IsSound input id now ledger s
handle-IsSound (callback verified hotel_id order_id payment_id seen) now ledger s =
    verify_razorpay_payment-IsSound verified hotel_id order_id payment_id now seen ledger s
handle-IsSound (order id hotel_id create) now ledger s =
    order_found-IsSound (find_invoice id ledger.invoices) hotel_id create ledger s
handle-IsSound (submit id hotel_id amount method) now ledger s =
    submit_found-IsSound (find_invoice id ledger.invoices) hotel_id amount method now ledger s

-- After any events in any order, from no invoice and no payment, every invoice shows as paid exactly
-- the sum of its payments that succeeded, at most its total, and has a status that fits: an open
-- invoice owes something, a paid one owes nothing, and nothing was paid for a voided one.
pub run-IsSound : (events : List (Event × ℕ)) → IsSound (run events)
run-IsSound [] = record { balanced = tt; dated = tt }
run-IsSound ((event, now) ∷ earlier) = handle-IsSound event now (run earlier) (run-IsSound earlier)
