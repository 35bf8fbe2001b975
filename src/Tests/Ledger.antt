-- ===== src/Tests/Ledger.antt =====
-- One invoice of 118 at 1 000 ms, its claim by hand, and the payment of the rest by the provider.
use vaketta_backend.Prelude.{
  ℕ, ◌*◌, ◌≡◌, ◌≢◌, All, arith, false, refl, true, none, some, List, [], ◌∷◌, sum_by,
}
use vaketta_backend.Js.{finite, from_half, number, of_ℕ, not_a_number}
use vaketta_backend.Billing.Overage.{compute_overage, safe_count, units_over_limit}
use vaketta_backend.Billing.Ledger.{
  IssueInvoiceInput, Invoice, Ledger, succeeded, issue_invoice, issue_found, find_period,
  new_invoice, build_line_items, compute_tax, generate_invoice_number, last_seq, last_number,
  padded, text_before, digits_onto, outstanding_balance, find_overdue_invoices,
  find_just_overdue_invoices, select,
}
use vaketta_backend.Billing.Ledger.Credit.{IsSound}
use vaketta_backend.Billing.Ledger.Payments.{
  RecordPaymentInput, find_invoice, find_payment, update_invoice, update_payment,
  has_provider_payment, credit, requested_amount, write_payment, record_payment, record_payment_to,
}
use vaketta_backend.Billing.Ledger.Review.{
  to_succeeded, approve, claim, transition_of, transition_payment,
}
use vaketta_backend.Billing.Ledger.Records.{Records, record_payment-Records}
use vaketta_backend.Billing.Ledger.Settled.{transition_payment_again}
use vaketta_backend.Billing.Ledger.Lines.{new_invoice_lines}
use vaketta_backend.Billing.Ledger.Numbers.{issue_invoice_again, new_invoice-number}
use vaketta_backend.Billing.Ledger.Gateway.{
  SettleInput, settle_razorpay_payment, settle_checked, gateway_check, check_recorded,
  check_invoice, find_provider_payment, find_order, gateway_record, upper_codes, same_codes,
}
use vaketta_backend.Billing.Ledger.Gateway.Redelivery.{settle_razorpay_payment_again}
use vaketta_backend.Billing.Ledger.Checkout.{
  create_invoice_order, order_found, order_for, order_created,
}
use vaketta_backend.Billing.Ledger.Manual.{submit_manual_payment, submit_found, has_pending}
use vaketta_backend.Billing.Ledger.Runs.{
  Event, issue, submit, transition, order, webhook, late_write, run,
}
use vaketta_backend.Billing.Ledger.Runs.Soundness.{run-IsSound}

-- 100 for the period and 10 messages above the allowance at 0, taxed 18 %.
abbrev march : IssueInvoiceInput
march = record {
  hotel_id = 7;
  subscription_id = some 3;
  currency = "INR";
  subscription_amount = 100;
  usage = record { conversations_used = number (of_ℕ 60); ai_replies_used = number (of_ℕ 5) };
  terms = record {
    conversation_limit = number (of_ℕ 50);
    ai_reply_limit = not_a_number;
    extra_conversation_charge = number (of_ℕ 0);
    extra_ai_reply_charge = number (of_ℕ 2);
  };
  period_start = 500;
  period_end = 900;
  tax_rate = number (of_ℕ 1_800);
}

abbrev paid_online : SettleInput
paid_online = record {
  order_id = "order_1";
  payment_id = "pay_1";
  amount = of_ℕ 78;
  currency = "inr";
}

-- An invoice, a claim of 40 by hand that is approved, and the rest by the provider, reported twice.
abbrev events : List (Event × ℕ)
events =
    (late_write paid_online 1, 6)
    ∷ (webhook paid_online, 5)
    ∷ (order 1 7 (λ amount. some "order_1"), 4)
    ∷ (transition 2 to_succeeded (some 9) none, 3)
    ∷ (submit 1 7 40 "bank", 2)
    ∷ (issue march 2_026, 1)
    ∷ []

abbrev paid_amounts : Ledger → List (ℕ × ℕ)
paid_amounts ledger = amounts ledger.invoices
  where
    amounts : List Invoice → List (ℕ × ℕ)
    amounts [] = []
    amounts (i ∷ is) = (i.total, i.amount_paid) ∷ amounts is

events_pay : paid_amounts (run events) ≡ (118, 118) ∷ []
unfolding issue_invoice issue_found find_period new_invoice build_line_items compute_tax
    compute_overage safe_count units_over_limit generate_invoice_number last_seq last_number
    find_invoice find_payment update_invoice update_payment has_provider_payment credit
    requested_amount write_payment record_payment record_payment_to approve claim transition_of
    transition_payment settle_razorpay_payment settle_checked gateway_check check_recorded
    check_invoice find_provider_payment find_order gateway_record upper_codes same_codes
    create_invoice_order order_found order_for order_created submit_manual_payment submit_found
    has_pending
events_pay = refl

-- On the way 118 are owed, and after the grace of 3 days and the 7 days to pay the invoice is overdue.
owed :
    (outstanding_balance 7 (run ((issue march 2_026, 1) ∷ [])) ≡ 118)
    × (find_overdue_invoices (11 * 86_400_000) 3 (run ((issue march 2_026, 1) ∷ []))
        ≡ (run ((issue march 2_026, 1) ∷ [])).invoices)
    × (find_just_overdue_invoices (6 * 86_400_000) (run ((issue march 2_026, 1) ∷ [])) ≡ [])
unfolding outstanding_balance find_overdue_invoices find_just_overdue_invoices select issue_invoice
    issue_found find_period new_invoice build_line_items compute_tax compute_overage safe_count
    units_over_limit
owed = (refl, refl, refl)

-- The tables with the first invoice.
abbrev issued : Ledger
issued = run ((issue march 2_026, 1) ∷ [])

run-IsSound_example : IsSound (run events)
run-IsSound_example = run-IsSound events

-- A payment of 18 by hand.
abbrev by_hand : RecordPaymentInput
by_hand = record {
  invoice_id = 1;
  amount = some (of_ℕ 18);
  status = succeeded;
  method = "cash";
  provider_payment_id = none;
  recorded_by = some 9;
  failure_reason = none;
}

-- An amount of 0.6 is rounded to 1.
requested_amount-rounded : requested_amount (some (finite false 0 from_half)) 118 ≡ 1
unfolding requested_amount
requested_amount-rounded = refl

record_payment-Records_example : Records 1 issued (record_payment by_hand 2 issued)
record_payment-Records_example = record_payment-Records by_hand 2 issued

settle_razorpay_payment_again_example :
    (settle_razorpay_payment paid_online 9 (settle_razorpay_payment paid_online 8 (run events)).0).0
    ≡ (settle_razorpay_payment paid_online 8 (run events)).0
settle_razorpay_payment_again_example = settle_razorpay_payment_again paid_online 8 9 (run events)

transition_payment_again_example :
    (transition_payment 2 to_succeeded
      (some 9)
      none
      9
      (transition_payment 2 to_succeeded (some 9) none 8 (run events)).0).0
    ≡ (transition_payment 2 to_succeeded (some 9) none 8 (run events)).0
transition_payment_again_example =
    transition_payment_again 2 to_succeeded (some 9) none 8 9 (run events)

new_invoice_lines_example :
    sum_by (λ l. l.amount) (new_invoice march 1 2_026 (run [])).line_items
    ≡ (new_invoice march 1 2_026 (run [])).total
new_invoice_lines_example = new_invoice_lines march 1 2_026 (run [])

issue_invoice_again_example :
    issue_invoice march 9 2_027 (issue_invoice march 8 2_026 (run [])).0
    ≡ issue_invoice march 8 2_026 (run [])
issue_invoice_again_example = issue_invoice_again march 8 9 2_026 2_027 (run [])

new_invoice-number_example :
    All (λ i. i.number ≢ (new_invoice march 9 2_026 issued).number) issued.invoices
unfolding issue_invoice issue_found find_period new_invoice build_line_items compute_tax
    compute_overage safe_count units_over_limit generate_invoice_number last_seq last_number
new_invoice-number_example = new_invoice-number march 9 2_026 issued ((λ e. omega arith), tt)

-- The number 100 000 comes before 99 999 in the order of texts; small numbers keep their order.
text_order :
    (text_before (padded 12) (padded 345) ≡ true)
    × (text_before (padded 100_000) (padded 99_999) ≡ true)
unfolding padded text_before digits_onto
text_order = (refl, refl)
