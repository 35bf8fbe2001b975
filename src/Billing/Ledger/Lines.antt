-- ===== src/Billing/Ledger/Lines.antt =====
-- The lines of an invoice and its totals.
use vaketta_backend.Prelude.{
  ℕ, ◌+◌, ◌*◌, ◌≡◌, inl, inr, refl, sym, ◌∙◌, arith, Bool, true, false, ◌&&◌, List, ◌++◌, sum_by,
  sum_by-append, ltb→le, ltb, Bool-cases,
}
use vaketta_backend.Billing.Overage.{compute_overage, safe_count}
use vaketta_backend.Billing.Ledger.{
  LineItem, LineKind, subscription, overage_conversations, overage_ai_replies, tax, line_if,
  compute_tax, build_line_items, IssueInvoiceInput, new_invoice, Ledger,
}

-- A line that is left out for its amount is 0.
amount_line_if :
    (b : Bool) (kind : LineKind) (quantity unit amount : ℕ)
    → (b ≡ false → amount ≡ 0)
    → sum_by (λ l. l.amount) (line_if b kind quantity unit amount) ≡ amount
amount_line_if true kind quantity unit amount h = omega arith
amount_line_if false kind quantity unit amount h = sym (h refl)

ltb-zero : (n : ℕ) → ltb 0 n ≡ false → n ≡ 0
ltb-zero n h = omega (arith, ltb→le 0 n h)

no_charge : (units price : ℕ) → (ltb 0 units && ltb 0 (units * price)) ≡ false → units * price ≡ 0
no_charge units price h = elim (Bool-cases (ltb 0 units)) [
  | inl over ↦ ltb-zero (units * price) (rw over at h)
  | inr within ↦ rw (ltb-zero units within) (omega arith)
]

four_parts :
    (ws xs ys zs : List LineItem)
    → sum_by (λ l. l.amount) (ws ++ (xs ++ (ys ++ zs)))
      ≡ sum_by (λ l. l.amount) ws
        + (sum_by (λ l. l.amount) xs + (sum_by (λ l. l.amount) ys + sum_by (λ l. l.amount) zs))
four_parts ws xs ys zs =
    rw
      (
        sum_by-append (λ l. l.amount) ws (xs ++ (ys ++ zs)),
        sum_by-append (λ l. l.amount) xs (ys ++ zs),
        sum_by-append (λ l. l.amount) ys zs,
      )
      refl

-- The amounts of the lines add up to the total of the invoice: nothing is billed without a line, and
-- no line is left out of the bill.
pub new_invoice_lines :
    (input : IssueInvoiceInput) (now year : ℕ) (ledger : Ledger)
    → sum_by (λ l. l.amount) (new_invoice input now year ledger).line_items
      ≡ (new_invoice input now year ledger).total
unfolding new_invoice build_line_items compute_overage
new_invoice_lines input now year ledger =
    let s = input.subscription_amount in
    let o = compute_overage input.usage input.terms in
    let t = compute_tax (s + o.total) input.tax_rate in
    let a = amount_line_if (ltb 0 s) subscription 1 s s (ltb-zero s) in
    let b =
      amount_line_if (ltb 0 o.conversation_overage && ltb 0 o.conversation_charge)
        overage_conversations o.conversation_overage
        (safe_count input.terms.extra_conversation_charge) o.conversation_charge
        (no_charge o.conversation_overage _) in
    let c =
      amount_line_if (ltb 0 o.ai_reply_overage && ltb 0 o.ai_reply_charge) overage_ai_replies
        o.ai_reply_overage (safe_count input.terms.extra_ai_reply_charge) o.ai_reply_charge
        (no_charge o.ai_reply_overage _) in
    let d = amount_line_if (ltb 0 t) tax 1 t t (ltb-zero t) in
    four_parts (line_if (ltb 0 s) subscription 1 s s)
      (line_if (ltb 0 o.conversation_overage && ltb 0 o.conversation_charge) overage_conversations
        o.conversation_overage (safe_count input.terms.extra_conversation_charge)
        o.conversation_charge)
      (line_if (ltb 0 o.ai_reply_overage && ltb 0 o.ai_reply_charge) overage_ai_replies
        o.ai_reply_overage (safe_count input.terms.extra_ai_reply_charge) o.ai_reply_charge)
      (line_if (ltb 0 t) tax 1 t t)
    ∙ rw (a, b, c, d) (omega arith)
