-- ===== src/Billing/Ledger.antt =====
-- Invoices and the payments against them: the data and the issuing of src/services/invoice.service.ts.
-- Amounts are whole numbers of minor units, ids are counted, and the number of an invoice is its year
-- and its sequence, ordered by their texts. The refusal of a number that an invoice has already, by the
-- unique column of the database, is left out.
pub mod Payments
pub mod Review
pub mod Gateway
pub mod Checkout
pub mod Manual
pub mod Lines
pub mod Credit
pub mod Received
pub mod Soundness
pub mod Numbers
pub mod Runs
pub mod Settled
pub mod Records
use Prim.Native.String.{String}
use vaketta_backend.Prelude.{
  zero, suc, ◌/◌, ◌%◌, length, ◌||◌, ◌-◌, ℕ, ◌+◌, ◌-◌, ◌*◌, ◌/◌, Bool, true, false, ◌&&◌, Option,
  none, some, List, [], ◌∷◌, ◌++◌, ltb, leb, ◌==◌, if◌then◌else◌, max, sum_by,
}
use vaketta_backend.Js.{JsValue}
use vaketta_backend.Billing.Calendar.{day_ms}
use vaketta_backend.Billing.Overage.{
  UsageCounts, OverageTerms, OverageResult, safe_count, compute_overage,
}

pub data InvoiceStatus : Type 0 where
  draft open_ paid voided uncollectible : InvoiceStatus

pub data LineKind : Type 0 where
  subscription overage_conversations overage_ai_replies tax : LineKind

-- The description of a line is left out.
pub record LineItem : Type 0 where
  pub kind : LineKind
  pub quantity : ℕ
  pub unit_amount : ℕ
  pub amount : ℕ

pub record Invoice : Type 0 where
  pub id : ℕ
  pub hotel_id : ℕ
  pub subscription_id : Option ℕ
  pub number : ℕ × ℕ
  pub status : InvoiceStatus
  pub currency : String
  pub subtotal : ℕ
  pub overage_total : ℕ
  pub tax_total : ℕ
  pub tax_rate : ℕ
  pub total : ℕ
  pub amount_paid : ℕ
  pub period_start : ℕ
  pub period_end : ℕ
  pub due_at : ℕ
  pub paid_at : Option ℕ
  pub line_items : List LineItem
  pub provider_order_id : Option String

pub data PaymentStatus : Type 0 where
  pending succeeded failed refunded : PaymentStatus

pub record Payment : Type 0 where
  pub id : ℕ
  pub hotel_id : ℕ
  pub invoice_id : ℕ
  pub status : PaymentStatus
  pub currency : String
  pub amount : ℕ
  pub method : String
  pub provider_payment_id : Option String
  pub recorded_by : Option ℕ
  pub reviewed_by : Option ℕ
  pub failure_reason : Option String

-- The tables of invoices and payments, the latest row first, and the next id.
pub record Ledger : Type 0 where
  pub invoices : List Invoice
  pub payments : List Payment
  pub next_id : ℕ

abbrev pub invoice_due_days : ℕ
invoice_due_days = 7

-- A rate in basis points is rounded down; one that is no positive finite number counts 0.
unfoldable pub compute_tax : ℕ → JsValue → ℕ
compute_tax base rate_bp =
    let bp = safe_count rate_bp in if bp == 0 then 0 else (base * bp + 5_000) / 10_000

pub record IssueInvoiceInput : Type 0 where
  pub hotel_id : ℕ
  pub subscription_id : Option ℕ
  pub currency : String
  pub subscription_amount : ℕ
  pub usage : UsageCounts
  pub terms : OverageTerms
  pub period_start : ℕ
  pub period_end : ℕ
  pub tax_rate : JsValue

-- `if (…) items.push({ … })`.
abbrev pub line_if : Bool → LineKind → ℕ → ℕ → ℕ → List LineItem
line_if true kind quantity unit_amount amount =
    record { kind = kind; quantity = quantity; unit_amount = unit_amount; amount = amount } ∷ []
line_if false kind quantity unit_amount amount = []

pub record BuiltLines : Type 0 where
  pub line_items : List LineItem
  pub overage_total : ℕ
  pub tax_total : ℕ
  pub tax_rate : ℕ

-- The lines and the totals. The charge of a unit is written as it counts, and an infinite tax rate, which
-- no column holds, counts 0.
unfoldable pub build_line_items : IssueInvoiceInput → BuiltLines
build_line_items input =
    let amount = input.subscription_amount in
    let overage = compute_overage input.usage input.terms in
    let tax_rate = safe_count input.tax_rate in
    let tax_total = compute_tax (amount + overage.total) input.tax_rate in
    record {
      line_items =
          line_if (ltb 0 amount) subscription 1 amount amount
          ++ (line_if (ltb 0 overage.conversation_overage && ltb 0 overage.conversation_charge)
                overage_conversations overage.conversation_overage
                (safe_count input.terms.extra_conversation_charge) overage.conversation_charge
              ++ (line_if (ltb 0 overage.ai_reply_overage && ltb 0 overage.ai_reply_charge)
                    overage_ai_replies overage.ai_reply_overage
                    (safe_count input.terms.extra_ai_reply_charge) overage.ai_reply_charge
                  ++ line_if (ltb 0 tax_total) tax 1 tax_total tax_total));
      overage_total = overage.total;
      tax_total = tax_total;
      tax_rate = tax_rate;
    }

-- The decimal digits of a number before those of `acc`; a number has no more digits than its fuel.
unfoldable pub digits_onto : ℕ → ℕ → List ℕ → List ℕ
digits_onto zero n acc = acc
digits_onto (suc fuel) n acc =
    let rest = digits_onto fuel (n / 10) (n % 10 ∷ acc) in if n == 0 then acc else rest

-- `String(n).padStart(5, "0")`, as its digits: five with the zeros in front, or more.
unfoldable pub padded : ℕ → List ℕ
padded n =
    if ltb n 100_000
    then n / 10_000 ∷ (n / 1_000) % 10 ∷ (n / 100) % 10 ∷ (n / 10) % 10 ∷ n % 10 ∷ []
    else digits_onto n n []

-- The order of texts: at the first digit that differs, and else the shorter one first.
unfoldable pub text_before : List ℕ → List ℕ → Bool
text_before xs [] = false
text_before [] (y ∷ ys) = true
text_before (x ∷ xs) (y ∷ ys) = let rest = text_before xs ys in ltb x y || (x == y && rest)

abbrev pub later_text : ℕ → Option ℕ → Option ℕ
later_text n none = some n
later_text n (some m) = if text_before (padded m) (padded n) then some n else some m

-- The last number of a year by the order of texts.
unfoldable pub last_number : ℕ → List Invoice → Option ℕ
last_number year [] = none
last_number year (inv ∷ invs) =
    let rest = last_number year invs in
    if inv.number.0 == year then later_text inv.number.1 rest else rest

abbrev pub seq_or_zero : Option ℕ → ℕ
seq_or_zero none = 0
seq_or_zero (some n) = n

unfoldable pub last_seq : ℕ → List Invoice → ℕ
unfolding last_number
last_seq year invs = seq_or_zero (last_number year invs)

unfoldable pub generate_invoice_number : ℕ → List Invoice → ℕ × ℕ
generate_invoice_number year invs = (year, last_seq year invs + 1)

-- The invoice of a hotel for the period with this start, which the table holds at most once.
unfoldable pub find_period : ℕ → ℕ → List Invoice → Option Invoice
find_period hotel_id period_start [] = none
find_period hotel_id period_start (inv ∷ invs) =
    if inv.hotel_id == hotel_id && inv.period_start == period_start
    then some inv
    else find_period hotel_id period_start invs

-- The row that is written: one for nothing is settled at once.
unfoldable pub new_invoice : IssueInvoiceInput → ℕ → ℕ → Ledger → Invoice
new_invoice input now year ledger =
    let lines = build_line_items input in
    let total = input.subscription_amount + lines.overage_total + lines.tax_total in
    record {
      id = ledger.next_id;
      hotel_id = input.hotel_id;
      subscription_id = input.subscription_id;
      number = generate_invoice_number year ledger.invoices;
      status = if total == 0 then paid else open_;
      currency = input.currency;
      subtotal = input.subscription_amount;
      overage_total = lines.overage_total;
      tax_total = lines.tax_total;
      tax_rate = lines.tax_rate;
      total = total;
      amount_paid = 0;
      period_start = input.period_start;
      period_end = input.period_end;
      due_at = now + invoice_due_days * day_ms;
      paid_at = if total == 0 then some now else none;
      line_items = lines.line_items;
      provider_order_id = none;
    }

unfoldable pub issue_found : Option Invoice → IssueInvoiceInput → ℕ → ℕ → Ledger → Ledger × Invoice
issue_found (some existing) input now year ledger = (ledger, existing)
issue_found none input now year ledger =
    let inv = new_invoice input now year ledger in
    (record ledger { invoices = inv ∷ ledger.invoices; next_id = ledger.next_id + 1 }, inv)

-- At an instant in a calendar year of the server.
unfoldable pub issue_invoice : IssueInvoiceInput → ℕ → ℕ → Ledger → Ledger × Invoice
unfolding issue_found
issue_invoice input now year ledger =
    issue_found (find_period input.hotel_id input.period_start ledger.invoices) input now year
      ledger

abbrev pub is_open : InvoiceStatus → Bool
is_open draft = false
is_open open_ = true
is_open paid = false
is_open voided = false
is_open uncollectible = false

-- What a hotel owes over its open invoices.
unfoldable pub outstanding_balance : ℕ → Ledger → ℕ
outstanding_balance hotel_id ledger =
    sum_by
      (λ inv.
        if inv.hotel_id == hotel_id && is_open inv.status then inv.total - inv.amount_paid else 0)
      ledger.invoices

unfoldable pub select {ℓ} : {A : Type ℓ} → (A → Bool) → List A → List A
select keep [] = []
select keep (x ∷ xs) = let rest = select keep xs in if keep x then x ∷ rest else rest

-- The open invoices whose due date is more than the grace days ago.
unfoldable pub find_overdue_invoices : ℕ → ℕ → Ledger → List Invoice
find_overdue_invoices now grace_days ledger =
    select (λ inv. is_open inv.status && ltb inv.due_at (now - grace_days * day_ms)) ledger.invoices

unfoldable pub find_just_overdue_invoices : ℕ → Ledger → List Invoice
find_just_overdue_invoices now ledger =
    select (λ inv. is_open inv.status && ltb inv.due_at now) ledger.invoices
