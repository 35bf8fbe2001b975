-- ===== src/Billing/Ledger/Numbers.antt =====
-- The numbers of invoices, and an invoice that is issued again.
use vaketta_backend.Prelude.{
  ◌/◌, ◌%◌, ◌≢◌, lt→ltb, max, All, List, Bool-cases, inl, inr, ap, ◌==◌, ltb, ◌<◌, ◌*◌, ◌+◌, [],
  ◌∷◌, arith, ℕ, ◌≡◌, refl, Option, none, some, ==_iff,
}
use vaketta_backend.Billing.Ledger.{
  text_before, padded, later_text, seq_or_zero, last_number, last_seq, generate_invoice_number,
  Invoice, Ledger, IssueInvoiceInput, issue_invoice, issue_found, find_period, new_invoice,
}

-- Five digits in the order of texts are in the order of their numbers.
five_before :
    (a b c d e a' b' c' d' e' : ℕ)
    → b < 10
    → c < 10
    → d < 10
    → e < 10
    → b' < 10
    → c' < 10
    → d' < 10
    → e' < 10
    → text_before (a ∷ b ∷ c ∷ d ∷ e ∷ []) (a' ∷ b' ∷ c' ∷ d' ∷ e' ∷ [])
      ≡ ltb
          (10_000 * a + 1_000 * b + 100 * c + 10 * d + e)
          (10_000 * a' + 1_000 * b' + 100 * c' + 10 * d' + e')
unfolding text_before
five_before a b c d e a' b' c' d' e' h i j k h' i' j' k' = ground arith

text_before-padded :
    (m n : ℕ) → m < 100_000 → n < 100_000 → text_before (padded m) (padded n) ≡ ltb m n
unfolding padded
text_before-padded m n h k =
    let split =
      five_before (m / 10_000) ((m / 1_000) % 10) ((m / 100) % 10) ((m / 10) % 10) (m % 10)
        (n / 10_000) ((n / 1_000) % 10) ((n / 100) % 10) ((n / 10) % 10) (n % 10) (omega arith)
        (omega arith) (omega arith) (omega arith) (omega arith) (omega arith) (omega arith)
        (omega arith) in
    let here : 10_000 * (m / 10_000)
          + 1_000 * ((m / 1_000) % 10)
          + 100 * ((m / 100) % 10)
          + 10 * ((m / 10) % 10)
          + m % 10
        ≡ m =
      omega arith in
    let there : 10_000 * (n / 10_000)
          + 1_000 * ((n / 1_000) % 10)
          + 100 * ((n / 100) % 10)
          + 10 * ((n / 10) % 10)
          + n % 10
        ≡ n =
      omega arith in
    rw (lt→ltb m 100_000 h, lt→ltb n 100_000 k) (rw (here, there) at split)

later_text-max :
    (n : ℕ) (o : Option ℕ)
    → n < 100_000
    → seq_or_zero o < 100_000
    → seq_or_zero (later_text n o) ≡ max n (seq_or_zero o)
later_text-max n none h k = omega arith
later_text-max n (some m) h k = rw (text_before-padded m n k h) (ground arith)

-- The numbers of a year that five digits hold.
abbrev pub FitsFive : ℕ → List Invoice → Type 0
FitsFive year invs = All (λ i. i.number.0 ≡ year → i.number.1 < 100_000) invs

last_number_below :
    (year seq : ℕ) (invs : List Invoice)
    → FitsFive year invs
    → (seq_or_zero (last_number year invs) < 100_000)
      × (seq_or_zero (last_number year invs) < seq → All (λ i. i.number ≢ (year, seq)) invs)
unfolding last_number
last_number_below year seq [] h = (omega arith, λ k. tt)
last_number_below year seq (x ∷ invs) h =
    let (small, rest) = last_number_below year seq invs h.1 in
    elim (Bool-cases (x.number.0 == year)) [
      | inl same ↦
          let fits = h.0 ((==_iff x.number.0 year).0 same) in
          let top = later_text-max x.number.1 (last_number year invs) fits small in
          rw (same, top)
            (
              omega arith,
              λ k. (
                λ e. let last : x.number.1 ≡ seq = ap (λ n. n.1) e in omega arith,
                rest (omega arith),
              ),
            )
      | inr other ↦ rw other (
        small,
        λ k. (
          λ e.
              let first : x.number.0 ≡ year = ap (λ n. n.0) e in
              absurd (ground (arith, other, (==_iff x.number.0 year).1 first)),
          rest k,
        ),
      )
    ]

-- While every number of the year has at most five digits, an invoice that is issued for a new period
-- has a number that no invoice has.
pub new_invoice-number :
    (input : IssueInvoiceInput) (now year : ℕ) (ledger : Ledger)
    → FitsFive year ledger.invoices
    → All (λ i. i.number ≢ (new_invoice input now year ledger).number) ledger.invoices
unfolding new_invoice generate_invoice_number last_seq
new_invoice-number input now year ledger h =
    let last = seq_or_zero (last_number year ledger.invoices) in
    (last_number_below year (last + 1) ledger.invoices h).1 (omega arith)

issue_found-again :
    (found : Option Invoice) (input : IssueInvoiceInput) (now later year next : ℕ) (ledger : Ledger)
    → find_period input.hotel_id input.period_start ledger.invoices ≡ found
    → issue_invoice input later next (issue_found found input now year ledger).0
      ≡ issue_found found input now year ledger
unfolding issue_invoice issue_found
issue_found-again (some old) input now later year next ledger e = rw e refl
issue_found-again none input now later year next ledger e =
    unfold find_period new_invoice in
    (rw
      (
        (==_iff input.hotel_id input.hotel_id).1 refl,
        (==_iff input.period_start input.period_start).1 refl,
      )
      refl)

-- A job that runs again, at any later instant and in any year, issues nothing new: it gets the invoice
-- that the first run issued.
pub issue_invoice_again :
    (input : IssueInvoiceInput) (now later year next : ℕ) (ledger : Ledger)
    → issue_invoice input later next (issue_invoice input now year ledger).0
      ≡ issue_invoice input now year ledger
issue_invoice_again input now later year next ledger =
    unfold issue_invoice in
    (issue_found-again (find_period input.hotel_id input.period_start ledger.invoices) input now
      later year next ledger refl)
