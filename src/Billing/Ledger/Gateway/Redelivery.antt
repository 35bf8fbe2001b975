-- ===== src/Billing/Ledger/Gateway/Redelivery.antt =====
-- A payment that the provider reports again.
use Prim.Native.String.{String}
use text.Mathlib.TextEquality.{eq_iff}
use vaketta_backend.Prelude.{
  ℕ, Bool, false, Option, none, ltb, ◌==◌, ◌≡◌, ◌⊎◌, inl, inr, refl, arith, true, some, List, [],
  ◌∷◌, Bool-cases,
}
use vaketta_backend.Billing.Ledger.{Invoice, Payment, Ledger}
use vaketta_backend.Billing.Ledger.Payments.{
  RecordPaymentInput, record_payment_to, requested_amount, outstanding_of, is_void, record_payment,
  write_payment, carries, has_provider_payment, find_invoice,
}
use vaketta_backend.Billing.Ledger.Gateway.{
  SettleResult, settled, partial, already_processed, rejected, settle_threw, SettleInput,
  GatewayCheck, answered, passed, settle_razorpay_payment, settle_checked, gateway_check,
  check_recorded, find_provider_payment, gateway_record, gateway_payment,
}

-- A recorded payment was refused, whenever it was tried, or its id of the provider is in the table.
record_payment_to_cases :
    (found : Option Invoice) (input : RecordPaymentInput) (ledger : Ledger)
    → ((now : ℕ) → (record_payment_to found input now ledger).0 ≡ ledger)
      ⊎ ((amount : ℕ) × (inv : Invoice) × (has_provider_payment input.provider_payment_id
              ledger.payments
            ≡ false)
          × ((now : ℕ)
              → record_payment_to found input now ledger
                ≡ write_payment input inv amount now ledger))
unfolding record_payment_to
record_payment_to_cases none input ledger = inl (λ now. refl)
record_payment_to_cases (some inv) input ledger =
    let amount = requested_amount input.amount (outstanding_of inv) in
    elim (Bool-cases (is_void inv.status)) [
      | inl v ↦ inl (λ now. rw v refl)
      | inr live ↦ elim (Bool-cases (amount == 0)) [
        | inl z ↦ inl (λ now. rw (live, z) refl)
        | inr positive ↦ elim (Bool-cases (ltb (outstanding_of inv) amount)) [
          | inl over ↦ inl (λ now. rw (live, positive, over) refl)
          | inr fits ↦
              elim (Bool-cases (has_provider_payment input.provider_payment_id ledger.payments)) [
                | inl twice ↦ inl (λ now. rw (live, positive, fits, twice) refl)
                | inr once ↦ inr (amount, inv, once, λ now. rw (live, positive, fits, once) refl)
              ]
        ]
      ]
    ]

found-has_provider_payment :
    (key : String) (ps : List Payment)
    → has_provider_payment (some key) ps ≡ true
    → (p : Payment) × (find_provider_payment key ps ≡ some p)
unfolding has_provider_payment find_provider_payment
found-has_provider_payment key [] h = absurd (ground (arith, h))
found-has_provider_payment key (p ∷ ps) h = elim (Bool-cases (carries key p.provider_payment_id)) [
  | inl here ↦ (p, rw here refl)
  | inr there ↦ rw there (found-has_provider_payment key ps (rw there at h))
]

-- The key that a row carries is its own.
written-has_provider_payment :
    (input : SettleInput) (id amount now : ℕ) (inv : Invoice) (ledger : Ledger)
    → has_provider_payment
        (some input.payment_id)
        (write_payment (gateway_payment input id) inv amount now ledger).0.payments
      ≡ true
unfolding has_provider_payment write_payment
written-has_provider_payment input id amount now inv ledger =
    rw ((eq_iff input.payment_id input.payment_id).1 refl) refl

-- A write is refused whenever it is tried, or leaves the payment in the table.
gateway_record_cases :
    (input : SettleInput) (id : ℕ) (ledger : Ledger)
    → ((now : ℕ) → (gateway_record input id now ledger).0 ≡ ledger)
      ⊎ ((now : ℕ)
          → (p : Payment) × (find_provider_payment input.payment_id
                (gateway_record input id now ledger).0.payments
              ≡ some p))
unfolding gateway_record record_payment
gateway_record_cases input id ledger =
    elim (record_payment_to_cases (find_invoice id ledger.invoices) (gateway_payment input id)
      ledger) [
        | inl same ↦ inl same
        | inr (amount, inv, once, writes) ↦ inr (λ now. rw (writes now) (
            found-has_provider_payment input.payment_id _
              (written-has_provider_payment input id amount now inv ledger)))
      ]

settle_checked-again :
    (c : GatewayCheck) (input : SettleInput) (now later : ℕ) (ledger : Ledger)
    → gateway_check input ledger ≡ c
    → (settle_razorpay_payment input later (settle_checked c input now ledger).0).0
      ≡ (settle_checked c input now ledger).0
unfolding settle_razorpay_payment settle_checked
settle_checked-again (answered result) input now later ledger e = rw e refl
settle_checked-again (passed inv) input now later ledger e =
    elim (gateway_record_cases input inv.id ledger) [
      | inl same ↦ rw (same now) (rw e (same later))
      | inr found ↦
          let (p, there) = found now in unfold gateway_check check_recorded in rw there refl
    ]

-- The same report delivered again (the same order, payment, amount and currency) changes no table,
-- whatever the first delivery led to.
pub settle_razorpay_payment_again :
    (input : SettleInput) (now later : ℕ) (ledger : Ledger)
    → (settle_razorpay_payment input later (settle_razorpay_payment input now ledger).0).0
      ≡ (settle_razorpay_payment input now ledger).0
settle_razorpay_payment_again input now later ledger =
    unfold settle_razorpay_payment in
    (settle_checked-again (gateway_check input ledger) input now later ledger refl)

-- A result that says that the payment stands in the table.
abbrev pub is_recorded : SettleResult → Bool
is_recorded (settled id) = true
is_recorded (partial id) = true
is_recorded (already_processed id) = true
is_recorded (rejected reason id) = false
is_recorded (settle_threw e) = false

abbrev answers_recorded : GatewayCheck → Bool
answers_recorded (answered result) = is_recorded result
answers_recorded (passed inv) = false
