-- ===== src/Billing/Ledger/Settled.antt =====
-- The settlement of a payment that is requested again.
use Prim.Native.String.{String}
use vaketta_backend.Prelude.{
  ℕ, ◌≡◌, ◌⊎◌, subst, inl, inr, refl, ap, ◌∙◌, arith, true, Option, none, some, List, [], ◌∷◌, ltb,
  Bool-cases,
}
use vaketta_backend.Billing.Ledger.{Invoice, Payment, Ledger}
use vaketta_backend.Billing.Ledger.Payments.{
  find_invoice, find_payment, update_payment, outstanding_of, is_void, is_paid, is_pending,
}
use vaketta_backend.Billing.Ledger.Review.{
  Settlement, to_succeeded, to_failed, claimed, approve, claim, transition_of, transition_payment,
  status_eq,
}
use vaketta_backend.Billing.Ledger.Review.Soundness.{find_payment-id}

find_payment-update :
    (id : ℕ) (s : Settlement) (actor : Option ℕ) (reason : Option String) (ps : List Payment)
    (p : Payment)
    → find_payment id ps ≡ some p
    → find_payment id (update_payment id (claimed s actor reason) ps)
      ≡ some (claimed s actor reason p)
unfolding find_payment update_payment
find_payment-update id s actor reason [] p e = absurd (ground (arith, e))
find_payment-update id to_succeeded actor reason (x ∷ ps) p e =
    ground (arith, e, find_payment-update id to_succeeded actor reason ps p)
find_payment-update id to_failed actor reason (x ∷ ps) p e =
    ground (arith, e, find_payment-update id to_failed actor reason ps p)

settled-status_eq :
    (target : Settlement) (actor : Option ℕ) (reason : Option String) (p : Payment)
    → status_eq (claimed target actor reason p).status target ≡ true
settled-status_eq to_succeeded actor reason p = refl
settled-status_eq to_failed actor reason p = refl

-- A settlement leaves the tables, or leaves the payment settled.
abbrev Settles : ℕ → Settlement → Ledger → (ℕ → Ledger) → Type 0
Settles id target before after =
    ((now : ℕ) → after now ≡ before)
    ⊎ ((now : ℕ)
        → (p : Payment) × (find_payment id (after now).payments ≡ some p)
          × (status_eq p.status target ≡ true))

approve-Settles :
    (found : Option Invoice) (p : Payment) (actor : Option ℕ) (ledger : Ledger)
    → find_payment p.id ledger.payments ≡ some p
    → Settles p.id to_succeeded ledger (λ now. (approve found p actor now ledger).0)
unfolding approve
approve-Settles none p actor ledger e = inl (λ now. refl)
approve-Settles (some inv) p actor ledger e =
    let there = find_payment-update p.id to_succeeded actor none ledger.payments p e in
    elim (Bool-cases (is_void inv.status)) [
      | inl v ↦ inl (λ now. rw v refl)
      | inr live ↦ elim (Bool-cases (is_paid inv.status)) [
        | inl full ↦ inl (λ now. rw (live, full) refl)
        | inr owing ↦ elim (Bool-cases (ltb (outstanding_of inv) p.amount)) [
          | inl over ↦ inl (λ now. rw (live, owing, over) refl)
          | inr fits ↦
              inr (λ now. rw (live, owing, fits) (claimed to_succeeded actor none p, there, refl))
        ]
      ]
    ]

claim-Settles :
    (target : Settlement) (p : Payment) (actor : Option ℕ) (reason : Option String)
    (ledger : Ledger)
    → find_payment p.id ledger.payments ≡ some p
    → Settles p.id target ledger (λ now. (claim target p actor reason now ledger).0)
unfolding claim
claim-Settles to_succeeded p actor reason ledger e =
    approve-Settles (find_invoice p.invoice_id ledger.invoices) p actor ledger e
claim-Settles to_failed p actor reason ledger e = inr (λ now. (
  claimed to_failed actor reason p,
  find_payment-update p.id to_failed actor reason ledger.payments p e,
  refl,
))

transition_of-Settles :
    (found : Option Payment) (id : ℕ) (target : Settlement) (actor : Option ℕ)
    (reason : Option String) (ledger : Ledger)
    → find_payment id ledger.payments ≡ found
    → Settles id target ledger (λ now. (transition_of found target actor reason now ledger).0)
unfolding transition_of
transition_of-Settles none id target actor reason ledger e = inl (λ now. refl)
transition_of-Settles (some p) id target actor reason ledger e =
    let i = find_payment-id id ledger.payments p e in
    let f : find_payment p.id ledger.payments ≡ some p =
      ap (λ k. find_payment k ledger.payments) i ∙ e in
    elim (Bool-cases (status_eq p.status target)) [
      | inl there ↦ inl (λ now. rw there refl)
      | inr elsewhere ↦ elim (Bool-cases (is_pending p.status)) [
        | inl pend ↦
            rw (elsewhere, pend)
              (subst
                (λ k. Settles k target ledger (λ now. (claim target p actor reason now ledger).0)) i
                (claim-Settles target p actor reason ledger f))
        | inr settled ↦ inl (λ now. rw (elsewhere, settled) refl)
      ]
    ]

settled_already :
    (id : ℕ) (target : Settlement) (actor : Option ℕ) (reason : Option String) (now : ℕ)
    (ledger : Ledger) (p : Payment)
    → find_payment id ledger.payments ≡ some p
    → status_eq p.status target ≡ true
    → (transition_payment id target actor reason now ledger).0 ≡ ledger
unfolding transition_payment transition_of
settled_already id target actor reason now ledger p e s = rw e (rw s refl)

-- A settlement that is requested again changes nothing, whatever the first request led to.
pub transition_payment_again :
    (id : ℕ) (target : Settlement) (actor : Option ℕ) (reason : Option String) (now later : ℕ)
    (ledger : Ledger)
    → (transition_payment id target actor reason later
        (transition_payment id target actor reason now ledger).0).0
      ≡ (transition_payment id target actor reason now ledger).0
unfolding transition_payment
transition_payment_again id target actor reason now later ledger =
    elim (transition_of-Settles (find_payment id ledger.payments) id target actor reason ledger
      refl) [
        | inl same ↦ rw (same now) (same later)
        | inr done_now ↦
            let (p, there, s) = done_now now in
            settled_already id target actor reason later _ p there s
      ]
