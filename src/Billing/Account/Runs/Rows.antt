-- ===== src/Billing/Account/Runs/Rows.antt =====
-- What the updates of several rows do to the live subscriptions.
use vaketta_backend.Prelude.{
  ℕ, ◌≡◌, inl, inr, refl, ◌∙◌, arith, true, false, none, List, [], ◌∷◌, ◌==◌, Bool-cases, subst,
}
use vaketta_backend.Billing.EffectiveStatus.{
  BillingStatus, active, past_due, trialing, expired, canceled,
}
use vaketta_backend.Billing.Account.{
  Subscription, Hotel, is_live, current_subscription, update_subscription, update_live,
}
use vaketta_backend.Billing.Account.Changes.{delay_active, is_active}
use vaketta_backend.Billing.Account.Runs.Consistent.{IsCopied, live_count, Falling, Copies}

pub live_count-update_live :
    (f : Subscription → Subscription) (ss : List Subscription)
    → ((s : Subscription) → is_live (f s).status ≡ false)
    → live_count (update_live f ss) ≡ 0
unfolding update_live
live_count-update_live f [] dies = refl
live_count-update_live f (s ∷ ss) dies =
    let rest = live_count-update_live f ss dies in
    elim (Bool-cases (is_live s.status)) [
      | inl live ↦ rw live (rw (dies s) (omega (arith, rest)))
      | inr dead ↦ rw (dead, dead) (omega (arith, rest))
    ]

pub Falling-update_live :
    (n : ℕ) (f : Subscription → Subscription) (ss : List Subscription)
    → ((s : Subscription) → (f s).id ≡ s.id)
    → Falling n ss
    → Falling n (update_live f ss)
unfolding update_live
Falling-update_live n f [] keeps d = tt
Falling-update_live n f (s ∷ ss) keeps d =
    let rest = Falling-update_live s.id f ss keeps d.1 in
    elim (Bool-cases (is_live s.status)) [
      | inl live ↦ rw live (omega (arith, keeps s), rw (keeps s) rest)
      | inr dead ↦ rw dead (d.0, rest)
    ]

-- A change of rows that leaves what is copied.
pub Copies-unchanged :
    (hotel : Hotel) (id : ℕ) (f : Subscription → Subscription) (ss : List Subscription)
    → ((s : Subscription)
        → (is_live s.status ≡ true → IsCopied hotel s)
        → is_live (f s).status ≡ true
        → IsCopied hotel (f s))
    → Copies hotel ss
    → Copies hotel (update_subscription id f ss)
unfolding update_subscription
Copies-unchanged hotel id f [] keeps c = tt
Copies-unchanged hotel id f (s ∷ ss) keeps c =
    let rest = Copies-unchanged hotel id f ss keeps c.1 in
    elim (Bool-cases (s.id == id)) [
      | inl same ↦ rw same (keeps s c.0, rest)
      | inr other ↦ rw other (c.0, rest)
    ]

live_active : (status : BillingStatus) → is_active status ≡ true → is_live status ≡ true
live_active trialing e = absurd (ground (arith, e))
live_active active e = refl
live_active past_due e = absurd (ground (arith, e))
live_active expired e = absurd (ground (arith, e))
live_active canceled e = absurd (ground (arith, e))

pub live_count-delay_active :
    (ss : List Subscription) → live_count (delay_active ss) ≡ live_count ss
unfolding delay_active
live_count-delay_active [] = refl
live_count-delay_active (s ∷ ss) =
    let rest = live_count-delay_active ss in
    elim (Bool-cases (is_active s.status)) [
      | inl running ↦ rw running (rw (live_active s.status running) (omega (arith, rest)))
      | inr other ↦ rw other (omega (arith, rest))
    ]

pub Falling-delay_active :
    (n : ℕ) (ss : List Subscription) → Falling n ss → Falling n (delay_active ss)
unfolding delay_active
Falling-delay_active n [] d = tt
Falling-delay_active n (s ∷ ss) d =
    let rest = Falling-delay_active s.id ss d.1 in
    elim (Bool-cases (is_active s.status)) [
      | inl live ↦ rw live (d.0, rest)
      | inr dead ↦ rw dead (d.0, rest)
    ]

-- The copy of an account whose hotel was active, once both are past due.
pub Copies-delay_active :
    (hotel later : Hotel) (ss : List Subscription)
    → is_active hotel.subscription_status ≡ true
    → later.subscription_status ≡ past_due
    → later.billing_start_date ≡ hotel.billing_start_date
    → later.billing_end_date ≡ hotel.billing_end_date
    → Copies hotel ss
    → Copies later (delay_active ss)
unfolding delay_active
Copies-delay_active hotel later [] h p st en c = tt
Copies-delay_active hotel later (s ∷ ss) h p st en c =
    let rest = Copies-delay_active hotel later ss h p st en c.1 in
    elim (Bool-cases (is_active s.status)) [
      | inl running ↦
          let copy = c.0 (live_active s.status running) in
          rw running
            ((λ live. record { status = p; start = st ∙ copy.start; end = en ∙ copy.end }), rest)
      | inr other ↦ rw other (
        (λ live.
            absurd (ground (arith, other, subst (λ k. is_active k ≡ true) ((c.0 live).status) h))),
        rest,
      )
    ]

pub current_subscription-none :
    (ss : List Subscription) → current_subscription ss ≡ none → live_count ss ≡ 0
unfolding current_subscription
current_subscription-none [] e = refl
current_subscription-none (s ∷ ss) e = elim (Bool-cases (is_live s.status)) [
  | inl live ↦ absurd (ground (arith, rw live at e))
  | inr dead ↦ rw dead (omega (arith, current_subscription-none ss (rw dead at e)))
]
