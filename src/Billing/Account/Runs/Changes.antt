-- ===== src/Billing/Account/Runs/Changes.antt =====
-- Consistency through the changes of a live subscription, and its restoration.
use mathlib.Core.Option.{some-injective}
use vaketta_backend.Prelude.{
  ℕ, ◌≡◌, inl, inr, refl, arith, Bool, true, false, Option, none, some, List, [], ◌∷◌, ◌==◌,
  if◌then◌else◌, ltb, Bool-cases, ==_iff, subst,
}
use vaketta_backend.Billing.Zone.{TimeZone}
use vaketta_backend.Billing.Period.{anchor_day_of}
use vaketta_backend.Billing.EffectiveStatus.{active}
use vaketta_backend.Billing.Ledger.{outstanding_balance}
use vaketta_backend.Billing.Account.{
  nothing_done, Account, Subscription, Hotel, is_live, is_some, current_subscription,
  update_subscription,
}
use vaketta_backend.Billing.Account.Changes.{
  cancel_found, cancel_subscription, canceled_now, canceled_at_end, extend_found,
  extend_subscription, extended, end_or_now, shift_days, anchor_or, restore, latest,
  reactivate_after_payment, mark_past_due, is_active,
}
use vaketta_backend.Billing.Account.Runs.Consistent.{
  IsCopied, IsConsistent, live_count, Falling, Copies, Copies-none, Falling-update, Copies-update,
  live_count-update, update_subscription_above,
}
use vaketta_backend.Billing.Account.Runs.Rows.{
  live_count-delay_active, Falling-delay_active, Copies-delay_active, current_subscription-none,
}

pub current-IsCopied :
    (hotel : Hotel) (ss : List Subscription) (s : Subscription)
    → current_subscription ss ≡ some s
    → Copies hotel ss
    → (is_live s.status ≡ true) × IsCopied hotel s
unfolding current_subscription
current-IsCopied hotel [] s e c = absurd (ground (arith, e))
current-IsCopied hotel (x ∷ ss) s e c = elim (Bool-cases (is_live x.status)) [
  | inl live ↦
      subst (λ k. (is_live k.status ≡ true) × IsCopied hotel k) (some-injective _ _ (rw live at e))
        (live, c.0 live)
  | inr dead ↦ current-IsCopied hotel ss s (rw dead at e) c.1
]

-- A change of the live subscription that ends it, or that the hotel copies.
pub changed-IsConsistent :
    (account : Account) (hotel : Hotel) (f : Subscription → Subscription) (s : Subscription)
    → current_subscription account.subscriptions ≡ some s
    → ((x : Subscription) → (f x).id ≡ x.id)
    → ((x : Subscription) → is_live x.status ≡ false → is_live (f x).status ≡ false)
    → (is_live (f s).status ≡ true → IsCopied hotel (f s))
    → IsConsistent account
    → IsConsistent (record account {
      subscriptions = update_subscription s.id f account.subscriptions;
      hotel = hotel;
      cache = none;
    })
changed-IsConsistent account hotel f s e keeps dies copy c = record {
  one_live = omega (arith, live_count-update s.id f account.subscriptions dies, c.one_live);
  ids = Falling-update account.next_id s.id f account.subscriptions keeps c.ids;
  copied = Copies-update account.next_id hotel f account.subscriptions s e c.one_live c.ids copy;
}

cancel_found-IsConsistent :
    (found : Option Subscription) (immediate : Bool) (now : ℕ) (account : Account)
    → current_subscription account.subscriptions ≡ found
    → IsConsistent account
    → IsConsistent (cancel_found found immediate now account).0
unfolding cancel_found
cancel_found-IsConsistent none immediate now account e c = c
cancel_found-IsConsistent (some s) true now account e c =
    changed-IsConsistent account _ (canceled_now now) s e (λ x. refl) (λ x dead. refl)
      (λ live. absurd (ground (arith, live))) c
cancel_found-IsConsistent (some s) false now account e c =
    let (live, copy) = current-IsCopied account.hotel account.subscriptions s e c.copied in
    changed-IsConsistent account account.hotel (canceled_at_end now) s e (λ x. refl)
      (λ x dead. dead) (λ _. record { status = copy.status; start = copy.start; end = copy.end }) c

pub cancel_subscription-IsConsistent :
    (immediate : Bool) (now : ℕ) (account : Account)
    → IsConsistent account
    → IsConsistent (cancel_subscription immediate now account).0
unfolding cancel_subscription
cancel_subscription-IsConsistent immediate now account c =
    cancel_found-IsConsistent (current_subscription account.subscriptions) immediate now account
      refl c

extend_found-IsConsistent :
    (found : Option Subscription) (back : Bool) (days now : ℕ) (tz : TimeZone) (account : Account)
    → current_subscription account.subscriptions ≡ found
    → IsConsistent account
    → IsConsistent (extend_found found back days now tz account).0
unfolding extend_found
extend_found-IsConsistent none back days now tz account e c = c
extend_found-IsConsistent (some s) back days now tz account e c =
    let (live, copy) = current-IsCopied account.hotel account.subscriptions s e c.copied in
    let base = end_or_now s.end_date now in
    let new_end = shift_days back days base in
    changed-IsConsistent account _
      (extended new_end (anchor_or s.billing_anchor_day (anchor_day_of base tz))) s e (λ x. refl)
      (λ x dead. dead)
      (λ _. record {
        status = elim (Bool-cases (ltb now new_end)) [
          | inl ahead ↦ rw ahead refl
          | inr past ↦ rw past copy.status
        ];
        start = copy.start;
        end = refl;
      })
      c

pub extend_subscription-IsConsistent :
    (back : Bool) (days now : ℕ) (tz : TimeZone) (account : Account)
    → IsConsistent account
    → IsConsistent (extend_subscription back days now tz account).0
unfolding extend_subscription
extend_subscription-IsConsistent back days now tz account c =
    let found =
      extend_found-IsConsistent (current_subscription account.subscriptions) back days now tz
        account refl c in
    elim (Bool-cases (days == 0)) [ inl none_asked ↦ rw none_asked c | inr asked ↦ rw asked found ]

-- The latest row is the only live one once it is restored.
restored-IsConsistent :
    (s : Subscription) (ss : List Subscription) (account : Account)
    → account.subscriptions ≡ s ∷ ss
    → live_count (s ∷ ss) ≡ 0
    → IsConsistent account
    → IsConsistent (record account {
      subscriptions =
          update_subscription s.id (λ x. record x { status = active }) account.subscriptions;
      hotel = record account.hotel {
        subscription_status = active;
        billing_start_date = some s.start_date;
        billing_end_date = s.end_date;
      };
      cache = none;
    })
unfolding update_subscription
restored-IsConsistent s ss account e dead c =
    let ids : Falling account.next_id (s ∷ ss) = subst (Falling account.next_id) e c.ids in
    let left =
      update_subscription_above s.id s.id (λ x. record x { status = active }) ss (omega arith)
        ids.1 in
    let others : live_count ss ≡ 0 = omega (arith, dead) in
    rw e (
      rw ((==_iff s.id s.id).1 refl) (
        rw left (record {
          one_live = omega (arith, others);
          ids = ids;
          copied = (
            (λ live. record { status = refl; start = refl; end = refl }),
            Copies-none _ ss others,
          );
        })))

restore-IsConsistent :
    (ss : List Subscription) (now : ℕ) (account : Account)
    → account.subscriptions ≡ ss
    → live_count ss ≡ 0
    → IsConsistent account
    → IsConsistent (restore (latest ss) now account).0
unfolding restore
restore-IsConsistent [] now account e dead c = c
restore-IsConsistent (s ∷ ss) now account e dead c =
    ground (arith, restored-IsConsistent s ss account e dead c)

pub reactivate_after_payment-IsConsistent :
    (now : ℕ) (account : Account)
    → IsConsistent account
    → IsConsistent (reactivate_after_payment now account).0
unfolding reactivate_after_payment
reactivate_after_payment-IsConsistent now account c =
    elim (Bool-cases (ltb 0 (outstanding_balance account.hotel_id account.ledger))) [
      | inl owes ↦ rw owes c
      | inr square ↦ rw square (by_current (current_subscription account.subscriptions) refl)
    ]
  where
    by_current :
        (found : Option Subscription)
        → current_subscription account.subscriptions ≡ found
        → IsConsistent
            (if is_some found
              then (account, nothing_done)
              else restore (latest account.subscriptions) now account).0
    by_current (some s) e = c
    by_current none e =
        restore-IsConsistent account.subscriptions now account refl
          (current_subscription-none account.subscriptions e) c

pub mark_past_due-IsConsistent :
    (account : Account) → IsConsistent account → IsConsistent (mark_past_due account).0
unfolding mark_past_due
mark_past_due-IsConsistent account c =
    elim (Bool-cases (is_active account.hotel.subscription_status)) [
      | inl running ↦ rw running (record {
        one_live = rw (live_count-delay_active account.subscriptions) c.one_live;
        ids = Falling-delay_active account.next_id account.subscriptions c.ids;
        copied =
            Copies-delay_active account.hotel _ account.subscriptions running refl refl refl
              c.copied;
      })
      | inr other ↦ rw other c
    ]
