-- ===== src/Billing/Account/Runs/Cache.antt =====
-- The cached row of an account, through its operations.
use vaketta_backend.Prelude.{
  ℕ, ◌≡◌, ◌⊎◌, inl, inr, refl, Bool, true, false, not, ◌&&◌, ◌||◌, Option, none, some, ◌==◌, ltb,
  Bool-cases,
}
use vaketta_backend.Billing.Zone.{TimeZone}
use vaketta_backend.Billing.Period.{Period}
use vaketta_backend.Billing.Ledger.{Ledger, outstanding_balance}
use vaketta_backend.Billing.Account.{
  Account, Subscription, Plan, load_subscription_row, current_subscription, is_some,
}
use vaketta_backend.Billing.Account.Plans.{
  StartAt, unspecified, start_now, start_trial_end, switch_to, issue_first, assign_now,
  schedule_found, schedule_plan_at_trial_end, assign_plan_to_hotel, find_trial, has_end,
  is_trial_running,
}
use vaketta_backend.Billing.Account.Changes.{
  cancel_found, extend_found, extend_subscription, restore, latest, reactivate_after_payment,
  is_expired, is_period_open,
}

module _ (plans : ℕ → Option Plan) (epoch : ℕ) where
  -- Nothing is cached, or what a read of the tables would give.
  abbrev pub IsFresh : Account → Type 0
  IsFresh account =
      (account.cache ≡ none) ⊎ (account.cache ≡ some (load_subscription_row plans account epoch))

  -- Invoices and payments are not read.
  billed-IsFresh :
      (ledger : Ledger) (account : Account)
      → IsFresh account
      → IsFresh (record account { ledger = ledger })
  unfolding load_subscription_row
  billed-IsFresh ledger account f = f

  pub issue_first-IsFresh :
      (wanted : Bool) (s : Subscription) (period : Period) (now year : ℕ) (account : Account)
      → IsFresh account
      → IsFresh (issue_first wanted s period now year account)
  unfolding issue_first load_subscription_row
  issue_first-IsFresh wanted s period now year account f =
      elim (Bool-cases (wanted && ltb 0 s.terms.price)) [
        | inl charged ↦ rw charged f
        | inr free ↦ rw free f
      ]

  assign_now-IsFresh :
      (plan : Option Plan) (plan_id : ℕ) (wanted : Bool) (now year : ℕ) (tz : TimeZone)
      (account : Account)
      → IsFresh account
      → IsFresh (assign_now plan plan_id wanted now year tz account).0
  unfolding assign_now switch_to
  assign_now-IsFresh none plan_id wanted now year tz account f = f
  assign_now-IsFresh (some plan) plan_id wanted now year tz account f =
      issue_first-IsFresh wanted _ _ now year _ (inl refl)

  schedule_found-IsFresh :
      (plan : Option Plan) (trial : Option Subscription) (plan_id : ℕ) (account : Account)
      → IsFresh account
      → IsFresh (schedule_found plan trial plan_id account).0
  unfolding schedule_found
  schedule_found-IsFresh none found plan_id account f = f
  schedule_found-IsFresh (some plan) none plan_id account f = f
  schedule_found-IsFresh (some plan) (some found) plan_id account f = inl refl

  pub assign_plan_to_hotel-IsFresh :
      (start : StartAt) (plan_id : ℕ) (wanted : Bool) (now year : ℕ) (tz : TimeZone)
      (account : Account)
      → IsFresh account
      → IsFresh (assign_plan_to_hotel plans start plan_id wanted now year tz account).0
  unfolding assign_plan_to_hotel schedule_plan_at_trial_end
  assign_plan_to_hotel-IsFresh start_now plan_id wanted now year tz account f =
      assign_now-IsFresh (plans plan_id) plan_id wanted now year tz account f
  assign_plan_to_hotel-IsFresh unspecified plan_id wanted now year tz account f =
      elim (Bool-cases (is_trial_running (current_subscription account.subscriptions) now)) [
        | inl running ↦ rw running (
            schedule_found-IsFresh (plans plan_id) (has_end (find_trial account.subscriptions))
              plan_id account f)
        | inr over ↦
            rw over (assign_now-IsFresh (plans plan_id) plan_id wanted now year tz account f)
      ]
  assign_plan_to_hotel-IsFresh start_trial_end plan_id wanted now year tz account f =
      elim (Bool-cases (is_trial_running (current_subscription account.subscriptions) now)) [
        | inl running ↦ rw running (
            schedule_found-IsFresh (plans plan_id) (has_end (find_trial account.subscriptions))
              plan_id account f)
        | inr over ↦ rw over f
      ]

  pub cancel_found-IsFresh :
      (found : Option Subscription) (immediate : Bool) (now : ℕ) (account : Account)
      → IsFresh account
      → IsFresh (cancel_found found immediate now account).0
  unfolding cancel_found
  cancel_found-IsFresh none immediate now account f = f
  cancel_found-IsFresh (some s) true now account f = inl refl
  cancel_found-IsFresh (some s) false now account f = inl refl

  extend_found-IsFresh :
      (found : Option Subscription) (back : Bool) (days now : ℕ) (tz : TimeZone) (account : Account)
      → IsFresh account
      → IsFresh (extend_found found back days now tz account).0
  unfolding extend_found
  extend_found-IsFresh none back days now tz account f = f
  extend_found-IsFresh (some s) back days now tz account f = inl refl

  pub extend_subscription-IsFresh :
      (back : Bool) (days now : ℕ) (tz : TimeZone) (account : Account)
      → IsFresh account
      → IsFresh (extend_subscription back days now tz account).0
  unfolding extend_subscription
  extend_subscription-IsFresh back days now tz account f = elim (Bool-cases (days == 0)) [
    | inl none_asked ↦ rw none_asked f
    | inr asked ↦ rw asked (
        extend_found-IsFresh (current_subscription account.subscriptions) back days now tz account
          f)
  ]

  restore-IsFresh :
      (found : Option Subscription) (now : ℕ) (account : Account)
      → IsFresh account
      → IsFresh (restore found now account).0
  unfolding restore
  restore-IsFresh none now account f = f
  restore-IsFresh (some s) now account f = elim (Bool-cases (is_expired s.status)) [
    | inl ended ↦ elim (Bool-cases (not s.auto_renew && not (is_period_open s.end_date now))) [
      | inl final ↦ rw (ended, final) f
      | inr renewable ↦ rw (ended, renewable) (inl refl)
    ]
    | inr other ↦ rw other f
  ]

  pub reactivate_after_payment-IsFresh :
      (now : ℕ) (account : Account)
      → IsFresh account
      → IsFresh (reactivate_after_payment now account).0
  unfolding reactivate_after_payment
  reactivate_after_payment-IsFresh now account f =
      elim (Bool-cases (
        ltb 0 (outstanding_balance account.hotel_id account.ledger)
        || is_some (current_subscription account.subscriptions))) [
          | inl kept ↦ rw kept f
          | inr free ↦ rw free (restore-IsFresh (latest account.subscriptions) now account f)
        ]
