-- ===== src/Billing/Account/Runs/Fresh.antt =====
-- The cache through runs.
use vaketta_backend.Prelude.{
  ℕ, zero, suc, ◌≡◌, inl, inr, refl, true, ◌&&◌, Option, none, some, List, [], ◌∷◌, leb, Bool-cases,
}
use vaketta_backend.Js.{JsNumber, number}
use vaketta_backend.Billing.Zone.{TimeZone}
use vaketta_backend.Billing.Period.{Period, next_anchored_period, clamp_anchor_day}
use vaketta_backend.Billing.Overage.{UsageCounts}
use vaketta_backend.Billing.Account.{
  Account, Subscription, Hotel, Plan, load_subscription_row, current_subscription,
  get_effective_subscription,
}
use vaketta_backend.Billing.Account.Plans.{switch_to, start_trial}
use vaketta_backend.Billing.Account.Changes.{cancel_subscription, mark_past_due, is_active}
use vaketta_backend.Billing.Account.Jobs.{
  is_still_trialing, convert_to, convert_ended, convert_each, convert_due_trials,
  max_catchup_periods, catch_up, renew_ended, renew_each, renew_due_subscriptions, is_lapsed,
  resolves_expired, expire_overdue_subscriptions,
}
use vaketta_backend.Billing.Account.Runs.{
  Operation, assign, trial, cancel, extend, reactivate, delay, convert, expire, dun, renew, bill,
  read, Instant, perform, perform_all, new_account,
}
use vaketta_backend.Billing.Account.Runs.Cache.{
  IsFresh, issue_first-IsFresh, assign_plan_to_hotel-IsFresh, cancel_found-IsFresh,
  extend_subscription-IsFresh, reactivate_after_payment-IsFresh,
}
use vaketta_backend.Billing.Account.{is_live}
use vaketta_backend.Billing.Account.Dunning.{suspend}
use vaketta_backend.Billing.Account.Runs.Delinquent.{advance_delinquent_keeps}

module _ (plans : ℕ → Option Plan) (epoch : ℕ) where
  convert_to-IsFresh :
      (plan : Option Plan) (plan_id trial_id trial_end now year : ℕ) (tz : TimeZone)
      (account : Account)
      → IsFresh plans epoch account
      → IsFresh plans epoch (convert_to plan plan_id trial_id trial_end now year tz account)
  unfolding convert_to switch_to
  convert_to-IsFresh none plan_id trial_id trial_end now year tz account f = f
  convert_to-IsFresh (some plan) plan_id trial_id trial_end now year tz account f =
      elim (Bool-cases (is_still_trialing trial_id account.subscriptions)) [
        | inl there ↦ rw there (issue_first-IsFresh plans epoch true _ _ now year _ (inl refl))
        | inr gone ↦ rw gone f
      ]

  convert_ended-IsFresh :
      (end plan_id : Option ℕ) (trial_id now year : ℕ) (tz : TimeZone) (account : Account)
      → IsFresh plans epoch account
      → IsFresh plans epoch (convert_ended plans end plan_id trial_id now year tz account)
  unfolding convert_ended
  convert_ended-IsFresh none plan_id trial_id now year tz account f = f
  convert_ended-IsFresh (some end) none trial_id now year tz account f = f
  convert_ended-IsFresh (some end) (some plan_id) trial_id now year tz account f =
      convert_to-IsFresh (plans plan_id) plan_id trial_id end now year tz account f

  convert_each-IsFresh :
      (ss : List Subscription) (now year : ℕ) (tz : TimeZone) (account : Account)
      → IsFresh plans epoch account
      → IsFresh plans epoch (convert_each plans ss now year tz account)
  unfolding convert_each
  convert_each-IsFresh [] now year tz account f = f
  convert_each-IsFresh (s ∷ ss) now year tz account f =
      convert_each-IsFresh ss now year tz _
        (convert_ended-IsFresh s.end_date s.scheduled_plan_id s.id now year tz account f)

  catch_up-IsFresh :
      (usage_of : ℕ → UsageCounts) (n : ℕ) (s : Subscription) (closing : Period) (anchor : JsNumber)
      (now year : ℕ) (tz : TimeZone) (account : Account)
      → IsFresh plans epoch account
      → IsFresh plans epoch (catch_up usage_of n s closing anchor now year tz account)
  unfolding catch_up
  catch_up-IsFresh usage_of zero s closing anchor now year tz account f = f
  catch_up-IsFresh usage_of (suc n) s closing anchor now year tz account f =
      let next = next_anchored_period closing (clamp_anchor_day (number anchor)) tz in
      elim (Bool-cases (leb closing.period_end now)) [
        | inl over ↦ rw over (catch_up-IsFresh usage_of n s next anchor now year tz _ (inl refl))
        | inr open_still ↦ rw open_still f
      ]

  renew_ended-IsFresh :
      (usage_of : ℕ → UsageCounts) (end : Option ℕ) (s : Subscription) (now year : ℕ)
      (tz : TimeZone) (account : Account)
      → IsFresh plans epoch account
      → IsFresh plans epoch (renew_ended usage_of end s now year tz account)
  unfolding renew_ended
  renew_ended-IsFresh usage_of none s now year tz account f = f
  renew_ended-IsFresh usage_of (some end) s now year tz account f =
      catch_up-IsFresh usage_of max_catchup_periods s _ _ now year tz account f

  renew_each-IsFresh :
      (usage_of : ℕ → UsageCounts) (ss : List Subscription) (now year : ℕ) (tz : TimeZone)
      (account : Account)
      → IsFresh plans epoch account
      → IsFresh plans epoch (renew_each usage_of ss now year tz account)
  unfolding renew_each
  renew_each-IsFresh usage_of [] now year tz account f = f
  renew_each-IsFresh usage_of (s ∷ ss) now year tz account f =
      renew_each-IsFresh usage_of ss now year tz _
        (renew_ended-IsFresh usage_of s.end_date s now year tz account f)

  mark_past_due-IsFresh :
      (account : Account)
      → IsFresh plans epoch account
      → IsFresh plans epoch (mark_past_due account).0
  unfolding mark_past_due
  mark_past_due-IsFresh account f =
      elim (Bool-cases (is_active account.hotel.subscription_status)) [
        | inl running ↦ rw running (inl refl)
        | inr other ↦ rw other f
      ]

  expire_overdue_subscriptions-IsFresh :
      (now : ℕ) (tz : TimeZone) (account : Account)
      → IsFresh plans epoch account
      → IsFresh plans epoch (expire_overdue_subscriptions now tz account)
  unfolding expire_overdue_subscriptions
  expire_overdue_subscriptions-IsFresh now tz account f =
      elim (Bool-cases (
        is_lapsed now account.hotel
        && resolves_expired (current_subscription account.subscriptions) now tz)) [
          | inl over ↦ rw over (inl refl)
          | inr served ↦ rw served f
        ]

  suspend-IsFresh :
      (account : Account) → IsFresh plans epoch account → IsFresh plans epoch (suspend account)
  unfolding suspend
  suspend-IsFresh account f = elim (Bool-cases (is_live account.hotel.subscription_status)) [
    | inl live ↦ rw live (inl refl)
    | inr ended ↦ rw ended f
  ]

  get_effective_subscription-IsFresh :
      (now : ℕ) (tz : TimeZone) (account : Account)
      → IsFresh plans epoch account
      → IsFresh plans epoch (get_effective_subscription plans account epoch now tz).0
  unfolding get_effective_subscription load_subscription_row
  get_effective_subscription-IsFresh now tz account (inl empty) = inr (rw empty refl)
  get_effective_subscription-IsFresh now tz account (inr full) = inr (rw full refl)

  perform-IsFresh :
      (tz : TimeZone) (operation : Operation) (i : Instant) (account : Account)
      → IsFresh plans epoch account
      → IsFresh plans epoch (perform plans epoch tz operation i account)
  unfolding start_trial switch_to cancel_subscription convert_due_trials renew_due_subscriptions
      load_subscription_row
  perform-IsFresh tz (assign start plan_id invoice) i account f =
      assign_plan_to_hotel-IsFresh plans epoch start plan_id invoice i.now i.year tz account f
  perform-IsFresh tz (trial days terms) i account f = inl refl
  perform-IsFresh tz (cancel immediate) i account f =
      cancel_found-IsFresh plans epoch (current_subscription account.subscriptions) immediate i.now
        account f
  perform-IsFresh tz (extend back days) i account f =
      extend_subscription-IsFresh plans epoch back days i.now tz account f
  perform-IsFresh tz reactivate i account f =
      reactivate_after_payment-IsFresh plans epoch i.now account f
  perform-IsFresh tz delay i account f = mark_past_due-IsFresh account f
  perform-IsFresh tz convert i account f = convert_each-IsFresh _ i.now i.year tz account f
  perform-IsFresh tz (dun grace_days) i account f =
      advance_delinquent_keeps (IsFresh plans epoch) grace_days i.now account mark_past_due-IsFresh
        suspend-IsFresh f
  perform-IsFresh tz expire i account f = expire_overdue_subscriptions-IsFresh i.now tz account f
  perform-IsFresh tz (renew usage_of) i account f =
      renew_each-IsFresh usage_of _ i.now i.year tz account f
  perform-IsFresh tz (bill event) i account f = f
  perform-IsFresh tz read i account f = get_effective_subscription-IsFresh i.now tz account f

  perform_all-IsFresh :
      (tz : TimeZone) (operations : List (Operation × Instant)) (hotel_id : ℕ) (hotel : Hotel)
      → IsFresh plans epoch (perform_all plans epoch tz operations (new_account hotel_id hotel))
  perform_all-IsFresh tz [] hotel_id hotel = inl refl
  perform_all-IsFresh tz ((operation, i) ∷ earlier) hotel_id hotel =
      perform-IsFresh tz operation i _ (perform_all-IsFresh tz earlier hotel_id hotel)

  fresh_answer :
      (now : ℕ) (tz : TimeZone) (account : Account)
      → IsFresh plans epoch account
      → (get_effective_subscription plans account epoch now tz).1
        ≡ (get_effective_subscription plans (record account { cache = none }) epoch now tz).1
  unfolding get_effective_subscription load_subscription_row
  fresh_answer now tz account (inl empty) = rw empty refl
  fresh_answer now tz account (inr full) = rw full refl

  -- After any operations at any instants, as long as the plans stay as they are, what a request is
  -- answered from the cache is what the tables would answer at that instant.
  pub get_effective_subscription_fresh :
      (tz : TimeZone) (operations : List (Operation × Instant)) (hotel_id : ℕ) (hotel : Hotel)
      (now : ℕ)
      → let account = perform_all plans epoch tz operations (new_account hotel_id hotel) in
        (get_effective_subscription plans account epoch now tz).1
        ≡ (get_effective_subscription plans (record account { cache = none }) epoch now tz).1
  get_effective_subscription_fresh tz operations hotel_id hotel now =
      fresh_answer now tz _ (perform_all-IsFresh tz operations hotel_id hotel)
