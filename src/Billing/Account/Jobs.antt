-- ===== src/Billing/Account/Jobs.antt =====
-- The billing jobs of src/services/billing.service.ts for one hotel: trials that go over into a plan,
-- renewals, and expiry. Each list of due rows is read before the loop over it. The usage of a period
-- is an argument; a step that fails is logged there and cannot fail here but for a deleted plan.
use vaketta_backend.Prelude.{
  ℕ, zero, suc, Bool, true, false, ◌&&◌, ◌||◌, Option, none, some, List, [], ◌∷◌, ltb, leb, ◌==◌,
  if◌then◌else◌,
}
use vaketta_backend.Js.{JsNumber, number}
use vaketta_backend.Billing.Zone.{TimeZone}
use vaketta_backend.Billing.Period.{Period, anchor_day_of, next_anchored_period, clamp_anchor_day}
use vaketta_backend.Billing.EffectiveStatus.{
  expired, is_trialing, is_past_due, paid_period_after_trial, resolve_effective_state,
}
use vaketta_backend.Billing.Overage.{UsageCounts}
use vaketta_backend.Billing.Ledger.{issue_invoice, select}
use vaketta_backend.Billing.Account.{
  Account, Subscription, Hotel, Plan, current_subscription, update_subscription, update_live,
  is_some, is_live, to_state,
}
use vaketta_backend.Billing.Account.Plans.{plan_subscription, switch_to, issue_first, invoice_for}
use vaketta_backend.Billing.Account.Changes.{is_active, is_expired, anchor_or}

-- An end date that is set and not after an instant.
abbrev pub is_over : Option ℕ → ℕ → Bool
is_over none now = false
is_over (some end) now = leb end now

abbrev pub is_trial_due : ℕ → Subscription → Bool
is_trial_due now s = is_trialing s.status && (is_over s.end_date now && is_some s.scheduled_plan_id)

-- Whether the row is still in trial when its conversion begins.
unfoldable pub is_still_trialing : ℕ → List Subscription → Bool
is_still_trialing id [] = false
is_still_trialing id (s ∷ ss) =
    let rest = is_still_trialing id ss in (s.id == id && is_trialing s.status) || rest

unfoldable pub convert_to : Option Plan → ℕ → ℕ → ℕ → ℕ → ℕ → TimeZone → Account → Account
convert_to none plan_id trial_id trial_end now year tz account = account
convert_to (some plan) plan_id trial_id trial_end now year tz account =
    let paid = paid_period_after_trial trial_end tz in
    let s = plan_subscription account.next_id plan_id plan paid.0 paid.1 in
    if is_still_trialing trial_id account.subscriptions
    then issue_first true s paid.0 now year (switch_to s (some plan_id) now account)
    else account

module _ (plans : ℕ → Option Plan) where
  unfoldable pub convert_ended : Option ℕ → Option ℕ → ℕ → ℕ → ℕ → TimeZone → Account → Account
  unfolding convert_to
  convert_ended none plan_id trial_id now year tz account = account
  convert_ended (some trial_end) none trial_id now year tz account = account
  convert_ended (some trial_end) (some plan_id) trial_id now year tz account =
      convert_to (plans plan_id) plan_id trial_id trial_end now year tz account

  unfoldable pub convert_each : List Subscription → ℕ → ℕ → TimeZone → Account → Account
  unfolding convert_ended
  convert_each [] now year tz account = account
  convert_each (s ∷ ss) now year tz account =
      convert_each ss now year tz
        (convert_ended s.end_date s.scheduled_plan_id s.id now year tz account)

  unfoldable pub convert_due_trials : ℕ → ℕ → TimeZone → Account → Account
  convert_due_trials now year tz account =
      convert_each (select (is_trial_due now) account.subscriptions) now year tz account

abbrev pub max_catchup_periods : ℕ
max_catchup_periods = 36

abbrev pub is_renewal_due : ℕ → Subscription → Bool
is_renewal_due now s =
    (is_active s.status || is_past_due s.status) && (s.auto_renew && is_over s.end_date now)

abbrev pub renewed_to : Period → JsNumber → Subscription → Subscription
renewed_to next anchor s = record s {
  start_date = next.period_start;
  end_date = some next.period_end;
  billing_anchor_day = some anchor;
}

-- The transaction for one closed period.
unfoldable pub close_period :
    Subscription → Period → Period → JsNumber → UsageCounts → ℕ → ℕ → Account → Account
close_period s closed next anchor usage now year account = record account {
  ledger = (issue_invoice (invoice_for account.hotel_id s usage closed) now year account.ledger).0;
  subscriptions = update_subscription s.id (renewed_to next anchor) account.subscriptions;
  hotel = record account.hotel {
    billing_start_date = some next.period_start;
    billing_end_date = some next.period_end;
  };
}

module _ (usage_of : ℕ → UsageCounts) where
  -- At most so many periods are closed, the oldest first, and the cache is dropped where one was.
  unfoldable pub catch_up :
      ℕ → Subscription → Period → JsNumber → ℕ → ℕ → TimeZone → Account → Account
  catch_up zero s closing anchor now year tz account = account
  catch_up (suc n) s closing anchor now year tz account =
      let next = next_anchored_period closing (clamp_anchor_day (number anchor)) tz in
      let rolled =
        record (close_period s closing next anchor (usage_of closing.period_start) now year
          account) { cache = none } in
      let rest = catch_up n s next anchor now year tz rolled in
      if leb closing.period_end now then rest else account

  unfoldable pub renew_ended : Option ℕ → Subscription → ℕ → ℕ → TimeZone → Account → Account
  renew_ended none s now year tz account = account
  renew_ended (some end) s now year tz account =
      catch_up max_catchup_periods s (record { period_start = s.start_date; period_end = end })
        (anchor_or s.billing_anchor_day (anchor_day_of end tz)) now year tz account

  unfoldable pub renew_each : List Subscription → ℕ → ℕ → TimeZone → Account → Account
  unfolding renew_ended
  renew_each [] now year tz account = account
  renew_each (s ∷ ss) now year tz account =
      renew_each ss now year tz (renew_ended s.end_date s now year tz account)

  unfoldable pub renew_due_subscriptions : ℕ → ℕ → TimeZone → Account → Account
  renew_due_subscriptions now year tz account =
      renew_each (select (is_renewal_due now) account.subscriptions) now year tz account

-- Whether the hotel's row says that its period is over while it is served.
abbrev pub is_lapsed : ℕ → Hotel → Bool
is_lapsed now hotel =
    is_live hotel.subscription_status
    && elim (hotel.billing_end_date) [ none ↦ false | some end ↦ ltb end now ]

abbrev pub resolves_expired : Option Subscription → ℕ → TimeZone → Bool
resolves_expired none now tz = true
resolves_expired (some s) now tz = is_expired (resolve_effective_state (to_state s) now tz).status

-- The hotel is expired only where the resolver agrees.
unfoldable pub expire_overdue_subscriptions : ℕ → TimeZone → Account → Account
expire_overdue_subscriptions now tz account =
    if is_lapsed now account.hotel
      && resolves_expired (current_subscription account.subscriptions) now tz
    then record account {
      hotel = record account.hotel { subscription_status = expired };
      subscriptions = update_live (λ s. record s { status = expired }) account.subscriptions;
      cache = none;
    }
    else account
