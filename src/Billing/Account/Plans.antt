-- ===== src/Billing/Account/Plans.antt =====
-- The assignment of plans and the start of trials in src/services/billing.service.ts. Events and
-- messages to the admin's page are left out. The defaults of a trial are arguments, and an invoice
-- that fails is logged there and cannot fail here.
use vaketta_backend.Prelude.{
  ℕ, ◌+◌, Bool, true, false, ◌&&◌, Option, none, some, List, [], ◌∷◌, ltb, if◌then◌else◌,
}
use vaketta_backend.Js.{not_a_number, number, of_ℕ}
use vaketta_backend.Billing.Zone.{TimeZone}
use vaketta_backend.Billing.Period.{
  Period, anchor_day_of, compute_anchored_period, start_of_day_in_tz, add_days_in_tz,
}
use vaketta_backend.Billing.EffectiveStatus.{trialing, active, is_trialing}
use vaketta_backend.Billing.Overage.{UsageCounts}
use vaketta_backend.Billing.Ledger.{IssueInvoiceInput, issue_invoice}
use vaketta_backend.Billing.Account.{
  Account, Subscription, BilledTerms, Plan, AccountResult, refused, changed, plan_not_found,
  not_on_trial, current_subscription, update_subscription, cancel_live_subscriptions,
}

abbrev pub no_usage : UsageCounts
no_usage = record { conversations_used = number (of_ℕ 0); ai_replies_used = number (of_ℕ 0) }

-- The invoice of a subscription for a period.
abbrev pub invoice_for : ℕ → Subscription → UsageCounts → Period → IssueInvoiceInput
invoice_for hotel_id s usage period = record {
  hotel_id = hotel_id;
  subscription_id = some s.id;
  currency = s.terms.currency;
  subscription_amount = s.terms.price;
  usage = usage;
  terms = s.terms.allowance;
  period_start = period.period_start;
  period_end = period.period_end;
  tax_rate = s.tax_rate;
}

-- The snapshot of a plan, active and renewing, over a first period.
abbrev pub plan_subscription : ℕ → ℕ → Plan → Period → ℕ → Subscription
plan_subscription id plan_id plan period anchor = record {
  id = id;
  plan_id = some plan_id;
  status = active;
  terms = plan.terms;
  tax_rate = plan.tax_rate;
  start_date = period.period_start;
  end_date = some period.period_end;
  billing_anchor_day = some (of_ℕ anchor);
  auto_renew = true;
  canceled_at = none;
  scheduled_plan_id = none;
}

-- The live subscriptions are canceled, the new one is written, the hotel copied and the cache dropped.
unfoldable pub switch_to : Subscription → Option ℕ → ℕ → Account → Account
switch_to s plan_id now account = record account {
  hotel = record {
    plan_id = plan_id;
    subscription_status = s.status;
    billing_start_date = some s.start_date;
    billing_end_date = s.end_date;
  };
  subscriptions = s ∷ cancel_live_subscriptions now account.subscriptions;
  next_id = account.next_id + 1;
  cache = none;
}

-- The invoice for the first period of a subscription that costs something.
unfoldable pub issue_first : Bool → Subscription → Period → ℕ → ℕ → Account → Account
issue_first wanted s period now year account =
    if wanted && ltb 0 s.terms.price
    then record account {
      ledger =
          (issue_invoice (invoice_for account.hotel_id s no_usage period) now year
            account.ledger).0;
    }
    else account

unfoldable pub assign_now :
    Option Plan → ℕ → Bool → ℕ → ℕ → TimeZone → Account → Account × AccountResult
assign_now none plan_id issue_first_invoice now year tz account = (account, refused plan_not_found)
assign_now (some plan) plan_id issue_first_invoice now year tz account =
    let start = start_of_day_in_tz now tz in
    let anchor = anchor_day_of start tz in
    let period = compute_anchored_period start anchor tz in
    let s = plan_subscription account.next_id plan_id plan period anchor in
    (
      issue_first issue_first_invoice s period now year (switch_to s (some plan_id) now account),
      changed,
    )

-- The latest subscription in trial, with an end date.
unfoldable pub find_trial : List Subscription → Option Subscription
find_trial [] = none
find_trial (s ∷ ss) = if is_trialing s.status then some s else find_trial ss

abbrev pub has_end : Option Subscription → Option Subscription
has_end none = none
has_end (some s) = elim (s.end_date) [ none ↦ none | some end ↦ some s ]

unfoldable pub schedule_found :
    Option Plan → Option Subscription → ℕ → Account → Account × AccountResult
schedule_found none trial plan_id account = (account, refused plan_not_found)
schedule_found (some plan) none plan_id account = (account, refused not_on_trial)
schedule_found (some plan) (some trial) plan_id account = (
  record account {
    subscriptions =
        update_subscription trial.id (λ s. record s { scheduled_plan_id = some plan_id })
          account.subscriptions;
    cache = none;
  },
  changed,
)

pub data StartAt : Type 0 where
  unspecified start_now start_trial_end : StartAt

abbrev pub is_trial_running : Option Subscription → ℕ → Bool
is_trial_running none now = false
is_trial_running (some s) now =
    is_trialing s.status && elim (s.end_date) [ none ↦ false | some end ↦ ltb now end ]

module _ (plans : ℕ → Option Plan) where
  unfoldable pub schedule_plan_at_trial_end : ℕ → Account → Account × AccountResult
  unfolding schedule_found
  schedule_plan_at_trial_end plan_id account =
      schedule_found (plans plan_id) (has_end (find_trial account.subscriptions)) plan_id account

  -- The default starts at once unless a trial is running, which it waits for.
  unfoldable pub assign_plan_to_hotel :
      StartAt → ℕ → Bool → ℕ → ℕ → TimeZone → Account → Account × AccountResult
  unfolding assign_now
  assign_plan_to_hotel start_now plan_id issue_first_invoice now year tz account =
      assign_now (plans plan_id) plan_id issue_first_invoice now year tz account
  assign_plan_to_hotel unspecified plan_id issue_first_invoice now year tz account =
      if is_trial_running (current_subscription account.subscriptions) now
      then schedule_plan_at_trial_end plan_id account
      else assign_now (plans plan_id) plan_id issue_first_invoice now year tz account
  assign_plan_to_hotel start_trial_end plan_id issue_first_invoice now year tz account =
      if is_trial_running (current_subscription account.subscriptions) now
      then schedule_plan_at_trial_end plan_id account
      else (account, refused not_on_trial)

-- `startTrial`, with the length and the limits that the overrides and the configuration give.
unfoldable pub start_trial : ℕ → BilledTerms → ℕ → TimeZone → Account → Account × AccountResult
start_trial days terms now tz account =
    let start = start_of_day_in_tz now tz in
    (
      switch_to
          (record {
            id = account.next_id;
            plan_id = none;
            status = trialing;
            terms = terms;
            tax_rate = not_a_number;
            start_date = start;
            end_date = some (add_days_in_tz start days tz);
            billing_anchor_day = some (of_ℕ (anchor_day_of start tz));
            auto_renew = false;
            canceled_at = none;
            scheduled_plan_id = none;
          })
          none now account,
      changed,
    )
