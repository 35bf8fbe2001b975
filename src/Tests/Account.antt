-- ===== src/Tests/Account.antt =====
-- One hotel in Asia/Kolkata: a trial that is followed by a plan, and a subscription that renews late.
use mathlib.Core.Option.{some-injective}
use vaketta_backend.Prelude.{
  ℕ, ◌+◌, ◌-◌, ◌*◌, ◌≤◌, ◌≡◌, refl, ap, ◌∙◌, arith, true, Option, none, some, List, [], ◌∷◌, subst,
  ◌==◌, if◌then◌else◌,
}
use vaketta_backend.Js.{number, of_ℕ, not_a_number}
use vaketta_backend.Billing.Calendar.{day_ms, month_index}
use vaketta_backend.Billing.Zone.Laws.{kolkata, kolkata-IsOrderly}
use vaketta_backend.Billing.Period.Bounds.{month_of, month_of_late}
use vaketta_backend.Billing.EffectiveStatus.{BillingStatus, trialing, active}
use vaketta_backend.Billing.Account.{
  Account, Subscription, Hotel, Plan, BilledTerms, current_subscription, get_effective_subscription,
}
use vaketta_backend.Billing.Account.Plans.{no_usage, unspecified}
use vaketta_backend.Billing.Account.Jobs.{convert_to, renew_ended, renew_due_subscriptions}
use vaketta_backend.Billing.Account.Runs.{
  Operation, Instant, assign, trial, renew, convert, cancel, dun, read, perform_all, new_account,
}
use vaketta_backend.Billing.Account.Runs.Consistent.{IsConsistent}
use vaketta_backend.Billing.Account.Runs.Kept.{perform_all-IsConsistent}
use vaketta_backend.Billing.Account.Runs.Fresh.{get_effective_subscription_fresh}
use vaketta_backend.Billing.Account.Renewal.Jobs.{service, renew_due_subscriptions-service}
use vaketta_backend.Billing.Account.Renewal.Reach.{IsAhead, renew_ended-IsAhead}
use vaketta_backend.Billing.Account.Conversion.{convert_to-service}

-- Local midnights in India, of 2026.
abbrev april_30 : ℕ
april_30 = 63_942_201_000_000 - 31 * day_ms

abbrev may_31 : ℕ
may_31 = 63_942_201_000_000

abbrev terms : BilledTerms
terms = record {
  plan_name = "Starter";
  currency = "INR";
  price = 249_900;
  allowance = record {
    conversation_limit = number (of_ℕ 500);
    ai_reply_limit = number (of_ℕ 100);
    extra_conversation_charge = number (of_ℕ 200);
    extra_ai_reply_charge = number (of_ℕ 50);
  };
}

abbrev starter : Plan
starter = record { terms = terms; tax_rate = not_a_number }

abbrev plans : ℕ → Option Plan
plans id = if id == 1 then some starter else none

abbrev no_hotel : Hotel
no_hotel = record {
  plan_id = none;
  subscription_status = active;
  billing_start_date = none;
  billing_end_date = none;
}

abbrev at : ℕ → Instant
at now = record { now = now; year = 2_026 }

-- A trial, a plan for its end, the conversion, an unpaid invoice, a late renewal and a cancellation.
abbrev operations : List (Operation × Instant)
operations =
    (cancel true, at (may_31 + 90 * day_ms))
    ∷ (renew (λ period_start. no_usage), at (may_31 + 80 * day_ms))
    ∷ (dun 7, at (may_31 + 40 * day_ms))
    ∷ (read, at (may_31 + 20 * day_ms))
    ∷ (convert, at (may_31 + 15 * day_ms))
    ∷ (assign unspecified 1 true, at (may_31 + 3 * day_ms))
    ∷ (trial 14 terms, at may_31)
    ∷ []

perform_all-IsConsistent_example :
    IsConsistent (perform_all plans 0 kolkata operations (new_account 7 no_hotel))
perform_all-IsConsistent_example = perform_all-IsConsistent plans 0 kolkata operations 7 no_hotel

get_effective_subscription_fresh_example :
    let account = perform_all plans 0 kolkata operations (new_account 7 no_hotel) in
    (get_effective_subscription plans account 0 may_31 kolkata).1
    ≡ (get_effective_subscription plans (record account { cache = none }) 0 may_31 kolkata).1
get_effective_subscription_fresh_example =
    get_effective_subscription_fresh plans 0 kolkata operations 7 no_hotel may_31

abbrev subscription_in : BillingStatus → Option ℕ → Subscription
subscription_in status scheduled = record {
  id = 1;
  plan_id = some 1;
  status = status;
  terms = terms;
  tax_rate = not_a_number;
  start_date = april_30;
  end_date = some may_31;
  billing_anchor_day = none;
  auto_renew = true;
  canceled_at = none;
  scheduled_plan_id = scheduled;
}

abbrev account_of : Subscription → Account
account_of s = record (new_account 7 no_hotel) {
  hotel = record {
    plan_id = some 1;
    subscription_status = s.status;
    billing_start_date = some s.start_date;
    billing_end_date = s.end_date;
  };
  subscriptions = s ∷ [];
  next_id = 2;
}

account_of-IsConsistent : IsConsistent (account_of (subscription_in active none))
account_of-IsConsistent = record {
  one_live = omega arith;
  ids = (omega arith, tt);
  copied = ((λ live. record { status = refl; start = refl; end = refl }), tt);
}

renew_due_subscriptions-service_example :
    service
      (current_subscription
        (renew_due_subscriptions
          (λ start. no_usage)
          (may_31 + 70 * day_ms)
          2_026
          kolkata
          (account_of (subscription_in active none))).subscriptions)
      (may_31 + 70 * day_ms)
      kolkata
    ≡ service
        (current_subscription (account_of (subscription_in active none)).subscriptions)
        (may_31 + 70 * day_ms)
        kolkata
unfolding current_subscription
renew_due_subscriptions-service_example =
    renew_due_subscriptions-service kolkata kolkata-IsOrderly (λ start. no_usage)
      (may_31 + 70 * day_ms) 2_026 (account_of (subscription_in active none))
      account_of-IsConsistent
      (λ s end cur e.
        let p : subscription_in active none ≡ s = some-injective _ _ cur in
        let q : some may_31 ≡ some end = ap (λ k. k.end_date) p ∙ e in
        subst (λ k. 4 ≤ month_of k kolkata) (some-injective _ _ q)
          (month_of_late may_31 kolkata (omega arith)))

convert_to-service_example :
    service
      (current_subscription
        (convert_to
          (some starter)
          1
          1
          may_31
          (may_31 + day_ms)
          2_026
          kolkata
          (account_of (subscription_in trialing (some 1)))).subscriptions)
      (may_31 + 70 * day_ms)
      kolkata
    ≡ service
        (current_subscription (account_of (subscription_in trialing (some 1))).subscriptions)
        (may_31 + 70 * day_ms)
        kolkata
unfolding current_subscription
convert_to-service_example =
    convert_to-service kolkata kolkata-IsOrderly starter 1 (subscription_in trialing (some 1))
      may_31 (may_31 + day_ms) 2_026 (may_31 + 70 * day_ms)
      (account_of (subscription_in trialing (some 1))) refl refl refl refl
      (month_of_late may_31 kolkata (omega arith)) (omega arith)

renew_ended-IsAhead_example :
    IsAhead
      (renew_ended
        (λ start. no_usage)
        (some may_31)
        (subscription_in active none)
        (may_31 + 70 * day_ms)
        2_026
        kolkata
        (account_of (subscription_in active none)))
      (may_31 + 70 * day_ms)
unfolding current_subscription month_of month_index
renew_ended-IsAhead_example =
    renew_ended-IsAhead kolkata kolkata-IsOrderly (λ start. no_usage) (subscription_in active none)
      may_31 (may_31 + 70 * day_ms) 2_026 (account_of (subscription_in active none)) refl refl
      (omega (arith, month_of_late may_31 kolkata (omega arith))) (omega arith)
