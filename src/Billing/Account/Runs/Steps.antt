-- ===== src/Billing/Account/Runs/Steps.antt =====
-- Consistency through the assignment of plans and the start of trials.
use vaketta_backend.Prelude.{
  ℕ, ◌≡◌, inl, inr, refl, arith, Bool, ◌&&◌, Option, none, some, ltb, Bool-cases,
}
use vaketta_backend.Billing.Zone.{TimeZone}
use vaketta_backend.Billing.Period.{Period}
use vaketta_backend.Billing.EffectiveStatus.{canceled}
use vaketta_backend.Billing.Account.{
  Account, Subscription, Plan, BilledTerms, current_subscription, update_live,
  cancel_live_subscriptions,
}
use vaketta_backend.Billing.Account.Plans.{
  StartAt, unspecified, start_now, start_trial_end, switch_to, issue_first, assign_now,
  schedule_found, schedule_plan_at_trial_end, assign_plan_to_hotel, start_trial, find_trial,
  has_end, is_trial_running,
}
use vaketta_backend.Billing.Account.Runs.Consistent.{
  IsConsistent, live_count, Copies-none, Falling-update, live_count-update,
}
use vaketta_backend.Billing.Account.Runs.Rows.{
  live_count-update_live, Falling-update_live, Copies-unchanged,
}

pub switch_to-IsConsistent :
    (s : Subscription) (plan_id : Option ℕ) (now : ℕ) (account : Account)
    → s.id ≡ account.next_id
    → IsConsistent account
    → IsConsistent (switch_to s plan_id now account)
unfolding switch_to cancel_live_subscriptions
switch_to-IsConsistent s plan_id now account e c =
    let f : Subscription → Subscription =
      λ x. record x { status = canceled; canceled_at = some now } in
    let dead : live_count (update_live f account.subscriptions) ≡ 0 =
      live_count-update_live f account.subscriptions (λ x. refl) in
    record {
      one_live = ground (arith, dead);
      ids = (
        omega (arith, e),
        rw e (Falling-update_live account.next_id f account.subscriptions (λ x. refl) c.ids),
      );
      copied = ((λ live. record { status = refl; start = refl; end = refl }), Copies-none _ _ dead);
    }

pub issue_first-IsConsistent :
    (wanted : Bool) (s : Subscription) (period : Period) (now year : ℕ) (account : Account)
    → IsConsistent account
    → IsConsistent (issue_first wanted s period now year account)
unfolding issue_first
issue_first-IsConsistent wanted s period now year account c =
    elim (Bool-cases (wanted && ltb 0 s.terms.price)) [
      | inl charged ↦ rw charged (record { one_live = c.one_live; ids = c.ids; copied = c.copied })
      | inr free ↦ rw free c
    ]

assign_now-IsConsistent :
    (plan : Option Plan) (plan_id : ℕ) (wanted : Bool) (now year : ℕ) (tz : TimeZone)
    (account : Account)
    → IsConsistent account
    → IsConsistent (assign_now plan plan_id wanted now year tz account).0
unfolding assign_now
assign_now-IsConsistent none plan_id wanted now year tz account c = c
assign_now-IsConsistent (some plan) plan_id wanted now year tz account c =
    issue_first-IsConsistent wanted _ _ now year _
      (switch_to-IsConsistent _ (some plan_id) now account refl c)

schedule_found-IsConsistent :
    (plan : Option Plan) (trial : Option Subscription) (plan_id : ℕ) (account : Account)
    → IsConsistent account
    → IsConsistent (schedule_found plan trial plan_id account).0
unfolding schedule_found
schedule_found-IsConsistent none trial plan_id account c = c
schedule_found-IsConsistent (some plan) none plan_id account c = c
schedule_found-IsConsistent (some plan) (some trial) plan_id account c =
    let f : Subscription → Subscription = λ s. record s { scheduled_plan_id = some plan_id } in
    record {
      one_live =
          omega (
            arith,
            live_count-update trial.id f account.subscriptions (λ s dead. dead),
            c.one_live,
          );
      ids = Falling-update account.next_id trial.id f account.subscriptions (λ s. refl) c.ids;
      copied =
          Copies-unchanged account.hotel trial.id f account.subscriptions
            (λ s h live.
              let copy = h live in
              record { status = copy.status; start = copy.start; end = copy.end })
            c.copied;
    }

pub assign_plan_to_hotel-IsConsistent :
    (plans : ℕ → Option Plan) (start : StartAt) (plan_id : ℕ) (wanted : Bool) (now year : ℕ)
    (tz : TimeZone) (account : Account)
    → IsConsistent account
    → IsConsistent (assign_plan_to_hotel plans start plan_id wanted now year tz account).0
unfolding assign_plan_to_hotel schedule_plan_at_trial_end
assign_plan_to_hotel-IsConsistent plans start_now plan_id wanted now year tz account c =
    assign_now-IsConsistent (plans plan_id) plan_id wanted now year tz account c
assign_plan_to_hotel-IsConsistent plans unspecified plan_id wanted now year tz account c =
    elim (Bool-cases (is_trial_running (current_subscription account.subscriptions) now)) [
      | inl running ↦ rw running (
          schedule_found-IsConsistent (plans plan_id) (has_end (find_trial account.subscriptions))
            plan_id account c)
      | inr over ↦
          rw over (assign_now-IsConsistent (plans plan_id) plan_id wanted now year tz account c)
    ]
assign_plan_to_hotel-IsConsistent plans start_trial_end plan_id wanted now year tz account c =
    elim (Bool-cases (is_trial_running (current_subscription account.subscriptions) now)) [
      | inl running ↦ rw running (
          schedule_found-IsConsistent (plans plan_id) (has_end (find_trial account.subscriptions))
            plan_id account c)
      | inr over ↦ rw over c
    ]

pub start_trial-IsConsistent :
    (days : ℕ) (terms : BilledTerms) (now : ℕ) (tz : TimeZone) (account : Account)
    → IsConsistent account
    → IsConsistent (start_trial days terms now tz account).0
unfolding start_trial
start_trial-IsConsistent days terms now tz account c =
    switch_to-IsConsistent _ none now account refl c
