-- ===== src/Billing/Account/Conversion.antt =====
-- The end of a trial: what the resolver of src/billing/effectiveStatus.ts says of a trial with a
-- scheduled plan, and what the jobs write.
use mathlib.Core.Option.{some-injective}
use vaketta_backend.Prelude.{
  ℕ, ◌≤◌, ◌≡◌, refl, ap, ◌∙◌, arith, true, ◌&&◌, some, List, [], ◌∷◌, inl, inr, lt-or-le, le→ltb,
  ltb, Bool-cases, ◌==◌, ==_iff,
}
use vaketta_backend.Billing.Zone.{TimeZone}
use vaketta_backend.Billing.Zone.Laws.{IsOrderly}
use vaketta_backend.Billing.Period.{
  anchor_day_of, compute_anchored_period, period_containing, next_anchor_after,
}
use vaketta_backend.Billing.Period.Bounds.{month_of}
use vaketta_backend.Billing.Period.Containing.{period_containing-first}
use vaketta_backend.Billing.EffectiveStatus.{
  trialing, active, is_trialing, derived_anchor, anchor_or_derived, paid_period_after_trial,
  resolve_effective_state, resolve_live, resolve_dated, resolve_over, convert_trial,
  effective_period,
}
use vaketta_backend.Billing.Account.{
  Account, Subscription, Plan, is_live, is_some, current_subscription, to_state,
}
use vaketta_backend.Billing.Account.Plans.{plan_subscription, switch_to, issue_first}
use vaketta_backend.Billing.Account.Jobs.{is_still_trialing, convert_to}
use vaketta_backend.Billing.Account.Renewal.{
  service_of, service_of-renewing, service_of-within, clamp_anchor_day_again,
}
use vaketta_backend.Billing.Account.Renewal.Jobs.{service}
use vaketta_backend.Billing.Account.Renewal.Periods.{period_containing-next}

-- A trial that is over, with a plan to follow.
service_of-trial :
    (s : Subscription) (end now : ℕ) (tz : TimeZone)
    → s.status ≡ trialing
    → s.end_date ≡ some end
    → is_some s.scheduled_plan_id ≡ true
    → end ≤ now
    → service_of s now tz ≡ (active, some (period_containing end (anchor_day_of end tz) now tz))
unfolding service_of resolve_effective_state resolve_live resolve_dated resolve_over convert_trial
    effective_period
service_of-trial s end now tz t e plan over = rw (t, e, le→ltb now end over, plan) refl

-- The subscription that a conversion writes gives what the resolver gave for the trial.
pub service_of-converted :
    (tz : TimeZone) (o : IsOrderly tz) (s : Subscription) (id plan_id : ℕ) (plan : Plan)
    (end now : ℕ)
    → s.status ≡ trialing
    → s.end_date ≡ some end
    → is_some s.scheduled_plan_id ≡ true
    → 4 ≤ month_of end tz
    → end ≤ now
    → let paid = paid_period_after_trial end tz in
      service_of (plan_subscription id plan_id plan paid.0 paid.1) now tz ≡ service_of s now tz
unfolding paid_period_after_trial compute_anchored_period
service_of-converted tz o s id plan_id plan end now t e scheduled late over =
    let a = anchor_day_of end tz in
    let n = next_anchor_after end a tz in
    let paid : Subscription =
      plan_subscription id plan_id plan (record { period_start = end; period_end = n }) a in
    let same : derived_anchor (to_state paid) tz ≡ a =
      unfold derived_anchor anchor_or_derived anchor_day_of in (clamp_anchor_day_again _) in
    elim (lt-or-le now n) [
      | inl early ↦
          rw
            (
              service_of-trial s end now tz t e scheduled over,
              period_containing-first tz a end now early,
            )
            (service_of-within paid n now tz refl refl early)
      | inr far ↦
          rw
            (
              service_of-trial s end now tz t e scheduled over,
              period_containing-next tz o a end now late far,
            )
            (rw same at (service_of-renewing paid n now tz refl refl refl refl far))
    ]

current-is_still_trialing :
    (ss : List Subscription) (s : Subscription)
    → current_subscription ss ≡ some s
    → s.status ≡ trialing
    → is_still_trialing s.id ss ≡ true
unfolding current_subscription is_still_trialing
current-is_still_trialing [] s e t = absurd (ground (arith, e))
current-is_still_trialing (x ∷ ss) s e t = elim (Bool-cases (is_live x.status)) [
  | inl live ↦
      let path : x ≡ s = some-injective _ _ (rw live at e) in
      let same : (x.id == s.id) ≡ true = (==_iff x.id s.id).1 (ap (λ k. k.id) path) in
      let trial : is_trialing x.status ≡ true =
        ap (λ k. is_trialing k.status) path ∙ ap is_trialing t in
      rw (same, trial) refl
  | inr dead ↦
      let rest = current-is_still_trialing ss s (rw dead at e) t in
      elim (Bool-cases (x.id == s.id && is_trialing x.status)) [
        | inl here ↦ rw here refl
        | inr there ↦ rw there rest
      ]
]

-- The conversion of a trial whose plan exists writes down what the resolver already gave: from the end
-- of the trial on, at every instant, the hotel has the status and the period that it had before, in an
-- orderly zone and for a trial that ends in May of year 0 or later.
pub convert_to-service :
    (tz : TimeZone) (o : IsOrderly tz) (plan : Plan) (plan_id : ℕ) (s : Subscription)
    (end now year later : ℕ) (account : Account)
    → current_subscription account.subscriptions ≡ some s
    → s.status ≡ trialing
    → s.end_date ≡ some end
    → s.scheduled_plan_id ≡ some plan_id
    → 4 ≤ month_of end tz
    → end ≤ later
    → service
        (current_subscription
          (convert_to (some plan) plan_id s.id end now year tz account).subscriptions)
        later
        tz
      ≡ service (current_subscription account.subscriptions) later tz
unfolding convert_to issue_first switch_to current_subscription
convert_to-service tz o plan plan_id s end now year later account cur t e scheduled late over =
    let paid = paid_period_after_trial end tz in
    let price = plan.terms.price in
    let after =
      service_of-converted tz o s account.next_id plan_id plan end later t e (rw scheduled refl)
        late over in
    rw (current-is_still_trialing account.subscriptions s cur t, cur)
      (elim (Bool-cases (ltb 0 price)) [
        | inl charged ↦ rw charged (unfold service in (ap some after))
        | inr free ↦ rw free (unfold service in (ap some after))
      ])
