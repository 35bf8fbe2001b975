-- ===== src/Billing/Account/Runs/Work.antt =====
-- Consistency through the billing jobs.
use mathlib.Core.Option.{some-injective}
use vaketta_backend.Prelude.{
  ℕ, zero, suc, ◌≤◌, ◌≡◌, ◌⊎◌, inl, inr, refl, ap, ◌∙◌, arith, true, false, ◌&&◌, ◌||◌, Option,
  none, some, List, [], ◌∷◌, ◌==◌, leb, Bool-cases, ==_iff, subst,
}
use vaketta_backend.Js.{JsNumber, number}
use vaketta_backend.Billing.Zone.{TimeZone}
use vaketta_backend.Billing.Period.{Period, next_anchored_period, clamp_anchor_day}
use vaketta_backend.Billing.EffectiveStatus.{
  BillingStatus, trialing, active, past_due, expired, canceled, is_past_due,
}
use vaketta_backend.Billing.Overage.{UsageCounts}
use vaketta_backend.Billing.Ledger.{select}
use vaketta_backend.Billing.Account.{
  Account, Subscription, Hotel, Plan, is_live, current_subscription, update_subscription,
}
use vaketta_backend.Billing.Account.Changes.{is_active}
use vaketta_backend.Billing.Account.Jobs.{
  is_over, is_still_trialing, convert_to, convert_ended, convert_each, convert_due_trials,
  max_catchup_periods, is_renewal_due, renewed_to, close_period, catch_up, renew_ended, renew_each,
  renew_due_subscriptions, is_lapsed, resolves_expired, expire_overdue_subscriptions,
}
use vaketta_backend.Billing.Account.Runs.Consistent.{
  IsConsistent, live_count, Falling, Copies, Copies-none,
}
use vaketta_backend.Billing.Account.Runs.Steps.{switch_to-IsConsistent, issue_first-IsConsistent}
use vaketta_backend.Billing.Account.Runs.Rows.{live_count-update_live, Falling-update_live}
use vaketta_backend.Billing.Account.Runs.Changes.{changed-IsConsistent, current-IsCopied}

convert_to-IsConsistent :
    (plan : Option Plan) (plan_id trial_id trial_end now year : ℕ) (tz : TimeZone)
    (account : Account)
    → IsConsistent account
    → IsConsistent (convert_to plan plan_id trial_id trial_end now year tz account)
unfolding convert_to
convert_to-IsConsistent none plan_id trial_id trial_end now year tz account c = c
convert_to-IsConsistent (some plan) plan_id trial_id trial_end now year tz account c =
    elim (Bool-cases (is_still_trialing trial_id account.subscriptions)) [
      | inl there ↦ rw there (
          issue_first-IsConsistent true _ _ now year _
            (switch_to-IsConsistent _ (some plan_id) now account refl c))
      | inr gone ↦ rw gone c
    ]

convert_ended-IsConsistent :
    (plans : ℕ → Option Plan) (end plan_id : Option ℕ) (trial_id now year : ℕ) (tz : TimeZone)
    (account : Account)
    → IsConsistent account
    → IsConsistent (convert_ended plans end plan_id trial_id now year tz account)
unfolding convert_ended
convert_ended-IsConsistent plans none plan_id trial_id now year tz account c = c
convert_ended-IsConsistent plans (some end) none trial_id now year tz account c = c
convert_ended-IsConsistent plans (some end) (some plan_id) trial_id now year tz account c =
    convert_to-IsConsistent (plans plan_id) plan_id trial_id end now year tz account c

convert_each-IsConsistent :
    (plans : ℕ → Option Plan) (ss : List Subscription) (now year : ℕ) (tz : TimeZone)
    (account : Account)
    → IsConsistent account
    → IsConsistent (convert_each plans ss now year tz account)
unfolding convert_each
convert_each-IsConsistent plans [] now year tz account c = c
convert_each-IsConsistent plans (s ∷ ss) now year tz account c =
    convert_each-IsConsistent plans ss now year tz _
      (convert_ended-IsConsistent plans s.end_date s.scheduled_plan_id s.id now year tz account c)

pub convert_due_trials-IsConsistent :
    (plans : ℕ → Option Plan) (now year : ℕ) (tz : TimeZone) (account : Account)
    → IsConsistent account
    → IsConsistent (convert_due_trials plans now year tz account)
unfolding convert_due_trials
convert_due_trials-IsConsistent plans now year tz account c =
    convert_each-IsConsistent plans _ now year tz account c

-- The row with this id is the live one.
abbrev IsCurrent : ℕ → List Subscription → Type 0
IsCurrent id ss = (s : Subscription) × (current_subscription ss ≡ some s) × (s.id ≡ id)

IsCurrent-renewed :
    (id : ℕ) (next : Period) (anchor : JsNumber) (ss : List Subscription)
    → IsCurrent id ss
    → IsCurrent id (update_subscription id (renewed_to next anchor) ss)
unfolding current_subscription update_subscription
IsCurrent-renewed id next anchor [] (s, e, i) = absurd (ground (arith, e))
IsCurrent-renewed id next anchor (x ∷ ss) (s, e, i) = elim (Bool-cases (is_live x.status)) [
  | inl live ↦
      let path : x ≡ s = some-injective _ _ (rw live at e) in
      let same : (x.id == id) ≡ true = (==_iff x.id id).1 (ap (λ k. k.id) path ∙ i) in
      rw same (renewed_to next anchor x, rw live refl, ap (λ k. k.id) path ∙ i)
  | inr dead ↦
      let rest = IsCurrent-renewed id next anchor ss (s, rw dead at e, i) in
      elim (Bool-cases (x.id == id)) [
        | inl same ↦ rw (same, dead) rest
        | inr other ↦ rw (other, dead) rest
      ]
]

close_period-IsConsistent :
    (s : Subscription) (closed next : Period) (anchor : JsNumber) (usage : UsageCounts)
    (now year : ℕ) (account : Account)
    → IsCurrent s.id account.subscriptions
    → IsConsistent account
    → IsConsistent
        (record (close_period s closed next anchor usage now year account) { cache = none })
unfolding close_period
close_period-IsConsistent s closed next anchor usage now year account (x, e, i) c =
    let f = renewed_to next anchor in
    let (live, copy) = current-IsCopied account.hotel account.subscriptions x e c.copied in
    let hotel : Hotel = record account.hotel {
      billing_start_date = some next.period_start;
      billing_end_date = some next.period_end;
    } in
    let k =
      changed-IsConsistent account hotel f x e (λ y. refl) (λ y dead. dead)
        (λ _. record { status = copy.status; start = refl; end = refl }) c in
    record {
      one_live =
          subst (λ n. live_count (update_subscription n f account.subscriptions) ≤ 1) i k.one_live;
      ids =
          subst (λ n. Falling account.next_id (update_subscription n f account.subscriptions)) i
            k.ids;
      copied = subst (λ n. Copies hotel (update_subscription n f account.subscriptions)) i k.copied;
    }

catch_up-IsConsistent :
    (usage_of : ℕ → UsageCounts) (n : ℕ) (s : Subscription) (closing : Period) (anchor : JsNumber)
    (now year : ℕ) (tz : TimeZone) (account : Account)
    → IsCurrent s.id account.subscriptions
    → IsConsistent account
    → IsConsistent (catch_up usage_of n s closing anchor now year tz account)
unfolding catch_up
catch_up-IsConsistent usage_of zero s closing anchor now year tz account h c = c
catch_up-IsConsistent usage_of (suc n) s closing anchor now year tz account h c =
    let next = next_anchored_period closing (clamp_anchor_day (number anchor)) tz in
    elim (Bool-cases (leb closing.period_end now)) [
      | inl over ↦ rw over (
          catch_up-IsConsistent usage_of n s next anchor now year tz _
            (unfold close_period in (IsCurrent-renewed s.id next anchor account.subscriptions h))
            (close_period-IsConsistent s closing next anchor (usage_of closing.period_start) now
              year account h c))
      | inr open_still ↦ rw open_still c
    ]

renew_ended-IsConsistent :
    (usage_of : ℕ → UsageCounts) (end : Option ℕ) (s : Subscription) (now year : ℕ) (tz : TimeZone)
    (account : Account)
    → IsCurrent s.id account.subscriptions
    → IsConsistent account
    → IsConsistent (renew_ended usage_of end s now year tz account)
unfolding renew_ended
renew_ended-IsConsistent usage_of none s now year tz account h c = c
renew_ended-IsConsistent usage_of (some end) s now year tz account h c =
    catch_up-IsConsistent usage_of max_catchup_periods s _ _ now year tz account h c

renewal_due_live :
    (now : ℕ) (s : Subscription) → is_live s.status ≡ false → is_renewal_due now s ≡ false
renewal_due_live now s dead = by_status s.status dead
  where
    by_status :
        (status : BillingStatus)
        → is_live status ≡ false
        → ((is_active status || is_past_due status) && (s.auto_renew && is_over s.end_date now))
          ≡ false
    by_status trialing h = refl
    by_status active h = absurd (ground (arith, h))
    by_status past_due h = absurd (ground (arith, h))
    by_status expired h = refl
    by_status canceled h = refl

-- At most one row is due, and it is the live one.
pub select-renewal_due :
    (now : ℕ) (ss : List Subscription)
    → live_count ss ≤ 1
    → (select (is_renewal_due now) ss ≡ [])
      ⊎ ((s : Subscription) × (select (is_renewal_due now) ss ≡ s ∷ [])
          × (current_subscription ss ≡ some s))
unfolding select current_subscription
select-renewal_due now [] one = inl refl
select-renewal_due now (x ∷ ss) one = elim (Bool-cases (is_live x.status)) [
  | inl live ↦
      let none_left : live_count ss ≡ 0 = omega (arith, rw live at one) in
      let none_due = select-none now ss none_left in
      elim (Bool-cases (is_renewal_due now x)) [
        | inl due ↦ inr (x, rw due (rw none_due refl), rw live refl)
        | inr early ↦ inl (rw early none_due)
      ]
  | inr dead ↦
      let not_due = renewal_due_live now x dead in
      elim (select-renewal_due now ss (omega (arith, rw dead at one))) [
        | inl none_due ↦ inl (rw not_due none_due)
        | inr (s, e, cur) ↦ inr (s, rw not_due e, rw dead cur)
      ]
]
  where
    select-none :
        (now : ℕ) (ss : List Subscription) → live_count ss ≡ 0 → select (is_renewal_due now) ss ≡ []
    select-none now [] h = refl
    select-none now (x ∷ ss) h = elim (Bool-cases (is_live x.status)) [
      | inl live ↦ absurd (omega (arith, rw live at h))
      | inr dead ↦
          rw (renewal_due_live now x dead) (select-none now ss (omega (arith, rw dead at h)))
    ]

pub renew_due_subscriptions-IsConsistent :
    (usage_of : ℕ → UsageCounts) (now year : ℕ) (tz : TimeZone) (account : Account)
    → IsConsistent account
    → IsConsistent (renew_due_subscriptions usage_of now year tz account)
unfolding renew_due_subscriptions renew_each
renew_due_subscriptions-IsConsistent usage_of now year tz account c =
    elim (select-renewal_due now account.subscriptions c.one_live) [
      | inl none_due ↦ rw none_due c
      | inr (s, due, cur) ↦
          rw due
            (renew_ended-IsConsistent usage_of s.end_date s now year tz account (s, cur, refl) c)
    ]

pub expire_overdue_subscriptions-IsConsistent :
    (now : ℕ) (tz : TimeZone) (account : Account)
    → IsConsistent account
    → IsConsistent (expire_overdue_subscriptions now tz account)
unfolding expire_overdue_subscriptions
expire_overdue_subscriptions-IsConsistent now tz account c =
    let f : Subscription → Subscription = λ s. record s { status = expired } in
    let dead = live_count-update_live f account.subscriptions (λ s. refl) in
    elim (Bool-cases (
      is_lapsed now account.hotel
      && resolves_expired (current_subscription account.subscriptions) now tz)) [
        | inl over ↦ rw over (record {
          one_live = omega (arith, dead);
          ids = Falling-update_live account.next_id f account.subscriptions (λ s. refl) c.ids;
          copied = Copies-none _ _ dead;
        })
        | inr served ↦ rw served c
      ]
