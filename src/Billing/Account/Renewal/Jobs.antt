-- ===== src/Billing/Account/Renewal/Jobs.antt =====
-- The job that renews subscriptions, beside what a hotel is given.
use mathlib.Core.Option.{some-injective}
use vaketta_backend.Prelude.{
  ℕ, zero, suc, ◌+◌, ◌≤◌, ◌≡◌, refl, ap, ◌∙◌, arith, Bool, true, false, ◌&&◌, ◌||◌, Option, none,
  some, List, [], ◌∷◌, inl, inr, ◌==◌, ==_iff, leb, leb→le, Bool-cases, subst,
}
use vaketta_backend.Js.{JsNumber, number}
use vaketta_backend.Billing.Zone.{TimeZone}
use vaketta_backend.Billing.Zone.Laws.{IsOrderly}
use vaketta_backend.Billing.Period.{
  Period, clamp_anchor_day, next_anchored_period, compute_anchored_period, next_anchor_after,
}
use vaketta_backend.Billing.Period.Bounds.{month_of, month_of-bound}
use vaketta_backend.Billing.Period.Containing.{next_anchor_after-cases}
use vaketta_backend.Billing.EffectiveStatus.{
  BillingStatus, trialing, active, past_due, expired, canceled, is_trialing, is_terminal,
  is_past_due, derived_anchor, anchor_or_derived,
}
use vaketta_backend.Billing.Overage.{UsageCounts}
use vaketta_backend.Billing.Ledger.{select}
use vaketta_backend.Billing.Account.{
  Account, Subscription, is_live, current_subscription, update_subscription, to_state,
}
use vaketta_backend.Billing.Account.Changes.{is_active}
use vaketta_backend.Billing.Account.Jobs.{
  is_over, is_renewal_due, renewed_to, close_period, catch_up, max_catchup_periods, renew_ended,
  renew_each, renew_due_subscriptions,
}
use vaketta_backend.Billing.Account.Renewal.{service_of, service_of-renewed_to, anchor_or-derived}
use vaketta_backend.Billing.Account.Runs.Consistent.{IsConsistent}
use vaketta_backend.Billing.Account.Runs.Work.{select-renewal_due}

-- What the hotel of an account is given: nothing without a live subscription.
unfoldable pub service : Option Subscription → ℕ → TimeZone → Option (BillingStatus × Option Period)
service none now tz = none
service (some s) now tz = some (service_of s now tz)

pub current-update :
    (id : ℕ) (f : Subscription → Subscription) (ss : List Subscription) (x : Subscription)
    → ((y : Subscription) → is_live (f y).status ≡ is_live y.status)
    → current_subscription ss ≡ some x
    → x.id ≡ id
    → current_subscription (update_subscription id f ss) ≡ some (f x)
unfolding current_subscription update_subscription
current-update id f [] x keeps e i = absurd (ground (arith, e))
current-update id f (y ∷ ss) x keeps e i = elim (Bool-cases (is_live y.status)) [
  | inl live ↦
      let path : y ≡ x = some-injective _ _ (rw live at e) in
      let same : (y.id == id) ≡ true = (==_iff y.id id).1 (ap (λ k. k.id) path ∙ i) in
      rw same (rw (keeps y ∙ live) (ap (λ k. some (f k)) path))
  | inr dead ↦
      let rest = current-update id f ss x keeps (rw dead at e) i in
      elim (Bool-cases (y.id == id)) [
        | inl same ↦ rw same (rw (keeps y ∙ dead) rest)
        | inr other ↦ rw other (rw dead rest)
      ]
]

month_of-next :
    (tz : TimeZone) (o : IsOrderly tz) (a s : ℕ)
    → 4 ≤ month_of s tz
    → 4 ≤ month_of (next_anchor_after s a tz) tz
month_of-next tz o a s h =
    let c = month_of s tz in
    elim (next_anchor_after-cases tz o a s) [
      | inl p ↦ rw (p.1, month_of-bound tz o a c (omega arith)) h
      | inr p ↦ rw (p.1, month_of-bound tz o a (c + 1) (omega arith)) (omega arith)
    ]

-- The live subscription renews, and its stored period ends where the loop stands.
record IsRenewing (account : Account) (id end : ℕ) (anchor : JsNumber) (tz : TimeZone)
    : Type 0 where
  pub row : Subscription
  pub current : current_subscription account.subscriptions ≡ some row
  pub same : row.id ≡ id
  pub live : is_terminal row.status ≡ false
  pub paid : is_trialing row.status ≡ false
  pub auto : row.auto_renew ≡ true
  pub ends : row.end_date ≡ some end
  pub anchored : clamp_anchor_day (number anchor) ≡ derived_anchor (to_state row) tz

catch_up-service :
    (tz : TimeZone) (o : IsOrderly tz) (usage_of : ℕ → UsageCounts) (n : ℕ) (s : Subscription)
    (start end : ℕ) (anchor : JsNumber) (now year : ℕ) (account : Account)
    → IsRenewing account s.id end anchor tz
    → 4 ≤ month_of end tz
    → service
        (current_subscription
          (catch_up usage_of n s
            (record { period_start = start; period_end = end })
            anchor
            now
            year
            tz
            account).subscriptions)
        now
        tz
      ≡ service (current_subscription account.subscriptions) now tz
unfolding catch_up next_anchored_period compute_anchored_period
catch_up-service tz o usage_of zero s start end anchor now year account r late = refl
catch_up-service tz o usage_of (suc n) s start end anchor now year account r late =
    let closing : Period = record { period_start = start; period_end = end } in
    let a = clamp_anchor_day (number anchor) in
    let next = next_anchored_period closing a tz in
    let rolled = record (close_period s closing next anchor (usage_of start) now year account) {
      cache = none;
    } in
    let cur : current_subscription rolled.subscriptions ≡ some (renewed_to next anchor r.row) =
      unfold close_period in
      (current-update s.id (renewed_to next anchor) account.subscriptions r.row (λ y. refl)
        r.current r.same) in
    let kept : IsRenewing rolled s.id (next_anchor_after end a tz) anchor tz = record {
      row = renewed_to next anchor r.row;
      current = cur;
      same = r.same;
      live = r.live;
      paid = r.paid;
      auto = r.auto;
      ends = refl;
      anchored = unfold derived_anchor anchor_or_derived in refl;
    } in
    elim (Bool-cases (leb end now)) [
      | inl over ↦
          let head : service (current_subscription rolled.subscriptions) now tz
              ≡ service (current_subscription account.subscriptions) now tz =
            rw (cur, r.current)
              (unfold service in
                (ap some (
                  service_of-renewed_to tz o r.row start end now anchor r.live r.paid r.auto r.ends
                    r.anchored late (leb→le _ _ over)))) in
          let tail : service
                (current_subscription
                  (catch_up usage_of n s next anchor now year tz rolled).subscriptions)
                now tz
              ≡ service (current_subscription rolled.subscriptions) now tz =
            catch_up-service tz o usage_of n s end (next_anchor_after end a tz) anchor now year
              rolled kept (month_of-next tz o a end late) in
          rw over (tail ∙ head)
      | inr open_still ↦ rw open_still refl
    ]

-- What being due says of a row.
renewal_due_lem :
    (now : ℕ) (s : Subscription)
    → is_renewal_due now s ≡ true
    → (is_terminal s.status ≡ false) × (is_trialing s.status ≡ false) × (s.auto_renew ≡ true)
renewal_due_lem now s due = by_status s.status due
  where
    by_status :
        (status : BillingStatus)
        → ((is_active status || is_past_due status) && (s.auto_renew && is_over s.end_date now))
          ≡ true
        → (is_terminal status ≡ false) × (is_trialing status ≡ false) × (s.auto_renew ≡ true)
    by_status trialing h = absurd (ground (arith, h))
    by_status active h = (refl, refl, ground (arith, h))
    by_status past_due h = (refl, refl, ground (arith, h))
    by_status expired h = absurd (ground (arith, h))
    by_status canceled h = absurd (ground (arith, h))

select-first :
    (keep : Subscription → Bool) (ss : List Subscription) (s : Subscription)
    → select keep ss ≡ s ∷ []
    → keep s ≡ true
unfolding select
select-first keep [] s e = absurd (ground (arith, e))
select-first keep (x ∷ ss) s e = elim (Bool-cases (keep x)) [
  | inl kept ↦
      let first : some x ≡ some s = ap head_of (rw kept at e) in
      subst (λ k. keep k ≡ true) (some-injective _ _ first) kept
  | inr dropped ↦ select-first keep ss s (rw dropped at e)
]
  where
    head_of : List Subscription → Option Subscription
    head_of [] = none
    head_of (y ∷ ys) = some y

renew_ended-service :
    (tz : TimeZone) (o : IsOrderly tz) (usage_of : ℕ → UsageCounts) (found : Option ℕ)
    (s : Subscription) (now year : ℕ) (account : Account)
    → s.end_date ≡ found
    → current_subscription account.subscriptions ≡ some s
    → is_renewal_due now s ≡ true
    → ((end : ℕ) → s.end_date ≡ some end → 4 ≤ month_of end tz)
    → service
        (current_subscription (renew_ended usage_of found s now year tz account).subscriptions)
        now
        tz
      ≡ service (current_subscription account.subscriptions) now tz
unfolding renew_ended
renew_ended-service tz o usage_of none s now year account e cur due late = refl
renew_ended-service tz o usage_of (some end) s now year account e cur due late =
    let (live, paid, auto) = renewal_due_lem now s due in
    catch_up-service tz o usage_of max_catchup_periods s s.start_date end _ now year account
      (record {
        row = s;
        current = cur;
        same = refl;
        live = live;
        paid = paid;
        auto = auto;
        ends = e;
        anchored = anchor_or-derived s end tz e;
      })
      (late end e)

-- The renewal job leaves what a hotel is given: its status and its period at that instant are the same
-- before and after it, however many periods it closes, in an orderly zone and with a stored period that
-- ends in May of year 0 or later.
pub renew_due_subscriptions-service :
    (tz : TimeZone) (o : IsOrderly tz) (usage_of : ℕ → UsageCounts) (now year : ℕ)
    (account : Account)
    → IsConsistent account
    → ((s : Subscription) (end : ℕ)
        → current_subscription account.subscriptions ≡ some s
        → s.end_date ≡ some end
        → 4 ≤ month_of end tz)
    → service
        (current_subscription (renew_due_subscriptions usage_of now year tz account).subscriptions)
        now
        tz
      ≡ service (current_subscription account.subscriptions) now tz
unfolding renew_due_subscriptions renew_each
renew_due_subscriptions-service tz o usage_of now year account c late =
    elim (select-renewal_due now account.subscriptions c.one_live) [
      | inl none_due ↦ rw none_due refl
      | inr (s, due, cur) ↦ rw due (
          renew_ended-service tz o usage_of s.end_date s now year account refl cur
            (select-first (is_renewal_due now) account.subscriptions s due) (λ end. late s end cur))
    ]
