-- ===== src/Billing/Account/Renewal/Reach.antt =====
-- How far the 36 rounds of a renewal reach.
use vaketta_backend.Prelude.{
  ℕ, zero, suc, ◌+◌, ◌≤◌, ◌<◌, ◌≡◌, refl, sym, ap, ◌∙◌, arith, none, some, inl, inr, leb, leb→lt,
  Bool-cases, subst,
}
use vaketta_backend.Js.{JsNumber, number}
use vaketta_backend.Billing.Zone.{TimeZone}
use vaketta_backend.Billing.Zone.Laws.{IsOrderly}
use vaketta_backend.Billing.Period.{
  Period, anchor_day_of, clamp_anchor_day, next_anchored_period, compute_anchored_period,
  next_anchor_after,
}
use vaketta_backend.Billing.Period.Bounds.{month_of, bound, lt-bound, next_anchor_after-bound}
use vaketta_backend.Billing.Period.Containing.{next_anchor_after-cases}
use vaketta_backend.Billing.Overage.{UsageCounts}
use vaketta_backend.Billing.Account.{Account, Subscription, current_subscription}
use vaketta_backend.Billing.Account.Changes.{anchor_or}
use vaketta_backend.Billing.Account.Jobs.{renewed_to, close_period, catch_up, renew_ended}
use vaketta_backend.Billing.Account.Renewal.Jobs.{current-update}

-- The live subscription is stored with this end.
record Ends (account : Account) (id end : ℕ) : Type 0 where
  pub row : Subscription
  pub current : current_subscription account.subscriptions ≡ some row
  pub same : row.id ≡ id
  pub ends : row.end_date ≡ some end

-- The live subscription is stored with an end that lies ahead.
pub IsAhead : Account → ℕ → Type 0
IsAhead account now =
    (s : Subscription) × (end : ℕ) × (current_subscription account.subscriptions ≡ some s)
    × (s.end_date ≡ some end)
    × (now < end)

closed-Ends :
    (s : Subscription) (closed next : Period) (anchor : JsNumber) (usage : UsageCounts)
    (now year end : ℕ) (account : Account)
    → Ends account s.id end
    → Ends
        (record (close_period s closed next anchor usage now year account) { cache = none })
        s.id
        next.period_end
unfolding close_period
closed-Ends s closed next anchor usage now year end account r = record {
  row = renewed_to next anchor r.row;
  current =
      current-update s.id (renewed_to next anchor) account.subscriptions r.row (λ y. refl) r.current
        r.same;
  same = r.same;
  ends = refl;
}

catch_up-IsAhead-bound :
    (tz : TimeZone) (o : IsOrderly tz) (usage_of : ℕ → UsageCounts) (n : ℕ) (s : Subscription)
    (start end t : ℕ) (anchor : JsNumber) (now year : ℕ) (account : Account)
    → Ends account s.id end
    → end ≡ bound t (clamp_anchor_day (number anchor)) tz
    → 3 ≤ t
    → month_of now tz < t + n
    → IsAhead
        (catch_up usage_of n s
          (record { period_start = start; period_end = end })
          anchor
          now
          year
          tz
          account)
        now
unfolding catch_up next_anchored_period compute_anchored_period IsAhead
catch_up-IsAhead-bound tz o usage_of zero s start end t anchor now year account r e three near = (
  r.row,
  end,
  r.current,
  r.ends,
  rw e (lt-bound tz o (clamp_anchor_day (number anchor)) t now three (omega arith)),
)
catch_up-IsAhead-bound tz o usage_of (suc n) s start end t anchor now year account r e three near =
    let a = clamp_anchor_day (number anchor) in
    let closing : Period = record { period_start = start; period_end = end } in
    let next : Period = record { period_start = end; period_end = next_anchor_after end a tz } in
    let step : next_anchor_after end a tz ≡ bound (t + 1) a tz =
      ap (λ k. next_anchor_after k a tz) e ∙ next_anchor_after-bound tz o a t three in
    elim (Bool-cases (leb end now)) [
      | inl over ↦ rw over (
          catch_up-IsAhead-bound tz o usage_of n s end (next_anchor_after end a tz) (t + 1) anchor
            now year _ (closed-Ends s closing next anchor (usage_of start) now year end account r)
            step (omega arith) (omega arith))
      | inr ahead ↦ rw ahead (r.row, end, r.current, r.ends, leb→lt _ _ ahead)
    ]

catch_up-IsAhead :
    (tz : TimeZone) (o : IsOrderly tz) (usage_of : ℕ → UsageCounts) (n : ℕ) (s : Subscription)
    (start end : ℕ) (anchor : JsNumber) (now year : ℕ) (account : Account)
    → Ends account s.id end
    → 3 ≤ month_of end tz
    → month_of now tz < month_of end tz + n
    → IsAhead
        (catch_up usage_of
          (suc n)
          s
          (record { period_start = start; period_end = end })
          anchor
          now
          year
          tz
          account)
        now
unfolding catch_up next_anchored_period compute_anchored_period
catch_up-IsAhead tz o usage_of n s start end anchor now year account r three near =
    let a = clamp_anchor_day (number anchor) in
    let c = month_of end tz in
    let closing : Period = record { period_start = start; period_end = end } in
    let next : Period = record { period_start = end; period_end = next_anchor_after end a tz } in
    let r' = closed-Ends s closing next anchor (usage_of start) now year end account r in
    elim (Bool-cases (leb end now)) [
      | inl over ↦ rw over (elim (next_anchor_after-cases tz o a end) [
        | inl p ↦
            catch_up-IsAhead-bound tz o usage_of n s end (next_anchor_after end a tz) c anchor now
              year _ r' p.1 three near
        | inr p ↦
            catch_up-IsAhead-bound tz o usage_of n s end (next_anchor_after end a tz) (c + 1) anchor
              now year _ r' p.1 (omega arith) (omega arith)
      ])
      | inr ahead ↦ rw ahead (unfold IsAhead in (r.row, end, r.current, r.ends, leb→lt _ _ ahead))
    ]

-- The renewal of a due subscription, started at most 34 months of the calendar after the month in which
-- its stored period ended, leaves a stored period that ends ahead: the limit of 36 rounds does not stop
-- it before.
pub renew_ended-IsAhead :
    (tz : TimeZone) (o : IsOrderly tz) (usage_of : ℕ → UsageCounts) (s : Subscription)
    (end now year : ℕ) (account : Account)
    → current_subscription account.subscriptions ≡ some s
    → s.end_date ≡ some end
    → 3 ≤ month_of end tz
    → month_of now tz < month_of end tz + 35
    → IsAhead (renew_ended usage_of s.end_date s now year tz account) now
unfolding renew_ended
renew_ended-IsAhead tz o usage_of s end now year account cur e three near =
    subst (λ k. IsAhead (renew_ended usage_of k s now year tz account) now) (sym e)
      (catch_up-IsAhead tz o usage_of 35 s s.start_date end
        (anchor_or s.billing_anchor_day (anchor_day_of end tz)) now year account
        (record { row = s; current = cur; same = refl; ends = e }) three near)
