-- ===== src/Billing/Account/Renewal.antt =====
-- A renewal beside the resolver of src/billing/effectiveStatus.ts.
pub mod Periods
pub mod Jobs
pub mod Reach
use vaketta_backend.Prelude.{
  ℕ, ◌≤◌, ◌<◌, ◌≡◌, refl, sym, ap, ◌∙◌, arith, Bool, true, false, Option, none, some, inl, inr,
  lt-or-le, lt→ltb, le→ltb, if◌then◌else◌, ltb, Bool-cases, min, max,
}
use vaketta_backend.Js.{JsNumber, JsValue, number, of_ℕ}
use vaketta_backend.Billing.Zone.{TimeZone}
use vaketta_backend.Billing.Zone.Laws.{IsOrderly}
use vaketta_backend.Billing.Period.{
  Period, anchor_day_of, clamp_anchor_day, next_anchored_period, compute_anchored_period,
  period_containing, next_anchor_after,
}
use vaketta_backend.Billing.Period.Bounds.{month_of, clamp_anchor_day_bounds}
use vaketta_backend.Billing.Period.Containing.{period_containing-first}
use vaketta_backend.Billing.EffectiveStatus.{
  BillingStatus, SubscriptionState, EffectiveState, is_trialing, is_terminal, derived_anchor,
  anchor_or_derived, resolve_effective_state, resolve_live, resolve_dated, resolve_over, renew,
  effective_period,
}
use vaketta_backend.Billing.Account.{Account, Subscription, current_subscription, to_state}
use vaketta_backend.Billing.Account.Changes.{anchor_or}
use vaketta_backend.Billing.Account.Jobs.{renewed_to}
use vaketta_backend.Billing.Account.Renewal.Periods.{period_containing-next}

-- What a hotel is given for a subscription: its status, and its period if it has an end.
unfoldable pub service_of : Subscription → ℕ → TimeZone → BillingStatus × Option Period
service_of s now tz =
    let r = resolve_effective_state (to_state s) now tz in (r.status, effective_period r)

pub clamp_anchor_day_again :
    (v : JsValue) → clamp_anchor_day (number (of_ℕ (clamp_anchor_day v))) ≡ clamp_anchor_day v
clamp_anchor_day_again v =
    let (lo, hi) = clamp_anchor_day_bounds v in within (clamp_anchor_day v) lo hi
  where
    within : (d : ℕ) → 1 ≤ d → d ≤ 31 → clamp_anchor_day (number (of_ℕ d)) ≡ d
    within d lo hi = unfold clamp_anchor_day in (omega arith)

anchor_or-derived_day :
    (day : Option JsNumber) (s : Subscription) (end : ℕ) (tz : TimeZone)
    → s.end_date ≡ some end
    → clamp_anchor_day (number (anchor_or day (anchor_day_of end tz)))
      ≡ anchor_or_derived day (to_state s) tz
unfolding anchor_or_derived
anchor_or-derived_day (some day) s end tz e = refl
anchor_or-derived_day none s end tz e = rw e (unfold anchor_day_of in (clamp_anchor_day_again _))

-- The anchor that a renewal writes is the one that the resolver derives.
pub anchor_or-derived :
    (s : Subscription) (end : ℕ) (tz : TimeZone)
    → s.end_date ≡ some end
    → clamp_anchor_day (number (anchor_or s.billing_anchor_day (anchor_day_of end tz)))
      ≡ derived_anchor (to_state s) tz
unfolding derived_anchor
anchor_or-derived s end tz e = anchor_or-derived_day s.billing_anchor_day s end tz e

-- A subscription that renews, past its end, by what the resolver says.
pub service_of-renewing :
    (s : Subscription) (end now : ℕ) (tz : TimeZone)
    → is_terminal s.status ≡ false
    → is_trialing s.status ≡ false
    → s.auto_renew ≡ true
    → s.end_date ≡ some end
    → end ≤ now
    → service_of s now tz
      ≡ (s.status, some (period_containing end (derived_anchor (to_state s) tz) now tz))
unfolding service_of resolve_effective_state resolve_live resolve_dated resolve_over renew
    effective_period
service_of-renewing s end now tz live paid auto e over =
    rw (live, e, le→ltb now end over, paid, auto) refl

pub service_of-within :
    (s : Subscription) (end now : ℕ) (tz : TimeZone)
    → is_terminal s.status ≡ false
    → s.end_date ≡ some end
    → now < end
    → service_of s now tz
      ≡ (s.status, some (record { period_start = s.start_date; period_end = end }))
unfolding service_of resolve_effective_state resolve_live resolve_dated effective_period
service_of-within s end now tz live e early = rw (live, e, lt→ltb now end early) refl

-- One renewal of a subscription whose period is over leaves its status and the period that it is
-- given, at every instant from the end of the closed period on.
pub service_of-renewed_to :
    (tz : TimeZone) (o : IsOrderly tz) (s : Subscription) (start end now : ℕ) (anchor : JsNumber)
    → is_terminal s.status ≡ false
    → is_trialing s.status ≡ false
    → s.auto_renew ≡ true
    → s.end_date ≡ some end
    → clamp_anchor_day (number anchor) ≡ derived_anchor (to_state s) tz
    → 4 ≤ month_of end tz
    → end ≤ now
    → let closing : Period = record { period_start = start; period_end = end } in
      let next = next_anchored_period closing (clamp_anchor_day (number anchor)) tz in
      service_of (renewed_to next anchor s) now tz ≡ service_of s now tz
unfolding next_anchored_period compute_anchored_period
service_of-renewed_to tz o s start end now anchor live paid auto e same late over =
    let a = clamp_anchor_day (number anchor) in
    let n = next_anchor_after end a tz in
    let next : Period = record { period_start = end; period_end = n } in
    let before = service_of-renewing s end now tz live paid auto e over in
    elim (lt-or-le now n) [
      | inl early ↦
          service_of-within (renewed_to next anchor s) n now tz live refl early
          ∙ rw (before, sym same) (rw (period_containing-first tz a end now early) refl)
      | inr far ↦
          service_of-renewing (renewed_to next anchor s) n now tz live paid auto refl far
          ∙ rw (before, sym same)
              (unfold derived_anchor anchor_or_derived in
                (rw (period_containing-next tz o a end now late far) refl))
    ]
