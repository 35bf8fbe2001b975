-- ===== src/Tests/Billing.antt =====
-- Subscriptions and periods in Asia/Kolkata, at instants of the year 2026.
use vaketta_backend.Prelude.{
  ℕ, ◌+◌, ◌-◌, ◌*◌, ◌%◌, max, ◌≤◌, ◌<◌, ◌≡◌, ◌⊎◌, refl, arith, true, false, some,
}
use vaketta_backend.Prelude.Int.{pos}
use vaketta_backend.Js.{nan, number, not_a_number, of_ℕ}
use vaketta_backend.Billing.Calendar.{
  month_index, march_month, march_start, month_start, month_length, utc_parts, date_utc, day_ms,
}
use vaketta_backend.Billing.Calendar.Laws.{utc_parts-date_utc, date_utc-utc_parts}
use vaketta_backend.Billing.Zone.{
  parts_in_tz, tz_offset_ms, hour_part, as_if_utc, zoned_midnight_utc,
}
use vaketta_backend.Billing.Zone.Laws.{kolkata, kolkata-IsOrderly}
use vaketta_backend.Billing.Period.{
  Period, period_containing, step_forward, step_back, jump_months, compute_anchored_period,
  next_anchor_after, add_months_anchored, shift_month, days_in_year_month, clamp_anchor_day,
  anchor_day_of, next_anchored_period, elapsed_from, periods_elapsed, days_in_month,
}
use vaketta_backend.Billing.Period.Bounds.{month_of_late, next_anchor_after_first}
use vaketta_backend.Billing.Period.Rolling.{
  Holds, roll, period_containing-Holds, period_containing_constant, roll-periods_elapsed,
}
use vaketta_backend.Billing.Period.Money.{prorate_period, days_until, prorate_period_bounds}
use vaketta_backend.Billing.EffectiveStatus.{
  trialing, active, SubscriptionState, anchor_or_derived, derived_anchor, renew, resolve_over,
  resolve_dated, resolve_live, resolve_effective_state, effective_period, bounded_cache_ttl_seconds,
  paid_period_after_trial,
}
use vaketta_backend.Billing.EffectiveStatus.Laws.{
  HoldsTo, resolve_effective_state-suspended, resolve_effective_state-HoldsTo,
  resolve_effective_state_constant, resolve_effective_state-paid_period_after_trial,
  bounded_cache_ttl_seconds_bounds,
}
use vaketta_backend.Billing.Overage.{compute_overage, compute_overage-bill, bill}

-- Local midnights in India.
abbrev january_31 : ℕ
january_31 = 63_931_833_000_000

abbrev may_20 : ℕ
may_20 = 63_941_250_600_000

abbrev may_31 : ℕ
may_31 = 63_942_201_000_000

-- A month-end anchor: from 31 January on, 20 May is in the period that begins on 30 April.
period_containing_may :
    period_containing january_31 31 may_20 kolkata
    ≡ record { period_start = may_31 - 31 * day_ms; period_end = may_31 }
unfolding period_containing step_forward step_back jump_months compute_anchored_period
    next_anchored_period next_anchor_after add_months_anchored shift_month days_in_year_month
    clamp_anchor_day parts_in_tz utc_parts date_utc month_index march_month march_start month_start
    zoned_midnight_utc tz_offset_ms as_if_utc hour_part
period_containing_may = refl

periods_elapsed_may : periods_elapsed january_31 31 may_20 kolkata ≡ 3
unfolding periods_elapsed elapsed_from compute_anchored_period next_anchored_period
    next_anchor_after add_months_anchored shift_month days_in_year_month clamp_anchor_day
    parts_in_tz utc_parts date_utc month_index march_month march_start month_start
    zoned_midnight_utc tz_offset_ms as_if_utc hour_part
periods_elapsed_may = refl

period_containing-Holds_example :
    Holds (period_containing january_31 31 may_20 kolkata) may_20
    × (january_31 ≤ (period_containing january_31 31 may_20 kolkata).period_start)
period_containing-Holds_example =
    period_containing-Holds kolkata kolkata-IsOrderly january_31 31 may_20
      (month_of_late january_31 kolkata (omega arith)) (omega arith)

period_containing_constant_example :
    period_containing january_31 31 (may_20 + day_ms) kolkata
    ≡ period_containing january_31 31 may_20 kolkata
period_containing_constant_example =
    period_containing_constant kolkata kolkata-IsOrderly january_31 31 may_20 (may_20 + day_ms)
      (month_of_late january_31 kolkata (omega arith)) (omega arith) (omega arith)
      (rw period_containing_may (omega arith))

roll-periods_elapsed_example :
    roll
      (periods_elapsed january_31 31 may_20 kolkata)
      31
      kolkata
      (compute_anchored_period january_31 31 kolkata)
    ≡ period_containing january_31 31 may_20 kolkata
roll-periods_elapsed_example =
    roll-periods_elapsed kolkata kolkata-IsOrderly january_31 31 may_20
      (month_of_late january_31 kolkata (omega arith)) (rw periods_elapsed_may (omega arith))

next_anchor_after_first_example :
    ((next_anchor_after may_20 31 kolkata ≡ add_months_anchored may_20 (pos 0) 31 kolkata)
      ⊎ (next_anchor_after may_20 31 kolkata ≡ add_months_anchored may_20 (pos 1) 31 kolkata))
    × (may_20 < next_anchor_after may_20 31 kolkata)
    × ((add_months_anchored may_20 (pos 1) 31 kolkata ≤ may_20)
        ⊎ (next_anchor_after may_20 31 kolkata ≤ add_months_anchored may_20 (pos 1) 31 kolkata))
next_anchor_after_first_example =
    next_anchor_after_first kolkata kolkata-IsOrderly may_20 31 1
      (omega (arith, month_of_late may_20 kolkata (omega arith)))

prorate_period_bounds_example :
    let p : Period = record { period_start = may_20; period_end = may_31 } in
    let charge = prorate_period 300_000 p kolkata in
    let remaining = days_until may_20 may_31 in
    let total = days_in_month may_20 kolkata in
    (charge ≤ 300_000)
    × (((may_31 ≤ may_20) × (charge ≡ 0))
        ⊎ (((total ≤ remaining) × (charge ≡ 300_000))
            ⊎ ((remaining < total)
                × (2 * (charge * total) ≤ 2 * (300_000 * remaining) + total)
                × (2 * (300_000 * remaining) ≤ 2 * (charge * total) + total))))
prorate_period_bounds_example =
    prorate_period_bounds 300_000 (record { period_start = may_20; period_end = may_31 }) kolkata

utc_parts-date_utc_example :
    utc_parts (date_utc 2026 4 20 + 1234) ≡ record { year = 2026; month = 4 + 1; day = 20 }
unfolding month_length month_start march_start
utc_parts-date_utc_example =
    utc_parts-date_utc 2026 4 20 1234 (omega arith) (omega arith) (omega arith) (omega arith)
      (omega arith)

date_utc-utc_parts_example :
    let p = utc_parts may_20 in date_utc p.year (p.month - 1) p.day + may_20 % day_ms ≡ may_20
date_utc-utc_parts_example = date_utc-utc_parts may_20

-- A renewing subscription whose stored period ended on 31 January, on a month-end anchor.
abbrev renewing : SubscriptionState
renewing = record {
  status = active;
  start_date = january_31 - 31 * day_ms;
  end_date = some january_31;
  auto_renew = true;
  billing_anchor_day = some (of_ℕ 31);
  has_scheduled_plan = false;
}

renewing_boundary : (resolve_effective_state renewing may_20 kolkata).next_boundary ≡ some may_31
unfolding resolve_effective_state resolve_live resolve_dated resolve_over renew derived_anchor
    anchor_or_derived period_containing step_forward step_back jump_months compute_anchored_period
    next_anchored_period next_anchor_after add_months_anchored shift_month days_in_year_month
    clamp_anchor_day parts_in_tz utc_parts date_utc month_index march_month march_start month_start
    zoned_midnight_utc tz_offset_ms as_if_utc hour_part
renewing_boundary = refl

resolve_effective_state-HoldsTo_example :
    let r = resolve_effective_state renewing may_20 kolkata in
    HoldsTo r.period_start r.period_end may_20
resolve_effective_state-HoldsTo_example =
    resolve_effective_state-HoldsTo kolkata kolkata-IsOrderly renewing may_20 (omega arith)
      (λ end e. month_of_late end kolkata (grind arith))
      (resolve_effective_state-suspended renewing may_20 kolkata)

resolve_effective_state_constant_example :
    resolve_effective_state renewing (may_20 + day_ms) kolkata
    ≡ resolve_effective_state renewing may_20 kolkata
resolve_effective_state_constant_example =
    resolve_effective_state_constant kolkata kolkata-IsOrderly renewing may_20 (may_20 + day_ms)
      (λ end e. month_of_late end kolkata (grind arith)) (omega arith)
      (rw renewing_boundary (omega arith))

resolve_effective_state-suspended_example :
    (resolve_effective_state renewing may_20 kolkata).suspended ≡ false
resolve_effective_state-suspended_example =
    resolve_effective_state-suspended renewing may_20 kolkata

bounded_cache_ttl_seconds_bounds_example :
    let ttl =
      bounded_cache_ttl_seconds (resolve_effective_state renewing may_20 kolkata) may_20 300 in
    (1 ≤ ttl) × (ttl ≤ max 1 300) × (may_20 + ttl * 1000 < may_31 + 1000)
bounded_cache_ttl_seconds_bounds_example =
    bounded_cache_ttl_seconds_bounds (resolve_effective_state renewing may_20 kolkata) may_20 300
      may_31 renewing_boundary (omega arith)

-- A trial that ends on 31 January, with a plan to follow.
abbrev trial : SubscriptionState
trial = record renewing { status = trialing; has_scheduled_plan = true }

paid_period_end : january_31 + day_ms < (paid_period_after_trial january_31 kolkata).0.period_end
unfolding paid_period_after_trial anchor_day_of period_containing step_forward step_back jump_months
    compute_anchored_period next_anchored_period next_anchor_after add_months_anchored shift_month
    days_in_year_month clamp_anchor_day parts_in_tz utc_parts date_utc month_index march_month
    march_start month_start zoned_midnight_utc tz_offset_ms as_if_utc hour_part
paid_period_end = omega arith

resolve_effective_state-paid_period_after_trial_example :
    let paid = paid_period_after_trial january_31 kolkata in
    let r = resolve_effective_state trial (january_31 + day_ms) kolkata in
    (r.status ≡ active)
    × (r.suspended ≡ false)
    × (effective_period r ≡ some paid.0)
    × (r.anchor_day ≡ paid.1)
    × (paid.0.period_start ≡ january_31)
resolve_effective_state-paid_period_after_trial_example =
    resolve_effective_state-paid_period_after_trial kolkata trial january_31 (january_31 + day_ms)
      refl refl refl (omega arith) paid_period_end

-- 1000 conversations are included and 1200 used; AI replies are unlimited.
compute_overage-bill_example :
    (compute_overage
      (record { conversations_used = number (of_ℕ 1200); ai_replies_used = number (of_ℕ 7) })
      (record {
        conversation_limit = number (of_ℕ 1000);
        ai_reply_limit = not_a_number;
        extra_conversation_charge = number (of_ℕ 50);
        extra_ai_reply_charge = number nan;
      })).total
    ≡ bill 1200 1000 50 + bill 7 0 0
compute_overage-bill_example =
    compute_overage-bill
      (record { conversations_used = number (of_ℕ 1200); ai_replies_used = number (of_ℕ 7) })
      (record {
        conversation_limit = number (of_ℕ 1000);
        ai_reply_limit = not_a_number;
        extra_conversation_charge = number (of_ℕ 50);
        extra_ai_reply_charge = number nan;
      })
      1200 1000 50 7 0 0 (λ unit h. (λ k. k, λ k. k)) (λ unit h. (λ k. k, λ k. k))
      (λ unit h. (λ k. k, λ k. k)) (λ unit h. (λ k. k, λ k. k))
      (λ unit h. (λ k. omega arith, absurd)) (λ unit h. (λ k. omega arith, absurd))
