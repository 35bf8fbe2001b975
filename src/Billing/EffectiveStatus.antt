-- ===== src/Billing/EffectiveStatus.antt =====
-- What a subscription is entitled to at an instant: src/billing/effectiveStatus.ts. Ids of plans
-- are not looked into, so `scheduledPlanId` is modelled by whether it is set.
pub mod Laws
use vaketta_backend.Prelude.{
  ℕ, ◌+◌, ◌-◌, ◌*◌, ◌/◌, Bool, true, false, not, Option, none, some, ltb, if◌then◌else◌, min, max,
}
use vaketta_backend.Js.{JsNumber, number}
use vaketta_backend.Billing.Zone.{TimeZone}
use vaketta_backend.Billing.Period.{
  Period, clamp_anchor_day, anchor_day_of, compute_anchored_period, period_containing,
}

pub data BillingStatus : Type 0 where
  trialing active past_due expired canceled : BillingStatus

-- The set `SERVED`.
abbrev pub is_served : BillingStatus → Bool
is_served trialing = true
is_served active = true
is_served past_due = true
is_served expired = false
is_served canceled = false

-- The set `TERMINAL`.
abbrev pub is_terminal : BillingStatus → Bool
is_terminal expired = true
is_terminal canceled = true
is_terminal trialing = false
is_terminal active = false
is_terminal past_due = false

abbrev pub is_past_due : BillingStatus → Bool
is_past_due past_due = true
is_past_due trialing = false
is_past_due active = false
is_past_due expired = false
is_past_due canceled = false

abbrev pub is_trialing : BillingStatus → Bool
is_trialing trialing = true
is_trialing active = false
is_trialing past_due = false
is_trialing expired = false
is_trialing canceled = false

pub record SubscriptionState : Type 0 where
  pub status : BillingStatus
  pub start_date : ℕ
  pub end_date : Option ℕ
  pub auto_renew : Bool
  pub billing_anchor_day : Option JsNumber
  pub has_scheduled_plan : Bool

pub data Reason : Type 0 where
  terminal open_ended within_period trial_converted trial_lapsed renewed not_renewing : Reason

pub record EffectiveState : Type 0 where
  pub status : BillingStatus
  pub suspended : Bool
  pub past_due_flag : Bool
  pub period_start : ℕ
  pub period_end : Option ℕ
  pub anchor_day : ℕ
  pub needs_materialization : Bool
  pub trial_was_converted : Bool
  pub next_boundary : Option ℕ
  pub reason : Reason

-- An effective state whose two flags are those that `serve` gives for its status.
abbrev served_state :
    BillingStatus → ℕ → Option ℕ → ℕ → Bool → Bool → Option ℕ → Reason → EffectiveState
served_state status start end anchor needs converted boundary reason = record {
  status = status;
  suspended = not (is_served status);
  past_due_flag = is_past_due status;
  period_start = start;
  period_end = end;
  anchor_day = anchor;
  needs_materialization = needs;
  trial_was_converted = converted;
  next_boundary = boundary;
  reason = reason;
}

-- `sub.endDate ?? sub.startDate`.
abbrev end_or_start : Option ℕ → ℕ → ℕ
end_or_start (some end) start = end
end_or_start none start = start

unfoldable pub anchor_or_derived : Option JsNumber → SubscriptionState → TimeZone → ℕ
anchor_or_derived (some day) sub tz = clamp_anchor_day (number day)
anchor_or_derived none sub tz = anchor_day_of (end_or_start sub.end_date sub.start_date) tz

unfoldable pub derived_anchor : SubscriptionState → TimeZone → ℕ
unfolding anchor_or_derived
derived_anchor sub tz = anchor_or_derived sub.billing_anchor_day sub tz

-- Case 4: a trial with a scheduled plan goes over into paid periods from its end on.
unfoldable pub convert_trial : ℕ → ℕ → TimeZone → EffectiveState
convert_trial trial_end now tz =
    let paid_anchor = anchor_day_of trial_end tz in
    let p = period_containing trial_end paid_anchor now tz in
    served_state active p.period_start (some p.period_end) paid_anchor true true (some p.period_end)
      trial_converted

-- Case 6: the period is rolled forward from the end of the stored one.
unfoldable pub renew : SubscriptionState → ℕ → ℕ → TimeZone → EffectiveState
renew sub end now tz =
    let anchor = derived_anchor sub tz in
    let p = period_containing end anchor now tz in
    served_state sub.status p.period_start (some p.period_end) anchor true false (some p.period_end)
      renewed

-- Cases 5 and 7: the period is over and nothing follows it.
unfoldable pub lapse : SubscriptionState → ℕ → Reason → TimeZone → EffectiveState
lapse sub end reason tz =
    served_state expired sub.start_date (some end) (derived_anchor sub tz) true false none reason

-- Cases 4 to 7: the stored period is over.
unfoldable pub resolve_over : SubscriptionState → ℕ → ℕ → TimeZone → EffectiveState
unfolding convert_trial renew lapse
resolve_over sub end now tz =
    if is_trialing sub.status
    then (if sub.has_scheduled_plan
        then convert_trial end now tz
        else lapse sub end trial_lapsed tz)
    else (if sub.auto_renew then renew sub end now tz else lapse sub end not_renewing tz)

-- Cases 3 to 7, for a subscription with an end date.
unfoldable pub resolve_dated : SubscriptionState → ℕ → ℕ → TimeZone → EffectiveState
resolve_dated sub end now tz =
    if ltb now end
    then served_state sub.status sub.start_date (some end) (derived_anchor sub tz) false false
        (some end) within_period
    else resolve_over sub end now tz

-- Cases 2 to 7, by the end date.
unfoldable pub resolve_live : Option ℕ → SubscriptionState → ℕ → TimeZone → EffectiveState
unfolding resolve_dated resolve_over
resolve_live none sub now tz =
    served_state sub.status sub.start_date none (derived_anchor sub tz) false false none open_ended
resolve_live (some end) sub now tz = resolve_dated sub end now tz

unfoldable pub resolve_effective_state : SubscriptionState → ℕ → TimeZone → EffectiveState
unfolding resolve_live
resolve_effective_state sub now tz =
    if is_terminal sub.status
    then served_state sub.status sub.start_date sub.end_date (derived_anchor sub tz) false false
        none terminal
    else resolve_live sub.end_date sub now tz

abbrev period_or_none : ℕ → Option ℕ → Option Period
period_or_none start (some end) = some (record { period_start = start; period_end = end })
period_or_none start none = none

unfoldable pub effective_period : EffectiveState → Option Period
effective_period state = period_or_none state.period_start state.period_end

-- `Math.ceil(ms / 1000)` of a difference; one that is not positive gives 0, and the floor of 1 s
-- then decides.
unfoldable pub ttl_to : Option ℕ → ℕ → ℕ → ℕ
ttl_to none now max_seconds = max_seconds
ttl_to (some boundary) now max_seconds = max 1 (min max_seconds ((boundary - now + 999) / 1000))

unfoldable pub bounded_cache_ttl_seconds : EffectiveState → ℕ → ℕ → ℕ
unfolding ttl_to
bounded_cache_ttl_seconds state now max_seconds = ttl_to state.next_boundary now max_seconds

unfoldable pub paid_period_after_trial : ℕ → TimeZone → Period × ℕ
paid_period_after_trial trial_end tz =
    let anchor = anchor_day_of trial_end tz in (compute_anchored_period trial_end anchor tz, anchor)
