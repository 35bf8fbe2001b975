-- ===== src/Billing/EffectiveStatus/Laws.antt =====
-- The answers of the resolver of src/billing/effectiveStatus.ts, over time.
use vaketta_backend.Prelude.{
  ℕ, ◌+◌, ◌*◌, ◌≤◌, ◌<◌, ◌≡◌, inl, inr, refl, arith, Bool, true, false, not, ◌&&◌, ◌||◌, Option,
  none, some, leb, if◌then◌else◌, lt-or-le, Bool-cases, lt→ltb, le→ltb, max,
}
use vaketta_backend.Billing.Zone.{TimeZone}
use vaketta_backend.Billing.Zone.Laws.{IsOrderly}
use vaketta_backend.Billing.Period.{anchor_day_of, compute_anchored_period}
use vaketta_backend.Billing.Period.Bounds.{month_of}
use vaketta_backend.Billing.Period.Rolling.{period_containing-Holds, period_containing_constant}
use vaketta_backend.Billing.Period.Containing.{period_containing-first}
use vaketta_backend.Billing.EffectiveStatus.{
  trialing, active, is_terminal, is_trialing, SubscriptionState, EffectiveState, derived_anchor,
  resolve_effective_state, effective_period, bounded_cache_ttl_seconds, paid_period_after_trial,
  resolve_live, resolve_dated, resolve_over,
}

-- The end of the stored period has come.
abbrev pub has_ended : Option ℕ → ℕ → Bool
has_ended none now = false
has_ended (some end) now = leb end now

-- A subscription is suspended exactly when its stored status is terminal, or its period is over and
-- neither a scheduled plan (for a trial) nor auto-renewal (for any other) carries it on.
pub resolve_effective_state-suspended :
    (sub : SubscriptionState) (now : ℕ) (tz : TimeZone)
    → (resolve_effective_state sub now tz).suspended ≡ (
        is_terminal sub.status
        || (has_ended sub.end_date now
            && (if is_trialing sub.status then not sub.has_scheduled_plan else not sub.auto_renew)))
unfolding resolve_effective_state
resolve_effective_state-suspended sub now tz = ground arith

-- A terminal status is never left: the resolver returns it with the stored period, suspended, with
-- nothing to materialise and no boundary to wait for.
pub resolve_effective_state-terminal :
    (sub : SubscriptionState) (now : ℕ) (tz : TimeZone)
    → is_terminal sub.status ≡ true
    → let r = resolve_effective_state sub now tz in
      (r.status ≡ sub.status)
      × (r.suspended ≡ true)
      × (r.period_start ≡ sub.start_date)
      × (r.period_end ≡ sub.end_date)
      × (r.needs_materialization ≡ false)
      × (r.next_boundary ≡ none)
unfolding resolve_effective_state
resolve_effective_state-terminal sub now tz h = ground arith

abbrev pub HoldsTo : ℕ → Option ℕ → ℕ → Type 0
HoldsTo start none now = start ≤ now
HoldsTo start (some end) now = (start ≤ now) × (now < end)

resolve_dated-HoldsTo :
    (tz : TimeZone) (o : IsOrderly tz) (sub : SubscriptionState) (end now : ℕ)
    → sub.start_date ≤ now
    → 4 ≤ month_of end tz
    → let r = resolve_dated sub end now tz in
      r.suspended ≡ false → HoldsTo r.period_start r.period_end now
unfolding resolve_dated resolve_over
resolve_dated-HoldsTo tz o sub end now h late served = elim (lt-or-le now end) [
  | inl early ↦ rw (lt→ltb now end early) (h, early)
  | inr over ↦ ground (
    arith,
    period_containing-Holds tz o end (anchor_day_of end tz) now,
    period_containing-Holds tz o end (derived_anchor sub tz) now,
  )
]

resolve_live-HoldsTo :
    (tz : TimeZone) (o : IsOrderly tz) (sub : SubscriptionState) (end : Option ℕ) (now : ℕ)
    → sub.start_date ≤ now
    → ((e : ℕ) → end ≡ some e → 4 ≤ month_of e tz)
    → let r = resolve_live end sub now tz in
      r.suspended ≡ false → HoldsTo r.period_start r.period_end now
unfolding resolve_live
resolve_live-HoldsTo tz o sub none now h late served = h
resolve_live-HoldsTo tz o sub (some e) now h late served =
    resolve_dated-HoldsTo tz o sub e now h (late e refl) served

-- A subscription that is served is in a period that holds the instant asked for, in an orderly zone
-- and with a stored period that began by then and ends in May of year 0 or later.
pub resolve_effective_state-HoldsTo :
    (tz : TimeZone) (o : IsOrderly tz) (sub : SubscriptionState) (now : ℕ)
    → sub.start_date ≤ now
    → ((end : ℕ) → sub.end_date ≡ some end → 4 ≤ month_of end tz)
    → (resolve_effective_state sub now tz).suspended ≡ false
    → let r = resolve_effective_state sub now tz in HoldsTo r.period_start r.period_end now
unfolding resolve_effective_state
resolve_effective_state-HoldsTo tz o sub now h late served =
    elim (Bool-cases (is_terminal sub.status)) [
      | inl t ↦ absurd (ground arith)
      | inr live ↦
          rw live (resolve_live-HoldsTo tz o sub sub.end_date now h late (rw live at served))
    ]

-- The boundary, if there is one, lies ahead of an instant.
abbrev pub Before : ℕ → Option ℕ → Type 0
Before now none = Unit
Before now (some boundary) = now < boundary

resolve_over_constant :
    (tz : TimeZone) (o : IsOrderly tz) (sub : SubscriptionState) (end now later : ℕ)
    → 4 ≤ month_of end tz
    → end ≤ now
    → now ≤ later
    → Before later (resolve_over sub end now tz).next_boundary
    → resolve_over sub end later tz ≡ resolve_over sub end now tz
unfolding resolve_over
resolve_over_constant tz o sub end now later late over le soon = ground (
  arith,
  period_containing_constant tz o end (anchor_day_of end tz) now later,
  period_containing_constant tz o end (derived_anchor sub tz) now later,
)

resolve_dated_constant :
    (tz : TimeZone) (o : IsOrderly tz) (sub : SubscriptionState) (end now later : ℕ)
    → 4 ≤ month_of end tz
    → now ≤ later
    → Before later (resolve_dated sub end now tz).next_boundary
    → resolve_dated sub end later tz ≡ resolve_dated sub end now tz
unfolding resolve_dated
resolve_dated_constant tz o sub end now later late le soon = elim (lt-or-le now end) [
  | inl early ↦
      let open_ = lt→ltb now end early in
      let later-lt : later < end = rw open_ at soon in rw (lt→ltb later end later-lt, open_)
  | inr over ↦
      let closed = le→ltb now end over in
      rw (le→ltb later end (omega arith), closed)
        (resolve_over_constant tz o sub end now later late over le (rw closed at soon))
]

resolve_live_constant :
    (tz : TimeZone) (o : IsOrderly tz) (sub : SubscriptionState) (end : Option ℕ) (now later : ℕ)
    → ((e : ℕ) → end ≡ some e → 4 ≤ month_of e tz)
    → now ≤ later
    → Before later (resolve_live end sub now tz).next_boundary
    → resolve_live end sub later tz ≡ resolve_live end sub now tz
unfolding resolve_live
resolve_live_constant tz o sub none now later late le soon = refl
resolve_live_constant tz o sub (some e) now later late le soon =
    resolve_dated_constant tz o sub e now later (late e refl) le soon

-- An answer stays right until its boundary: for every instant from the given one on and before the
-- boundary (for every later one, where there is no boundary) the resolver gives the same answer.
pub resolve_effective_state_constant :
    (tz : TimeZone) (o : IsOrderly tz) (sub : SubscriptionState) (now later : ℕ)
    → ((end : ℕ) → sub.end_date ≡ some end → 4 ≤ month_of end tz)
    → now ≤ later
    → Before later (resolve_effective_state sub now tz).next_boundary
    → resolve_effective_state sub later tz ≡ resolve_effective_state sub now tz
unfolding resolve_effective_state
resolve_effective_state_constant tz o sub now later late le soon =
    elim (Bool-cases (is_terminal sub.status)) [
      | inl t ↦ rw t
      | inr live ↦
          rw live (resolve_live_constant tz o sub sub.end_date now later late le (rw live at soon))
    ]

-- A trial with a scheduled plan becomes active at the instant it ends, and until the first paid
-- period is over the answer is that period: there is no gap between trial and paid service.
pub resolve_effective_state-paid_period_after_trial :
    (tz : TimeZone) (sub : SubscriptionState) (trial_end now : ℕ)
    → sub.status ≡ trialing
    → sub.has_scheduled_plan ≡ true
    → sub.end_date ≡ some trial_end
    → trial_end ≤ now
    → now < (paid_period_after_trial trial_end tz).0.period_end
    → let paid = paid_period_after_trial trial_end tz in
      let r = resolve_effective_state sub now tz in
      (r.status ≡ active)
      × (r.suspended ≡ false)
      × (effective_period r ≡ some paid.0)
      × (r.anchor_day ≡ paid.1)
      × (paid.0.period_start ≡ trial_end)
unfolding resolve_effective_state paid_period_after_trial effective_period compute_anchored_period
resolve_effective_state-paid_period_after_trial tz sub trial_end now t p e over soon =
    ground (arith, period_containing-first tz (anchor_day_of trial_end tz) trial_end now soon)

-- The time to live of a cached answer is at least a second and at most the maximum (or a second),
-- and it passes a boundary that lies ahead by less than one second.
pub bounded_cache_ttl_seconds_bounds :
    (state : EffectiveState) (now max_seconds boundary : ℕ)
    → state.next_boundary ≡ some boundary
    → now < boundary
    → let ttl = bounded_cache_ttl_seconds state now max_seconds in
      (1 ≤ ttl) × (ttl ≤ max 1 max_seconds) × (now + ttl * 1000 < boundary + 1000)
unfolding bounded_cache_ttl_seconds
bounded_cache_ttl_seconds_bounds state now max_seconds boundary e h = rw e (ground arith)
