-- ===== src/Billing/Period/Loops.antt =====
-- The two guarded loops of `periodContaining` in src/billing/period.ts, from a period that begins at
-- an anchored boundary.
use vaketta_backend.Prelude.{
  ℕ, suc, ◌+◌, ◌-◌, ◌≤◌, ◌<◌, ◌≡◌, arith, max, lt→ltb, le→ltb, le→leb, lt→leb,
}
use vaketta_backend.Prelude.Int.{negsuc}
use vaketta_backend.Billing.Zone.{TimeZone}
use vaketta_backend.Billing.Zone.Laws.{IsOrderly}
use vaketta_backend.Billing.Period.{
  Period, add_months_anchored, compute_anchored_period, next_anchored_period, step_forward,
  step_back, jump_months,
}
use vaketta_backend.Billing.Period.Bounds.{
  month_of, bound, parts_in_tz_lem, month_of-bound, bound_mono, add_months_anchored-back,
  next_anchor_after-bound,
}

pub jump_months_lem :
    (s date : ℕ) (tz : TimeZone)
    → jump_months s date tz ≡ max 1 (month_of date tz - month_of s tz - 1)
unfolding jump_months
jump_months_lem s date tz =
    let (y, m) = parts_in_tz_lem s tz in let (y', m') = parts_in_tz_lem date tz in omega arith

module _ (tz : TimeZone) (a date : ℕ) where
  step_forward-stop :
      (n : ℕ) (p : Period) → date < p.period_end → step_forward (suc n) date a tz p ≡ (p, suc n)
  unfolding step_forward
  step_forward-stop n p h = rw (lt→leb p.period_end date h)

  step_forward-go :
      (n : ℕ) (p : Period)
      → p.period_end ≤ date
      → step_forward (suc n) date a tz p ≡ step_forward n date a tz (next_anchored_period p a tz)
  unfolding step_forward
  step_forward-go n p h = rw (le→leb p.period_end date h)

  step_back-stop :
      (n s : ℕ) (p : Period) → p.period_start ≤ date → step_back (suc n) s date a tz p ≡ p
  unfolding step_back
  step_back-stop n s p h = rw (le→ltb date p.period_start h)

  step_back-go :
      (n s : ℕ) (p : Period)
      → date < p.period_start
      → let previous = add_months_anchored p.period_start (negsuc 0) a tz in
        s ≤ previous
        → step_back (suc n) s date a tz p
          ≡ step_back n s date a tz (compute_anchored_period previous a tz)
  unfolding step_back
  step_back-go n s p h k = rw (lt→ltb date p.period_start h, le→ltb _ s k)

-- The period from the boundary of a month to that of the next.
unfoldable pub period_at : ℕ → ℕ → TimeZone → Period
period_at t a tz = record { period_start = bound t a tz; period_end = bound (t + 1) a tz }

module _ (tz : TimeZone) (o : IsOrderly tz) (a : ℕ) where
  pub compute_anchored_period-bound :
      (t : ℕ) → 3 ≤ t → compute_anchored_period (bound t a tz) a tz ≡ period_at t a tz
  unfolding compute_anchored_period period_at
  compute_anchored_period-bound t h = rw (next_anchor_after-bound tz o a t h)

  pub next_anchored_period-period_at :
      (t : ℕ) → 3 ≤ t → next_anchored_period (period_at t a tz) a tz ≡ period_at (t + 1) a tz
  unfolding next_anchored_period period_at
  next_anchored_period-period_at t h = compute_anchored_period-bound (t + 1) (omega arith)

  -- From a period that starts no later than the instant, and after whose successor it lies no more,
  -- the two loops end at the period that holds the instant.
  pub loops-here :
      (s date t : ℕ)
      → 3 ≤ t
      → bound t a tz ≤ date
      → date < bound (t + 1) a tz
      → let forward = step_forward 24 date a tz (period_at t a tz) in
        step_back forward.1 s date a tz forward.0 ≡ period_at t a tz
  unfolding period_at
  loops-here s date t h lo hi =
      rw (step_forward-stop tz a date 23 (period_at t a tz) hi)
        (step_back-stop tz a date 23 s (period_at t a tz) lo)

  pub loops-next :
      (s date t : ℕ)
      → 3 ≤ t
      → bound (t + 1) a tz ≤ date
      → date < bound (t + 1 + 1) a tz
      → let forward = step_forward 24 date a tz (period_at t a tz) in
        step_back forward.1 s date a tz forward.0 ≡ period_at (t + 1) a tz
  unfolding period_at
  loops-next s date t h lo hi =
      let q = period_at (t + 1) a tz in
      rw
        (
          step_forward-go tz a date 23 (period_at t a tz) lo,
          next_anchored_period-period_at t h,
          step_forward-stop tz a date 22 q hi,
        )
        (step_back-stop tz a date 22 s q lo)

  pub loops-previous :
      (s date t : ℕ)
      → 3 ≤ t
      → s ≤ bound t a tz
      → bound t a tz ≤ date
      → date < bound (t + 1) a tz
      → let forward = step_forward 24 date a tz (period_at (t + 1) a tz) in
        step_back forward.1 s date a tz forward.0 ≡ period_at t a tz
  unfolding period_at
  loops-previous s date t h k lo hi =
      let p = period_at t a tz in
      let q = period_at (t + 1) a tz in
      let back : add_months_anchored (bound (t + 1) a tz) (negsuc 0) a tz ≡ bound t a tz =
        rw
          (
            add_months_anchored-back (bound (t + 1) a tz) a tz
                (rw (month_of-bound tz o a (t + 1) (omega arith)) (omega arith)),
            month_of-bound tz o a (t + 1) (omega arith),
          )
          (let e : t + 1 - 1 ≡ t = omega arith in rw e) in
      rw
        (
          step_forward-stop tz a date 23 q
              (omega (arith, bound_mono tz o a (t + 1) (t + 1 + 1) (omega arith) (omega arith))),
          step_back-go tz a date 23 s q hi (rw back k),
          back,
          compute_anchored_period-bound t h,
        )
        (step_back-stop tz a date 22 s p lo)
