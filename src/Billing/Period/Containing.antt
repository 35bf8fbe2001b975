-- ===== src/Billing/Period/Containing.antt =====
-- `periodContaining` of src/billing/period.ts: where its jump and its loops land.
use vaketta_backend.Prelude.{
  ℕ, ◌+◌, ◌-◌, ◌≤◌, ◌<◌, ◌≡◌, ◌⊎◌, inl, inr, refl, arith, lt-or-le, lt→ltb, le→ltb,
}
use vaketta_backend.Billing.Zone.{TimeZone}
use vaketta_backend.Billing.Zone.Laws.{IsOrderly}
use vaketta_backend.Billing.Period.{
  Period, next_anchor_after, compute_anchored_period, step_forward, step_back, jump_months,
  period_containing,
}
use vaketta_backend.Billing.Period.Bounds.{
  month_of, bound, bound-le, lt-bound, bound_mono, add_months_anchored-pos, next_anchor_after_lem,
}
use vaketta_backend.Billing.Period.Loops.{
  jump_months_lem, period_at, compute_anchored_period-bound, loops-here, loops-next, loops-previous,
}
use vaketta_backend.Billing.Period.Slots.{slot, slot_unique}

module _ (tz : TimeZone) (o : IsOrderly tz) (a : ℕ) where
  -- What the two loops give, from the period that begins at the boundary of a month.
  loops : ℕ → ℕ → ℕ → Period
  loops s date t =
      let forward = step_forward 24 date a tz (period_at t a tz) in
      step_back forward.1 s date a tz forward.0

  period_containing-loops :
      (s date : ℕ)
      → 3 ≤ month_of s tz
      → next_anchor_after s a tz ≤ date
      → period_containing s a date tz ≡ loops s date (month_of s tz + jump_months s date tz)
  unfolding period_containing loops
  period_containing-loops s date h late =
      let end : (compute_anchored_period s a tz).period_end ≡ next_anchor_after s a tz =
        unfold compute_anchored_period in refl in
      let jump = jump_months s date tz in
      rw (
        le→ltb date (compute_anchored_period s a tz).period_end (rw end late),
        add_months_anchored-pos s jump a tz,
        compute_anchored_period-bound tz o a (month_of s tz + jump) (omega arith),
      )

  -- The jump landed in the month before that of the instant.
  loops-before :
      (s date t : ℕ)
      → 3 ≤ t
      → month_of date tz ≡ t + 1
      → loops s date t ≡ period_at (slot tz o a date) a tz
  unfolding loops
  loops-before s date t h e =
      let k : 4 ≤ month_of date tz = omega arith in
      let lo = bound-le tz o a t date h (omega arith) in
      let hi = lt-bound tz o a (t + 1 + 1) date (omega arith) (omega arith) in
      elim (lt-or-le date (bound (t + 1) a tz)) [
        | inl p ↦ rw (slot_unique tz o a t date h k lo p) (loops-here tz o a s date t h lo p)
        | inr p ↦
            rw (slot_unique tz o a (t + 1) date (omega arith) k p hi)
              (loops-next tz o a s date t h p hi)
      ]

  -- The jump landed in the month of the instant.
  loops-month :
      (s date t : ℕ)
      → 3 ≤ t
      → month_of date tz ≡ t + 1
      → (date < bound (t + 1) a tz → s ≤ bound t a tz)
      → loops s date (t + 1) ≡ period_at (slot tz o a date) a tz
  unfolding loops
  loops-month s date t h e started =
      let k : 4 ≤ month_of date tz = omega arith in
      let lo = bound-le tz o a t date h (omega arith) in
      let hi = lt-bound tz o a (t + 1 + 1) date (omega arith) (omega arith) in
      elim (lt-or-le date (bound (t + 1) a tz)) [
        | inl p ↦
            rw (slot_unique tz o a t date h k lo p)
              (loops-previous tz o a s date t h (started p) lo p)
        | inr p ↦
            rw (slot_unique tz o a (t + 1) date (omega arith) k p hi)
              (loops-here tz o a s date (t + 1) (omega arith) p hi)
      ]

  -- The jump landed in the month after that of the instant.
  loops-after :
      (s date t : ℕ)
      → 3 ≤ t
      → 4 ≤ month_of date tz
      → month_of date tz ≡ t
      → s ≤ bound t a tz
      → bound t a tz ≤ date
      → loops s date (t + 1) ≡ period_at (slot tz o a date) a tz
  unfolding loops
  loops-after s date t h k e started lo =
      let hi = lt-bound tz o a (t + 1) date (omega arith) (omega arith) in
      rw (slot_unique tz o a t date h k lo hi) (loops-previous tz o a s date t h started lo hi)

  pub next_anchor_after-cases :
      (s : ℕ)
      → let c = month_of s tz in
        ((s < bound c a tz) × (next_anchor_after s a tz ≡ bound c a tz))
        ⊎ ((bound c a tz ≤ s) × (next_anchor_after s a tz ≡ bound (c + 1) a tz))
  next_anchor_after-cases s =
      let c = month_of s tz in
      elim (lt-or-le s (bound c a tz)) [
        | inl p ↦ inl (p, rw (next_anchor_after_lem tz o a s, lt→ltb s (bound c a tz) p))
        | inr p ↦ inr (p, rw (next_anchor_after_lem tz o a s, le→ltb s (bound c a tz) p))
      ]

  pub month_of-le :
      (s date : ℕ)
      → 3 ≤ month_of s tz
      → next_anchor_after s a tz ≤ date
      → month_of s tz ≤ month_of date tz
  month_of-le s date h late =
      let c = month_of s tz in
      elim (lt-or-le (month_of date tz) c) [
        | inl p ↦ absurd (
            omega (
              arith,
              lt-bound tz o a c date h p,
              bound_mono tz o a c (c + 1) h (omega arith),
              next_anchor_after-cases s,
            ))
        | inr p ↦ p
      ]

  loops-jump :
      (s date : ℕ)
      → 4 ≤ month_of s tz
      → next_anchor_after s a tz ≤ date
      → loops s date (month_of s tz + jump_months s date tz) ≡ period_at (slot tz o a date) a tz
  loops-jump s date h late =
      let c = month_of s tz in
      let b = month_of date tz in
      let le = month_of-le s date (omega arith) late in
      let hi = lt-bound tz o a (b + 1) date (omega arith) (omega arith) in
      let jump = jump_months_lem s date tz in
      elim (lt-or-le (c + 1) b) [
        | inl far ↦
            let e : c + jump_months s date tz ≡ b - 1 = omega arith in
            rw e (loops-before s date (b - 1) (omega arith) (omega arith))
        | inr near ↦
            let e : c + jump_months s date tz ≡ c + 1 = omega arith in
            rw e (elim (lt-or-le c b) [
              | inl next ↦
                  loops-month s date c (omega arith) (omega arith)
                    (λ p. omega (arith, next_anchor_after-cases s))
              | inr same ↦
                  let q : b ≡ c = omega arith in
                  let hi' : date < bound (c + 1) a tz = rw q at hi in
                  loops-after s date c (omega arith) (omega arith) q
                    (omega (arith, next_anchor_after-cases s))
                    (omega (arith, next_anchor_after-cases s))
            ])
      ]

  -- Once the first period is over, the answer is the period between the boundaries round the
  -- instant.
  pub period_containing-slot :
      (s date : ℕ)
      → 4 ≤ month_of s tz
      → next_anchor_after s a tz ≤ date
      → period_containing s a date tz ≡ period_at (slot tz o a date) a tz
  period_containing-slot s date h late =
      rw (period_containing-loops s date (omega arith) late) (loops-jump s date h late)

-- Until then it is the first period.
pub period_containing-first :
    (tz : TimeZone) (a s date : ℕ)
    → date < next_anchor_after s a tz
    → period_containing s a date tz
      ≡ record { period_start = s; period_end = next_anchor_after s a tz }
unfolding period_containing compute_anchored_period
period_containing-first tz a s date early = rw (lt→ltb date (next_anchor_after s a tz) early)
