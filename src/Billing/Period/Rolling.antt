-- ===== src/Billing/Period/Rolling.antt =====
-- `periodContaining` of src/billing/period.ts for its callers.
use vaketta_backend.Prelude.{
  ℕ, zero, suc, ◌+◌, ◌≤◌, ◌<◌, ◌≡◌, inl, inr, refl, arith, lt-or-le, le→leb, lt→leb, sym, ap, ◌∙◌,
}
use native.Mathlib.Nat.{add-zero}
use vaketta_backend.Billing.Zone.{TimeZone}
use vaketta_backend.Billing.Zone.Laws.{IsOrderly}
use vaketta_backend.Billing.Period.{
  Period, next_anchor_after, compute_anchored_period, next_anchored_period, period_containing,
  elapsed_from, periods_elapsed,
}
use vaketta_backend.Billing.Period.Bounds.{
  month_of, bound, next_anchor_after-gt, next_anchor_after-bound,
}
use vaketta_backend.Billing.Period.Loops.{period_at, next_anchored_period-period_at}
use vaketta_backend.Billing.Period.Slots.{slot, slot_lem, slot_unique, bound-le-slot}
use vaketta_backend.Billing.Period.Containing.{
  month_of-le, next_anchor_after-cases, period_containing-slot, period_containing-first,
}

-- A period holds an instant: half-open, its end is the first instant of the next.
abbrev pub Holds : Period → ℕ → Type 0
Holds p date = (p.period_start ≤ date) × (date < p.period_end)

-- In an orderly zone, for a start and a later instant from May of year 0 on, the period that
-- `periodContaining` returns holds the instant and does not begin before the start.
pub period_containing-Holds :
    (tz : TimeZone) (o : IsOrderly tz) (s a date : ℕ)
    → 4 ≤ month_of s tz
    → s ≤ date
    → Holds (period_containing s a date tz) date
      × (s ≤ (period_containing s a date tz).period_start)
period_containing-Holds tz o s a date h le = elim (lt-or-le date (next_anchor_after s a tz)) [
  | inl early ↦ rw (period_containing-first tz a s date early) ((le, early), omega arith)
  | inr late ↦
      let b = month_of-le tz o a s date (omega arith) late in
      let (three, below, above) = slot_lem tz o a date (omega arith) in
      rw (period_containing-slot tz o a s date h late)
        (unfold period_at in ((below, above), start-le tz o s a date h late))
]
  where
    start-le :
        (tz : TimeZone) (o : IsOrderly tz) (s a date : ℕ)
        → 4 ≤ month_of s tz
        → next_anchor_after s a tz ≤ date
        → s ≤ bound (slot tz o a date) a tz
    start-le tz o s a date h late =
        let c = month_of s tz in
        let k : 4 ≤ month_of date tz =
          omega (arith, month_of-le tz o a s date (omega arith) late) in
        let ahead = next_anchor_after-gt tz o a s (omega arith) in
        elim (next_anchor_after-cases tz o a s) [
          | inl p ↦ omega (arith, bound-le-slot tz o a c date (omega arith) k (omega arith))
          | inr p ↦ omega (arith, bound-le-slot tz o a (c + 1) date (omega arith) k (omega arith))
        ]

-- The answer does not change before the period ends: for every instant from the given one up to
-- the end of its period `periodContaining` returns that same period.
pub period_containing_constant :
    (tz : TimeZone) (o : IsOrderly tz) (s a date later : ℕ)
    → 4 ≤ month_of s tz
    → s ≤ date
    → date ≤ later
    → later < (period_containing s a date tz).period_end
    → period_containing s a later tz ≡ period_containing s a date tz
period_containing_constant tz o s a date later h le le' early =
    let n = next_anchor_after s a tz in
    elim (lt-or-le date n) [
      | inl p ↦
          let e = period_containing-first tz a s date p in
          let soon : later < n = rw e at early in rw (e, period_containing-first tz a s later soon)
      | inr p ↦
          let b = month_of-le tz o a s date (omega arith) p in
          let b' = month_of-le tz o a s later (omega arith) (omega arith) in
          let (three, below, above) = slot_lem tz o a date (omega arith) in
          let e = period_containing-slot tz o a s date h p in
          let soon : later < bound (slot tz o a date + 1) a tz =
            unfold period_at in (rw e at early) in
          rw (
            e,
            period_containing-slot tz o a s later h (omega arith),
            slot_unique tz o a (slot tz o a date) later three (omega arith) (omega arith) soon,
          )
    ]

-- `n` times the next period.
abbrev pub roll : ℕ → ℕ → TimeZone → Period → Period
roll zero a tz p = p
roll (suc n) a tz p = roll n a tz (next_anchored_period p a tz)

elapsed_from-stop :
    (rounds date a : ℕ) (tz : TimeZone) (p : Period)
    → date < p.period_end
    → elapsed_from (suc rounds) date a tz p ≡ 0
unfolding elapsed_from
elapsed_from-stop rounds date a tz p h = rw (lt→leb p.period_end date h)

elapsed_from-go :
    (rounds date a : ℕ) (tz : TimeZone) (p : Period)
    → p.period_end ≤ date
    → elapsed_from (suc rounds) date a tz p
      ≡ suc (elapsed_from rounds date a tz (next_anchored_period p a tz))
unfolding elapsed_from
elapsed_from-go rounds date a tz p h = rw (le→leb p.period_end date h)

-- Where the walk of `periodsElapsed` ends within its rounds, it ends at the period of the instant.
elapsed_from-period_at :
    (tz : TimeZone) (o : IsOrderly tz) (a date rounds t n : ℕ)
    → 3 ≤ t
    → bound t a tz ≤ date
    → elapsed_from rounds date a tz (period_at t a tz) ≡ n
    → n < rounds
    → (roll n a tz (period_at t a tz) ≡ period_at (t + n) a tz)
      × (bound (t + n) a tz ≤ date)
      × (date < bound (t + n + 1) a tz)
elapsed_from-period_at tz o a date zero t n h lo e few = absurd (omega arith)
elapsed_from-period_at tz o a date (suc rounds) t n h lo e few =
    let p = period_at t a tz in
    elim (lt-or-le date (bound (t + 1) a tz)) [
      | inl early ↦
          let z : n ≡ 0 =
            sym e ∙ elapsed_from-stop rounds date a tz p (unfold period_at in early) in
          rw z (rw add-zero (refl, lo, early))
      | inr late ↦
          let q = period_at (t + 1) a tz in
          let n' = elapsed_from rounds date a tz q in
          let next : next_anchored_period p a tz ≡ q = next_anchored_period-period_at tz o a t h in
          let more = elapsed_from-go rounds date a tz p (unfold period_at in late) in
          let z : n ≡ suc n' =
            sym e ∙ more ∙ ap (λ r. suc (elapsed_from rounds date a tz r)) next in
          let (walk, below, above) =
            elapsed_from-period_at tz o a date rounds (t + 1) n' (omega arith) late refl
              (omega arith) in
          let i : t + suc n' ≡ t + 1 + n' = omega arith in
          rw (z, i) (ap (λ r. roll n' a tz r) next ∙ walk, below, above)
    ]

roll-late :
    (tz : TimeZone) (o : IsOrderly tz) (s a date u : ℕ)
    → 4 ≤ month_of s tz
    → 3 ≤ u
    → next_anchor_after s a tz ≡ bound u a tz
    → bound u a tz ≤ date
    → periods_elapsed s a date tz < 600
    → roll (periods_elapsed s a date tz) a tz (compute_anchored_period s a tz)
      ≡ period_containing s a date tz
roll-late tz o s a date u h three e late few =
    let first = compute_anchored_period s a tz in
    let late' : next_anchor_after s a tz ≤ date = rw e late in
    let next : next_anchored_period first a tz ≡ period_at u a tz =
      unfold next_anchored_period compute_anchored_period period_at in
      rw (e, next_anchor_after-bound tz o a u three) in
    let n' = elapsed_from 599 date a tz (period_at u a tz) in
    let z : periods_elapsed s a date tz ≡ suc n' =
      unfold periods_elapsed in
      elapsed_from-go 599 date a tz first (unfold compute_anchored_period in late')
      ∙ ap (λ r. suc (elapsed_from 599 date a tz r)) next in
    let (walk, below, above) =
      elapsed_from-period_at tz o a date 599 u n' three late refl (omega arith) in
    let four : 4 ≤ month_of date tz =
      omega (arith, month_of-le tz o a s date (omega arith) late') in
    rw
      (
        z,
        period_containing-slot tz o a s date h late',
        slot_unique tz o a (u + n') date (omega arith) four below above,
      )
      (ap (λ r. roll n' a tz r) next ∙ walk)

-- Walking from the first period as many steps as `periodsElapsed` counts arrives at the period
-- that `periodContaining` jumps to, where the count stays below its bound of 600.
pub roll-periods_elapsed :
    (tz : TimeZone) (o : IsOrderly tz) (s a date : ℕ)
    → 4 ≤ month_of s tz
    → periods_elapsed s a date tz < 600
    → roll (periods_elapsed s a date tz) a tz (compute_anchored_period s a tz)
      ≡ period_containing s a date tz
roll-periods_elapsed tz o s a date h few =
    let n = next_anchor_after s a tz in
    elim (lt-or-le date n) [
      | inl early ↦
          let z : periods_elapsed s a date tz ≡ 0 =
            unfold periods_elapsed compute_anchored_period in
            elapsed_from-stop 599 date a tz (compute_anchored_period s a tz) early in
          rw (z, period_containing-first tz a s date early) (unfold compute_anchored_period in refl)
      | inr late ↦ elim (next_anchor_after-cases tz o a s) [
        | inl p ↦ roll-late tz o s a date (month_of s tz) h (omega arith) p.1 (rw (← p.1) late) few
        | inr p ↦
            roll-late tz o s a date (month_of s tz + 1) h (omega arith) p.1 (rw (← p.1) late) few
      ]
    ]
