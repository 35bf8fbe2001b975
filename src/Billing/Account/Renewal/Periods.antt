-- ===== src/Billing/Account/Renewal/Periods.antt =====
-- Periods from a boundary on, and those from the start before it.
use vaketta_backend.Prelude.{ℕ, ◌+◌, ◌≤◌, ◌≡◌, refl, sym, ◌∙◌, arith, inl, inr, lt-or-le}
use vaketta_backend.Billing.Zone.{TimeZone}
use vaketta_backend.Billing.Zone.Laws.{IsOrderly}
use vaketta_backend.Billing.Period.{period_containing, next_anchor_after}
use vaketta_backend.Billing.Period.Bounds.{month_of, bound, month_of-bound, next_anchor_after-bound}
use vaketta_backend.Billing.Period.Loops.{period_at}
use vaketta_backend.Billing.Period.Slots.{slot_unique}
use vaketta_backend.Billing.Period.Containing.{
  next_anchor_after-cases, month_of-le, period_containing-slot, period_containing-first,
}

module _ (tz : TimeZone) (o : IsOrderly tz) (a : ℕ) where
  from_bound :
      (s date t : ℕ)
      → 4 ≤ month_of s tz
      → 4 ≤ t
      → next_anchor_after s a tz ≡ bound t a tz
      → next_anchor_after s a tz ≤ date
      → period_containing s a date tz ≡ period_containing (bound t a tz) a date tz
  from_bound s date t h k e late =
      let b = month_of-le tz o a s date (omega arith) late in
      let past : bound t a tz ≤ date = rw e at late in
      let next = next_anchor_after-bound tz o a t (omega arith) in
      elim (lt-or-le date (bound (t + 1) a tz)) [
        | inl early ↦
            let here = slot_unique tz o a t date (omega arith) (omega arith) past early in
            period_containing-slot tz o a s date h late
            ∙ rw here (
                sym (
                  period_containing-first tz a (bound t a tz) date (rw next early)
                  ∙ rw next (unfold period_at in refl)))
        | inr far ↦
            period_containing-slot tz o a s date h late
            ∙ sym (
                period_containing-slot tz o a (bound t a tz) date
                  (rw (month_of-bound tz o a t (omega arith)) k) (rw next far))
      ]

  pub period_containing-next :
      (s date : ℕ)
      → 4 ≤ month_of s tz
      → next_anchor_after s a tz ≤ date
      → period_containing s a date tz ≡ period_containing (next_anchor_after s a tz) a date tz
  period_containing-next s date h late =
      let c = month_of s tz in
      elim (next_anchor_after-cases tz o a s) [
        | inl p ↦ from_bound s date c h h p.1 late ∙ rw p.1 refl
        | inr p ↦ from_bound s date (c + 1) h (omega arith) p.1 late ∙ rw p.1 refl
      ]
