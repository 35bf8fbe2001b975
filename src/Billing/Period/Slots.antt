-- ===== src/Billing/Period/Slots.antt =====
-- The period between anchored boundaries in which an instant stands (src/billing/period.ts).
use vaketta_backend.Prelude.{
  ℕ, ◌+◌, ◌-◌, ◌≤◌, ◌<◌, ◌≡◌, inl, inr, arith, leb, lt-or-le, le→leb, lt→leb, if◌then◌else◌,
}
use vaketta_backend.Billing.Zone.{TimeZone}
use vaketta_backend.Billing.Zone.Laws.{IsOrderly}
use vaketta_backend.Billing.Period.Bounds.{month_of, bound, bound-le, lt-bound, bound_le_mono}

module _ (tz : TimeZone) (o : IsOrderly tz) (a : ℕ) where
  -- The month whose boundary is the last that is not after the instant.
  pub slot : ℕ → ℕ
  slot date =
      if leb (bound (month_of date tz) a tz) date then month_of date tz else month_of date tz - 1

  pub slot_lem :
      (date : ℕ)
      → 4 ≤ month_of date tz
      → (3 ≤ slot date) × (bound (slot date) a tz ≤ date) × (date < bound (slot date + 1) a tz)
  unfolding slot
  slot_lem date h =
      let b = month_of date tz in
      let before = bound-le tz o a (b - 1) date (omega arith) (omega arith) in
      let after = lt-bound tz o a (b + 1) date (omega arith) (omega arith) in
      let e : b - 1 + 1 ≡ b = omega arith in
      elim (lt-or-le date (bound b a tz)) [
        | inl p ↦ rw (lt→leb _ _ p) (omega arith, before, rw e p)
        | inr p ↦ rw (le→leb _ _ p) (omega arith, p, after)
      ]

  -- No other period between neighbouring boundaries holds the instant.
  pub slot_unique :
      (t date : ℕ)
      → 3 ≤ t
      → 4 ≤ month_of date tz
      → bound t a tz ≤ date
      → date < bound (t + 1) a tz
      → slot date ≡ t
  slot_unique t date h k lo hi =
      let (three, below, above) = slot_lem date k in
      let u = slot date in
      elim (lt-or-le u t) [
        | inl p ↦ absurd (omega (arith, bound_le_mono tz o a (u + 1) t (omega arith) (omega arith)))
        | inr p ↦ elim (lt-or-le t u) [
          | inl q ↦
              absurd (omega (arith, bound_le_mono tz o a (t + 1) u (omega arith) (omega arith)))
          | inr q ↦ omega arith
        ]
      ]

  -- A boundary that is past is no later than the last one.
  pub bound-le-slot :
      (u date : ℕ)
      → 3 ≤ u
      → 4 ≤ month_of date tz
      → bound u a tz ≤ date
      → bound u a tz ≤ bound (slot date) a tz
  bound-le-slot u date h k past =
      let (three, below, above) = slot_lem date k in
      elim (lt-or-le (slot date) u) [
        | inl p ↦
            absurd
              (omega (arith, bound_le_mono tz o a (slot date + 1) u (omega arith) (omega arith)))
        | inr p ↦ bound_le_mono tz o a u (slot date) h p
      ]
