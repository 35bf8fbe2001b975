-- ===== src/Billing/Period/Money.antt =====
-- Proration and day counts at the end of src/billing/period.ts. A price is a whole number of minor
-- units, as the source says; the quotient that `Math.round` takes is computed exactly, half up.
use vaketta_backend.Prelude.{
  ℕ, ◌+◌, ◌-◌, ◌*◌, ◌/◌, ◌≤◌, ◌<◌, ◌≡◌, arith, leb, ◌==◌, if◌then◌else◌, min, ◌⊎◌, ◌↔◌, inl, inr,
  refl, lt-or-le, lt→leb, le→leb,
}
use native.Mathlib.Nat.{div-add-mod', mod-lt, mul-le-mul_left, mul-le-mul_right}
use vaketta_backend.Billing.Calendar.{day_ms}
use vaketta_backend.Billing.Zone.{TimeZone}
use vaketta_backend.Billing.Period.{Period, days_in_month}

-- `Math.ceil(ms / 86_400_000)`.
abbrev ceil_days : ℕ → ℕ
ceil_days ms = (ms + day_ms - 1) / day_ms

unfoldable pub prorate_days : ℕ → ℕ → ℕ → ℕ
prorate_days price remaining total =
    if leb total remaining
    then price
    else min price ((2 * (price * remaining) + total) / (2 * total))

unfoldable pub prorate_period : ℕ → Period → TimeZone → ℕ
prorate_period price_minor p tz =
    if price_minor == 0
    then 0
    else (if leb p.period_end p.period_start
        then 0
        else prorate_days price_minor (ceil_days (p.period_end - p.period_start))
            (days_in_month p.period_start tz))

unfoldable pub days_until : ℕ → ℕ → ℕ
days_until from to = if leb to from then 0 else ceil_days (to - from)

unfoldable pub add_days : ℕ → ℕ → ℕ
add_days base n = base + n * day_ms

-- The rounded quotient of `n` by `t`.
round_div_near :
    (n t : ℕ)
    → 0 < t
    → let q = (2 * n + t) / (2 * t) in (2 * (q * t) ≤ 2 * n + t) × (2 * n < 2 * (q * t) + t)
round_div_near n t h =
    omega (arith, div-add-mod' (2 * n + t) (2 * t), mod-lt (2 * n + t) {m = 2 * t} (omega arith))

prorate_days_near :
    (price r t : ℕ)
    → (prorate_days price r t ≤ price)
      × (r < t
          → (2 * (prorate_days price r t * t) ≤ 2 * (price * r) + t)
            × (2 * (price * r) ≤ 2 * (prorate_days price r t * t) + t))
      × (t ≤ r → prorate_days price r t ≡ price)
unfolding prorate_days
prorate_days_near price r t = elim (lt-or-le r t) [
  | inl few ↦
      let q = (2 * (price * r) + t) / (2 * t) in
      let near = round_div_near (price * r) t (omega arith) in
      let small : q ≤ price = elim (lt-or-le price q) [
        | inl p ↦
            absurd (omega (arith, mul-le-mul_right t p, mul-le-mul_left price (lt-le few), near))
        | inr p ↦ p
      ] in
      let least : min price q ≡ q = omega arith in
      rw (lt→leb t r few, least) (small, (λ _. omega arith), (λ p. absurd (omega arith)))
  | inr all ↦ rw (le→leb t r all) (omega arith, (λ p. absurd (omega arith)), (λ _. refl))
]
  where
    lt-le : {a b : ℕ} → a < b → a ≤ b
    lt-le h = omega arith

-- A pro-rated charge never exceeds the price; a period over before it began costs nothing, one as long
-- as its month or longer costs the price, and any other the nearest whole amount to the price's share
-- of its days.
pub prorate_period_bounds :
    (price : ℕ) (p : Period) (tz : TimeZone)
    → let charge = prorate_period price p tz in
      let remaining = days_until p.period_start p.period_end in
      let total = days_in_month p.period_start tz in
      (charge ≤ price)
      × (((p.period_end ≤ p.period_start) × (charge ≡ 0))
          ⊎ (((total ≤ remaining) × (charge ≡ price))
              ⊎ ((remaining < total)
                  × (2 * (charge * total) ≤ 2 * (price * remaining) + total)
                  × (2 * (price * remaining) ≤ 2 * (charge * total) + total))))
unfolding prorate_period days_until
prorate_period_bounds price p tz =
    let r = ceil_days (p.period_end - p.period_start) in
    let t = days_in_month p.period_start tz in ground (arith, prorate_days_near price r t)

-- `daysUntil` is the least number of whole days that reaches `to` from `from`: a number of days added
-- to `from` reaches `to` exactly when it is at least that.
pub days_until_least : (from to n : ℕ) → (to ≤ add_days from n) ↔ (days_until from to ≤ n)
unfolding days_until add_days
days_until_least from to n = (λ h. ground arith, λ h. ground arith)
