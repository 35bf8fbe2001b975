-- ===== src/Billing/Calendar/Laws.antt =====
-- The UTC calendar of src/billing/period.ts: the days of months, and `Date.UTC` beside the `getUTC…`
-- methods.
use vaketta_backend.Prelude.{
  ℕ, zero, suc, ◌+◌, ◌-◌, ◌*◌, ◌/◌, ◌%◌, ◌≤◌, ◌<◌, ◌≡◌, inl, inr, refl, arith, lt-or-le, lt→ltb,
  le→ltb, le→leb, lt→leb,
}
use vaketta_backend.Billing.Calendar.{
  march_start, march_month, month_start, month_index, month_length, date_utc, utc_parts, day_ms,
}

march_start-suc :
    (k : ℕ)
    → (march_start k + 28 ≤ march_start (k + 1)) × (march_start (k + 1) ≤ march_start k + 31)
unfolding march_start
march_start-suc k = omega arith

march_start_near :
    (k : ℕ)
    → (march_start k * 4800 ≤ k * 146_097 + 4800 * 4)
      × (k * 146_097 ≤ march_start k * 4800 + 4800 * 4)
unfolding march_start
march_start_near k = omega arith

march_start_zero : march_start 0 ≡ 0
unfolding march_start
march_start_zero = refl

-- The estimate is off by at most one month.
march_estimate :
    (z : ℕ)
    → let k = z * 4800 / 146_097 in (z < march_start (k + 1 + 1)) × (march_start (k - 1) ≤ z)
unfolding march_start
march_estimate z =
    let k = z * 4800 / 146_097 in
    omega (arith, march_start_near (k - 1), march_start_near (k + 1 + 1), march_start_zero)

march_month_lem :
    (z : ℕ) → (march_start (march_month z) ≤ z) × (z < march_start (march_month z + 1))
unfolding march_month
march_month_lem z =
    let k = z * 4800 / 146_097 in
    elim (lt-or-le z (march_start k)) [
      | inl below ↦
          let e : k - 1 + 1 ≡ k = march_pos z k below in
          rw (lt→ltb z _ below) (rw e ((march_estimate z).1, below))
      | inr above ↦ rw (le→ltb z _ above) (elim (lt-or-le z (march_start (k + 1))) [
        | inl here ↦ rw (lt→leb _ z here) (above, here)
        | inr next ↦ rw (le→leb _ z next) (next, (march_estimate z).0)
      ])
    ]
  where
    march_pos : (z k : ℕ) → z < march_start k → k - 1 + 1 ≡ k
    march_pos z zero h = absurd (omega (arith, march_start_zero))
    march_pos z (suc k) h = omega arith

-- Later months start later, by at least 28 days for each month.
march_start_mono : (k n : ℕ) → march_start k + 28 * n ≤ march_start (k + n)
march_start_mono k zero = grind arith
march_start_mono k (suc n) = grind (arith, march_start_mono k n, march_start-suc (k + n))

pub month_start-suc :
    (t : ℕ)
    → 2 ≤ t
    → (month_start t + 28 ≤ month_start (t + 1)) × (month_start (t + 1) ≤ month_start t + 31)
unfolding month_start
month_start-suc t h = omega (arith, march_start-suc (t - 2))

pub month_start_lt : (t u : ℕ) → 2 ≤ t → t < u → month_start t + 28 ≤ month_start u
unfolding month_start
month_start_lt t u h k = omega (arith, march_start_mono (t - 2) (u - t))

pub month_index_lem :
    (z : ℕ)
    → (2 ≤ month_index z)
      × (month_start (month_index z) ≤ z)
      × (z < month_start (month_index z + 1))
unfolding month_index month_start
month_index_lem z = omega (arith, march_month_lem z)

pub month_start_le : (t u : ℕ) → 2 ≤ t → t ≤ u → month_start t ≤ month_start u
unfolding month_start
month_start_le t u h k = grind (arith, march_start_mono (t - 2) (u - t))

-- A day stands in one month only.
months_disjoint : (z t u : ℕ) → 2 ≤ u → u < t → z < month_start (u + 1) → month_start t ≤ z → ⊥
months_disjoint z t u two lt above below =
    omega (arith, month_start_le (u + 1) t (omega arith) (omega arith))

pub month_index-eq :
    (z t : ℕ) → 2 ≤ t → month_start t ≤ z → z < month_start (t + 1) → month_index z ≡ t
month_index-eq z t h lo hi =
    let (two, below, above) = month_index_lem z in
    let u = month_index z in
    elim (lt-or-le u t) [
      | inl p ↦ absurd (months_disjoint z t u two p above lo)
      | inr p ↦ elim (lt-or-le t u) [
        | inl q ↦ absurd (months_disjoint z u t h q hi below)
        | inr q ↦ omega arith
      ]
    ]

pub month_index_mono : (y z : ℕ) → y ≤ z → month_index y ≤ month_index z
month_index_mono y z h =
    let (two, below, above) = month_index_lem y in
    let (two', below', above') = month_index_lem z in
    elim (lt-or-le (month_index z) (month_index y)) [
      | inl p ↦
          absurd (months_disjoint z (month_index y) (month_index z) two' p above' (omega arith))
      | inr p ↦ p
    ]

-- May of year 0, whose index is 4, begins on day 61.
pub month_index_late : (z : ℕ) → 61 ≤ z → 4 ≤ month_index z
month_index_late z h =
    let may : month_index 61 ≡ 4 =
      unfold month_index in unfold march_month in unfold march_start in refl in
    let mono = month_index_mono 61 z h in omega arith

-- The parts of any instant of a day are the year, month and day that `Date.UTC` was given.
pub utc_parts-date_utc :
    (y m d r : ℕ)
    → m < 12
    → 2 ≤ 12 * y + m
    → 1 ≤ d
    → d ≤ month_length (12 * y + m)
    → r < day_ms
    → utc_parts (date_utc y m d + r) ≡ record { year = y; month = m + 1; day = d }
unfolding utc_parts date_utc month_length
utc_parts-date_utc y m d r hm two lo hi hr =
    let t = 12 * y + m in
    let next = month_start-suc t two in
    let z : (date_utc y m d + r) / day_ms ≡ month_start t + d - 1 = omega arith in
    let e : month_index (month_start t + d - 1) ≡ t =
      month_index-eq (month_start t + d - 1) t two (omega arith) (omega arith) in
    rw (z, e) (ground arith)

-- Putting the parts of an instant together again gives the midnight before it.
pub date_utc-utc_parts :
    (ms : ℕ) → let p = utc_parts ms in date_utc p.year (p.month - 1) p.day + ms % day_ms ≡ ms
unfolding utc_parts date_utc
date_utc-utc_parts ms =
    let z = ms / day_ms in
    let (two, below, above) = month_index_lem z in
    let e : 12 * (month_index z / 12) + (month_index z % 12 + 1 - 1) ≡ month_index z =
      omega arith in
    rw e (omega arith)
