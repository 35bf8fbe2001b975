-- ===== src/Billing/Period/Bounds.antt =====
-- The anchored boundaries of src/billing/period.ts, in their order, and `nextAnchorAfter`.
use vaketta_backend.Prelude.{
  ℕ, ◌+◌, ◌-◌, ◌*◌, ◌/◌, ◌%◌, ◌≤◌, ◌<◌, ◌≡◌, ◌↔◌, ◌⊎◌, inl, inr, refl, arith, ltb, min, lt-or-le,
  Bool-cases, lt→ltb, le→ltb, none, some, if◌then◌else◌,
}
use vaketta_backend.Prelude.Int.{pos, negsuc}
use vaketta_backend.Js.{JsValue, number, of_ℕ}
use vaketta_backend.Billing.Calendar.{
  month_start, month_index, month_length, utc_parts, date_utc, day_ms,
}
use vaketta_backend.Billing.Calendar.Laws.{
  month_start-suc, month_index_lem, month_index-eq, month_start_le, month_index_late,
}
use vaketta_backend.Billing.Zone.{TimeZone, wall_of, parts_in_tz, zoned_midnight_utc}
use vaketta_backend.Billing.Zone.Laws.{IsOrderly}
use vaketta_backend.Billing.Period.{
  clamp_anchor_day, days_in_year_month, shift_month, add_months_anchored, next_anchor_after,
}

-- Every anchor day is from 1 to 31, whatever the value it is read from.
pub clamp_anchor_day_bounds : (v : JsValue) → (1 ≤ clamp_anchor_day v) × (clamp_anchor_day v ≤ 31)
unfolding clamp_anchor_day
clamp_anchor_day_bounds v = ground arith

pub days_in_year_month_lem :
    (t : ℕ) → 2 ≤ t → days_in_year_month (t / 12) (t % 12 + 1) ≡ month_length t
unfolding days_in_year_month utc_parts date_utc month_length
days_in_year_month_lem t h =
    let next = month_start-suc t h in
    let i : 12 * (t / 12) + (t % 12 + 1) ≡ t + 1 = omega arith in
    let z : (month_start (t + 1) + 0 - 1) * day_ms / day_ms ≡ month_start (t + 1) - 1 =
      omega arith in
    let e : month_index (month_start (t + 1) - 1) ≡ t =
      month_index-eq (month_start (t + 1) - 1) t h (omega arith) (omega arith) in
    rw i (rw z (rw e (omega arith)))

-- The index of the month in which an instant stands in the zone.
unfoldable pub month_of : ℕ → TimeZone → ℕ
month_of date tz = month_index (wall_of tz date / day_ms)

-- Instants from May of year 0 on.
pub month_of_late :
    (date : ℕ) (tz : TimeZone) → 61 * day_ms ≤ wall_of tz date → 4 ≤ month_of date tz
unfolding month_of
month_of_late date tz h = month_index_late (wall_of tz date / day_ms) (omega arith)

-- The boundary in the month with index `t`.
pub bound : ℕ → ℕ → TimeZone → ℕ
bound t anchor_day tz =
    zoned_midnight_utc (t / 12) (t % 12 + 1)
      (min (clamp_anchor_day (number (of_ℕ anchor_day))) (month_length t)) tz

pub parts_in_tz_lem :
    (date : ℕ) (tz : TimeZone)
    → ((parts_in_tz date tz).year ≡ month_of date tz / 12)
      × ((parts_in_tz date tz).month ≡ month_of date tz % 12 + 1)
unfolding parts_in_tz month_of utc_parts
parts_in_tz_lem date none = (refl, refl)
parts_in_tz_lem date (some z) = (refl, refl)

two-le-month_of : (date : ℕ) (tz : TimeZone) → 2 ≤ month_of date tz
unfolding month_of
two-le-month_of date tz = (month_index_lem (wall_of tz date / day_ms)).0

-- The day of the boundary in a month: the anchor, or the month's last day where it is shorter.
abbrev pub bound_day : ℕ → ℕ → ℕ
bound_day t a = min (clamp_anchor_day (number (of_ℕ a))) (month_length t)

bound_day_in_month : (t a : ℕ) → 2 ≤ t → (1 ≤ bound_day t a) × (bound_day t a ≤ month_length t)
unfolding month_length
bound_day_in_month t a h =
    omega (arith, month_start-suc t h, clamp_anchor_day_bounds (number (of_ℕ a)))

pub add_months_anchored-pos :
    (date n a : ℕ) (tz : TimeZone)
    → add_months_anchored date (pos n) a tz ≡ bound (month_of date tz + n) a tz
unfolding add_months_anchored shift_month bound
add_months_anchored-pos date n a tz =
    let (y, m) = parts_in_tz_lem date tz in
    let t = month_of date tz in
    let e : t / 12 * 12 + (t % 12 + 1 - 1) + n ≡ t + n = omega arith in
    rw (y, m) (rw e (rw (days_in_year_month_lem (t + n) (omega (arith, two-le-month_of date tz)))))

pub add_months_anchored-back :
    (date a : ℕ) (tz : TimeZone)
    → 3 ≤ month_of date tz
    → add_months_anchored date (negsuc 0) a tz ≡ bound (month_of date tz - 1) a tz
unfolding add_months_anchored shift_month bound
add_months_anchored-back date a tz h =
    let (y, m) = parts_in_tz_lem date tz in
    let t = month_of date tz in
    let e : t / 12 * 12 + (t % 12 + 1 - 1) - (0 + 1) ≡ t - 1 = omega arith in
    rw (y, m) (rw e (rw (days_in_year_month_lem (t - 1) (omega arith))))

april : month_start 3 ≡ 31
unfolding month_start
april = refl

bound_late : (t a : ℕ) → 3 ≤ t → 31 ≤ month_start (12 * (t / 12) + t % 12) + bound_day t a - 1
bound_late t a h =
    let i : 12 * (t / 12) + t % 12 ≡ t = omega arith in
    rw i (
      omega
        (arith, april, month_start_le 3 t (omega arith) h, bound_day_in_month t a (omega arith)))

-- A boundary's midnight by the calendar: the day before it counts from the month's start.
date_utc-bound : (t d : ℕ) → date_utc (t / 12) (t % 12) d ≡ (month_start t + d - 1) * day_ms
unfolding date_utc
date_utc-bound t d = let i : 12 * (t / 12) + t % 12 ≡ t = omega arith in rw i

module _ (tz : TimeZone) (o : IsOrderly tz) (a : ℕ) where
  open o use {wall_midnight, order}

  pub bound-le_iff :
      (t date : ℕ)
      → 3 ≤ t
      → (bound t a tz ≤ date) ↔ (date_utc (t / 12) (t % 12) (bound_day t a) ≤ wall_of tz date)
  unfolding bound
  bound-le_iff t date h = order (t / 12) (t % 12) (bound_day t a) date (bound_late t a h)

  -- A boundary stands in its own month.
  pub month_of-bound : (t : ℕ) → 3 ≤ t → month_of (bound t a tz) tz ≡ t
  unfolding month_of bound
  month_of-bound t h =
      let (lo, hi) = bound_day_in_month t a (omega arith) in
      let z : (month_start t + bound_day t a - 1) * day_ms / day_ms
          ≡ month_start t + bound_day t a - 1 =
        omega arith in
      let next = month_start-suc t (omega arith) in
      rw
        (
          wall_midnight (t / 12) (t % 12) (bound_day t a) (bound_late t a h),
          date_utc-bound t (bound_day t a),
          z,
        )
        (month_index-eq (month_start t + bound_day t a - 1) t (omega arith) (omega arith)
          (unfold month_length in omega arith))

  -- The boundary of an earlier month is past, and that of a later month is ahead.
  pub bound-le : (t date : ℕ) → 3 ≤ t → t < month_of date tz → bound t a tz ≤ date
  unfolding month_of
  bound-le t date h k =
      let z = wall_of tz date / day_ms in
      let (two, below, above) = month_index_lem z in
      let up = month_start_le (t + 1) (month_index z) (omega arith) (omega arith) in
      let next = month_start-suc t (omega arith) in
      let (lo, hi) = bound_day_in_month t a (omega arith) in
      (bound-le_iff t date h).1
        (rw (date_utc-bound t (bound_day t a)) (unfold month_length in omega arith))

  pub lt-bound : (t date : ℕ) → 3 ≤ t → month_of date tz < t → date < bound t a tz
  unfolding month_of
  lt-bound t date h k =
      let z = wall_of tz date / day_ms in
      let (two, below, above) = month_index_lem z in
      let up = month_start_le (month_index z + 1) t (omega arith) (omega arith) in
      let (lo, hi) = bound_day_in_month t a (omega arith) in
      elim (lt-or-le date (bound t a tz)) [
        | inl p ↦ p
        | inr p ↦
            absurd (omega (arith, (bound-le_iff t date h).0 p, date_utc-bound t (bound_day t a)))
      ]

  pub bound_mono : (t u : ℕ) → 3 ≤ t → t < u → bound t a tz < bound u a tz
  bound_mono t u h k = lt-bound u (bound t a tz) (omega arith) (rw (month_of-bound t h) k)

  -- `nextAnchorAfter` is the boundary of the month that `from` stands in, if that is still ahead,
  -- and otherwise that of the next month.
  pub next_anchor_after_lem :
      (from : ℕ)
      → next_anchor_after from a tz ≡ (
          if ltb from (bound (month_of from tz) a tz)
          then bound (month_of from tz) a tz
          else bound (month_of from tz + 1) a tz)
  unfolding next_anchor_after
  next_anchor_after_lem from =
      let e : month_of from tz + 0 ≡ month_of from tz = omega arith in
      rw (add_months_anchored-pos from 0 a tz, add_months_anchored-pos from 1 a tz, e)

  -- From a boundary the next one is that of the next month.
  pub next_anchor_after-bound :
      (t : ℕ) → 3 ≤ t → next_anchor_after (bound t a tz) a tz ≡ bound (t + 1) a tz
  next_anchor_after-bound t h = rw (
    next_anchor_after_lem (bound t a tz),
    month_of-bound t h,
    le→ltb (bound t a tz) (bound t a tz) (omega arith),
  )

  pub next_anchor_after-gt : (from : ℕ) → 3 ≤ month_of from tz → from < next_anchor_after from a tz
  next_anchor_after-gt from h =
      let t = month_of from tz in
      let later = lt-bound (t + 1) from (omega arith) (omega arith) in
      ground (arith, next_anchor_after_lem from)

  pub bound_le_mono : (t u : ℕ) → 3 ≤ t → t ≤ u → bound t a tz ≤ bound u a tz
  bound_le_mono t u h k = elim (lt-or-le t u) [
    | inl p ↦ omega (arith, bound_mono t u h p)
    | inr p ↦ let e : t ≡ u = omega arith in rw e (omega arith)
  ]

  -- No boundary lies between `from` and the one that is found.
  pub next_anchor_after-le :
      (from u : ℕ)
      → 3 ≤ month_of from tz
      → 3 ≤ u
      → from < bound u a tz
      → next_anchor_after from a tz ≤ bound u a tz
  next_anchor_after-le from u h k lt =
      let t = month_of from tz in
      elim (lt-or-le u t) [
        | inl p ↦ absurd (omega (arith, bound-le u from k p))
        | inr p ↦ elim (lt-or-le t u) [
          | inl q ↦
              ground
                (arith, next_anchor_after_lem from, bound_le_mono t u h p, bound_le_mono (t + 1) u)
          | inr q ↦
              let e : u ≡ t = omega arith in
              let here : from < bound t a tz = rw e at lt in
              rw (e, next_anchor_after_lem from, lt→ltb _ _ here) (omega arith)
        ]
      ]

-- In an orderly zone and for an instant from April of year 0 on, what `nextAnchorAfter` finds is the
-- boundary of the month of `from` or of the month after it, lies ahead of `from`, and is the first such
-- one: a boundary of that month or any later month is not ahead of `from`, or is no earlier.
pub next_anchor_after_first :
    (tz : TimeZone) (o : IsOrderly tz) (from a n : ℕ)
    → 3 ≤ month_of from tz
    → ((next_anchor_after from a tz ≡ add_months_anchored from (pos 0) a tz)
        ⊎ (next_anchor_after from a tz ≡ add_months_anchored from (pos 1) a tz))
      × (from < next_anchor_after from a tz)
      × ((add_months_anchored from (pos n) a tz ≤ from)
          ⊎ (next_anchor_after from a tz ≤ add_months_anchored from (pos n) a tz))
next_anchor_after_first tz o from a n h = (
  (unfold next_anchor_after in
      elim (Bool-cases (ltb from (add_months_anchored from (pos 0) a tz))) [
        | inl here ↦ rw here (inl refl)
        | inr over ↦ rw over (inr refl)
      ]),
  next_anchor_after-gt tz o a from h,
  elim (lt-or-le from (add_months_anchored from (pos n) a tz)) [
    | inl lt ↦ inr (
        rw (add_months_anchored-pos from n a tz) (
          next_anchor_after-le tz o a from (month_of from tz + n) h (omega arith)
            (rw (add_months_anchored-pos from n a tz) at lt)))
    | inr le ↦ inl le
  ],
)
