-- ===== src/Billing/Zone/Laws.antt =====
-- Local midnight in a zone: the laws that billing periods rely on, and the zones that have them.
use vaketta_backend.Prelude.{
  ℕ, ◌+◌, ◌-◌, ◌*◌, ◌/◌, ◌%◌, ◌≤◌, ◌<◌, ◌≡◌, ◌↔◌, refl, arith, true, none, some,
}
use vaketta_backend.Prelude.Int.{pos_part, neg_part, sub_ℕ_parts}
use vaketta_backend.Billing.Calendar.{date_utc, month_start, day_ms}
use vaketta_backend.Billing.Calendar.Laws.{date_utc-utc_parts}
use vaketta_backend.Billing.Zone.{
  Zone, TimeZone, wall_of, as_if_utc, tz_offset_ms, minus_offset, zoned_midnight_utc,
}

-- The instant has the whole seconds of the wall clock: hours, minutes and seconds are put together
-- again, also where midnight is written as hour 24.
as_if_utc_lem : (z : Zone) (date : ℕ) → as_if_utc z date + z.wall date % 1000 ≡ z.wall date
unfolding as_if_utc
as_if_utc_lem z date =
    let w = z.wall date in
    let day = date_utc-utc_parts w in
    let clock : w / 3_600_000 % 24 * 3_600_000
          + w / 60_000 % 60 * 60_000
          + w / 1000 % 60 * 1000
          + w % 1000
        ≡ w % day_ms =
      omega arith in
    ground arith

-- A clock at a fixed distance from UTC, `east` or `west` of it by whole seconds and less than a
-- day: India, the default zone, is `east` by 19 800 000.
pub record IsFixed (tz : TimeZone) : Type 0 where
  pub east : ℕ
  pub west : ℕ
  pub wall_lem : (date : ℕ) → wall_of tz date ≡ date + east - west
  pub east_seconds : east % 1000 ≡ 0
  pub west_seconds : west % 1000 ≡ 0
  pub east_lt : east < day_ms
  pub west_lt : west < day_ms

-- What billing relies on: for every day from April of year 0 on, local midnight is an instant at
-- which the clock of the zone reads that midnight, and the clock reads less before it and no less
-- from then on. A zone whose clock is set back across midnight has no such instant.
pub record IsOrderly (tz : TimeZone) : Type 0 where
  pub wall_midnight :
      (y m d : ℕ)
      → 31 ≤ month_start (12 * y + m) + d - 1
      → wall_of tz (zoned_midnight_utc y (m + 1) d tz) ≡ date_utc y m d
  pub order :
      (y m d date : ℕ)
      → 31 ≤ month_start (12 * y + m) + d - 1
      → (zoned_midnight_utc y (m + 1) d tz ≤ date) ↔ (date_utc y m d ≤ wall_of tz date)

-- Probing the formatter recovers the distance between the clock and UTC.
pub tz_offset_ms_fixed :
    (tz : TimeZone) (f : IsFixed tz) (date : ℕ)
    → day_ms ≤ date
    → pos_part (tz_offset_ms date tz) + f.west ≡ neg_part (tz_offset_ms date tz) + f.east
unfolding tz_offset_ms
tz_offset_ms_fixed none f date h = omega (arith, f.wall_lem date, f.east_lt, f.west_lt)
tz_offset_ms_fixed (some z) f date h =
    let signed = sub_ℕ_parts (as_if_utc z date) (date - date % 1000) in
    omega (
      arith,
      as_if_utc_lem z date,
      f.wall_lem date,
      f.east_lt,
      f.west_lt,
      f.east_seconds,
      f.west_seconds,
    )

zoned_midnight_utc_fixed :
    (tz : TimeZone) (f : IsFixed tz) (y m d : ℕ)
    → 31 ≤ month_start (12 * y + m) + d - 1
    → zoned_midnight_utc y (m + 1) d tz + f.east ≡ date_utc y m d + f.west
unfolding zoned_midnight_utc
zoned_midnight_utc_fixed tz f y m d h =
    let e : m + 1 - 1 ≡ m = omega arith in
    let naive = date_utc y m d in
    let late : 31 * day_ms ≤ naive = unfold date_utc in omega arith in
    let first = tz_offset_ms_fixed tz f naive (omega arith) in
    let guess = minus_offset naive (tz_offset_ms naive tz) in
    let second = tz_offset_ms_fixed tz f guess (omega (arith, f.east_lt, f.west_lt)) in
    rw e (omega (arith, first, second, f.east_lt, f.west_lt))

-- A clock at a fixed distance from UTC is orderly, and so is the UTC that stands in for a zone that
-- `Intl` does not know.
pub IsFixed-IsOrderly : (tz : TimeZone) → IsFixed tz → IsOrderly tz
IsFixed-IsOrderly tz f = record {
  wall_midnight = λ y m d h.
      let late : 31 * day_ms ≤ date_utc y m d = unfold date_utc in omega arith in
      omega (
        arith,
        zoned_midnight_utc_fixed tz f y m d h,
        f.wall_lem (zoned_midnight_utc y (m + 1) d tz),
        f.east_lt,
        f.west_lt,
      );
  order = λ y m d date h.
      let late : 31 * day_ms ≤ date_utc y m d = unfold date_utc in omega arith in
      (
        λ p.
            omega
              (arith, zoned_midnight_utc_fixed tz f y m d h, f.wall_lem date, f.east_lt, f.west_lt),
        λ p.
            omega
              (arith, zoned_midnight_utc_fixed tz f y m d h, f.wall_lem date, f.east_lt, f.west_lt),
      );
}

-- Asia/Kolkata, the default billing zone, five and a half hours east of UTC.
abbrev pub kolkata : TimeZone
kolkata = some (record { wall = λ date. date + 19_800_000; midnight_24 = true })

abbrev pub kolkata-IsFixed : IsFixed kolkata
kolkata-IsFixed = record {
  east = 19_800_000;
  west = 0;
  wall_lem = λ date. omega arith;
  east_seconds = refl;
  west_seconds = refl;
  east_lt = omega arith;
  west_lt = omega arith;
}

pub kolkata-IsOrderly : IsOrderly kolkata
kolkata-IsOrderly = IsFixed-IsOrderly kolkata kolkata-IsFixed
