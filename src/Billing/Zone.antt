-- ===== src/Billing/Zone.antt =====
-- Time zones as src/billing/period.ts reads them through `Intl.DateTimeFormat`. An instant is a
-- number of milliseconds; the code only compares and subtracts instants, so the model counts them
-- from 0000-03-01T00:00Z, where JavaScript counts from 1970.
pub mod Laws
use vaketta_backend.Prelude.{
  ℕ, zero, suc, ◌+◌, ◌-◌, ◌*◌, ◌/◌, ◌%◌, Bool, ◌&&◌, Option, none, some, ◌==◌, if◌then◌else◌,
}
use vaketta_backend.Prelude.Int.{ℤ, pos, pos_part, neg_part, sub_ℕ}
use vaketta_backend.Billing.Calendar.{Parts, utc_parts, date_utc, month_start, day_ms}

-- What `Intl` knows of a zone: the wall clock at an instant, read as if it were UTC, and whether
-- the build writes midnight as hour 24.
pub record Zone : Type 0 where
  pub wall : ℕ → ℕ
  pub midnight_24 : Bool

-- A zone name is looked up by `Intl`: `none` is the RangeError of an unknown name.
abbrev pub TimeZone : Type 0
TimeZone = Option Zone

-- The wall clock that the fallbacks give: UTC, where the zone is unknown.
abbrev pub wall_of : TimeZone → ℕ → ℕ
wall_of (some z) date = z.wall date
wall_of none date = date

unfoldable pub parts_in_tz : ℕ → TimeZone → Parts
parts_in_tz date (some z) = utc_parts (z.wall date)
parts_in_tz date none = utc_parts date

-- The field `hour` of `formatToParts`.
unfoldable pub hour_part : Zone → ℕ → ℕ
hour_part z date = let h = z.wall date / 3_600_000 % 24 in if h == 0 && z.midnight_24 then 24 else h

unfoldable pub as_if_utc : Zone → ℕ → ℕ
unfolding hour_part
as_if_utc z date =
    let p = utc_parts (z.wall date) in
    let hour = if hour_part z date == 24 then 0 else hour_part z date in
    date_utc p.year (p.month - 1) p.day
    + hour * 3_600_000
    + z.wall date / 60_000 % 60 * 60_000
    + z.wall date / 1000 % 60 * 1000

unfoldable pub tz_offset_ms : ℕ → TimeZone → ℤ
unfolding as_if_utc
tz_offset_ms date (some z) = sub_ℕ (as_if_utc z date) (date - date % 1000)
tz_offset_ms date none = pos 0

-- `ms - offset`, for an offset of either sign.
abbrev pub minus_offset : ℕ → ℤ → ℕ
minus_offset ms offset = ms + neg_part offset - pos_part offset

unfoldable pub zoned_midnight_utc : ℕ → ℕ → ℕ → TimeZone → ℕ
zoned_midnight_utc year month day time_zone =
    let naive = date_utc year (month - 1) day in
    let ms = minus_offset naive (tz_offset_ms naive time_zone) in
    minus_offset naive (tz_offset_ms ms time_zone)
