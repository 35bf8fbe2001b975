-- ===== src/Billing/Calendar.antt =====
-- The UTC calendar that `Date.UTC` and the `getUTC…` methods give to src/billing/period.ts.
-- A month is counted by its index 12 * year + month0, a day by its distance from 0000-03-01.
pub mod Laws
use vaketta_backend.Prelude.{ℕ, ◌+◌, ◌-◌, ◌*◌, ◌/◌, ◌%◌, ltb, leb, if◌then◌else◌}

abbrev pub day_ms : ℕ
day_ms = 86_400_000

-- The first day of the `k`-th month from March of year 0.
unfoldable pub march_start : ℕ → ℕ
march_start k =
    let y = k / 12 in let m = k % 12 in 365 * y + y / 4 - y / 100 + y / 400 + (153 * m + 2) / 5

-- The first day of the month with index `t`.
unfoldable pub month_start : ℕ → ℕ
unfolding march_start
month_start t = march_start (t - 2)

-- The index of the month that holds a day: an estimate by the mean length of a month, which is
-- corrected by at most one month on either side.
unfoldable pub march_month : ℕ → ℕ
unfolding march_start
march_month z =
    let k = z * 4800 / 146_097 in
    if ltb z (march_start k) then k - 1 else if leb (march_start (k + 1)) z then k + 1 else k

unfoldable pub month_index : ℕ → ℕ
unfolding march_month
month_index z = march_month z + 2

-- The days of the month with index `t`.
unfoldable pub month_length : ℕ → ℕ
unfolding month_start
month_length t = month_start (t + 1) - month_start t

pub record Parts : Type 0 where
  pub year : ℕ
  pub month : ℕ
  pub day : ℕ

-- `getUTCFullYear`, `getUTCMonth() + 1` and `getUTCDate` of an instant.
unfoldable pub utc_parts : ℕ → Parts
unfolding month_index month_start
utc_parts ms =
    let z = ms / day_ms in
    let t = month_index z in
    record { year = t / 12; month = t % 12 + 1; day = z - month_start t + 1 }

-- `Date.UTC(year, month0, day)`, which normalises months and days that overflow; day 0 is the day
-- before the first.
unfoldable pub date_utc : ℕ → ℕ → ℕ → ℕ
unfolding month_start
date_utc year month0 day = (month_start (12 * year + month0) + day - 1) * day_ms
