-- ===== src/Billing/Period.antt =====
-- Anchored billing periods: src/billing/period.ts from `monthKey` on.
pub mod Bounds
pub mod Loops
pub mod Slots
pub mod Containing
pub mod Rolling
pub mod Money
use vaketta_backend.Prelude.{
  ℕ, zero, suc, ◌+◌, ◌-◌, ◌*◌, ◌/◌, ◌%◌, Bool, true, false, ◌&&◌, Option, none, some, ltb, leb,
  ◌==◌, if◌then◌else◌, min, max,
}
use vaketta_backend.Prelude.Int.{ℤ, pos, negsuc}
use vaketta_backend.Js.{JsNumber, JsValue, nan, infinite, finite, number, not_a_number, of_ℕ}
use vaketta_backend.Billing.Calendar.{Parts, utc_parts, date_utc, day_ms}
use vaketta_backend.Billing.Zone.{TimeZone, parts_in_tz, zoned_midnight_utc}

pub record Period : Type 0 where
  pub period_start : ℕ
  pub period_end : ℕ

unfoldable pub days_in_month : ℕ → TimeZone → ℕ
days_in_month date tz = let p = parts_in_tz date tz in (utc_parts (date_utc p.year p.month 0)).day

unfoldable pub start_of_month_in_tz : ℕ → TimeZone → ℕ
start_of_month_in_tz date tz = let p = parts_in_tz date tz in zoned_midnight_utc p.year p.month 1 tz

unfoldable pub start_of_next_month_in_tz : ℕ → TimeZone → ℕ
start_of_next_month_in_tz date tz =
    let p = parts_in_tz date tz in
    if p.month == 12
    then zoned_midnight_utc (p.year + 1) 1 1 tz
    else zoned_midnight_utc p.year (p.month + 1) 1 tz

unfoldable pub start_of_day_in_tz : ℕ → TimeZone → ℕ
start_of_day_in_tz date tz =
    let p = parts_in_tz date tz in zoned_midnight_utc p.year p.month p.day tz

-- The callers add no negative number of days.
unfoldable pub add_days_in_tz : ℕ → ℕ → TimeZone → ℕ
add_days_in_tz date n tz =
    let p = parts_in_tz date tz in
    let shifted = utc_parts (date_utc p.year (p.month - 1) (p.day + n)) in
    zoned_midnight_utc shifted.year shifted.month shifted.day tz

-- `Math.trunc` drops the fraction; a negative number is below the least anchor whatever its size.
unfoldable pub clamp_anchor_day : JsValue → ℕ
clamp_anchor_day (number (finite false whole _)) = min 31 (max 1 whole)
clamp_anchor_day (number (finite true _ _)) = 1
clamp_anchor_day (number nan) = 1
clamp_anchor_day (number (infinite _)) = 1
clamp_anchor_day not_a_number = 1

unfoldable pub anchor_day_of : ℕ → TimeZone → ℕ
anchor_day_of date tz = clamp_anchor_day (number (of_ℕ (parts_in_tz date tz).day))

unfoldable pub days_in_year_month : ℕ → ℕ → ℕ
days_in_year_month year month = (utc_parts (date_utc year month 0)).day

-- A year and a month from 1 to 12, shifted by a number of months of either sign. A month before
-- year 0 is out of the model's range, and a shift stops there.
unfoldable pub shift_month : ℕ → ℕ → ℤ → ℕ × ℕ
shift_month year month (pos n) =
    let total = year * 12 + (month - 1) + n in (total / 12, total % 12 + 1)
shift_month year month (negsuc n) =
    let total = year * 12 + (month - 1) - (n + 1) in (total / 12, total % 12 + 1)

unfoldable pub add_months_anchored : ℕ → ℤ → ℕ → TimeZone → ℕ
add_months_anchored date n anchor_day tz =
    let p = parts_in_tz date tz in
    let target = shift_month p.year p.month n in
    let day =
      min (clamp_anchor_day (number (of_ℕ anchor_day))) (days_in_year_month target.0 target.1) in
    zoned_midnight_utc target.0 target.1 day tz

unfoldable pub next_anchor_after : ℕ → ℕ → TimeZone → ℕ
next_anchor_after from anchor_day tz =
    let this_month = add_months_anchored from (pos 0) anchor_day tz in
    if ltb from this_month then this_month else add_months_anchored from (pos 1) anchor_day tz

unfoldable pub compute_anchored_period : ℕ → ℕ → TimeZone → Period
compute_anchored_period period_start anchor_day tz = record {
  period_start = period_start;
  period_end = next_anchor_after period_start anchor_day tz;
}

unfoldable pub next_anchored_period : Period → ℕ → TimeZone → Period
next_anchored_period p anchor_day tz = compute_anchored_period p.period_end anchor_day tz

-- The first loop of `periodContaining`, with the rounds that `guard` leaves; it returns them, since
-- the second loop goes on with the same `guard`.
unfoldable pub step_forward : ℕ → ℕ → ℕ → TimeZone → Period → Period × ℕ
step_forward zero date anchor_day tz p = (p, zero)
step_forward (suc rounds) date anchor_day tz p =
    let later = step_forward rounds date anchor_day tz (next_anchored_period p anchor_day tz) in
    if leb p.period_end date then later else (p, suc rounds)

-- The second loop, which ends at the period before which none may be invented.
unfoldable pub step_back : ℕ → ℕ → ℕ → ℕ → TimeZone → Period → Period
step_back zero anchor_start date anchor_day tz p = p
step_back (suc rounds) anchor_start date anchor_day tz p =
    let previous_start = add_months_anchored p.period_start (negsuc 0) anchor_day tz in
    let earlier =
      step_back rounds anchor_start date anchor_day tz
        (compute_anchored_period previous_start anchor_day tz) in
    if ltb date p.period_start then (if ltb previous_start anchor_start then p else earlier) else p

-- The months from one instant's month to that of another, at least 1 after the last is taken off.
unfoldable pub jump_months : ℕ → ℕ → TimeZone → ℕ
jump_months anchor_start date tz =
    let from = parts_in_tz anchor_start tz in
    let to = parts_in_tz date tz in
    let months_apart = to.year * 12 + to.month - 1 - (from.year * 12 + from.month - 1) in
    max 1 (months_apart - 1)

unfoldable pub period_containing : ℕ → ℕ → ℕ → TimeZone → Period
period_containing anchor_start anchor_day date tz =
    let first = compute_anchored_period anchor_start anchor_day tz in
    let jump = jump_months anchor_start date tz in
    let landed =
      compute_anchored_period (add_months_anchored anchor_start (pos jump) anchor_day tz) anchor_day
        tz in
    let forward = step_forward 24 date anchor_day tz landed in
    if ltb date first.period_end
    then first
    else step_back forward.1 anchor_start date anchor_day tz forward.0

unfoldable pub elapsed_from : ℕ → ℕ → ℕ → TimeZone → Period → ℕ
elapsed_from zero date anchor_day tz p = 0
elapsed_from (suc rounds) date anchor_day tz p =
    let later = elapsed_from rounds date anchor_day tz (next_anchored_period p anchor_day tz) in
    if leb p.period_end date then suc later else 0

unfoldable pub periods_elapsed : ℕ → ℕ → ℕ → TimeZone → ℕ
periods_elapsed anchor_start anchor_day date tz =
    elapsed_from 600 date anchor_day tz (compute_anchored_period anchor_start anchor_day tz)

unfoldable pub inclusive_end : ℕ → ℕ
inclusive_end period_end = period_end - 1
