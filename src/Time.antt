-- ===== src/Time.antt =====
-- lib/libc_time.c, the conversions between seconds and dates. A `time_t` is an unsigned word of 32
-- bits; the other integers of the source are signed and stay in their range for a date of it.
pub mod Years
pub mod RoundTrip
pub mod Range
pub mod Parse
mod Tests
use lamp_userspace.Prelude.{
  ℕ, zero, suc, ◌+◌, ◌-◌, ◌*◌, ◌/◌, ◌%◌, ◌^◌, Bool, true, false, not, ◌&&◌, ◌||◌, ltb, leb, ◌==◌,
  if◌then◌else◌, List, [], ◌∷◌, get_elem?, Option, none, some, u32,
}
use lamp_userspace.Prelude.Int.{
  ℤ, pos, negsuc, ◌+ℤ◌, ◌-ℤ◌, ◌*ℤ◌, quot_ℤ, rem_ℤ, is_below_zero, count_of,
}

-- `struct tm`, but for `tm_isdst`, which is always 0.
pub record Tm : Type 0 where
  pub tm_sec : ℤ
  pub tm_min : ℤ
  pub tm_hour : ℤ
  pub tm_mday : ℤ
  pub tm_mon : ℤ
  pub tm_year : ℤ
  pub tm_wday : ℤ
  pub tm_yday : ℤ

-- The unsigned part of `localtime_r`: year of the era, day of the year from March on, and month
-- from March on, for a day of the era.
pub year_of_era : ℕ → ℕ
year_of_era doe = (doe - doe / 1460 + doe / 36524 - doe / 146096) / 365

pub day_of_year : ℕ → ℕ → ℕ
day_of_year doe yoe = doe - (365 * yoe + yoe / 4 - yoe / 100)

pub march_month : ℕ → ℕ
march_month doy = (5 * doy + 2) / 153

pub month_of : ℕ → ℕ
month_of mp = if ltb mp 10 then mp + 3 else mp - 9

-- `x % 7` where a negative remainder is moved up.
abbrev pub week_day : ℤ → ℤ
week_day days = let r = rem_ℤ (days +ℤ pos 4) (pos 7) in if is_below_zero r then r +ℤ pos 7 else r

-- The date of a day and a second of the day.
pub date_of : ℤ → ℤ → Tm
date_of days rem =
    let z = days +ℤ pos 719468 in
    let era = quot_ℤ (if is_below_zero z then z -ℤ pos 146096 else z) (pos 146097) in
    let doe = count_of (z -ℤ era *ℤ pos 146097) in
    let yoe = year_of_era doe in
    let doy = day_of_year doe yoe in
    let mp = march_month doy in
    let month = month_of mp in
    let year = pos yoe +ℤ era *ℤ pos 400 in
    record {
      tm_sec = rem_ℤ rem (pos 60);
      tm_min = quot_ℤ (rem_ℤ rem (pos 3600)) (pos 60);
      tm_hour = quot_ℤ rem (pos 3600);
      tm_mday = pos (doy - (153 * mp + 2) / 5 + 1);
      tm_mon = pos month -ℤ pos 1;
      tm_year = year +ℤ pos (if leb month 2 then 1 else 0) -ℤ pos 1900;
      tm_wday = week_day days;
      tm_yday = pos doy;
    }

pub localtime_r : ℕ → Tm
unfolding date_of
localtime_r timep =
    let seconds = pos timep in
    let days = quot_ℤ seconds (pos 86400) in
    let rem = rem_ℤ seconds (pos 86400) in
    if is_below_zero rem then date_of (days -ℤ pos 1) (rem +ℤ pos 86400) else date_of days rem

abbrev pub is_zero : ℤ → Bool
is_zero (pos n) = n == 0
is_zero (negsuc n) = false

pub is_leap : ℤ → Bool
is_leap year =
    is_zero (rem_ℤ year (pos 4))
    && (not (is_zero (rem_ℤ year (pos 100))) || is_zero (rem_ℤ year (pos 400)))

abbrev pub year_length : ℤ → ℤ
year_length y = pos (if is_leap y then 366 else 365)

-- The two loops over the years, with the rounds that are left.
pub years_up : ℕ → ℤ → ℤ → ℤ
years_up zero y days = days
years_up (suc left) y days = years_up left (y +ℤ pos 1) (days +ℤ year_length y)

pub years_down : ℕ → ℤ → ℤ → ℤ
years_down zero y days = days
years_down (suc left) y days = years_down left (y -ℤ pos 1) (days -ℤ year_length y)

abbrev pub days_in_month : List ℕ
days_in_month = 31 ∷ 28 ∷ 31 ∷ 30 ∷ 31 ∷ 30 ∷ 31 ∷ 31 ∷ 30 ∷ 31 ∷ 30 ∷ 31 ∷ []

-- The loop over the months; `none` is a read behind the table.
pub months_up : Bool → ℕ → ℕ → ℤ → Option ℤ
months_up leap zero month days = some days
months_up leap (suc left) month days = elim (get_elem? days_in_month month) [
  | none ↦ none
  | some length ↦
      months_up leap left (month + 1) (days +ℤ pos (length + (if month == 1 && leap then 1 else 0)))
]

-- The cast to `time_t`.
abbrev pub unsigned_of : ℤ → ℕ
unsigned_of (pos n) = u32 n
unsigned_of (negsuc n) = 2 ^ 32 - 1 - u32 n

-- The result of `mktime` and the date with its weekday set.
pub seconds_of : Tm → ℤ → ℕ × Tm
seconds_of tm before =
    let days = before +ℤ (tm.tm_mday -ℤ pos 1) in
    (
      unsigned_of (days *ℤ pos 86400 +ℤ tm.tm_hour *ℤ pos 3600 +ℤ tm.tm_min *ℤ pos 60 +ℤ tm.tm_sec),
      record tm { tm_wday = week_day days },
    )

-- The days from 1970 to the start of a year.
pub days_to : ℤ → ℤ
days_to year =
    years_down (count_of (pos 1970 -ℤ year)) (pos 1969)
      (years_up (count_of (year -ℤ pos 1970)) (pos 1970) (pos 0))

abbrev pub with_days : Tm → Option ℤ → Option (ℕ × Tm)
with_days tm none = none
with_days tm (some before) = some (seconds_of tm before)

pub mktime : Tm → Option (ℕ × Tm)
mktime tm =
    let year = tm.tm_year +ℤ pos 1900 in
    with_days tm (months_up (is_leap year) (count_of tm.tm_mon) 0 (days_to year))
