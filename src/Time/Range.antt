-- ===== src/Time/Range.antt =====
-- The range of the fields that `localtime_r` gives.
use lamp_userspace.Prelude.{ℕ, ◌/◌, ◌%◌, ◌^◌, ◌≤◌, ◌<◌, arith}
use lamp_userspace.Prelude.Int.{ℤ, pos, negsuc}
use lamp_userspace.Time.{Tm, localtime_r}
use lamp_userspace.Time.Years.{march_lem, month_range}
use lamp_userspace.Time.RoundTrip.{civil, date_of_now, doy, doy_lem, day_lem, year_late}

-- A field that holds a number from `low` to `high`.
unfoldable pub Within : ℕ → ℕ → ℤ → Type 0
Within low high (pos n) = (low ≤ n) × (n ≤ high)
Within low high (negsuc n) = ⊥

pub record InRange (tm : Tm) : Type 0 where
  pub seconds : Within 0 59 tm.tm_sec
  pub minutes : Within 0 59 tm.tm_min
  pub hours : Within 0 23 tm.tm_hour
  pub day : Within 1 31 tm.tm_mday
  pub month : Within 0 11 tm.tm_mon
  pub years : Within 70 206 tm.tm_year
  pub week : Within 0 6 tm.tm_wday
  pub days : Within 0 365 tm.tm_yday

pub civil-InRange : (t : ℕ) → t < 2 ^ 32 → InRange (civil (t / 86400) (t % 86400))
unfolding Within civil
civil-InRange t h =
    let d : ℕ = t / 86400 in
    let (few, inside, low) = march_lem (doy d) (doy_lem d).1 in
    record {
      seconds = (omega arith, omega arith);
      minutes = (omega arith, omega arith);
      hours = (omega arith, omega arith);
      day = (omega arith, (month_range (doy d) (doy_lem d).1).0);
      month = (omega arith, (month_range (doy d) (doy_lem d).1).1);
      years = (omega (arith, year_late d), omega (arith, h, day_lem d));
      week = (omega arith, omega arith);
      days = (omega arith, (doy_lem d).1);
    }

-- Every field of the date of a `time_t` is in the range of its kind, and the year is from 1970 to 2106.
pub localtime_r-InRange : (t : ℕ) → t < 2 ^ 32 → InRange (localtime_r t)
localtime_r-InRange t h = rw (date_of_now t) (civil-InRange t h)
