-- ===== src/Time/Tests.antt =====
-- Dates of known seconds.
use lamp_userspace.Prelude.{◌≡◌, refl, none, some, arith}
use lamp_userspace.Prelude.Int.{pos}
use lamp_userspace.Time.{
  year_of_era, day_of_year, march_month, month_of, localtime_r, months_up, mktime,
}
use lamp_userspace.Time.RoundTrip.{mktime-localtime_r}
use lamp_userspace.Time.Range.{InRange, localtime_r-InRange}

mktime-localtime_r_example :
    mktime (localtime_r 951782399) ≡ some (951782399, localtime_r 951782399)
mktime-localtime_r_example = mktime-localtime_r 951782399 (omega arith)

localtime_r-InRange_example : InRange (localtime_r 4294967295)
localtime_r-InRange_example = localtime_r-InRange 4294967295 (omega arith)

-- The last second of 28 February 2000, a Monday. The day of the year counts from March on.
leap_february : localtime_r 951782399 ≡ record {
  tm_sec = pos 59;
  tm_min = pos 59;
  tm_hour = pos 23;
  tm_mday = pos 28;
  tm_mon = pos 1;
  tm_year = pos 100;
  tm_wday = pos 1;
  tm_yday = pos 364;
}
unfolding localtime_r year_of_era day_of_year march_month month_of
leap_february = refl

epoch : (localtime_r 0).tm_yday ≡ pos 306
unfolding localtime_r year_of_era day_of_year march_month month_of
epoch = refl

-- A month behind the table.
month_12 : mktime (record (localtime_r 0) { tm_year = pos 70; tm_mon = pos 13 }) ≡ none
unfolding mktime months_up
month_12 = refl
