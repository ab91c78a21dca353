-- ===== src/Time/Parse/Tests.antt =====
-- `strptime` at concrete texts.
use lamp_userspace.Prelude.{◌≡◌, refl, none, some, arith}
use lamp_userspace.Prelude.Int.{pos}
use lamp_userspace.Prelude.Text.{codes}
use lamp_userspace.Ctype.{isdigit, isspace}
use lamp_userspace.Time.{Tm, localtime_r, mktime}
use lamp_userspace.Time.Parse.{take_digits, parse_decimal, read_format, strptime}
use lamp_userspace.Time.Parse.Seconds.{written_of, seconds, mktime-strptime}

abbrev no_date : Tm
no_date = record {
  tm_sec = pos 0;
  tm_min = pos 0;
  tm_hour = pos 0;
  tm_mday = pos 0;
  tm_mon = pos 0;
  tm_year = pos 0;
  tm_wday = pos 0;
  tm_yday = pos 0;
}

mktime-strptime_example :
    seconds (mktime (strptime (written_of (localtime_r 951782400)) (codes "%F %T") no_date).1)
    ≡ some 951782400
mktime-strptime_example = mktime-strptime 951782400 no_date (omega arith)

-- The year needs four digits; the month stays unset, and a call that fails can leave the year set.
short_year : strptime (codes "99-1") (codes "%Y-%m") no_date ≡ (none, no_date)
unfolding strptime read_format parse_decimal take_digits isdigit isspace
short_year = refl

half_read :
    strptime (codes "1999:1") (codes "%Y-%m") no_date ≡ (none, record no_date { tm_year = pos 99 })
unfolding strptime read_format parse_decimal take_digits isdigit isspace
half_read = refl
