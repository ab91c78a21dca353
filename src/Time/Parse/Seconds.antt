-- ===== src/Time/Parse/Seconds.antt =====
-- The way from seconds to a written date and back.
use lamp_userspace.Prelude.{
  ℕ, ◌+◌, ◌^◌, ◌<◌, ◌≡◌, refl, ap, ◌∙◌, List, Option, none, some, arith, leb-true,
}
use lamp_userspace.Prelude.Int.{ℤ, pos, sub_ℕ, ◌+ℤ◌, count_of}
use lamp_userspace.Prelude.Text.{codes}
use lamp_userspace.Time.{Tm, localtime_r, mktime, with_days, seconds_of}
use lamp_userspace.Time.RoundTrip.{civil, date_of_now, mktime-localtime_r}
use lamp_userspace.Time.Range.{Within, civil-InRange}
use lamp_userspace.Time.Parse.{Read, strptime}
use lamp_userspace.Time.Parse.Read.{written, strptime-written}

-- The date and time of a `struct tm` as `%F %T` writes it.
abbrev pub written_of : Tm → List ℕ
written_of tm =
    written (count_of (tm.tm_year +ℤ pos 1900)) (count_of (tm.tm_mon +ℤ pos 1))
      (count_of tm.tm_mday) (count_of tm.tm_hour) (count_of tm.tm_min) (count_of tm.tm_sec)

-- What `mktime` returns.
abbrev pub seconds : Option (ℕ × Tm) → Option ℕ
seconds none = none
seconds (some (t, tm)) = some t

-- The date with the days of another.
abbrev with_days_of : Tm → Tm → Tm
with_days_of other tm = record tm { tm_wday = other.tm_wday; tm_yday = other.tm_yday }

seconds-with_days :
    (other tm : Tm) (o : Option ℤ)
    → seconds (with_days (with_days_of other tm) o) ≡ seconds (with_days tm o)
unfolding seconds_of
seconds-with_days other tm none = refl
seconds-with_days other tm (some before) = refl

-- `mktime` reads neither the weekday nor the day of the year.
seconds-mktime : (other tm : Tm) → seconds (mktime (with_days_of other tm)) ≡ seconds (mktime tm)
unfolding mktime
seconds-mktime other tm = seconds-with_days other tm _

sub_ℕ-add : (a b : ℕ) → sub_ℕ (a + b) b ≡ pos a
sub_ℕ-add a b = rw (leb-true b (a + b) (omega arith)) (ap pos (omega arith))

strptime-fields :
    (year month day hour minute second : ℕ) (other : Tm)
    → year + 1900 < 10000
    → month + 1 < 100
    → day < 100
    → hour < 100
    → minute < 100
    → second < 100
    → (strptime (written (year + 1900) (month + 1) day hour minute second) (codes "%F %T") other).1
      ≡ record other {
        tm_year = pos year;
        tm_mon = pos month;
        tm_mday = pos day;
        tm_hour = pos hour;
        tm_min = pos minute;
        tm_sec = pos second;
      }
strptime-fields year month day hour minute second other hy hmo hd hh hmi hs =
    ap (λ (r : Read). r.1)
      (strptime-written (year + 1900) (month + 1) day hour minute second other hy hmo hd hh hmi hs)
    ∙ rw (sub_ℕ-add year 1900, sub_ℕ-add month 1) refl

strptime-civil :
    (t : ℕ) (other : Tm)
    → t < 2 ^ 32
    → (strptime (written_of (localtime_r t)) (codes "%F %T") other).1
      ≡ with_days_of other (localtime_r t)
unfolding civil Within
strptime-civil t other h =
    let range = civil-InRange t h in
    rw (date_of_now t) (
      strptime-fields _ _ _ _ _ _ other (omega (arith, range.years.1))
        (omega (arith, range.month.1)) (omega (arith, range.day.1)) (omega (arith, range.hours.1))
        (omega (arith, range.minutes.1)) (omega (arith, range.seconds.1)))

-- For every `time_t`, `strptime` with `%F %T` of the written date that `localtime_r` gives sets a date
-- for which `mktime` returns the same seconds, whatever stood in the date before.
pub mktime-strptime :
    (t : ℕ) (other : Tm)
    → t < 2 ^ 32
    → seconds (mktime (strptime (written_of (localtime_r t)) (codes "%F %T") other).1) ≡ some t
mktime-strptime t other h =
    ap (λ tm. seconds (mktime tm)) (strptime-civil t other h)
    ∙ (seconds-mktime other (localtime_r t) ∙ ap seconds (mktime-localtime_r t h))
