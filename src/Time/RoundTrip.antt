-- ===== src/Time/RoundTrip.antt =====
-- `mktime` undoes `localtime_r`.
use lamp_userspace.Prelude.{
  ℕ, ◌+◌, ◌-◌, ◌*◌, ◌/◌, ◌%◌, ◌^◌, ◌≤◌, ◌<◌, ◌≡◌, ap, ◌∙◌, refl, some, arith, u32, leb-true,
}
use native.Mathlib.Decide.{dec_lt}
use lamp_userspace.Prelude.Int.{pos, sub_ℕ, count_of}
use lamp_userspace.Time.{
  Tm, date_of, localtime_r, days_to, mktime, week_day, is_leap, years_down, seconds_of, year_of_era,
  day_of_year, march_month, month_of,
}
use lamp_userspace.Time.Years.{
  year_of_era_lem, era_start, days_before, years_up_lem, month_start, months_up_lem, march_lem,
  civil_year, civil_lem, within_year, days_before-suc,
}

sub_ℕ-ge : (a b : ℕ) → b ≤ a → sub_ℕ a b ≡ pos (a - b)
sub_ℕ-ge a b h = rw (leb-true b a h)

count-sub_ℕ : (a b : ℕ) → count_of (sub_ℕ a b) ≡ a - b
count-sub_ℕ a b = ground arith

days_to_lem : (y : ℕ) → 1970 ≤ y → days_to (pos y) ≡ pos (days_before y - days_before 1970)
unfolding days_to years_down
days_to_lem y h =
    let none_down : 1970 - y ≡ 0 = omega (arith, h) in
    let up : 1970 + (y - 1970) ≡ y = omega (arith, h) in
    rw (count-sub_ℕ 1970 y, none_down, leb-true 1970 y h, years_up_lem (y - 1970) 1970 0, up)
      (ap pos (omega arith))

-- The parts of the date of day `d`.
module _ (d : ℕ) where
  abbrev z : ℕ
  z = d + 719468

  abbrev era : ℕ
  era = z / 146097

  abbrev doe : ℕ
  doe = z % 146097

  abbrev yoe : ℕ
  yoe = year_of_era doe

  abbrev pub doy : ℕ
  doy = day_of_year doe yoe

  abbrev year : ℕ
  year = civil_year era yoe doy

  abbrev mp : ℕ
  mp = march_month doy

  in_era : yoe ≤ 399
  in_era = (year_of_era_lem doe (omega arith)).0

  pub doy_lem : (era_start yoe + doy ≡ doe) × (doy ≤ 365)
  unfolding day_of_year
  doy_lem = let (_, low, high) = year_of_era_lem doe (omega arith) in (omega arith, omega arith)

  -- The count of `mktime` comes back to the day.
  pub day_lem :
      days_before year + month_start (is_leap (pos year)) mp + (doy - (153 * mp + 2) / 5)
      ≡ d + 719528
  day_lem =
      let (start, in_year) = doy_lem in
      let whole : 146097 * era + doe ≡ z = omega arith in
      civil_lem era yoe doy in_era in_year ∙ omega (arith, start)

  pub year_late : 1970 ≤ year
  year_late =
      let (few, inside, _) = march_lem doy doy_lem.1 in
      elim (dec_lt year 1970) [
        | yes early ↦ absurd (
            omega (
              arith,
              day_lem,
              within_year (is_leap (pos year)) doy doy_lem.1,
              days_before-suc year,
            ))
        | no late ↦ omega arith
      ]

  -- The date in whole numbers.
  unfoldable pub civil : ℕ → Tm
  civil rem = record {
    tm_sec = pos (rem % 60);
    tm_min = pos (rem % 3600 / 60);
    tm_hour = pos (rem / 3600);
    tm_mday = pos (doy - (153 * mp + 2) / 5 + 1);
    tm_mon = pos (month_of mp - 1);
    tm_year = pos (year - 1900);
    tm_wday = week_day (pos d);
    tm_yday = pos doy;
  }

  date_of_lem : (rem : ℕ) → date_of (pos d) (pos rem) ≡ civil rem
  unfolding date_of civil
  date_of_lem rem =
      let rest : sub_ℕ z (era * 146097) ≡ pos doe =
        sub_ℕ-ge z (era * 146097) (omega arith) ∙ ap pos (omega arith) in
      let month : sub_ℕ (month_of mp) 1 ≡ pos (month_of mp - 1) =
        sub_ℕ-ge (month_of mp) 1 (march_lem doy doy_lem.1).2 in
      let since : sub_ℕ year 1900 ≡ pos (year - 1900) =
        sub_ℕ-ge year 1900 (omega (arith, year_late)) in
      rw (rest, month, since)

  seconds_civil :
      (rem b : ℕ)
      → rem < 86400
      → b + (doy - (153 * mp + 2) / 5) ≡ d
      → seconds_of (civil rem) (pos b) ≡ (u32 (d * 86400 + rem), civil rem)
  unfolding seconds_of civil
  seconds_civil rem b h day =
      let off : ℕ = doy - (153 * mp + 2) / 5 in
      let first : sub_ℕ (off + 1) 1 ≡ pos off =
        sub_ℕ-ge (off + 1) 1 (omega arith) ∙ ap pos (omega arith) in
      let clock : d * 86400 + rem / 3600 * 3600 + rem % 3600 / 60 * 60 + rem % 60
          ≡ d * 86400 + rem =
        omega arith in
      rw (first, day, clock) refl

  mktime-civil :
      (rem : ℕ) → rem < 86400 → mktime (civil rem) ≡ some (u32 (d * 86400 + rem), civil rem)
  unfolding mktime civil
  mktime-civil rem h =
      let since : year - 1900 + 1900 ≡ year = omega (arith, year_late) in
      let (few, inside, _) = march_lem doy doy_lem.1 in
      let start : ℕ = days_before year - days_before 1970 in
      let months = months_up_lem (is_leap (pos year)) start mp few in
      let day : start + month_start (is_leap (pos year)) mp + (doy - (153 * mp + 2) / 5) ≡ d =
        omega (arith, day_lem, within_year (is_leap (pos year)) doy doy_lem.1, year_late) in
      rw (since, days_to_lem year year_late, months) (ap some (seconds_civil rem _ h day))

pub date_of_now : (t : ℕ) → localtime_r t ≡ civil (t / 86400) (t % 86400)
unfolding localtime_r
date_of_now t = date_of_lem (t / 86400) (t % 86400)

-- For every `time_t`, `mktime` of the date that `localtime_r` gives returns the same seconds, reads no
-- month behind its table, and leaves the date, weekday included, as it was.
pub mktime-localtime_r : (t : ℕ) → t < 2 ^ 32 → mktime (localtime_r t) ≡ some (t, localtime_r t)
mktime-localtime_r t h =
    let whole : t / 86400 * 86400 + t % 86400 ≡ t = omega arith in
    let word : u32 t ≡ t = omega (arith, h) in
    rw (date_of_now t, mktime-civil (t / 86400) (t % 86400) (omega arith), whole, word) refl
