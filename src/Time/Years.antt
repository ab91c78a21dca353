-- ===== src/Time/Years.antt =====
-- The year, month and day that `localtime_r` finds, and what the loops of `mktime` add up.
use lamp_userspace.Prelude.{
  ℕ, zero, suc, ◌+◌, ◌-◌, ◌*◌, ◌/◌, ◌≤◌, ◌<◌, ◌≡◌, ap, ◌∙◌, Bool, true, false, ltb, leb,
  if◌then◌else◌, some, arith, ltb-true, ltb-false, leb-true, leb-false,
}
use native.Mathlib.Decide.{dec_lt}
use lamp_userspace.Prelude.Int.{pos}
use lamp_userspace.Time.{year_of_era, march_month, month_of, is_leap, years_up, months_up}

-- The days of an era before a year of it.
abbrev pub era_start : ℕ → ℕ
era_start yoe = 365 * yoe + yoe / 4 - yoe / 100

-- The year of the era is the one in which the day lies.
pub year_of_era_lem :
    (doe : ℕ)
    → doe < 146097
    → (year_of_era doe ≤ 399)
      × (era_start (year_of_era doe) ≤ doe)
      × (doe ≤ era_start (year_of_era doe) + 365)
unfolding year_of_era
year_of_era_lem doe h = (omega arith, omega arith, omega arith)

-- The days before a year, counted from the year 0.
abbrev pub days_before : ℕ → ℕ
days_before y = 365 * y + (y + 3) / 4 + (y + 399) / 400 - (y + 99) / 100

abbrev pub leap_day : ℕ → ℕ
leap_day y = if is_leap (pos y) then 1 else 0

pub days_before-suc : (y : ℕ) → days_before (y + 1) ≡ days_before y + 365 + leap_day y
unfolding is_leap
days_before-suc y = ground arith

pub years_up_lem :
    (left y a : ℕ)
    → years_up left (pos y) (pos a) ≡ pos (a + days_before (y + left) - days_before y)
unfolding years_up
years_up_lem zero y a = ap pos (omega arith)
years_up_lem (suc left) y a =
    let there : y + 1 + left ≡ y + suc left = omega arith in
    let length : (if is_leap (pos y) then 366 else 365) ≡ 365 + leap_day y = ground arith in
    years_up_lem left (y + 1) _ ∙ ap pos (rw (there, length) (omega (arith, days_before-suc y)))

-- The days before a month, in a year that has `leap` in February.
abbrev pub month_start : Bool → ℕ → ℕ
month_start leap mp =
    if ltb mp 10
    then 59 + (if leap then 1 else 0) + (153 * mp + 2) / 5
    else (153 * mp + 2) / 5 - 306

pub months_up_lem :
    (leap : Bool) (d mp : ℕ)
    → mp < 12
    → months_up leap (month_of mp - 1) 0 (pos d) ≡ some (pos (d + month_start leap mp))
unfolding months_up month_of
months_up_lem leap d zero h = ap (λ (n : ℕ). some (pos n)) (omega arith)
months_up_lem leap d (suc zero) h = ap (λ (n : ℕ). some (pos n)) (omega arith)
months_up_lem leap d (suc (suc zero)) h = ap (λ (n : ℕ). some (pos n)) (omega arith)
months_up_lem leap d (suc (suc (suc zero))) h = ap (λ (n : ℕ). some (pos n)) (omega arith)
months_up_lem leap d (suc (suc (suc (suc zero)))) h = ap (λ (n : ℕ). some (pos n)) (omega arith)
months_up_lem leap d (suc (suc (suc (suc (suc zero))))) h =
    ap (λ (n : ℕ). some (pos n)) (omega arith)
months_up_lem leap d (suc (suc (suc (suc (suc (suc zero)))))) h =
    ap (λ (n : ℕ). some (pos n)) (omega arith)
months_up_lem leap d (suc (suc (suc (suc (suc (suc (suc zero))))))) h =
    ap (λ (n : ℕ). some (pos n)) (omega arith)
months_up_lem leap d (suc (suc (suc (suc (suc (suc (suc (suc zero)))))))) h =
    ap (λ (n : ℕ). some (pos n)) (omega arith)
months_up_lem leap d (suc (suc (suc (suc (suc (suc (suc (suc (suc zero))))))))) h =
    ap (λ (n : ℕ). some (pos n)) (omega arith)
months_up_lem leap d (suc (suc (suc (suc (suc (suc (suc (suc (suc (suc zero)))))))))) h =
    ap (λ (n : ℕ). some (pos n)) (omega arith)
months_up_lem leap d (suc (suc (suc (suc (suc (suc (suc (suc (suc (suc (suc zero))))))))))) h =
    ap (λ (n : ℕ). some (pos n)) (omega arith)
months_up_lem leap d (suc (suc (suc (suc (suc (suc (suc (suc (suc (suc (suc (suc mp)))))))))))) h =
    absurd (omega arith)

-- The day of the year, the month and the day of the month, from March on.
pub march_lem :
    (doy : ℕ)
    → doy ≤ 365
    → (march_month doy < 12)
      × ((153 * march_month doy + 2) / 5 ≤ doy)
      × (1 ≤ month_of (march_month doy))
unfolding march_month month_of
march_lem doy h = (omega arith, omega arith, ground arith)

pub month_range :
    (doy : ℕ)
    → doy ≤ 365
    → (doy - (153 * march_month doy + 2) / 5 + 1 ≤ 31) × (month_of (march_month doy) - 1 ≤ 11)
unfolding march_month month_of
month_range doy h = (omega arith, ground arith)

year_sum :
    (era yoe : ℕ)
    → yoe ≤ 399
    → days_before (yoe + era * 400) + leap_day (yoe + era * 400) ≡ 146097 * era + era_start yoe + 1
unfolding is_leap
year_sum era yoe h = ground arith

abbrev pub civil_year : ℕ → ℕ → ℕ → ℕ
civil_year era yoe doy = yoe + era * 400 + (if leb (month_of (march_month doy)) 2 then 1 else 0)

-- No date is behind the end of its year.
pub within_year :
    (leap : Bool) (doy : ℕ)
    → doy ≤ 365
    → month_start leap (march_month doy) + (doy - (153 * march_month doy + 2) / 5)
      ≤ 364 + (if leap then 1 else 0)
unfolding march_month
within_year leap doy h = ground arith

-- A date is as many days after the start of its year as the loop over the months counts.
pub civil_lem :
    (era yoe doy : ℕ)
    → yoe ≤ 399
    → doy ≤ 365
    → days_before (civil_year era yoe doy)
        + month_start (is_leap (pos (civil_year era yoe doy))) (march_month doy)
        + (doy - (153 * march_month doy + 2) / 5)
      ≡ 146097 * era + era_start yoe + doy + 60
unfolding month_of
civil_lem era yoe doy in_era in_year =
    let mp = march_month doy in
    let y : ℕ = yoe + era * 400 in
    let sum = year_sum era yoe in_era in
    let (few, inside, _) = march_lem doy in_year in
    elim (dec_lt mp 10) [
      | yes spring ↦
          let month : ltb mp 10 ≡ true = ltb-true mp 10 spring in
          let late : leb (mp + 3) 2 ≡ false = leb-false (mp + 3) 2 (omega arith) in
          let same : yoe + era * 400 + 0 ≡ yoe + era * 400 = omega arith in
          rw (month, late, same) (omega (arith, sum))
      | no winter ↦
          let month : ltb mp 10 ≡ false = ltb-false mp 10 (omega arith) in
          let early : leb (mp - 9) 2 ≡ true = leb-true (mp - 9) 2 (omega arith) in
          rw (month, early) (omega (arith, sum, days_before-suc y))
    ]
