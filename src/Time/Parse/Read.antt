-- ===== src/Time/Parse/Read.antt =====
-- `strptime` reads back a date that is written in digits.
use lamp_userspace.Prelude.{
  ℕ, suc, ◌+◌, ◌-◌, ◌*◌, ◌/◌, ◌%◌, ◌<◌, ◌≡◌, refl, ap, ◌∙◌, true, false, List, [], ◌∷◌, ◌++◌, some,
  arith,
}
use lamp_userspace.Prelude.Int.{pos, ◌-ℤ◌}
use lamp_userspace.Prelude.Text.{codes}
use lamp_userspace.Ctype.{isdigit, isspace}
use lamp_userspace.Time.{Tm}
use lamp_userspace.Time.Parse.{
  Read, take_digits, enough_digits, deeper, skip_spaces, go_on, parse_decimal, read_format,
  strptime,
}

abbrev pub digit : ℕ → ℕ
digit d = b'0' + d

-- Two and four digits of a number.
abbrev pub two : ℕ → List ℕ
two n = digit (n / 10) ∷ digit (n % 10) ∷ []

abbrev pub four : ℕ → List ℕ
four n = digit (n / 1000) ∷ digit (n / 100 % 10) ∷ digit (n / 10 % 10) ∷ digit (n % 10) ∷ []

isdigit_lem : (d : ℕ) → d < 10 → isdigit (digit d) ≡ true
unfolding isdigit
isdigit_lem d h = ground arith

take_digits-digit :
    (left n v d : ℕ) (s : List ℕ)
    → d < 10
    → take_digits (suc left) n v (digit d ∷ s) ≡ take_digits left (n + 1) (v * 10 + d) s
unfolding take_digits
take_digits-digit left n v d s h =
    let value : v * 10 + (48 + d) - 48 ≡ v * 10 + d = omega arith in
    rw (isdigit_lem d h, value) refl

parse_decimal-two : (n : ℕ) (s : List ℕ) → n < 100 → parse_decimal 1 2 (two n ++ s) ≡ some (n, s)
unfolding parse_decimal take_digits
parse_decimal-two n s h = ap (enough_digits 1) (
    take_digits-digit 1 0 0 (n / 10) (digit (n % 10) ∷ s) (omega arith)
    ∙ (take_digits-digit 0 1 (0 * 10 + n / 10) (n % 10) s (omega arith)
        ∙ ap (λ (v : ℕ). (2, (v, s))) (omega arith)))

parse_decimal-four :
    (n : ℕ) (s : List ℕ) → n < 10000 → parse_decimal 4 4 (four n ++ s) ≡ some (n, s)
unfolding parse_decimal take_digits
parse_decimal-four n s h =
    let a : ℕ = n / 1000 in
    let b : ℕ = a * 10 + n / 100 % 10 in
    let c : ℕ = b * 10 + n / 10 % 10 in
    let s1 = digit (n % 10) ∷ s in
    let s2 = digit (n / 10 % 10) ∷ s1 in
    let s3 = digit (n / 100 % 10) ∷ s2 in
    ap (enough_digits 4) (
      take_digits-digit 3 0 0 a s3 (omega arith)
      ∙ (take_digits-digit 2 1 (0 * 10 + a) (n / 100 % 10) s2 (omega arith)
          ∙ (take_digits-digit 1 2 ((0 * 10 + a) * 10 + n / 100 % 10) (n / 10 % 10) s1 (omega arith)
              ∙ (take_digits-digit 0 3 (((0 * 10 + a) * 10 + n / 100 % 10) * 10 + n / 10 % 10)
                    (n % 10) s (omega arith)
                  ∙ ap (λ (v : ℕ). (4, (v, s))) (omega arith)))))

date_inner :
    (year month day : ℕ) (s : List ℕ) (tm : Tm)
    → year < 10000
    → month < 100
    → day < 100
    → read_format deeper
        (codes "%Y-%m-%d")
        (four year ++ (b'-' ∷ (two month ++ (b'-' ∷ (two day ++ s)))))
        tm
      ≡ (
        some s,
        record tm {
          tm_year = pos year -ℤ pos 1900;
          tm_mon = pos month -ℤ pos 1;
          tm_mday = pos day;
        },
      )
unfolding read_format isspace
date_inner year month day s tm hy hm hd =
    rw
      (
        parse_decimal-four year (b'-' ∷ (two month ++ (b'-' ∷ (two day ++ s)))) hy,
        parse_decimal-two month (b'-' ∷ (two day ++ s)) hm,
        parse_decimal-two day s hd,
      )
      refl

time_inner :
    (hour minute second : ℕ) (s : List ℕ) (tm : Tm)
    → hour < 100
    → minute < 100
    → second < 100
    → read_format deeper
        (codes "%H:%M:%S")
        (two hour ++ (b':' ∷ (two minute ++ (b':' ∷ (two second ++ s)))))
        tm
      ≡ (some s, record tm { tm_hour = pos hour; tm_min = pos minute; tm_sec = pos second })
unfolding read_format isspace
time_inner hour minute second s tm hh hm hs =
    rw
      (
        parse_decimal-two hour (b':' ∷ (two minute ++ (b':' ∷ (two second ++ s)))) hh,
        parse_decimal-two minute (b':' ∷ (two second ++ s)) hm,
        parse_decimal-two second s hs,
      )
      refl

skip_spaces-two : (n : ℕ) (s : List ℕ) → n < 100 → skip_spaces (b' ' ∷ (two n ++ s)) ≡ two n ++ s
unfolding skip_spaces isspace
skip_spaces-two n s h =
    let d : ℕ = n / 10 in
    let few : d < 10 = omega arith in
    let plain : isspace (digit d) ≡ false = ground arith in rw plain refl

-- The steps of the outer call, for any inner one.
module _ (inner : List ℕ → List ℕ → Tm → Read) where
  step_F :
      (format s : List ℕ) (tm : Tm)
      → read_format inner (b'%' ∷ b'F' ∷ format) s tm
        ≡ go_on (inner (codes "%Y-%m-%d") s tm) (read_format inner format)
  unfolding read_format isspace
  step_F format s tm = refl

  step_T :
      (s : List ℕ) (tm : Tm)
      → read_format inner (codes "%T") s tm
        ≡ go_on (inner (codes "%H:%M:%S") s tm) (read_format inner [])
  unfolding read_format isspace
  step_T s tm = refl

  step_space :
      (s : List ℕ) (tm : Tm)
      → read_format inner (codes " %T") s tm ≡ read_format inner (codes "%T") (skip_spaces s) tm
  unfolding read_format isspace
  step_space s tm = refl

  step_end : (s : List ℕ) (tm : Tm) → read_format inner [] s tm ≡ (some s, tm)
  unfolding read_format
  step_end s tm = refl

read_date :
    (format s0 s1 : List ℕ) (tm0 tm1 : Tm)
    → read_format deeper (codes "%Y-%m-%d") s0 tm0 ≡ (some s1, tm1)
    → read_format (read_format deeper) (b'%' ∷ b'F' ∷ format) s0 tm0
      ≡ read_format (read_format deeper) format s1 tm1
read_date format s0 s1 tm0 tm1 e =
    step_F (read_format deeper) format s0 tm0
    ∙ ap (λ r. go_on r (read_format (read_format deeper) format)) e

read_time :
    (s0 s1 : List ℕ) (tm0 tm1 : Tm)
    → read_format deeper (codes "%H:%M:%S") s0 tm0 ≡ (some s1, tm1)
    → read_format (read_format deeper) (codes "%T") s0 tm0 ≡ (some s1, tm1)
read_time s0 s1 tm0 tm1 e =
    step_T (read_format deeper) s0 tm0
    ∙ ap (λ r. go_on r (read_format (read_format deeper) [])) e
    ∙ step_end (read_format deeper) s1 tm1

outer :
    (s0 s1 s2 s3 : List ℕ) (tm0 tm1 tm2 : Tm)
    → read_format deeper (codes "%Y-%m-%d") s0 tm0 ≡ (some s1, tm1)
    → skip_spaces s1 ≡ s2
    → read_format deeper (codes "%H:%M:%S") s2 tm1 ≡ (some s3, tm2)
    → read_format (read_format deeper) (codes "%F %T") s0 tm0 ≡ (some s3, tm2)
outer s0 s1 s2 s3 tm0 tm1 tm2 date space time =
    read_date (codes " %T") s0 s1 tm0 tm1 date
    ∙ (step_space (read_format deeper) s1 tm1
        ∙ (ap (λ s. read_format (read_format deeper) (codes "%T") s tm1) space
            ∙ read_time s2 s3 tm1 tm2 time))

-- A date and time as `%F %T` writes it: four digits for the year and two for each other number.
abbrev pub written : ℕ → ℕ → ℕ → ℕ → ℕ → ℕ → List ℕ
written year month day hour minute second =
    four year
    ++ (b'-'
        ∷ (two month
            ++ (b'-'
                ∷ (two day
                    ++ (b' '
                        ∷ (two hour ++ (b':' ∷ (two minute ++ (b':' ∷ (two second ++ []))))))))))

-- `strptime` with `%F %T` reads back the date and the time that are written so, to the end of the text,
-- and leaves the weekday and the day of the year as they are.
pub strptime-written :
    (year month day hour minute second : ℕ) (tm : Tm)
    → year < 10000
    → month < 100
    → day < 100
    → hour < 100
    → minute < 100
    → second < 100
    → strptime (written year month day hour minute second) (codes "%F %T") tm ≡ (
      some [],
      record tm {
        tm_year = pos year -ℤ pos 1900;
        tm_mon = pos month -ℤ pos 1;
        tm_mday = pos day;
        tm_hour = pos hour;
        tm_min = pos minute;
        tm_sec = pos second;
      },
    )
unfolding strptime
strptime-written year month day hour minute second tm hy hmo hd hh hmi hs =
    let clock = two hour ++ (b':' ∷ (two minute ++ (b':' ∷ (two second ++ [])))) in
    outer (written year month day hour minute second) (b' ' ∷ clock) clock [] tm _ _
      (date_inner year month day (b' ' ∷ clock) tm hy hmo hd) (skip_spaces-two hour _ hh)
      (time_inner hour minute second [] _ hh hmi hs)
