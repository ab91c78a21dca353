-- ===== src/Time/Parse.antt =====
-- lib/libc_time.c, `strptime`. A text is the list of its bytes before the terminating zero. The result
-- is the rest of the text, `none` for a null pointer, and the date as the call leaves it.
pub mod Read
pub mod Seconds
mod Tests
use lamp_userspace.Prelude.{
  ℕ, zero, suc, ◌+◌, ◌-◌, ◌*◌, Bool, true, false, ◌||◌, ◌==◌, ltb, if◌then◌else◌, List, [], ◌∷◌,
  Option, none, some,
}
use lamp_userspace.Prelude.Int.{ℤ, pos, ◌-ℤ◌}
use lamp_userspace.Prelude.Text.{codes}
use lamp_userspace.Ctype.{isdigit, isspace}
use lamp_userspace.Time.{Tm}

-- The loop of `parse_decimal`, with the digits it may still take: their count, value and what follows.
pub take_digits : ℕ → ℕ → ℕ → List ℕ → ℕ × (ℕ × List ℕ)
take_digits zero n v s = (n, (v, s))
take_digits (suc left) n v [] = (n, (v, []))
take_digits (suc left) n v (c ∷ s) =
    if isdigit c then take_digits left (n + 1) (v * 10 + c - b'0') s else (n, (v, c ∷ s))

abbrev pub enough_digits : ℕ → ℕ × (ℕ × List ℕ) → Option (ℕ × List ℕ)
enough_digits min_digits (n, r) = if ltb n min_digits then none else some r

pub parse_decimal : ℕ → ℕ → List ℕ → Option (ℕ × List ℕ)
parse_decimal min_digits max_digits s = enough_digits min_digits (take_digits max_digits 0 0 s)

abbrev pub Read : Type 0
Read = Option (List ℕ) × Tm

-- `if (s) result->… = value`
abbrev pub store_number : Option (ℕ × List ℕ) → (ℕ → Tm) → Tm → Read
store_number none set_field tm = (none, tm)
store_number (some (value, s)) set_field tm = (some s, set_field value)

-- The conversion `c`; `inner` is the call of `strptime` for `%F` and `%T`.
abbrev pub convert : (List ℕ → List ℕ → Tm → Read) → ℕ → List ℕ → Tm → Read
convert inner c s tm =
    if c == b'F'
    then inner (codes "%Y-%m-%d") s tm
    else if c == b'T'
    then inner (codes "%H:%M:%S") s tm
    else if c == b'Y'
    then store_number (parse_decimal 4 4 s) (λ v. record tm { tm_year = pos v -ℤ pos 1900 }) tm
    else if c == b'm'
    then store_number (parse_decimal 1 2 s) (λ v. record tm { tm_mon = pos v -ℤ pos 1 }) tm
    else if c == b'd' || c == b'e'
    then store_number (parse_decimal 1 2 s) (λ v. record tm { tm_mday = pos v }) tm
    else if c == b'H'
    then store_number (parse_decimal 1 2 s) (λ v. record tm { tm_hour = pos v }) tm
    else if c == b'M'
    then store_number (parse_decimal 1 2 s) (λ v. record tm { tm_min = pos v }) tm
    else if c == b'S'
    then store_number (parse_decimal 1 2 s) (λ v. record tm { tm_sec = pos v }) tm
    else (none, tm)

pub skip_spaces : List ℕ → List ℕ
skip_spaces [] = []
skip_spaces (c ∷ s) = if isspace c then skip_spaces s else c ∷ s

-- `*s++ != *format++`
abbrev pub literal : ℕ → List ℕ → Tm → Read
literal f [] tm = (none, tm)
literal f (c ∷ s) tm = if c == f then (some s, tm) else (none, tm)

abbrev pub go_on : Read → (List ℕ → Tm → Read) → Read
go_on (none, tm) next = (none, tm)
go_on (some s, tm) next = next s tm

-- The loop over the format.
pub read_format : (List ℕ → List ℕ → Tm → Read) → List ℕ → List ℕ → Tm → Read
read_format inner [] s tm = (some s, tm)
read_format inner (f ∷ []) s tm =
    if isspace f
    then (some (skip_spaces s), tm)
    else if f == b'%'
    then (none, tm)
    else literal f s tm
read_format inner (f ∷ c ∷ format) s tm =
    let spaced = read_format inner (c ∷ format) (skip_spaces s) tm in
    let converted = go_on (convert inner c s tm) (read_format inner format) in
    let matched = go_on (literal f s tm) (read_format inner (c ∷ format)) in
    if isspace f then spaced else if f == b'%' then converted else matched

-- The formats of `%F` and `%T` hold neither, so the calls go no deeper than this.
abbrev pub deeper : List ℕ → List ℕ → Tm → Read
deeper format s tm = (none, tm)

pub strptime : List ℕ → List ℕ → Tm → Read
strptime s format tm = read_format (read_format deeper) format s tm
