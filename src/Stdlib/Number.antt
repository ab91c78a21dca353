-- ===== src/Stdlib/Number.antt =====
-- lib/libc_stdlib.c, `strtoul`. `unsigned long` has 32 bits, and a base is not negative.
pub mod Numeral
mod Tests
use lamp_userspace.Prelude.{
  ℕ, zero, suc, ◌+◌, ◌-◌, ◌*◌, Bool, true, false, ◌&&◌, ◌||◌, ◌==◌, leb, ltb, if◌then◌else◌, List,
  [], ◌∷◌, Option, none, some, u32,
}
use lamp_userspace.Ctype.{isspace}
use lamp_userspace.Stdlib.{einval}

-- The value, the text at `*endptr` and the error number that was set.
pub record Parsed : Type 0 where
  pub value : ℕ
  pub end : Option (List ℕ)
  pub error : Option ℕ

pub skip_spaces : List ℕ → List ℕ
skip_spaces [] = []
skip_spaces (c ∷ s) = if isspace c then skip_spaces s else c ∷ s

pub digit_of : ℕ → Option ℕ
digit_of c =
    if leb b'0' c && leb c b'9'
    then some (c - b'0')
    else if leb b'a' c && leb c b'z'
    then some (c - b'a' + 10)
    else if leb b'A' c && leb c b'Z'
    then some (c - b'A' + 10)
    else none

abbrev pub is_x : ℕ → Bool
is_x c = c == b'x' || c == b'X'

-- The base and the text behind a prefix `0x`, for base 0 and base 16.
abbrev pub auto_base : List ℕ → ℕ × List ℕ
auto_base (zero_char ∷ x ∷ s) =
    if zero_char == b'0'
    then if is_x x then (16, s) else (8, zero_char ∷ x ∷ s)
    else (10, zero_char ∷ x ∷ s)
auto_base (zero_char ∷ []) = (if zero_char == b'0' then 8 else 10, zero_char ∷ [])
auto_base [] = (10, [])

abbrev pub skip_prefix : List ℕ → List ℕ
skip_prefix (zero_char ∷ x ∷ s) = if zero_char == b'0' && is_x x then s else zero_char ∷ x ∷ s
skip_prefix (c ∷ []) = c ∷ []
skip_prefix [] = []

abbrev pub choose_base : ℕ → List ℕ → ℕ × List ℕ
choose_base base s =
    if base == 0 then auto_base s else if base == 16 then (base, skip_prefix s) else (base, s)

abbrev pub below : ℕ → Option ℕ → Option ℕ
below base none = none
below base (some d) = if leb base d then none else some d

-- The value, the count of the digits and the rest of the text.
pub read_digits : ℕ → ℕ → ℕ → List ℕ → ℕ × (ℕ × List ℕ)
read_digits base v digits [] = (v, (digits, []))
read_digits base v digits (c ∷ s) = elim (below base (digit_of c)) [
  | none ↦ (v, (digits, c ∷ s))
  | some d ↦ read_digits base (u32 (v * base + d)) (digits + 1) s
]

abbrev pub finish : List ℕ → ℕ × (ℕ × List ℕ) → Parsed
finish start (v, (digits, rest)) = record {
  value = v;
  end = some (if digits == 0 then start else rest);
  error = if digits == 0 then some einval else none;
}

abbrev pub read_in : List ℕ → ℕ × List ℕ → Parsed
read_in start (base, s) =
    if ltb base 2 || ltb 36 base
    then record { value = 0; end = some start; error = some einval }
    else finish start (read_digits base 0 0 s)

pub strtoul : Option (List ℕ) → ℕ → Parsed
strtoul none base = record { value = 0; end = none; error = some einval }
strtoul (some start) base = read_in start (choose_base base (skip_spaces start))
