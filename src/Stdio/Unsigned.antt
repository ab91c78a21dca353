-- ===== src/Stdio/Unsigned.antt =====
-- lib/libc_stdio.c, `scan_unsigned`. A byte past the end of a text reads as 0.
use lamp_userspace.Prelude.{
  ℕ, ◌+◌, ◌-◌, ◌*◌, Bool, ◌&&◌, ◌||◌, ltb, leb, ◌==◌, if◌then◌else◌, List, [], ◌∷◌, Option, none,
  some, u64,
}

abbrev pub is_blank : ℕ → Bool
is_blank c = c == b' ' || c == b'\t' || c == b'\n' || c == b'\r' || c == 12 || c == 11

unfoldable pub skip_blanks : List ℕ → List ℕ
skip_blanks [] = []
skip_blanks (c ∷ s) = if is_blank c then skip_blanks s else c ∷ s

unfoldable pub scan_digit : ℕ → Option ℕ
scan_digit c =
    if leb b'0' c && leb c b'9'
    then some (c - b'0')
    else if leb b'a' c && leb c b'f'
    then some (c - b'a' + 10)
    else if leb b'A' c && leb c b'F'
    then some (c - b'A' + 10)
    else none

abbrev pub skip_plus : List ℕ → List ℕ
skip_plus [] = []
skip_plus (c ∷ s) = if c == b'+' then s else c ∷ s

abbrev pub is_x : ℕ → Bool
is_x c = c == b'x' || c == b'X'

-- The base and the text behind a prefix, for base 0 and base 16.
abbrev pub auto_base : List ℕ → ℕ × List ℕ
auto_base [] = (10, [])
auto_base (c ∷ []) = (if c == b'0' then 8 else 10, c ∷ [])
auto_base (c ∷ x ∷ s) =
    if c == b'0' then (if is_x x then (16, s) else (8, c ∷ x ∷ s)) else (10, c ∷ x ∷ s)

abbrev pub skip_prefix : List ℕ → List ℕ
skip_prefix [] = []
skip_prefix (c ∷ []) = c ∷ []
skip_prefix (c ∷ x ∷ s) = if c == b'0' && is_x x then s else c ∷ x ∷ s

abbrev pub choose_base : ℕ → List ℕ → ℕ × List ℕ
choose_base base s =
    if base == 0 then auto_base s else if base == 16 then (16, skip_prefix s) else (base, s)

abbrev pub below : ℕ → Option ℕ → Option ℕ
below base none = none
below base (some d) = if leb base d then none else some d

-- The loop over the digits: the value, their count and the rest of the text.
unfoldable pub scan_digits : ℕ → ℕ → ℕ → ℕ → List ℕ → ℕ × (ℕ × List ℕ)
scan_digits width base value consumed [] = (value, (consumed, []))
scan_digits width base value consumed (c ∷ s) =
    elim (if width == 0 || ltb consumed width then below base (scan_digit c) else none) [
      | none ↦ (value, (consumed, c ∷ s))
      | some d ↦ scan_digits width base (u64 (value * base + d)) (consumed + 1) s
    ]

abbrev pub some_digits : ℕ × (ℕ × List ℕ) → Option (ℕ × List ℕ)
some_digits (value, (consumed, rest)) = if consumed == 0 then none else some (value, rest)

abbrev pub digits_in : ℕ → ℕ × List ℕ → Option (ℕ × List ℕ)
digits_in width (base, s) = some_digits (scan_digits width base 0 0 s)

unfoldable pub scan_unsigned : List ℕ → ℕ → ℕ → Option (ℕ × List ℕ)
scan_unsigned input width base = digits_in width (choose_base base (skip_plus (skip_blanks input)))
