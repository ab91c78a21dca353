-- ===== src/Stdlib/Number/Numeral.antt =====
-- What `strtoul` reads from a written number.
use lamp_userspace.Prelude.{
  ℕ, suc, ◌+◌, ◌-◌, ◌*◌, ◌/◌, ◌^◌, ◌<◌, ◌≤◌, ◌≡◌, ◌≢◌, refl, ap, ◌∙◌, true, false, ltb,
  if◌then◌else◌, List, [], ◌∷◌, ◌++◌, map, length, none, some, u32, arith, ==-false, ltb-false,
  leb-false,
}
use lamp_userspace.Ctype.{isspace}
use lamp_userspace.Stdlib.Number.{skip_spaces, digit_of, below, read_digits, finish, strtoul}

-- The character of a digit.
abbrev pub digit_char : ℕ → ℕ
digit_char d = if ltb d 10 then b'0' + d else b'a' + (d - 10)

abbrev pub Digits : ℕ → List ℕ → Type 0
Digits base [] = Unit
Digits base (d ∷ ds) = (d < base) × Digits base ds

-- The number that digits write, after those of `v`.
abbrev pub horner : ℕ → ℕ → List ℕ → ℕ
horner base v [] = v
horner base v (d ∷ ds) = horner base (v * base + d) ds

-- The text goes on with no digit of the base.
abbrev pub Ends : ℕ → List ℕ → Type 0
Ends base [] = Unit
Ends base (c ∷ s) = below base (digit_of c) ≡ none

abbrev pub Spaces : List ℕ → Type 0
Spaces [] = Unit
Spaces (c ∷ s) = (isspace c ≡ true) × Spaces s

digit_of-char : (d : ℕ) → d < 36 → digit_of (digit_char d) ≡ some d
unfolding digit_of
digit_of-char d h = ground arith

-- A dot ends a number.
pub Ends-dot : (rest : List ℕ) → Ends 10 (b'.' ∷ rest)
unfolding digit_of
Ends-dot rest = refl

space-digit_char : (d : ℕ) → d < 36 → isspace (digit_char d) ≡ false
unfolding isspace
space-digit_char d h = ground arith

read_digits_end :
    (base v n : ℕ) (rest : List ℕ) → Ends base rest → read_digits base v n rest ≡ (v, (n, rest))
unfolding read_digits
read_digits_end base v n [] h = refl
read_digits_end base v n (c ∷ s) h = rw (h, read_digits) refl

-- Reducing the value modulo 2^32 at each digit changes no later value.
word_step : (v base d : ℕ) → u32 (u32 v * base + d) ≡ u32 (v * base + d)
word_step v base d =
    let whole : u32 v + v / 2 ^ 32 * 2 ^ 32 ≡ v = omega arith in
    omega (arith, ap (λ (t : ℕ). t * base) whole)

read_digits-some :
    (base v n d : ℕ) (c : ℕ) (s : List ℕ)
    → below base (digit_of c) ≡ some d
    → read_digits base v n (c ∷ s) ≡ read_digits base (u32 (v * base + d)) (n + 1) s
unfolding read_digits
read_digits-some base v n d c s h = rw (h, read_digits) refl

read_digits_lem :
    (base v n : ℕ) (ds rest : List ℕ)
    → base ≤ 36
    → Digits base ds
    → Ends base rest
    → read_digits base (u32 v) n (map digit_char ds ++ rest)
      ≡ (u32 (horner base v ds), (n + length ds, rest))
read_digits_lem base v n [] rest small digits ends =
    read_digits_end base (u32 v) n rest ends ∙ ap (λ (k : ℕ). (u32 v, (k, rest))) (omega arith)
read_digits_lem base v n (d ∷ ds) rest small (first, digits) ends =
    let digit : below base (digit_of (digit_char d)) ≡ some d =
      rw (digit_of-char d (omega (arith, first, small)), leb-false base d first) refl in
    read_digits-some base (u32 v) n d (digit_char d) (map digit_char ds ++ rest) digit
    ∙ (ap (λ w. read_digits base w (n + 1) (map digit_char ds ++ rest)) (word_step v base d)
        ∙ (read_digits_lem base (v * base + d) (n + 1) ds rest small digits ends
            ∙ ap (λ (k : ℕ). (u32 (horner base (v * base + d) ds), (k, rest))) (omega arith)))

skip_spaces_lem : (spaces s : List ℕ) → Spaces spaces → skip_spaces (spaces ++ s) ≡ skip_spaces s
unfolding skip_spaces
skip_spaces_lem [] s h = refl
skip_spaces_lem (c ∷ spaces) s (space, h) = rw space (skip_spaces_lem spaces s h)

skip_spaces_end : (c : ℕ) (s : List ℕ) → isspace c ≡ false → skip_spaces (c ∷ s) ≡ c ∷ s
unfolding skip_spaces
skip_spaces_end c s h = rw h refl

-- `strtoul` of a number written in a base from 2 to 36 other than 16, behind any spaces: the value modulo
-- 2^32, with no error also where the number is too large, and the end behind the last digit.
pub strtoul_lem :
    (base : ℕ) (spaces : List ℕ) (d : ℕ) (ds rest : List ℕ)
    → 2 ≤ base
    → base ≤ 36
    → base ≢ 16
    → Spaces spaces
    → Digits base (d ∷ ds)
    → Ends base rest
    → strtoul (some (spaces ++ (map digit_char (d ∷ ds) ++ rest))) base
      ≡ record { value = u32 (horner base 0 (d ∷ ds)); end = some rest; error = none }
unfolding strtoul
strtoul_lem base spaces d ds rest low high not_hex blank digits ends =
    let no_space : skip_spaces (map digit_char (d ∷ ds) ++ rest) ≡ map digit_char (d ∷ ds) ++ rest =
      skip_spaces_end (digit_char d) _ (space-digit_char d (omega (arith, digits.0, high))) in
    let reads = read_digits_lem base 0 0 (d ∷ ds) rest high digits ends in
    rw
      (
        skip_spaces_lem spaces (map digit_char (d ∷ ds) ++ rest) blank,
        no_space,
        ==-false base 0 (λ e. omega (arith, e, low)),
        ==-false base 16 not_hex,
        ltb-false base 2 low,
        ltb-false 36 base high,
      )
      (ap (finish _) reads ∙ rw (==-false (0 + suc (length ds)) 0 (λ e. omega (arith, e))) refl)
