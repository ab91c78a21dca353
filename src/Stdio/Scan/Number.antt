-- ===== src/Stdio/Scan/Number.antt =====
-- `scan_unsigned` reads what is written in digits.
use lamp_userspace.Prelude.{
  ℕ, suc, ◌+◌, ◌*◌, ◌/◌, ◌^◌, ◌≤◌, ◌<◌, ◌≡◌, refl, ap, ◌∙◌, false, ◌==◌, List, [], ◌∷◌, ◌++◌, map,
  length, none, some, u64, arith, ==-false, leb-false,
}
use lamp_userspace.Stdlib.Number.Numeral.{digit_char, Digits, horner}
use lamp_userspace.Stdio.Output.Digits.{Writes}
use lamp_userspace.Stdio.Unsigned.{
  is_blank, skip_blanks, scan_digit, below, scan_digits, some_digits, scan_unsigned,
}

-- The text goes on with no digit of the base.
abbrev pub Ends : ℕ → List ℕ → Type 0
Ends base [] = Unit
Ends base (c ∷ s) = below base (scan_digit c) ≡ none

scan_digit-char : (d : ℕ) → d < 16 → scan_digit (digit_char d) ≡ some d
unfolding scan_digit
scan_digit-char d h = ground arith

scan_digits_end :
    (base value consumed : ℕ) (s : List ℕ)
    → Ends base s
    → scan_digits 0 base value consumed s ≡ (value, (consumed, s))
unfolding scan_digits
scan_digits_end base value consumed [] h = refl
scan_digits_end base value consumed (c ∷ s) h = rw (h, scan_digits) refl

scan_digits_digit :
    (base value consumed d c : ℕ) (s : List ℕ)
    → below base (scan_digit c) ≡ some d
    → scan_digits 0 base value consumed (c ∷ s)
      ≡ scan_digits 0 base (u64 (value * base + d)) (consumed + 1) s
unfolding scan_digits
scan_digits_digit base value consumed d c s h = rw (h, scan_digits) refl

word_step : (v base d : ℕ) → u64 (u64 v * base + d) ≡ u64 (v * base + d)
word_step v base d =
    let whole : u64 v + v / 2 ^ 64 * 2 ^ 64 ≡ v = omega arith in
    omega (arith, ap (λ (t : ℕ). t * base) whole)

scan_digits_lem :
    (base value consumed : ℕ) (ds s : List ℕ)
    → base ≤ 16
    → Digits base ds
    → Ends base s
    → scan_digits 0 base (u64 value) consumed (map digit_char ds ++ s)
      ≡ (u64 (horner base value ds), (consumed + length ds, s))
scan_digits_lem base value consumed [] s small digits ends =
    scan_digits_end base (u64 value) consumed s ends
    ∙ ap (λ (k : ℕ). (u64 value, (k, s))) (omega arith)
scan_digits_lem base value consumed (d ∷ ds) s small (first, digits) ends =
    let digit : below base (scan_digit (digit_char d)) ≡ some d =
      rw (scan_digit-char d (omega (arith, first, small)), leb-false base d first) refl in
    scan_digits_digit base (u64 value) consumed d (digit_char d) (map digit_char ds ++ s) digit
    ∙ (ap (λ w. scan_digits 0 base w (consumed + 1) (map digit_char ds ++ s))
          (word_step value base d)
        ∙ (scan_digits_lem base (value * base + d) (consumed + 1) ds s small digits ends
            ∙ ap (λ (k : ℕ). (u64 (horner base (value * base + d) ds), (k, s))) (omega arith)))

pub plain_char :
    (d : ℕ) → d < 16 → (is_blank (digit_char d) ≡ false) × ((digit_char d == b'+') ≡ false)
plain_char d h = (ground arith, ground arith)

pub skip_blanks_digit :
    (d : ℕ) (s : List ℕ) → d < 16 → skip_blanks (digit_char d ∷ s) ≡ digit_char d ∷ s
unfolding skip_blanks
skip_blanks_digit d s h = rw ((plain_char d h).0) refl

-- A number in digits of base 8 or 10 is read as its value, and the reading stops behind it.
pub scan_unsigned_lem :
    (base v : ℕ) (s rest : List ℕ)
    → 2 ≤ base
    → base < 16
    → v < 2 ^ 64
    → Writes base v s
    → Ends base rest
    → scan_unsigned (s ++ rest) 0 base ≡ some (v, rest)
unfolding scan_unsigned
scan_unsigned_lem base v s rest low high small w ends =
    let whole : u64 v ≡ v = omega (arith, small) in
    let fin : some_digits
          (u64 (horner base 0 (w.first ∷ w.others)), (0 + length (w.first ∷ w.others), rest))
        ≡ some (v, rest) =
      rw (w.value, whole, ==-false (0 + suc (length w.others)) 0 (λ e. omega (arith, e))) refl in
    let first_lt : w.first < 16 = omega (arith, w.digits.0, high) in
    ap (λ t. scan_unsigned (t ++ rest) 0 base) w.shown
    ∙ rw
        (
          skip_blanks_digit w.first (map digit_char w.others ++ rest) first_lt,
          (plain_char w.first first_lt).1,
          ==-false base 0 (λ e. omega (arith, e, low)),
          ==-false base 16 (λ e. omega (arith, e, high)),
        )
        (ap some_digits
            (scan_digits_lem base 0 0 (w.first ∷ w.others) rest (omega (arith, high)) w.digits ends)
          ∙ fin)
