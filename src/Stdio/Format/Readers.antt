-- ===== src/Stdio/Format/Readers.antt =====
-- The readers of a conversion never go back in the format.
use lamp_userspace.Prelude.{
  ℕ, suc, ◌+◌, ◌-◌, ◌*◌, ◌≤◌, ◌&&◌, ◌||◌, leb, ◌==◌, List, [], ◌∷◌, length, none, some, arith,
  Bool-cases, inl, inr,
}
use lamp_userspace.Stdio.Directive.{
  Arg, word, double_word, text, Spec, Reader, read_flags, read_number, read_width, read_precision,
  read_size, set_flag, width_argument, precision_argument, read_digits_or_star,
}

-- What is left of the format is not longer than `n`.
abbrev pub Within : {A : Type 0} → ℕ → Reader A → Type 0
Within n none = Unit
Within n (some (a, (rest, args))) = length rest ≤ n

pub read_flags-le : (spec : Spec) (fmt : List ℕ) → length (read_flags spec fmt).1 ≤ length fmt
unfolding read_flags
read_flags-le spec [] = omega arith
read_flags-le spec (c ∷ fmt) =
    elim (Bool-cases (c == b'-' || c == b'+' || c == b' ' || c == b'#' || c == b'0')) [
      | inl flag ↦ rw flag (omega (arith, read_flags-le (set_flag spec c) fmt))
      | inr other ↦ rw other (omega arith)
    ]

pub read_number-le : (n : ℕ) (fmt : List ℕ) → length (read_number n fmt).1 ≤ length fmt
unfolding read_number
read_number-le n [] = omega arith
read_number-le n (c ∷ fmt) = elim (Bool-cases (leb b'0' c && leb c b'9')) [
  | inl digit ↦ rw digit (omega (arith, read_number-le (n * 10 + (c - b'0')) fmt))
  | inr other ↦ rw other (omega arith)
]

pub read_size-le : (spec : Spec) (fmt : List ℕ) → length (read_size spec fmt).1 ≤ length fmt
unfolding read_size
read_size-le spec [] = omega arith
read_size-le spec (c ∷ []) = ground arith
read_size-le spec (c ∷ d ∷ fmt) = ground arith

pub width_argument-Within :
    (spec : Spec) (fmt : List ℕ) (args : List Arg)
    → Within (length fmt) (width_argument spec fmt args)
width_argument-Within spec fmt [] = tt
width_argument-Within spec fmt (word w ∷ args) = omega arith
width_argument-Within spec fmt (double_word w ∷ args) = tt
width_argument-Within spec fmt (text s ∷ args) = tt

pub precision_argument-Within :
    (spec : Spec) (fmt : List ℕ) (args : List Arg)
    → Within (length fmt) (precision_argument spec fmt args)
precision_argument-Within spec fmt [] = tt
precision_argument-Within spec fmt (word w ∷ args) = omega arith
precision_argument-Within spec fmt (double_word w ∷ args) = tt
precision_argument-Within spec fmt (text s ∷ args) = tt

pub Within-suc : {A : Type 0} (n : ℕ) (r : Reader A) → Within n r → Within (suc n) r
Within-suc n none h = tt
Within-suc n (some (a, (rest, args))) h = omega (arith, h)

pub read_width-Within :
    (spec : Spec) (fmt : List ℕ) (args : List Arg) → Within (length fmt) (read_width spec fmt args)
unfolding read_width
read_width-Within spec [] args = omega arith
read_width-Within spec (c ∷ fmt) args = elim (Bool-cases (c == b'*')) [
  | inl star ↦ rw star (Within-suc (length fmt) _ (width_argument-Within spec fmt args))
  | inr other ↦ rw other (read_number-le spec.width (c ∷ fmt))
]

pub read_digits_or_star-Within :
    (spec : Spec) (fmt : List ℕ) (args : List Arg)
    → Within (length fmt) (read_digits_or_star spec fmt args)
read_digits_or_star-Within spec [] args = omega arith
read_digits_or_star-Within spec (c ∷ fmt) args = elim (Bool-cases (c == b'*')) [
  | inl star ↦ rw star (Within-suc (length fmt) _ (precision_argument-Within spec fmt args))
  | inr other ↦ rw other (read_number-le 0 (c ∷ fmt))
]

pub read_precision-Within :
    (spec : Spec) (fmt : List ℕ) (args : List Arg)
    → Within (length fmt) (read_precision spec fmt args)
unfolding read_precision
read_precision-Within spec [] args = omega arith
read_precision-Within spec (c ∷ fmt) args = elim (Bool-cases (c == b'.')) [
  | inl point ↦ rw point (Within-suc (length fmt) _ (read_digits_or_star-Within spec fmt args))
  | inr other ↦ rw other (omega arith)
]
