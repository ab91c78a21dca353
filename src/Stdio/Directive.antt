-- ===== src/Stdio/Directive.antt =====
-- lib/libc_stdio.c, the arguments of `vsnprintf` and what stands between a percent sign and the
-- conversion. A word has 32 bits, a `long long` 64. The numbers for width and precision stay in the range
-- of `int`.
use lamp_userspace.Prelude.{
  ℕ, ◌+◌, ◌-◌, ◌*◌, ◌^◌, Bool, true, false, ◌&&◌, ◌||◌, ltb, leb, ◌==◌, if◌then◌else◌, List, [],
  ◌∷◌, Option, none, some, u32,
}
use lamp_userspace.Prelude.Int.{ℤ, pos, negsuc}

pub data Arg : Type 0 where
  word : ℕ → Arg
  double_word : ℕ → Arg
  text : Option (List ℕ) → Arg

pub record Spec : Type 0 where
  pub left_adjust : Bool
  pub zero_pad : Bool
  pub alt : Bool
  pub plus : Bool
  pub space : Bool
  pub width : ℕ
  pub precision : ℤ
  pub size : ℕ

abbrev pub plain : Spec
plain = record {
  left_adjust = false;
  zero_pad = false;
  alt = false;
  plus = false;
  space = false;
  width = 0;
  precision = negsuc 0;
  size = 0;
}

-- A value that is read from the format or the arguments, and what is left of both.
abbrev pub Reader : Type 0 → Type 0
Reader A = Option (A × (List ℕ × List Arg))

-- The number that a 32-bit word stands for.
abbrev pub signed32 : ℕ → ℤ
signed32 w = if ltb (u32 w) (2 ^ 31) then pos (u32 w) else negsuc (2 ^ 32 - u32 w - 1)

abbrev pub set_flag : Spec → ℕ → Spec
set_flag spec c =
    if c == b'-'
    then record spec { left_adjust = true }
    else if c == b'0'
    then record spec { zero_pad = true }
    else if c == b'#'
    then record spec { alt = true }
    else if c == b'+'
    then record spec { plus = true }
    else record spec { space = true }

unfoldable pub read_flags : Spec → List ℕ → Spec × List ℕ
read_flags spec [] = (spec, [])
read_flags spec (c ∷ fmt) =
    let rest = read_flags (set_flag spec c) fmt in
    if c == b'-' || c == b'+' || c == b' ' || c == b'#' || c == b'0' then rest else (spec, c ∷ fmt)

unfoldable pub read_number : ℕ → List ℕ → ℕ × List ℕ
read_number n [] = (n, [])
read_number n (c ∷ fmt) =
    let rest = read_number (n * 10 + (c - b'0')) fmt in
    if leb b'0' c && leb c b'9' then rest else (n, c ∷ fmt)

abbrev pub set_width : Spec → ℤ → Spec
set_width spec (pos n) = record spec { width = n }
set_width spec (negsuc n) = record spec { left_adjust = true; width = n + 1 }

abbrev pub width_argument : Spec → List ℕ → List Arg → Reader Spec
width_argument spec fmt (word w ∷ args) = some (set_width spec (signed32 w), (fmt, args))
width_argument spec fmt _ = none

unfoldable pub read_width : Spec → List ℕ → List Arg → Reader Spec
read_width spec [] args = some (spec, ([], args))
read_width spec (c ∷ fmt) args =
    if c == b'*'
    then width_argument spec fmt args
    else (let (n, rest) = read_number spec.width (c ∷ fmt) in
        some (record spec { width = n }, (rest, args)))

abbrev pub precision_argument : Spec → List ℕ → List Arg → Reader Spec
precision_argument spec fmt (word w ∷ args) =
    some (record spec { precision = signed32 w }, (fmt, args))
precision_argument spec fmt _ = none

-- What follows the point.
abbrev pub read_digits_or_star : Spec → List ℕ → List Arg → Reader Spec
read_digits_or_star spec [] args = some (record spec { precision = pos 0 }, ([], args))
read_digits_or_star spec (c ∷ fmt) args =
    if c == b'*'
    then precision_argument spec fmt args
    else (let (n, rest) = read_number 0 (c ∷ fmt) in
        some (record spec { precision = pos n }, (rest, args)))

unfoldable pub read_precision : Spec → List ℕ → List Arg → Reader Spec
read_precision spec [] args = some (spec, ([], args))
read_precision spec (c ∷ fmt) args =
    if c == b'.' then read_digits_or_star spec fmt args else some (spec, (c ∷ fmt, args))

abbrev pub second_l : Spec → List ℕ → Spec × List ℕ
second_l spec [] = (record spec { size = 1 }, [])
second_l spec (c ∷ fmt) =
    if c == b'l' then (record spec { size = 2 }, fmt) else (record spec { size = 1 }, c ∷ fmt)

unfoldable pub read_size : Spec → List ℕ → Spec × List ℕ
read_size spec [] = (spec, [])
read_size spec (c ∷ fmt) =
    if c == b'l'
    then second_l spec fmt
    else if c == b'z'
    then (record spec { size = 1 }, fmt)
    else (spec, c ∷ fmt)
