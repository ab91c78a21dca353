-- ===== src/Stdio/Format.antt =====
-- lib/libc_stdio.c, `vsnprintf`. The arguments are a list; to take one that is not there, or of another
-- size, is the result `bad_argument`. A word has 32 bits, a `long long` 64. The numbers for width and
-- precision stay in the range of `int`.
pub mod Readers
pub mod Actions
pub mod Contract
use lamp_userspace.Stdio.Directive.{
  Arg, Reader, Spec, double_word, plain, precision_argument, read_digits_or_star, read_flags,
  read_number, read_precision, read_size, read_width, second_l, set_flag, set_width, signed32, text,
  width_argument, word,
}
use lamp_userspace.Prelude.{
  ℕ, zero, suc, ◌+◌, ◌-◌, ◌*◌, ◌^◌, Bool, true, false, not, ◌&&◌, ◌||◌, ltb, leb, ◌==◌,
  if◌then◌else◌, List, [], ◌∷◌, ◌++◌, length, take, Option, none, some, u8, u32, u64,
}
use lamp_userspace.Prelude.Int.{ℤ, pos, negsuc, is_below_zero, count_of, signed64}
use lamp_userspace.Prelude.Text.{codes}
use lamp_userspace.Stdio.Output.{Out, out_char, out_padded, out_uint_fmt}

-- What a conversion does to the output, with the rest of the format and the arguments.
abbrev pub Action : Type 0
Action = Reader (Out → Out)

abbrev pub cut : ℤ → List ℕ → List ℕ
cut (pos n) s = if ltb n (length s) then take n s else s
cut (negsuc n) s = s

abbrev pub show_text : Spec → List ℕ → Out → Out
show_text spec s = out_padded (cut spec.precision s) spec.width spec.left_adjust b' '

unfoldable pub print_text : Spec → List ℕ → List Arg → Action
print_text spec fmt (text (some s) ∷ args) = some (show_text spec s, (fmt, args))
print_text spec fmt (text none ∷ args) = some (show_text spec (codes "(null)"), (fmt, args))
print_text spec fmt _ = none

unfoldable pub print_char : Spec → List ℕ → List Arg → Action
print_char spec fmt (word w ∷ args) =
    some (out_padded (u8 w ∷ []) spec.width spec.left_adjust b' ', (fmt, args))
print_char spec fmt _ = none

abbrev pub magnitude : ℤ → ℕ
magnitude (pos n) = n
magnitude (negsuc n) = n + 1

abbrev pub sign_of : Spec → ℤ → ℕ
sign_of spec v =
    if is_below_zero v then b'-' else if spec.plus then b'+' else if spec.space then b' ' else 0

abbrev pub show_signed : Spec → ℤ → Out → Out
show_signed spec v =
    out_uint_fmt (magnitude v) 10 (sign_of spec v) false spec.width spec.left_adjust spec.zero_pad
      spec.precision []

-- The argument has 64 bits when `size` is 2; `int` and `long` have 32.
unfoldable pub print_signed : Spec → List ℕ → List Arg → Action
print_signed spec fmt (word w ∷ args) =
    if spec.size == 2 then none else some (show_signed spec (signed32 w), (fmt, args))
print_signed spec fmt (double_word w ∷ args) =
    if spec.size == 2 then some (show_signed spec (signed64 (u64 w)), (fmt, args)) else none
print_signed spec fmt _ = none

abbrev pub base_of : ℕ → ℕ
base_of c = if c == b'o' then 8 else if c == b'u' then 10 else 16

abbrev pub prefix_of : Spec → ℕ → ℕ → List ℕ
prefix_of spec c v =
    if spec.alt && not (v == 0) && (c == b'x' || c == b'X')
    then if c == b'X' then codes "0X" else codes "0x"
    else if spec.alt && not (v == 0) && c == b'o'
    then codes "0"
    else []

abbrev pub show_unsigned : Spec → ℕ → ℕ → Out → Out
show_unsigned spec c v =
    out_uint_fmt v (base_of c) 0 (c == b'X') spec.width spec.left_adjust spec.zero_pad
      spec.precision (prefix_of spec c v)

unfoldable pub print_unsigned : Spec → ℕ → List ℕ → List Arg → Action
print_unsigned spec c fmt (word w ∷ args) =
    if spec.size == 2 then none else some (show_unsigned spec c (u32 w), (fmt, args))
print_unsigned spec c fmt (double_word w ∷ args) =
    if spec.size == 2 then some (show_unsigned spec c (u64 w), (fmt, args)) else none
print_unsigned spec c fmt _ = none

unfoldable pub print_pointer : Spec → List ℕ → List Arg → Action
print_pointer spec fmt (word w ∷ args) = some (
  out_uint_fmt (u32 w) 16 0 false (if spec.width == 0 then 1 else spec.width) spec.left_adjust
      spec.zero_pad spec.precision (codes "0x"),
  (fmt, args),
)
print_pointer spec fmt _ = none

-- A format that ends here puts out its terminating zero.
unfoldable pub convert : Spec → List ℕ → List Arg → Action
convert spec [] args = some (out_char 0, ([], args))
convert spec (c ∷ fmt) args =
    if c == b's'
    then print_text spec fmt args
    else if c == b'c'
    then print_char spec fmt args
    else if c == b'd' || c == b'i'
    then print_signed spec fmt args
    else if c == b'u' || c == b'x' || c == b'X' || c == b'o'
    then print_unsigned spec c fmt args
    else if c == b'p'
    then print_pointer spec fmt args
    else some (out_char c, (fmt, args))

abbrev pub with_size : Spec × List ℕ → List Arg → Action
with_size (spec, fmt) args = convert spec fmt args

abbrev pub with_precision : Reader Spec → Action
with_precision none = none
with_precision (some (spec, (fmt, args))) = with_size (read_size spec fmt) args

abbrev pub with_width : Reader Spec → Action
with_width none = none
with_width (some (spec, (fmt, args))) = with_precision (read_precision spec fmt args)

-- What follows a percent sign.
unfoldable pub directive : List ℕ → List Arg → Action
directive fmt args =
    let (spec, rest) = read_flags plain fmt in with_width (read_width spec rest args)

unfoldable pub step : ℕ → List ℕ → List Arg → Action
step c fmt args = if c == b'%' then directive fmt args else some (out_char c, (fmt, args))

pub data Printed : Type 0 where
  printed : Out → Printed
  bad_argument out_of_fuel : Printed

unfoldable pub print_loop : ℕ → List ℕ → List Arg → Out → Printed
print_loop fuel [] args o = printed o
print_loop zero (c ∷ fmt) args o = out_of_fuel
print_loop (suc fuel) (c ∷ fmt) args o = elim (step c fmt args) [
  | none ↦ bad_argument
  | some (f, (rest, args')) ↦ print_loop fuel rest args' (f o)
]

-- The output before the first byte, into `str` or without a buffer.
abbrev pub start : Bool → ℕ → Out
start has_buffer size = record { has_buffer = has_buffer; written = []; left = size; count = 0 }

-- `str` gets the bytes written and, unless `size` is 0, a zero behind them; the result is the count.
unfoldable pub vsnprintf : Bool → ℕ → List ℕ → List Arg → Printed
vsnprintf has_buffer size fmt args = print_loop (length fmt) fmt args (start has_buffer size)
