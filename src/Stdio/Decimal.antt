-- ===== src/Stdio/Decimal.antt =====
-- What `vsnprintf` prints for a plain `%d` and `%u`.
use lamp_userspace.Prelude.{
  ℕ, suc, ◌+◌, ◌-◌, ◌≡◌, refl, ap, ◌∙◌, false, ◌==◌, if◌then◌else◌, List, [], ◌∷◌, ◌++◌, length,
  Option, none, some, u32, arith,
}
use mathlib.Core.List.{append-nil}
use lamp_userspace.Prelude.Int.{ℤ, negsuc}
use lamp_userspace.Stdio.Output.{Out, out_char, utoa_rev, word_bits}
use lamp_userspace.Stdio.Output.Emit.{emit, reversed, sign_text, uint_text, out_uint_fmt-Emits}
use lamp_userspace.Stdio.Directive.{
  Arg, plain, signed32, read_flags, read_number, read_width, read_precision, read_size,
}
use lamp_userspace.Stdio.Format.{
  magnitude, sign_of, show_signed, show_unsigned, print_signed, print_unsigned, convert, directive,
  step, Printed, printed, print_loop,
}

sub_zero : (n : ℕ) → 0 - n ≡ 0
sub_zero n = omega arith

-- A number without width and precision is its sign and its digits.
pub plain_text :
    (v base sign : ℕ)
    → uint_text v base sign false 0 (negsuc 0) [] false false
      ≡ sign_text sign ++ reversed (utoa_rev word_bits v base false)
plain_text v base sign =
    let digits = utoa_rev word_bits v base false in
    rw
      (
        sub_zero ((if sign == 0 then 0 else 1) + 0 + (0 - length digits) + length digits),
        sub_zero (length digits),
      )
      (simp append-nil)

-- The text of `%d` for a word, and of `%u`.
abbrev pub signed_text : ℤ → List ℕ
signed_text z = sign_text (sign_of plain z) ++ reversed (utoa_rev word_bits (magnitude z) 10 false)

abbrev pub unsigned_text : ℕ → List ℕ
unsigned_text v = reversed (utoa_rev word_bits v 10 false)

pub step_d :
    (w : ℕ) (fmt : List ℕ) (args : List Arg)
    → step b'%' (b'd' ∷ fmt) (Arg.word w ∷ args)
      ≡ some (show_signed plain (signed32 w), (fmt, args))
unfolding step directive read_flags read_width read_number read_precision read_size convert
    print_signed
step_d w fmt args = refl

step_u :
    (w : ℕ) (fmt : List ℕ) (args : List Arg)
    → step b'%' (b'u' ∷ fmt) (Arg.word w ∷ args)
      ≡ some (show_unsigned plain b'u' (u32 w), (fmt, args))
unfolding step directive read_flags read_width read_number read_precision read_size convert
    print_unsigned
step_u w fmt args = refl

-- The text that is left in the buffer.
abbrev pub printed_text : Printed → Option (List ℕ)
printed_text (printed o) = some o.written
printed_text _ = none

pub print_loop-step :
    (fuel c : ℕ) (fmt rest : List ℕ) (args more : List Arg) (f : Out → Out) (o : Out)
    → step c fmt args ≡ some (f, (rest, more))
    → print_loop (suc fuel) (c ∷ fmt) args o ≡ print_loop fuel rest more (f o)
unfolding print_loop
print_loop-step fuel c fmt rest args more f o h = rw (h, print_loop) refl

-- One `%u` in a format, and one byte that is no percent sign.
pub print_loop_u :
    (fuel v : ℕ) (fmt : List ℕ) (args : List Arg) (o : Out)
    → print_loop (suc fuel) (b'%' ∷ b'u' ∷ fmt) (Arg.word v ∷ args) o
      ≡ print_loop fuel fmt args (emit (unsigned_text (u32 v)) o)
print_loop_u fuel v fmt args o =
    print_loop-step fuel b'%' (b'u' ∷ fmt) fmt (Arg.word v ∷ args) args
      (show_unsigned plain b'u' (u32 v)) o (step_u v fmt args)
    ∙ ap (print_loop fuel fmt args) (
        out_uint_fmt-Emits (u32 v) 10 0 false 0 (negsuc 0) [] false false o
        ∙ ap (λ t. emit t o) (plain_text (u32 v) 10 0))

step_char :
    (c : ℕ) (fmt : List ℕ) (args : List Arg)
    → (c == b'%') ≡ false
    → step c fmt args ≡ some (out_char c, (fmt, args))
unfolding step
step_char c fmt args h = rw h refl

pub print_loop_char :
    (fuel c : ℕ) (fmt : List ℕ) (args : List Arg) (o : Out)
    → (c == b'%') ≡ false
    → print_loop (suc fuel) (c ∷ fmt) args o ≡ print_loop fuel fmt args (out_char c o)
print_loop_char fuel c fmt args o h =
    print_loop-step fuel c fmt fmt args args (out_char c) o (step_char c fmt args h)
