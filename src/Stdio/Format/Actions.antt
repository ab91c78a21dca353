-- ===== src/Stdio/Format/Actions.antt =====
-- Every step of the loop puts out one text, whatever the state.
use lamp_userspace.Prelude.{
  ℕ, ◌≤◌, Bool, true, false, ◌||◌, ◌==◌, if◌then◌else◌, List, [], ◌∷◌, length, none, some, arith,
}
use lamp_userspace.Stdio.Output.Emit.{
  IsEmitter, out_char-IsEmitter, out_padded-IsEmitter, out_uint_fmt-IsEmitter,
}
use lamp_userspace.Stdio.Directive.{
  Arg, word, double_word, text, Spec, Reader, read_flags, read_precision, read_size, plain,
}
use lamp_userspace.Stdio.Format.{
  Action, print_text, print_char, print_signed, print_unsigned, print_pointer, convert,
  with_precision, with_width, directive, step,
}
use lamp_userspace.Stdio.Format.Readers.{
  Within, read_flags-le, read_size-le, read_width-Within, read_precision-Within,
}

-- An action that puts out a text, and leaves a format not longer than `n`.
abbrev pub Acts : ℕ → Action → Type 0
Acts n none = Unit
Acts n (some (f, (rest, args))) = IsEmitter f × (length rest ≤ n)

pub Acts-le : (n m : ℕ) (r : Action) → n ≤ m → Acts n r → Acts m r
Acts-le n m none le h = tt
Acts-le n m (some (f, (rest, args))) le (h, short) = (h, omega (arith, short, le))

pub print_text-Acts :
    (spec : Spec) (fmt : List ℕ) (args : List Arg) → Acts (length fmt) (print_text spec fmt args)
unfolding print_text
print_text-Acts spec fmt [] = tt
print_text-Acts spec fmt (word w ∷ args) = tt
print_text-Acts spec fmt (double_word w ∷ args) = tt
print_text-Acts spec fmt (text none ∷ args) = (out_padded-IsEmitter _ _ _ _, omega arith)
print_text-Acts spec fmt (text (some s) ∷ args) = (out_padded-IsEmitter _ _ _ _, omega arith)

pub print_char-Acts :
    (spec : Spec) (fmt : List ℕ) (args : List Arg) → Acts (length fmt) (print_char spec fmt args)
unfolding print_char
print_char-Acts spec fmt [] = tt
print_char-Acts spec fmt (word w ∷ args) = (out_padded-IsEmitter _ _ _ _, omega arith)
print_char-Acts spec fmt (double_word w ∷ args) = tt
print_char-Acts spec fmt (text s ∷ args) = tt

pub print_pointer-Acts :
    (spec : Spec) (fmt : List ℕ) (args : List Arg) → Acts (length fmt) (print_pointer spec fmt args)
unfolding print_pointer
print_pointer-Acts spec fmt [] = tt
print_pointer-Acts spec fmt (word w ∷ args) =
    (out_uint_fmt-IsEmitter _ _ _ _ _ _ _ _ _, omega arith)
print_pointer-Acts spec fmt (double_word w ∷ args) = tt
print_pointer-Acts spec fmt (text s ∷ args) = tt

pub if_none : (b : Bool) (n : ℕ) (r : Action) → Acts n r → Acts n (if b then none else r)
if_none true n r h = tt
if_none false n r h = h

pub if_some : (b : Bool) (n : ℕ) (r : Action) → Acts n r → Acts n (if b then r else none)
if_some true n r h = h
if_some false n r h = tt

pub print_signed-Acts :
    (spec : Spec) (fmt : List ℕ) (args : List Arg) → Acts (length fmt) (print_signed spec fmt args)
unfolding print_signed
print_signed-Acts spec fmt [] = tt
print_signed-Acts spec fmt (word w ∷ args) =
    if_none (spec.size == 2) _ _ (out_uint_fmt-IsEmitter _ _ _ _ _ _ _ _ _, omega arith)
print_signed-Acts spec fmt (double_word w ∷ args) =
    if_some (spec.size == 2) _ _ (out_uint_fmt-IsEmitter _ _ _ _ _ _ _ _ _, omega arith)
print_signed-Acts spec fmt (text s ∷ args) = tt

pub print_unsigned-Acts :
    (spec : Spec) (c : ℕ) (fmt : List ℕ) (args : List Arg)
    → Acts (length fmt) (print_unsigned spec c fmt args)
unfolding print_unsigned
print_unsigned-Acts spec c fmt [] = tt
print_unsigned-Acts spec c fmt (word w ∷ args) =
    if_none (spec.size == 2) _ _ (out_uint_fmt-IsEmitter _ _ _ _ _ _ _ _ _, omega arith)
print_unsigned-Acts spec c fmt (double_word w ∷ args) =
    if_some (spec.size == 2) _ _ (out_uint_fmt-IsEmitter _ _ _ _ _ _ _ _ _, omega arith)
print_unsigned-Acts spec c fmt (text s ∷ args) = tt

pub ifs : (b : Bool) (n : ℕ) (r t : Action) → Acts n r → Acts n t → Acts n (if b then r else t)
ifs true n r t h k = h
ifs false n r t h k = k

pub convert-Acts :
    (spec : Spec) (fmt : List ℕ) (args : List Arg) → Acts (length fmt) (convert spec fmt args)
unfolding convert
convert-Acts spec [] args = (out_char-IsEmitter 0, omega arith)
convert-Acts spec (c ∷ fmt) args = Acts-le (length fmt) _ _ (omega arith) (
    ifs (c == b's') _ _ _ (print_text-Acts spec fmt args) (
      ifs (c == b'c') _ _ _ (print_char-Acts spec fmt args) (
        ifs (c == b'd' || c == b'i') _ _ _ (print_signed-Acts spec fmt args) (
          ifs (c == b'u' || c == b'x' || c == b'X' || c == b'o') _ _ _
            (print_unsigned-Acts spec c fmt args)
            (ifs (c == b'p') _ _ _ (print_pointer-Acts spec fmt args)
              (out_char-IsEmitter c, omega arith))))))

pub with_precision-Acts : (n : ℕ) (r : Reader Spec) → Within n r → Acts n (with_precision r)
with_precision-Acts n none h = tt
with_precision-Acts n (some (spec, (fmt, args))) h =
    let (sized, rest) = read_size spec fmt in
    Acts-le (length (read_size spec fmt).1) n _ (omega (arith, h, read_size-le spec fmt))
      (convert-Acts (read_size spec fmt).0 (read_size spec fmt).1 args)

pub Within-le : {A : Type 0} (n m : ℕ) (r : Reader A) → n ≤ m → Within n r → Within m r
Within-le n m none le h = tt
Within-le n m (some (a, (rest, args))) le h = omega (arith, h, le)

pub with_width-Acts : (n : ℕ) (r : Reader Spec) → Within n r → Acts n (with_width r)
with_width-Acts n none h = tt
with_width-Acts n (some (spec, (fmt, args))) h =
    with_precision-Acts n (read_precision spec fmt args)
      (Within-le (length fmt) n _ h (read_precision-Within spec fmt args))

pub step-Acts : (c : ℕ) (fmt : List ℕ) (args : List Arg) → Acts (length fmt) (step c fmt args)
unfolding step directive
step-Acts c fmt args =
    ifs (c == b'%') _ _ _
      (with_width-Acts (length fmt) _ (
        Within-le (length (read_flags plain fmt).1) (length fmt) _ (read_flags-le plain fmt)
          (read_width-Within (read_flags plain fmt).0 (read_flags plain fmt).1 args)))
      (out_char-IsEmitter c, omega arith)
