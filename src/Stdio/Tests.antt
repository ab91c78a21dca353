-- ===== src/Stdio/Tests.antt =====
-- Formatted output and input and streams at concrete inputs.
use lamp_userspace.Prelude.{
  ℕ, zero, suc, ◌≤◌, ◌<◌, ◌≡◌, ◌⊎◌, refl, ap, Bool, true, false, List, [], ◌∷◌, ◌++◌, length, take,
  drop, Option, none, some, arith,
}
use lamp_userspace.Prelude.Text.{codes}
use lamp_userspace.Stdio.Output.{
  out_char, out_mem, out_repeat, out_padded, utoa_rev, out_back, out_sign, out_uint_fmt, word_bits,
}
use lamp_userspace.Stdio.Output.Emit.{reversed}
use lamp_userspace.Stdio.Output.Digits.{Writes, utoa_rev_lem}
use lamp_userspace.Stdio.Directive.{
  Arg, read_flags, read_number, read_width, read_precision, read_size,
}
use lamp_userspace.Stdio.Format.{
  print_text, print_char, print_signed, print_unsigned, print_pointer, convert, directive, step,
  print_loop, bad_argument, vsnprintf,
}
use lamp_userspace.Stdio.Format.Contract.{Prints, vsnprintf_lem}
use lamp_userspace.Stdio.Decimal.{printed_text}
use lamp_userspace.Stdio.Unsigned.{skip_blanks, scan_digit, scan_digits, scan_unsigned}
use lamp_userspace.Stdio.Scan.{
  Stored, Scanned, scanned, scan_chars, word_length, scan_text, scan_offset, scan_number, round,
  scan_loop, sscanf,
}
use lamp_userspace.Stdio.RoundTrip.{sscanf-vsnprintf}
use lamp_userspace.Stdio.Stream.{File, Read, got, fgetc, fread, fgets}
use lamp_userspace.Stdio.Stream.Contents.{IsSource, contents}
use lamp_userspace.Stdio.Stream.Reading.{Gets, fread_lem, fgetc_lem}
use lamp_userspace.Stdio.Stream.Lines.{fgets_lem}

utoa_rev_lem_example :
    Writes 16 48879 (reversed (utoa_rev word_bits 48879 16 false))
    × ((upper : Bool) → length (utoa_rev word_bits 48879 16 upper) ≤ 22)
utoa_rev_lem_example = utoa_rev_lem 48879 16 (omega arith) (omega arith)

abbrev format_run : List ℕ
format_run = codes "%5d|%-4x|%+.3i|%#X|%.2s|%c|%05u%%"

abbrev run_args : List Arg
run_args =
    Arg.word 4294967289
    ∷ Arg.word 255
    ∷ Arg.word 7
    ∷ Arg.word 171
    ∷ Arg.text (some (codes "abc"))
    ∷ Arg.word 122
    ∷ Arg.word 42
    ∷ []

vsnprintf_run :
    printed_text (vsnprintf true 64 format_run run_args)
    ≡ some (codes "   -7|ff  |+007|0XAB|ab|z|00042%")
unfolding vsnprintf print_loop step directive read_flags read_number read_width read_precision
    read_size convert print_text print_char print_signed print_unsigned print_pointer out_char
    out_mem out_repeat out_padded utoa_rev out_back out_sign out_uint_fmt
vsnprintf_run = refl

vsnprintf_cut :
    printed_text (vsnprintf true 4 (codes "%s") (Arg.text none ∷ [])) ≡ some (codes "(nu")
unfolding vsnprintf print_loop step directive read_flags read_number read_width read_precision
    read_size convert print_text out_char out_mem out_repeat out_padded
vsnprintf_cut = refl

vsnprintf_lem_example :
    ((has_buffer : Bool) (size : ℕ) → vsnprintf has_buffer size format_run run_args ≡ bad_argument)
    ⊎ ((s : List ℕ) × ((has_buffer : Bool) (size : ℕ)
          → Prints s has_buffer size (vsnprintf has_buffer size format_run run_args)))
vsnprintf_lem_example = vsnprintf_lem format_run run_args

sscanf_run :
    sscanf (some (codes "x= -12 ff word,9")) (some (codes "x=%d %x %s%n"))
    ≡ scanned 3 (
        Stored.word 4294967284
        ∷ Stored.word 255
        ∷ Stored.text (codes "word,9")
        ∷ Stored.word 16
        ∷ [])
unfolding sscanf scan_loop round lamp_userspace.Stdio.Scan.directive
    lamp_userspace.Stdio.Scan.convert lamp_userspace.Stdio.Scan.read_width skip_blanks scan_digit
    scan_digits scan_unsigned word_length scan_text scan_offset scan_number
sscanf_run = refl

sscanf-vsnprintf_example :
    (sscanf
        (printed_text (vsnprintf true 24 (codes "%d") (Arg.word 4294967289 ∷ [])))
        (some (codes "%d"))
      ≡ scanned 1 (Stored.word 4294967289 ∷ []))
    × (sscanf
          (printed_text (vsnprintf true 24 (codes "%u") (Arg.word 4294967289 ∷ [])))
          (some (codes "%u"))
        ≡ scanned 1 (Stored.word 4294967289 ∷ []))
sscanf-vsnprintf_example = sscanf-vsnprintf 24 4294967289 (omega arith) (omega arith)

-- A descriptor that delivers what is asked for, as long as there is something.
abbrev read_all : ℕ → ℕ → List ℕ → Read × List ℕ
read_all fd count w = (got (take count w), drop count w)

take-drop : (n : ℕ) (s : List ℕ) → s ≡ take n s ++ drop n s
take-drop zero s = refl
take-drop (suc n) [] = refl
take-drop (suc n) (c ∷ s) = ap (λ t. c ∷ t) (take-drop n s)

length-take : (n : ℕ) (s : List ℕ) → length (take n s) ≤ n
length-take zero s = omega arith
length-take (suc n) [] = omega arith
length-take (suc n) (c ∷ s) = omega (arith, length-take n s)

take_empty : (n : ℕ) (s : List ℕ) → 0 < n → take n s ≡ [] → s ≡ []
take_empty zero s h e = elim h [ ]
take_empty (suc n) [] h e = refl
take_empty (suc n) (c ∷ s) h e = cc

read_all-IsSource : IsSource read_all 3 (λ w. w)
read_all-IsSource = record {
  piece = λ count w h. record {
    bytes = take count w;
    after = drop count w;
    result = refl;
    front = take-drop count w;
    short = length-take count w;
    end = take_empty count w h;
  };
}

abbrev pushed_back : File
pushed_back = record { fd = 3; eof = false; err = false; pushback = some b'a' }

fread_lem_example :
    (stream' : Option File) × ((w' : List ℕ) × ((fread read_all 2 2
            (some pushed_back)
            (codes "bcdef")
          ≡ some (2, (codes "abcd", (stream', w'))))
        × (contents (λ w. w) stream' w' ≡ codes "ef")))
fread_lem_example =
    fread_lem read_all 3 (λ w. w) read_all-IsSource 2 2 (some pushed_back) (codes "bcdef")
      (λ e. omega (arith, e)) (λ e. omega (arith, e)) (omega arith) refl

fgetc_lem_example :
    Gets read_all 3
      (λ w. w)
      read_all-IsSource
      (codes "abc")
      (fgetc read_all
        (some (record { fd = 3; eof = false; err = false; pushback = some b'a' }))
        (codes "bc"))
fgetc_lem_example =
    fgetc_lem read_all 3 (λ w. w) read_all-IsSource false false (some b'a') (codes "bc")

fgets_lem_example :
    (w' : List ℕ) × ((fgets read_all 80 (some pushed_back) (codes "bc\nd")
        ≡ (some (codes "bc\n"), w'))
      × (contents (λ w. w) (some pushed_back) w' ≡ codes "ad"))
fgets_lem_example =
    fgets_lem read_all 3 (λ w. w) read_all-IsSource 80 (some pushed_back) (codes "bc\nd")
      (λ e. omega (arith, e)) refl
