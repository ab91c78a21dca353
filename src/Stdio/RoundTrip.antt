-- ===== src/Stdio/RoundTrip.antt =====
-- What `vsnprintf` writes, `sscanf` reads.
use lamp_userspace.Prelude.{
  ℕ, zero, suc, ◌+◌, ◌-◌, ◌^◌, ◌≤◌, ◌<◌, ◌≡◌, refl, ap, ◌∙◌, true, false, ltb, List, [], ◌∷◌,
  length, take, length-append, Bool-cases, inl, inr, some, u32, u64, arith,
}
use lamp_userspace.Prelude.Int.{ℤ, pos, negsuc}
use lamp_userspace.Prelude.Text.{codes}
use lamp_userspace.Stdio.Decimal.{
  plain_text, signed_text, unsigned_text, step_d, print_loop_u, print_loop-step, printed_text,
}
use lamp_userspace.Stdio.Output.{Out, utoa_rev, word_bits}
use lamp_userspace.Stdio.Output.Buffer.{emit_written}
use lamp_userspace.Stdio.Output.Emit.{emit, reversed, out_uint_fmt-Emits}
use lamp_userspace.Stdio.Output.Digits.{utoa_rev_lem}
use lamp_userspace.Stdio.Directive.{Arg, plain, signed32}
use lamp_userspace.Stdio.Format.{magnitude, sign_of, show_signed, print_loop, start, vsnprintf}
use lamp_userspace.Stdio.Scan.{Stored, scanned, sscanf}
use lamp_userspace.Stdio.Scan.Decimal.{sscanf-positive, sscanf-negative, sscanf-unsigned}

printed_d :
    (size w : ℕ)
    → printed_text (vsnprintf true size (codes "%d") (Arg.word w ∷ []))
      ≡ some (take (size - 1) (signed_text (signed32 w)))
unfolding vsnprintf print_loop
printed_d size w =
    let z = signed32 w in
    ap printed_text (
      print_loop-step 1 b'%' (b'd' ∷ []) [] (Arg.word w ∷ []) [] (show_signed plain z)
        (start true size) (step_d w [] []))
    ∙ ap some (
        ap (λ (o : Out). o.written)
          (out_uint_fmt-Emits (magnitude z) 10 (sign_of plain z) false 0 (negsuc 0) [] false false
              (start true size)
            ∙ ap (λ t. emit t (start true size)) (plain_text (magnitude z) 10 (sign_of plain z)))
        ∙ emit_written (signed_text z) [] size 0)

printed_u :
    (size w : ℕ)
    → printed_text (vsnprintf true size (codes "%u") (Arg.word w ∷ []))
      ≡ some (take (size - 1) (unsigned_text (u32 w)))
unfolding vsnprintf print_loop
printed_u size w =
    ap printed_text (print_loop_u 1 w [] [] (start true size))
    ∙ ap some (emit_written (unsigned_text (u32 w)) [] size 0)

pub take_whole : (n : ℕ) (s : List ℕ) → length s ≤ n → take n s ≡ s
take_whole zero [] h = refl
take_whole zero (c ∷ s) h = elim h [ ]
take_whole (suc n) [] h = refl
take_whole (suc n) (c ∷ s) h = ap (λ t. c ∷ t) (take_whole n s (omega (arith, h)))

pub length-reversed : (ds : List ℕ) → length (reversed ds) ≡ length ds
length-reversed [] = refl
length-reversed (d ∷ ds) = omega (arith, length-append (reversed ds) (d ∷ []), length-reversed ds)

-- The digits of a word fit a buffer of 24 bytes, with a sign and the zero.
digits_fit :
    (size v : ℕ)
    → v < 2 ^ 64
    → 24 ≤ size
    → length (reversed (utoa_rev word_bits v 10 false)) ≤ size - 2
digits_fit size v small room = omega (
  arith,
  room,
  length-reversed (utoa_rev word_bits v 10 false),
  (utoa_rev_lem v 10 small (omega arith)).1 false,
)

-- The word that is stored for a number.
abbrev word_of : ℤ → ℕ
word_of (pos n) = u32 n
word_of (negsuc n) = u32 (u64 (2 ^ 64 - (n + 1)))

word_of-signed32 :
    (w : ℕ) → w < 2 ^ 32 → (word_of (signed32 w) ≡ w) × (magnitude (signed32 w) < 2 ^ 64)
word_of-signed32 w small = elim (Bool-cases (ltb (u32 w) (2 ^ 31))) [
  | inl low ↦ rw low (omega (arith, small), omega arith)
  | inr high ↦ rw high (omega (arith, small), omega (arith, small))
]

reads_signed :
    (size : ℕ) (z : ℤ)
    → magnitude z < 2 ^ 64
    → 24 ≤ size
    → sscanf (some (take (size - 1) (signed_text z))) (some (codes "%d"))
      ≡ scanned 1 (Stored.word (word_of z) ∷ [])
reads_signed size (pos n) small room =
    ap (λ t. sscanf (some t) (some (codes "%d")))
      (take_whole (size - 1) _ (omega (arith, digits_fit size n small room)))
    ∙ sscanf-positive n _ small (utoa_rev_lem n 10 small (omega arith)).0
reads_signed size (negsuc n) small room =
    ap (λ t. sscanf (some t) (some (codes "%d")))
      (take_whole (size - 1) _ (omega (arith, room, digits_fit size (n + 1) small room)))
    ∙ sscanf-negative (n + 1) _ small (utoa_rev_lem (n + 1) 10 small (omega arith)).0

reads_unsigned :
    (size v : ℕ)
    → v < 2 ^ 64
    → 24 ≤ size
    → sscanf (some (take (size - 1) (unsigned_text v))) (some (codes "%u"))
      ≡ scanned 1 (Stored.word (u32 v) ∷ [])
reads_unsigned size v small room =
    ap (λ t. sscanf (some t) (some (codes "%u")))
      (take_whole (size - 1) _ (omega (arith, digits_fit size v small room)))
    ∙ sscanf-unsigned v _ small (utoa_rev_lem v 10 small (omega arith)).0

-- `%d` and `%u` round trip: in a buffer of at least 24 bytes `vsnprintf` writes a 32-bit word as a text
-- from which `sscanf` with the same conversion stores the word again.
pub sscanf-vsnprintf :
    (size w : ℕ)
    → w < 2 ^ 32
    → 24 ≤ size
    → (sscanf
          (printed_text (vsnprintf true size (codes "%d") (Arg.word w ∷ [])))
          (some (codes "%d"))
        ≡ scanned 1 (Stored.word w ∷ []))
      × (sscanf
            (printed_text (vsnprintf true size (codes "%u") (Arg.word w ∷ [])))
            (some (codes "%u"))
          ≡ scanned 1 (Stored.word w ∷ []))
sscanf-vsnprintf size w small room =
    let signed = word_of-signed32 w small in
    (
      ap (λ t. sscanf t (some (codes "%d"))) (printed_d size w)
          ∙ (reads_signed size (signed32 w) signed.1 room
              ∙ ap (λ v. scanned 1 (Stored.word v ∷ [])) signed.0),
      ap (λ t. sscanf t (some (codes "%u"))) (printed_u size w)
          ∙ (reads_unsigned size (u32 w) (omega arith) room
              ∙ ap (λ v. scanned 1 (Stored.word v ∷ [])) (omega (arith, small))),
    )
