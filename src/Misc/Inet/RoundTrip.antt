-- ===== src/Misc/Inet/RoundTrip.antt =====
-- Addresses as texts and back.
use lamp_userspace.Prelude.{
  ℕ, ◌-◌, ◌/◌, ◌%◌, ◌^◌, ◌≤◌, ◌<◌, ◌≡◌, ◌≢◌, refl, ap, ◌∙◌, true, false, leb, if◌then◌else◌, List,
  [], ◌∷◌, ◌++◌, length, length-append, some, u32, arith, Bool-cases, inl, inr, ==-false,
}
use lamp_userspace.Stdio.Output.{utoa_rev, word_bits}
use lamp_userspace.Stdio.Output.Emit.{emit, emit-append}
use lamp_userspace.Stdio.Output.Buffer.{emit_written, emit_count}
use lamp_userspace.Stdio.Output.Digits.{Writes, utoa_rev_lem, utoa_rev-shorter}
use lamp_userspace.Stdio.Decimal.{unsigned_text, printed_text, print_loop_u, print_loop_char}
use lamp_userspace.Stdio.RoundTrip.{take_whole, length-reversed}
use lamp_userspace.Stdio.Format.{printed, print_loop, start, vsnprintf}
use lamp_userspace.Misc.Inet.{
  htonl, join, inet_parts, inet_aton, print_dotted, inet_ntoa, af_inet, enospc, address_text,
  failed, fitting, inet_ntop, address, pton_of, inet_pton,
}
use lamp_userspace.Misc.Inet.Parts.{inet_parts-dot, inet_parts-last}

-- The text of a word's four bytes, the highest first.
abbrev pub dotted : ℕ → List ℕ
dotted a =
    unsigned_text (u32 (a / 2 ^ 24 % 2 ^ 8))
    ++ (b'.'
        ∷ (unsigned_text (u32 (a / 2 ^ 16 % 2 ^ 8))
            ++ (b'.'
                ∷ (unsigned_text (u32 (a / 2 ^ 8 % 2 ^ 8))
                    ++ (b'.' ∷ unsigned_text (u32 (a % 2 ^ 8)))))))

print_dotted_lem : (size a : ℕ) → print_dotted size a ≡ printed (emit (dotted a) (start true size))
unfolding vsnprintf print_loop
print_dotted_lem size a =
    print_loop_u 10 (a / 2 ^ 24 % 2 ^ 8) _ _ _
    ∙ (print_loop_char 9 b'.' _ _ _ refl
        ∙ (print_loop_u 8 (a / 2 ^ 16 % 2 ^ 8) _ _ _
            ∙ (print_loop_char 7 b'.' _ _ _ refl
                ∙ (print_loop_u 6 (a / 2 ^ 8 % 2 ^ 8) _ _ _
                    ∙ (print_loop_char 5 b'.' _ _ _ refl
                        ∙ (print_loop_u 4 (a % 2 ^ 8) _ _ _ ∙ ap printed (simp emit-append)))))))

htonl-htonl : (a : ℕ) → a < 2 ^ 32 → htonl (htonl a) ≡ a
htonl-htonl a small = omega (arith, small)

parts_lem :
    (a : ℕ)
    → inet_parts 3 (dotted a)
      ≡ some (
          u32 (a / 2 ^ 24 % 2 ^ 8)
          ∷ u32 (a / 2 ^ 16 % 2 ^ 8)
          ∷ u32 (a / 2 ^ 8 % 2 ^ 8)
          ∷ u32 (a % 2 ^ 8)
          ∷ [])
parts_lem a = inet_parts-dot _ _ (written (a / 2 ^ 24)) (omega arith) 2 _ _ (
    inet_parts-dot _ _ (written (a / 2 ^ 16)) (omega arith) 1 _ _ (
      inet_parts-dot _ _ (written (a / 2 ^ 8)) (omega arith) 0 _ _
        (inet_parts-last _ _ (written a) (omega arith))))
  where
    written : (n : ℕ) → Writes 10 (u32 (n % 2 ^ 8)) (unsigned_text (u32 (n % 2 ^ 8)))
    written n = (utoa_rev_lem (u32 (n % 2 ^ 8)) 10 (omega arith) (omega arith)).0

-- `inet_aton` reads the text of an address as the address.
inet_aton-dotted : (a : ℕ) → a < 2 ^ 32 → inet_aton (some (dotted (htonl a))) true ≡ some a
unfolding inet_aton
inet_aton-dotted a small = ap join (parts_lem (htonl a)) ∙ ap some (omega (arith, small))

byte_length : (n : ℕ) → length (unsigned_text (u32 (n % 2 ^ 8))) ≤ 3
byte_length n = omega (
  arith,
  length-reversed (utoa_rev word_bits (u32 (n % 2 ^ 8)) 10 false),
  utoa_rev-shorter 2 word_bits (u32 (n % 2 ^ 8)) 10 false (omega arith) (omega arith),
)

length-four :
    (s t u v : List ℕ)
    → length s ≤ 3
    → length t ≤ 3
    → length u ≤ 3
    → length v ≤ 3
    → length (s ++ (b'.' ∷ (t ++ (b'.' ∷ (u ++ (b'.' ∷ v)))))) ≤ 15
length-four s t u v hs ht hu hv = omega (
  arith,
  hs,
  ht,
  hu,
  hv,
  length-append s (b'.' ∷ (t ++ (b'.' ∷ (u ++ (b'.' ∷ v))))),
  length-append t (b'.' ∷ (u ++ (b'.' ∷ v))),
  length-append u (b'.' ∷ v),
)

length-dotted : (a : ℕ) → length (dotted a) ≤ 15
length-dotted a =
    length-four _ _ _ _ (byte_length (a / 2 ^ 24)) (byte_length (a / 2 ^ 16))
      (byte_length (a / 2 ^ 8)) (byte_length a)

inet_ntoa-dotted : (a : ℕ) → inet_ntoa a ≡ some (dotted (htonl a))
unfolding inet_ntoa
inet_ntoa-dotted a =
    ap printed_text (print_dotted_lem 16 (htonl a))
    ∙ ap some (
        emit_written (dotted (htonl a)) [] 16 0
        ∙ take_whole 15 (dotted (htonl a)) (length-dotted (htonl a)))

-- The text that `inet_ntoa` gives for a 32-bit address is read by `inet_aton` as the same address.
pub inet_aton-inet_ntoa : (a : ℕ) → a < 2 ^ 32 → inet_aton (inet_ntoa a) true ≡ some a
inet_aton-inet_ntoa a small =
    ap (λ t. inet_aton t true) (inet_ntoa-dotted a) ∙ inet_aton-dotted a small

fitting_lem :
    (size : ℕ) (s : List ℕ)
    → fitting size (printed (emit s (start true size)))
      ≡ (if leb size (length s) then failed enospc else address_text s)
fitting_lem size s =
    let count : (emit s (start true size)).count ≡ length s =
      emit_count s (start true size) ∙ omega arith in
    ap
      (λ (n : ℕ).
        if leb size n then failed enospc else address_text (emit s (start true size)).written)
      count
    ∙ elim (Bool-cases (leb size (length s))) [
      | inl full ↦ rw full refl
      | inr room ↦
          rw room
            (ap address_text (emit_written s [] size 0 ∙ take_whole (size - 1) s (ground arith)))
    ]

-- For each 32-bit address there is a text of at most 15 bytes that `inet_pton` reads as the address, and
-- for every buffer size but 0 `inet_ntop` gives this text, or fails with `ENOSPC` exactly when the text and
-- its zero do not fit.
pub inet_ntop-inet_pton :
    (a : ℕ)
    → a < 2 ^ 32
    → (text : List ℕ) × ((length text ≤ 15)
        × ((inet_pton af_inet (some text) true ≡ address a)
            × ((size : ℕ)
                → size ≢ 0
                → inet_ntop af_inet (some a) true size
                  ≡ (if leb size (length text) then failed enospc else address_text text))))
unfolding inet_pton inet_ntop
inet_ntop-inet_pton a small = (
  dotted (htonl a),
  (
    length-dotted (htonl a),
    (
      ap pton_of (inet_aton-dotted a small),
      λ size room. rw (==-false size 0 room) (
          ap (fitting size) (print_dotted_lem size (htonl a))
          ∙ fitting_lem size (dotted (htonl a))),
    ),
  ),
)
