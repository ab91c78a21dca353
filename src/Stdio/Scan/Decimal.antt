-- ===== src/Stdio/Scan/Decimal.antt =====
-- `sscanf` with one decimal conversion.
use lamp_userspace.Prelude.{
  ℕ, ◌-◌, ◌^◌, ◌<◌, ◌≡◌, refl, ap, sym, ◌∙◌, Bool, true, false, ◌==◌, List, [], ◌∷◌, map, some, u32,
  u64, arith,
}
use mathlib.Core.List.{append-nil}
use lamp_userspace.Prelude.Text.{codes}
use lamp_userspace.Stdlib.Number.Numeral.{digit_char}
use lamp_userspace.Stdio.Output.Digits.{Writes}
use lamp_userspace.Stdio.Unsigned.{skip_blanks, scan_unsigned}
use lamp_userspace.Stdio.Scan.{
  Spec, Scan, Stored, go, scanned, scan_sign, store_number, scan_number, convert, read_width,
  directive, round, scan_loop, sscanf,
}
use lamp_userspace.Stdio.Scan.Number.{scan_unsigned_lem, skip_blanks_digit}

abbrev decimal : Spec
decimal = record { suppress = false; width = 0; size = 0 }

abbrev from : List ℕ → Scan
from s = record { input = s; assigned = 0; stored = [] }

no_sign :
    (b : Bool) (d : ℕ) (t : List ℕ)
    → d < 16
    → scan_sign b (digit_char d ∷ t) ≡ (false, digit_char d ∷ t)
no_sign false d t h = refl
no_sign true d t h = rw ((sign_char d h).0, (sign_char d h).1) refl
  where
    sign_char :
        (d : ℕ) → d < 16 → ((digit_char d == b'-') ≡ false) × ((digit_char d == b'+') ≡ false)
    sign_char d h = (ground arith, ground arith)

-- A text of digits has neither blanks nor a sign before it.
sign-Writes :
    (b : Bool) (v : ℕ) (s : List ℕ) → Writes 10 v s → scan_sign b (skip_blanks s) ≡ (false, s)
sign-Writes b v s w =
    let small : w.first < 16 = omega (arith, w.digits.0) in
    ap (λ t. scan_sign b (skip_blanks t)) w.shown
    ∙ (ap (scan_sign b) (skip_blanks_digit w.first (map digit_char w.others) small)
        ∙ (no_sign b w.first (map digit_char w.others) small
            ∙ ap (λ (t : List ℕ). (false, t)) (sym w.shown)))

unsigned-Writes :
    (v : ℕ) (s : List ℕ) → v < 2 ^ 64 → Writes 10 v s → scan_unsigned s 0 10 ≡ some (v, [])
unsigned-Writes v s small w =
    ap (λ t. scan_unsigned t 0 10) (sym (append-nil s))
    ∙ scan_unsigned_lem 10 v s [] (omega arith) (omega arith) small w tt

scan_number_signed :
    (v : ℕ) (s : List ℕ)
    → v < 2 ^ 64
    → Writes 10 v s
    → scan_number decimal b'd' [] (from s)
      ≡ store_number decimal b'd' [] (from s) false (some (v, []))
unfolding scan_number
scan_number_signed v s small w =
    ap (λ (p : Bool × List ℕ). store_number decimal b'd' [] (from s) p.0 (scan_unsigned p.1 0 10))
      (sign-Writes true v s w)
    ∙ ap (store_number decimal b'd' [] (from s) false) (unsigned-Writes v s small w)

scan_number_minus :
    (v : ℕ) (s : List ℕ)
    → v < 2 ^ 64
    → Writes 10 v s
    → scan_number decimal b'd' [] (from (b'-' ∷ s))
      ≡ store_number decimal b'd' [] (from (b'-' ∷ s)) true (some (v, []))
unfolding scan_number skip_blanks
scan_number_minus v s small w =
    ap (store_number decimal b'd' [] (from (b'-' ∷ s)) true) (unsigned-Writes v s small w)

scan_number_unsigned :
    (v : ℕ) (s : List ℕ)
    → v < 2 ^ 64
    → Writes 10 v s
    → scan_number decimal b'u' [] (from s)
      ≡ store_number decimal b'u' [] (from s) false (some (v, []))
unfolding scan_number
scan_number_unsigned v s small w =
    ap (λ (p : Bool × List ℕ). store_number decimal b'u' [] (from s) p.0 (scan_unsigned p.1 0 10))
      (sign-Writes false v s w)
    ∙ ap (store_number decimal b'u' [] (from s) false) (unsigned-Writes v s small w)

sscanf_go :
    (str : List ℕ) (c d : ℕ) (st : Scan)
    → round str c (d ∷ []) (from str) ≡ go [] st
    → sscanf (some str) (some (c ∷ d ∷ [])) ≡ scanned st.assigned st.stored
unfolding sscanf scan_loop
sscanf_go str c d st h = rw (h, scan_loop) refl

pub sscanf-positive :
    (v : ℕ) (s : List ℕ)
    → v < 2 ^ 64
    → Writes 10 v s
    → sscanf (some s) (some (codes "%d")) ≡ scanned 1 (Stored.word (u32 v) ∷ [])
unfolding round directive convert read_width
sscanf-positive v s small w = sscanf_go s b'%' b'd' _ (scan_number_signed v s small w)

pub sscanf-negative :
    (v : ℕ) (s : List ℕ)
    → v < 2 ^ 64
    → Writes 10 v s
    → sscanf (some (b'-' ∷ s)) (some (codes "%d"))
      ≡ scanned 1 (Stored.word (u32 (u64 (2 ^ 64 - v))) ∷ [])
unfolding round directive convert read_width
sscanf-negative v s small w = sscanf_go (b'-' ∷ s) b'%' b'd' _ (scan_number_minus v s small w)

pub sscanf-unsigned :
    (v : ℕ) (s : List ℕ)
    → v < 2 ^ 64
    → Writes 10 v s
    → sscanf (some s) (some (codes "%u")) ≡ scanned 1 (Stored.word (u32 v) ∷ [])
unfolding round directive convert read_width
sscanf-unsigned v s small w = sscanf_go s b'%' b'u' _ (scan_number_unsigned v s small w)
