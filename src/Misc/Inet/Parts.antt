-- ===== src/Misc/Inet/Parts.antt =====
-- `inet_aton` of four numbers in decimal.
use lamp_userspace.Prelude.{
  ℕ, zero, suc, ◌≤◌, ◌≡◌, refl, ap, sym, ◌∙◌, List, [], ◌∷◌, ◌++◌, map, length, length-append, none,
  some, u32, arith, ==-false, ltb-false,
}
use mathlib.Core.List.{append-nil}
use lamp_userspace.Stdlib.Number.{strtoul}
use lamp_userspace.Stdlib.Number.Numeral.{digit_char, Ends, Ends-dot, strtoul_lem}
use lamp_userspace.Stdio.Output.Digits.{Writes}
use lamp_userspace.Misc.Inet.{part_of, inet_parts}

module _ (v : ℕ) (t : List ℕ) (w : Writes 10 v t) (byte : v ≤ 255) where
  abbrev digits : List ℕ
  digits = map digit_char (w.first ∷ w.others)

  part_lem :
      (rest : List ℕ)
      → Ends 10 rest
      → part_of (digits ++ rest) (strtoul (some (digits ++ rest)) 10) ≡ some (v, rest)
  part_lem rest ends =
      let read : strtoul (some (digits ++ rest)) 10
          ≡ record { value = u32 v; end = some rest; error = none } =
        strtoul_lem 10 [] w.first w.others rest (omega arith) (omega arith) (λ e. omega (arith, e))
          tt w.digits ends
        ∙ ap (λ n. record { value = u32 n; end = some rest; error = none }) w.value in
      let whole : u32 v ≡ v = omega (arith, byte) in
      let longer = length-append (map digit_char w.others) rest in
      ap (part_of (digits ++ rest)) read
      ∙ rw
          (
            whole,
            ==-false (length rest) (length (digits ++ rest)) (λ e. omega (arith, e, longer)),
            ltb-false 255 v byte,
          )
          refl

  inet_parts-some :
      (left c : ℕ) (s rest parts : List ℕ)
      → part_of (c ∷ s) (strtoul (some (c ∷ s)) 10) ≡ some (v, b'.' ∷ rest)
      → inet_parts left rest ≡ some parts
      → inet_parts (suc left) (c ∷ s) ≡ some (v ∷ parts)
  unfolding inet_parts
  inet_parts-some left c s rest parts h more = rw (h, inet_parts) (rw more refl)

  inet_parts_end :
      (c : ℕ) (s : List ℕ)
      → part_of (c ∷ s) (strtoul (some (c ∷ s)) 10) ≡ some (v, [])
      → inet_parts zero (c ∷ s) ≡ some (v ∷ [])
  unfolding inet_parts
  inet_parts_end c s h = rw (h, inet_parts) refl

  -- A number up to 255 is read, with what follows its dot.
  pub inet_parts-dot :
      (left : ℕ) (rest parts : List ℕ)
      → inet_parts left rest ≡ some parts
      → inet_parts (suc left) (t ++ (b'.' ∷ rest)) ≡ some (v ∷ parts)
  inet_parts-dot left rest parts more =
      ap (λ s. inet_parts (suc left) (s ++ (b'.' ∷ rest))) w.shown
      ∙ inet_parts-some left (digit_char w.first) _ rest parts
          (part_lem (b'.' ∷ rest) (Ends-dot rest)) more

  pub inet_parts-last : inet_parts zero t ≡ some (v ∷ [])
  inet_parts-last =
      ap (inet_parts zero) (w.shown ∙ sym (append-nil digits))
      ∙ inet_parts_end (digit_char w.first) _ (part_lem [] tt)
