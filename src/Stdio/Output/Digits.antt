-- ===== src/Stdio/Output/Digits.antt =====
-- The digits of `utoa_rev`.
use lamp_userspace.Prelude.{
  ℕ, zero, suc, ◌+◌, ◌-◌, ◌*◌, ◌/◌, ◌%◌, ◌^◌, ◌≤◌, ◌<◌, ◌≡◌, ◌≢◌, refl, ap, sym, ◌∙◌, Bool, false,
  ltb, ◌==◌, if◌then◌else◌, List, [], ◌∷◌, ◌++◌, map, length, arith, Bool-cases, inl, inr, ==_iff,
  ==-false,
}
use native.Mathlib.Decide.{ℕ_discrete}
use native.Mathlib.Nat.{div-add-mod', mod-lt, div-lt_iff_lt-mul, pow-suc, mul-le-mul_left}
use lamp_userspace.Stdlib.Number.Numeral.{digit_char, Digits, horner}
use lamp_userspace.Stdio.Output.{utoa_rev, word_bits}
use lamp_userspace.Stdio.Output.Emit.{reversed}

pub Digits-append :
    (base : ℕ) (xs : List ℕ) (d : ℕ) → Digits base xs → d < base → Digits base (xs ++ (d ∷ []))
Digits-append base [] d h l = (l, tt)
Digits-append base (x ∷ xs) d (first, h) l = (first, Digits-append base xs d h l)

pub horner-append :
    (base v : ℕ) (xs : List ℕ) (d : ℕ)
    → horner base v (xs ++ (d ∷ [])) ≡ horner base v xs * base + d
horner-append base v [] d = refl
horner-append base v (x ∷ xs) d = horner-append base (v * base + x) xs d

map-append :
    (xs : List ℕ) (d : ℕ)
    → map digit_char (xs ++ (d ∷ [])) ≡ map digit_char xs ++ (digit_char d ∷ [])
map-append [] d = refl
map-append (x ∷ xs) d = ap (λ ys. digit_char x ∷ ys) (map-append xs d)

-- A text that writes `v` in lower-case digits of the base.
pub record Writes (base v : ℕ) (s : List ℕ) : Type 0 where
  pub first : ℕ
  pub others : List ℕ
  pub digits : Digits base (first ∷ others)
  pub value : horner base 0 (first ∷ others) ≡ v
  pub shown : s ≡ map digit_char (first ∷ others)

digit_lem : (d : ℕ) → (if ltb d 10 then b'0' + d else b'a' + d - 10) ≡ digit_char d
digit_lem d = ground arith

Writes-append :
    (base v d : ℕ) (s : List ℕ)
    → d < base
    → Writes base v s
    → Writes base (v * base + d) (s ++ (digit_char d ∷ []))
Writes-append base v d s l w = record {
  first = w.first;
  others = w.others ++ (d ∷ []);
  digits = Digits-append base (w.first ∷ w.others) d w.digits l;
  value = horner-append base 0 (w.first ∷ w.others) d ∙ ap (λ (n : ℕ). n * base + d) w.value;
  shown = ap (λ t. t ++ (digit_char d ∷ [])) w.shown ∙ sym (map-append (w.first ∷ w.others) d);
}

div_smaller : (left v base : ℕ) → 2 ≤ base → v < 2 ^ suc left → v / base < 2 ^ left
div_smaller left v base big small =
    (div-lt_iff_lt-mul {k = base} {x = v} {y = 2 ^ left} (omega arith)).1
      (omega (arith, small, pow-suc 2 left, mul-le-mul_left (2 ^ left) big))

utoa_rev_last :
    (left v base : ℕ)
    → 2 ≤ base
    → v / base ≡ 0
    → utoa_rev (suc left) v base false ≡ digit_char (v % base) ∷ []
unfolding utoa_rev
utoa_rev_last left v base big last =
    rw ((==_iff (v / base) 0).1 last) (ap (λ (c : ℕ). c ∷ []) (digit_lem (v % base)))

utoa_rev_more :
    (left v base : ℕ)
    → 2 ≤ base
    → v / base ≢ 0
    → utoa_rev (suc left) v base false ≡ digit_char (v % base) ∷ utoa_rev left (v / base) base false
unfolding utoa_rev
utoa_rev_more left v base big more =
    rw (==-false (v / base) 0 more)
      (ap (λ (c : ℕ). c ∷ utoa_rev left (v / base) base false) (digit_lem (v % base)))

Writes-one : (base v : ℕ) → v < base → Writes base v (digit_char v ∷ [])
Writes-one base v l = record {
  first = v;
  others = [];
  digits = (l, tt);
  value = omega arith;
  shown = refl;
}

Writes-same : (base v w : ℕ) (s t : List ℕ) → v ≡ w → s ≡ t → Writes base v s → Writes base w t
Writes-same base v w s t e f h = record {
  first = h.first;
  others = h.others;
  digits = h.digits;
  value = h.value ∙ e;
  shown = sym f ∙ h.shown;
}

Writes-last :
    (left v base : ℕ)
    → 2 ≤ base
    → v / base ≡ 0
    → Writes base v (reversed (utoa_rev (suc left) v base false))
Writes-last left v base big last =
    let whole = div-add-mod' v base in
    let same : v % base ≡ v = omega (arith, whole, ap (λ (q : ℕ). q * base) last) in
    Writes-same base (v % base) v _ _ same (ap reversed (sym (utoa_rev_last left v base big last)))
      (Writes-one base (v % base) (mod-lt v (omega (arith, big))))

-- With enough rounds `utoa_rev` writes its number.
pub utoa_rev-Writes :
    (left v base : ℕ)
    → 2 ≤ base
    → v < 2 ^ suc left
    → Writes base v (reversed (utoa_rev (suc left) v base false))
utoa_rev-Writes zero v base big small =
    Writes-last zero v base big (omega (arith, div_smaller zero v base big small))
utoa_rev-Writes (suc left) v base big small = elim (ℕ_discrete (v / base) 0) [
  | yes last ↦ Writes-last (suc left) v base big last
  | no more ↦
      Writes-same base _ v _ _ (div-add-mod' v base)
        (ap reversed (sym (utoa_rev_more (suc left) v base big more)))
        (Writes-append base (v / base) (v % base) _ (mod-lt v (omega (arith, big)))
          (utoa_rev-Writes left (v / base) base big (div_smaller (suc left) v base big small)))
]

pub utoa_rev-shorter :
    (n left v base : ℕ) (upper : Bool)
    → 8 ≤ base
    → v < 8 ^ suc n
    → length (utoa_rev left v base upper) ≤ suc n
unfolding utoa_rev
utoa_rev-shorter n zero v base upper big small = omega arith
utoa_rev-shorter zero (suc left) v base upper big small =
    let last : v / base ≡ 0 = omega (
      arith,
      (div-lt_iff_lt-mul {k = base} {x = v} {y = 1} (omega arith)).1 (omega (arith, small, big)),
    ) in
    rw ((==_iff (v / base) 0).1 last) (omega arith)
utoa_rev-shorter (suc n) (suc left) v base upper big small =
    let less : v / base < 8 ^ suc n =
      (div-lt_iff_lt-mul {k = base} {x = v} {y = 8 ^ suc n} (omega arith)).1
        (omega (arith, small, pow-suc 8 (suc n), mul-le-mul_left (8 ^ suc n) big)) in
    elim (Bool-cases (v / base == 0)) [
      | inl last ↦ rw last (omega arith)
      | inr more ↦ rw more (omega (arith, utoa_rev-shorter n left (v / base) base upper big less))
    ]

-- The digits of a 64-bit word in a base from 8 on are 22 at most, so they stay in the array of 32; and
-- in the order in which they are put out, lower case, they write the word.
pub utoa_rev_lem :
    (v base : ℕ)
    → v < 2 ^ 64
    → 8 ≤ base
    → Writes base v (reversed (utoa_rev word_bits v base false))
      × ((upper : Bool) → length (utoa_rev word_bits v base upper) ≤ 22)
utoa_rev_lem v base small big = (
  utoa_rev-Writes 63 v base (omega arith) small,
  λ upper. utoa_rev-shorter 21 word_bits v base upper big (omega (arith, small)),
)
