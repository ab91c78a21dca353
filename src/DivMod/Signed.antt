-- ===== src/DivMod/Signed.antt =====
-- `__divdi3` and `__moddi3` divide signed words as C does.
use mathlib.Core.Bool.{xor}
use native.Mathlib.Nat.{div-le_self, div-lt_self, mod-le}
use native.Mathlib.Decide.{dec_lt}
use lamp_userspace.Prelude.{
  ℕ, ◌+◌, ◌-◌, ◌/◌, ◌%◌, ◌^◌, ◌<◌, ◌≤◌, ◌≡◌, ◌⊎◌, false, true, some, Bool-cases, inl, inr, ==-false,
  arith,
}
use lamp_userspace.Prelude.Int.{pos, negsuc, signed64, quot_ℤ, rem_ℤ, sub_ℕ}
use lamp_userspace.DivMod.{udivdi3, umoddi3, uabsdi, is_negative, negate, divdi3, moddi3}
use lamp_userspace.DivMod.Correct.{udivmoddi4_lem}

-- On 64-bit words with a divisor that is not zero `__udivdi3` gives the quotient.
pub udivdi3_lem : (a b : ℕ) → a < 2 ^ 64 → 0 < b → udivdi3 a b ≡ some (a / b)
unfolding udivdi3
udivdi3_lem a b h some_b = rw (udivmoddi4_lem a b h some_b)

-- On 64-bit words with a divisor that is not zero `__umoddi3` gives the remainder.
pub umoddi3_lem : (a b : ℕ) → a < 2 ^ 64 → 0 < b → umoddi3 a b ≡ some (a % b)
unfolding umoddi3
umoddi3_lem a b h some_b = rw (udivmoddi4_lem a b h some_b)

-- What the code reads of a word that stands for a number from zero up, or below zero.
abbrev Nonnegative : ℕ → Type 0
Nonnegative v = (v < 2 ^ 63) × (signed64 v ≡ pos v) × (uabsdi v ≡ v) × (is_negative v ≡ false)

abbrev Negative : ℕ → Type 0
Negative v =
    (2 ^ 63 ≤ v)
    × (signed64 v ≡ negsuc (2 ^ 64 - v - 1))
    × (uabsdi v ≡ 2 ^ 64 - v - 1 + 1)
    × (is_negative v ≡ true)

sign_cases : (v : ℕ) → v < 2 ^ 64 → Nonnegative v ⊎ Negative v
unfolding uabsdi
sign_cases v h = elim (Bool-cases (is_negative v)) [
  | inr plus ↦ inl (ground arith, ground arith, ground arith, plus)
  | inl minus ↦ inr (ground arith, ground arith, ground arith, minus)
]

-- A magnitude that fits, with either sign.
with_sign_minus : (m : ℕ) → m ≤ 2 ^ 63 → signed64 (negate m) ≡ sub_ℕ 0 m
with_sign_minus m h = ground arith

with_sign_plus : (m : ℕ) → m < 2 ^ 63 → signed64 m ≡ pos m
with_sign_plus m h = ground arith

-- The one quotient of magnitudes that does not fit is 2 ^ 63.
quotient-lt : (x y : ℕ) → 0 < x → x ≤ 2 ^ 63 → 0 < y → ¬ ((x ≡ 2 ^ 63) × (y ≡ 1)) → x / y < 2 ^ 63
quotient-lt x y some_x small some_y fits = elim (dec_lt 1 y) [
  | yes many ↦ omega (arith, div-lt_self some_x many)
  | no one ↦
      let e : y ≡ 1 = omega arith in
      rw e (elim (dec_lt x (2 ^ 63)) [
        | yes below ↦ omega arith
        | no top ↦ absurd (fits (omega arith, e))
      ])
]

-- Division of signed words, unless the divisor is zero or the quotient is 2 ^ 63: `__divdi3` ends
-- and gives the quotient truncated toward zero.
pub divdi3_lem :
    (a b : ℕ)
    → a < 2 ^ 64
    → b < 2 ^ 64
    → 0 < b
    → ¬ ((a ≡ 2 ^ 63) × (b ≡ 2 ^ 64 - 1))
    → (q : ℕ) × (divdi3 a b ≡ some q) × (signed64 q ≡ quot_ℤ (signed64 a) (signed64 b))
unfolding divdi3 xor
divdi3_lem a b h k nonzero fits = elim (sign_cases a h) [
  | inl (a1, a2, a3, a4) ↦ elim (sign_cases b k) [
    | inl (b1, b2, b3, b4) ↦ (
      a / b,
      rw (==-false b 0 (omega arith), a3, b3, a4, b4, udivdi3_lem a b h nonzero),
      rw (a2, b2) (with_sign_plus (a / b) (omega (arith, div-le_self a b))),
    )
    | inr (b1, b2, b3, b4) ↦
        let m = 2 ^ 64 - b - 1 in
        (
          negate (a / (m + 1)),
          rw (==-false b 0 (omega arith), a3, b3, a4, b4, udivdi3_lem a (m + 1) h (omega arith)),
          rw (a2, b2) (with_sign_minus (a / (m + 1)) (omega (arith, div-le_self a (m + 1)))),
        )
  ]
  | inr (a1, a2, a3, a4) ↦
      let n = 2 ^ 64 - a - 1 in
      elim (sign_cases b k) [
        | inl (b1, b2, b3, b4) ↦ (
          negate ((n + 1) / b),
          rw (
            ==-false b 0 (omega arith),
            a3,
            b3,
            a4,
            b4,
            udivdi3_lem (n + 1) b (omega arith) nonzero,
          ),
          rw (a2, b2) (with_sign_minus ((n + 1) / b) (omega (arith, div-le_self (n + 1) b))),
        )
        | inr (b1, b2, b3, b4) ↦
            let m = 2 ^ 64 - b - 1 in
            (
              (n + 1) / (m + 1),
              rw (
                ==-false b 0 (omega arith),
                a3,
                b3,
                a4,
                b4,
                udivdi3_lem (n + 1) (m + 1) (omega arith) (omega arith),
              ),
              rw (a2, b2)
                  (with_sign_plus ((n + 1) / (m + 1)) (
                    quotient-lt (n + 1) (m + 1) (omega arith) (omega arith) (omega arith)
                      (λ e. fits (omega (arith, e))))),
            )
      ]
]

-- Remainders of signed words with a divisor that is not zero: `__moddi3` ends and gives the
-- remainder that has the sign of the dividend.
pub moddi3_lem :
    (a b : ℕ)
    → a < 2 ^ 64
    → b < 2 ^ 64
    → 0 < b
    → (r : ℕ) × (moddi3 a b ≡ some r) × (signed64 r ≡ rem_ℤ (signed64 a) (signed64 b))
unfolding moddi3
moddi3_lem a b h k nonzero = elim (sign_cases a h) [
  | inl (a1, a2, a3, a4) ↦ elim (sign_cases b k) [
    | inl (b1, b2, b3, b4) ↦ (
      a % b,
      rw (==-false b 0 (omega arith), a3, b3, a4, umoddi3_lem a b h nonzero),
      rw (a2, b2) (with_sign_plus (a % b) (omega (arith, mod-le a b))),
    )
    | inr (b1, b2, b3, b4) ↦
        let m = 2 ^ 64 - b - 1 in
        (
          a % (m + 1),
          rw (==-false b 0 (omega arith), a3, b3, a4, umoddi3_lem a (m + 1) h (omega arith)),
          rw (a2, b2) (with_sign_plus (a % (m + 1)) (omega (arith, mod-le a (m + 1)))),
        )
  ]
  | inr (a1, a2, a3, a4) ↦
      let n = 2 ^ 64 - a - 1 in
      elim (sign_cases b k) [
        | inl (b1, b2, b3, b4) ↦ (
          negate ((n + 1) % b),
          rw (==-false b 0 (omega arith), a3, b3, a4, umoddi3_lem (n + 1) b (omega arith) nonzero),
          rw (a2, b2) (with_sign_minus ((n + 1) % b) (omega (arith, mod-le (n + 1) b))),
        )
        | inr (b1, b2, b3, b4) ↦
            let m = 2 ^ 64 - b - 1 in
            (
              negate ((n + 1) % (m + 1)),
              rw (
                ==-false b 0 (omega arith),
                a3,
                b3,
                a4,
                umoddi3_lem (n + 1) (m + 1) (omega arith) (omega arith),
              ),
              rw (a2, b2)
                  (with_sign_minus ((n + 1) % (m + 1)) (omega (arith, mod-le (n + 1) (m + 1)))),
            )
      ]
]
