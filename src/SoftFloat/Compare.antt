-- ===== src/SoftFloat/Compare.antt =====
-- The comparisons of lib/compiler_rt_softfloat.c are those of the numbers with sign and magnitude.
use lamp_userspace.Prelude.{
  ℕ, ◌+◌, ◌-◌, ◌^◌, ◌<◌, ◌≤◌, ◌≡◌, ◌≢◌, ◌⊎◌, refl, false, ltb, if◌then◌else◌, ==-false, arith, u64,
  ◌*◌, ◌/◌, bit_xor, bit_xor_disjoint_right, inl, inr, ltb-true, ltb-false,
}
use native.Mathlib.Decide.{dec_lt, ℕ_discrete}
use lamp_userspace.Prelude.Int.{ℤ, pos, negsuc, sub_ℕ}
use lamp_userspace.SoftFloat.{df_is_nan, df_cmp3way, key, without_zero_sign}

-- The pattern of a double read as a sign and a magnitude. The exponent stands above the fraction, so
-- two doubles that are numbers have the order of these integers.
abbrev pub sign_magnitude : ℕ → ℤ
sign_magnitude x = if ltb x (2 ^ 63) then pos x else sub_ℕ 0 (x - 2 ^ 63)

abbrev compare_ℕ : ℕ → ℕ → ℤ
compare_ℕ m n = if ltb m n then negsuc 0 else if ltb n m then pos 1 else pos 0

-- -1, 0 or 1 as the first integer is less, the same or greater.
abbrev pub compare_ℤ : ℤ → ℤ → ℤ
compare_ℤ (pos m) (pos n) = compare_ℕ m n
compare_ℤ (pos m) (negsuc n) = pos 1
compare_ℤ (negsuc m) (pos n) = negsuc 0
compare_ℤ (negsuc m) (negsuc n) = compare_ℕ n m

key-low : (x : ℕ) → x < 2 ^ 63 → key x ≡ 2 ^ 63 + x
key-low x h =
    let top : x / 2 ^ 63 ≡ 0 = omega arith in
    let sum : bit_xor x (1 * 2 ^ 63) ≡ 1 * 2 ^ 63 + x = bit_xor_disjoint_right 63 1 x h in
    rw (top, sum) (omega arith)

without_zero_sign-other : (x : ℕ) → u64 (x * 2) ≢ 0 → without_zero_sign x ≡ x
without_zero_sign-other x h = rw (==-false (u64 (x * 2)) 0 h)

-- The integer of a pattern and its key.
abbrev Placed : ℕ → Type 0
Placed x =
    ((n : ℕ) × (sign_magnitude x ≡ pos n) × (key (without_zero_sign x) ≡ 2 ^ 63 + n))
    ⊎ ((n : ℕ) × (sign_magnitude x ≡ negsuc n)
        × (key (without_zero_sign x) ≡ 2 ^ 63 - 2 - n)
        × (n < 2 ^ 63 - 1))

placed : (x : ℕ) → x < 2 ^ 64 → Placed x
placed x h = elim (dec_lt x (2 ^ 63)) [
  | yes plus ↦ elim (ℕ_discrete x 0) [
    | yes e ↦ rw e (inl (0, refl, refl))
    | no some_x ↦ inl (
      x,
      rw (ltb-true x (2 ^ 63) plus),
      rw (without_zero_sign-other x (λ e. omega arith)) (key-low x plus),
    )
  ]
  | no minus ↦ elim (ℕ_discrete x (2 ^ 63)) [
    | yes e ↦ rw e (inl (0, refl, refl))
    | no below ↦
        let sign : x / 2 ^ 63 ≡ 1 = omega arith in
        inr (
          x - 2 ^ 63 - 1,
          rw (ltb-false x (2 ^ 63) (omega arith)) (ground arith),
          rw (without_zero_sign-other x (λ e. omega arith), sign) (omega arith),
          omega arith,
        )
  ]
]

ltb-reversed : (k m n : ℕ) → m ≤ k → n ≤ k → ltb (k - m) (k - n) ≡ ltb n m
ltb-reversed k m n hm hn = elim (dec_lt n m) [
  | yes less ↦ rw (ltb-true n m less, ltb-true (k - m) (k - n) (omega arith)) refl
  | no more ↦ rw (ltb-false n m (omega arith), ltb-false (k - m) (k - n) (omega arith)) refl
]

-- On two patterns that are no NaNs `df_cmp3way` compares their integers, and both zeros are 0.
pub df_cmp3way_lem :
    (a b : ℕ) (nan_result : ℤ)
    → a < 2 ^ 64
    → b < 2 ^ 64
    → df_is_nan a ≡ false
    → df_is_nan b ≡ false
    → df_cmp3way a b nan_result ≡ compare_ℤ (sign_magnitude a) (sign_magnitude b)
unfolding df_cmp3way
df_cmp3way_lem a b nan_result ha hb na nb = elim (placed a ha) [
  | inl (m, am, ak) ↦ elim (placed b hb) [
    | inl (n, bm, bk) ↦ rw (na, nb, am, ak, bm, bk) (ground arith)
    | inr (n, bm, bk, bn) ↦ rw (na, nb, am, ak, bm, bk) (ground arith)
  ]
  | inr (m, am, ak, an) ↦ elim (placed b hb) [
    | inl (n, bm, bk) ↦ rw (na, nb, am, ak, bm, bk) (ground arith)
    | inr (n, bm, bk, bn) ↦
        rw
          (
            na,
            nb,
            am,
            ak,
            bm,
            bk,
            ltb-reversed (2 ^ 63 - 2) m n (omega arith) (omega arith),
            ltb-reversed (2 ^ 63 - 2) n m (omega arith) (omega arith),
          )
          refl
  ]
]
