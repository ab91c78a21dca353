-- ===== src/SoftFloat/Convert.antt =====
-- The conversions of lib/compiler_rt_softfloat.c between 32-bit integers and doubles lose nothing.
use lamp_userspace.Prelude.{
  ℕ, zero, suc, ◌+◌, ◌-◌, ◌*◌, ◌/◌, ◌^◌, ◌≤◌, ◌<◌, ◌≡◌, refl, true, false, Bool, ltb, leb, ==-false,
  arith, u64, ◌==◌, bit_or, bit_and, bit_and_low_mask, bit_or_disjoint, bit_or_disjoint_right,
  pow-add, lt_of_pow-lt-pow, ltb-false, ap, sym, ◌∙◌, div_unique,
}
use native.Mathlib.Decide.{dec_lt, ℕ_discrete}
use native.Mathlib.Nat.{pow-suc, one-le-pow}
use lamp_userspace.SoftFloat.{
  bit_count, df_from_mag, df_to_i, clamp, floatsidf, floatunsidf, fixdfsi, fixunsdfsi, d_frac,
  d_impl,
}

bit_count-zero : (n : ℕ) → bit_count n 0 ≡ 0
unfolding bit_count
bit_count-zero zero = refl
bit_count-zero (suc n) = refl

-- `df_msb` is the place of the top bit.
bit_count_lem :
    (n v : ℕ)
    → 0 < v
    → v < 2 ^ n
    → (t : ℕ) × (bit_count n v ≡ suc t) × (2 ^ t ≤ v) × (v < 2 ^ suc t)
unfolding bit_count
bit_count_lem zero v some_v h = absurd (omega arith)
bit_count_lem (suc n) v some_v h = rw (==-false v 0 (λ e. omega arith)) (elim (ℕ_discrete v 1) [
  | yes one ↦ rw one (0, ap suc (bit_count-zero n), omega arith, omega arith)
  | no more ↦
      let (t, e, low, high) = bit_count_lem n (v / 2) (omega arith) (omega (arith, pow-suc 2 n)) in
      (suc t, ap suc e, omega (arith, pow-suc 2 t), omega (arith, pow-suc 2 t, pow-suc 2 (suc t)))
])

-- A word with a sign, an exponent and a fraction.
fields : ℕ → ℕ → ℕ → ℕ
fields sign e m = (sign * 2 ^ 11 + e) * 2 ^ 52 + m

pack-fields :
    (sign e m : ℕ)
    → sign < 2
    → e < 2 ^ 11
    → m < 2 ^ 52
    → bit_or (bit_or (u64 (sign * 2 ^ 63)) (u64 (e * 2 ^ 52))) m ≡ fields sign e m
unfolding fields
pack-fields sign e m hs he hm =
    let a : u64 (sign * 2 ^ 63) ≡ sign * 2 ^ 63 = omega arith in
    let b : u64 (e * 2 ^ 52) ≡ e * 2 ^ 52 = omega arith in
    let c : bit_or (sign * 2 ^ 63) (e * 2 ^ 52) ≡ sign * 2 ^ 63 + e * 2 ^ 52 =
      bit_or_disjoint 63 sign (e * 2 ^ 52) (omega arith) in
    let d : sign * 2 ^ 63 + e * 2 ^ 52 ≡ (sign * 2 ^ 11 + e) * 2 ^ 52 = omega arith in
    rw (a, b, c, d) (bit_or_disjoint 52 (sign * 2 ^ 11 + e) m hm)

scale-le : (a b p : ℕ) → a ≤ b → a * p ≤ b * p
scale-le a b p h = grind arith

-- The top bit of the significand stands at 52.
significand :
    (v t : ℕ)
    → 2 ^ t ≤ v
    → v < 2 ^ suc t
    → t ≤ 52
    → (2 ^ 52 ≤ v * 2 ^ (52 - t)) × (v * 2 ^ (52 - t) < 2 ^ 53)
significand v t low high small =
    let all : t + (52 - t) ≡ 52 = omega arith in
    let whole : 2 ^ t * 2 ^ (52 - t) ≡ 2 ^ 52 =
      sym (pow-add t (52 - t)) ∙ ap (λ (k : ℕ). 2 ^ k) all in
    let below : v + 1 ≤ 2 * 2 ^ t = omega (arith, pow-suc 2 t) in
    let some_power : 0 < 2 ^ (52 - t) = one-le-pow (52 - t) 2 (omega arith) in
    let above : 2 ^ t * 2 ^ (52 - t) ≤ v * 2 ^ (52 - t) = scale-le (2 ^ t) v (2 ^ (52 - t)) low in
    let under : (v + 1) * 2 ^ (52 - t) ≤ (2 * 2 ^ t) * 2 ^ (52 - t) =
      scale-le (v + 1) (2 * 2 ^ t) (2 ^ (52 - t)) below in
    let regroup : (2 * 2 ^ t) * 2 ^ (52 - t) ≡ 2 * (2 ^ t * 2 ^ (52 - t)) = omega arith in
    let next : (v + 1) * 2 ^ (52 - t) ≡ v * 2 ^ (52 - t) + 2 ^ (52 - t) = omega arith in
    (omega arith, omega arith)

-- An integer with its top bit at `t` fits the significand.
df_from_mag_lem :
    (v sign t : ℕ)
    → sign < 2
    → bit_count 64 v ≡ suc t
    → 2 ^ t ≤ v
    → v < 2 ^ suc t
    → t ≤ 52
    → df_from_mag v sign ≡ fields sign (t + 1023) (v * 2 ^ (52 - t) - 2 ^ 52)
unfolding df_from_mag
df_from_mag_lem v sign t hs count low high small =
    let (above, under) = significand v t low high small in
    let fits : u64 (v * 2 ^ (52 - t)) ≡ v * 2 ^ (52 - t) = omega arith in
    let fraction : bit_and (v * 2 ^ (52 - t)) d_frac ≡ v * 2 ^ (52 - t) - 2 ^ 52 =
      omega (arith, bit_and_low_mask 52 (v * 2 ^ (52 - t))) in
    let some_v : 0 < v = omega (arith, one-le-pow t 2 (omega arith)) in
    let top : suc t - 1 ≡ t = omega arith in
    rw (==-false v 0 (λ e. omega arith), count, top, fits, fraction)
      (pack-fields sign (t + 1023) (v * 2 ^ (52 - t) - 2 ^ 52) hs (omega arith) (omega arith))

df_to_i_lem :
    (v sign t : ℕ) (is_signed : Bool)
    → sign < 2
    → 2 ^ t ≤ v
    → v < 2 ^ suc t
    → t ≤ 52
    → df_to_i (fields sign (t + 1023) (v * 2 ^ (52 - t) - 2 ^ 52)) is_signed
      ≡ clamp sign is_signed v
unfolding df_to_i fields
df_to_i_lem v sign t is_signed hs low high small =
    let (above, under) = significand v t low high small in
    let m = v * 2 ^ (52 - t) - 2 ^ 52 in
    let e = t + 1023 in
    let word = (sign * 2 ^ 11 + e) * 2 ^ 52 + m in
    let s : word / 2 ^ 63 ≡ sign = omega arith in
    let top : word / 2 ^ 52 ≡ sign * 2 ^ 11 + e = omega arith in
    let exponent : bit_and (sign * 2 ^ 11 + e) 0x7FF ≡ e =
      omega (arith, bit_and_low_mask 11 (sign * 2 ^ 11 + e)) in
    let fraction : bit_and word d_frac ≡ m = omega (arith, bit_and_low_mask 52 word) in
    let with_top : bit_or m d_impl ≡ v * 2 ^ (52 - t) =
      omega (arith, bit_or_disjoint_right 52 1 m (omega arith)) in
    let back : v * 2 ^ (52 - t) / 2 ^ (52 - t) ≡ v =
      div_unique (v * 2 ^ (52 - t)) (2 ^ (52 - t)) v 0 (omega arith)
        (one-le-pow (52 - t) 2 (omega arith)) in
    let finite : (e == 0x7FF) ≡ false = ==-false e 0x7FF (λ eq. omega arith) in
    let normal : (e == 0) ≡ false = ==-false e 0 (λ eq. omega arith) in
    let not_small : ltb e 1023 ≡ false = ltb-false e 1023 (omega arith) in
    let place : e - 1023 ≡ t = omega arith in
    let inside : leb t 52 ≡ true = ground arith in
    rw (s, top, exponent, fraction, with_top, finite, normal, not_small, place, inside, back) refl

clamp-signed_plus : (v : ℕ) → v < 2 ^ 31 → clamp 0 true v ≡ v
unfolding clamp
clamp-signed_plus v h = rw (ltb-false 0x7FFFFFFF v (omega arith)) refl

clamp-signed_minus : (v : ℕ) → 0 < v → v ≤ 2 ^ 31 → clamp 1 true v ≡ 2 ^ 32 - v
unfolding clamp
clamp-signed_minus v some_v h = rw (ltb-false 0x80000000 v h) (omega arith)

clamp-unsigned : (v : ℕ) → v < 2 ^ 32 → clamp 0 false v ≡ v
unfolding clamp
clamp-unsigned v h = rw (ltb-false 0xFFFFFFFF v (omega arith)) refl

-- A magnitude below 2 ^ 53 survives the way to a double and back up to the range of the result.
from_to :
    (v sign : ℕ) (is_signed : Bool)
    → sign < 2
    → 0 < v
    → v < 2 ^ 53
    → df_to_i (df_from_mag v sign) is_signed ≡ clamp sign is_signed v
from_to v sign is_signed hs some_v h =
    let (t, count, low, high) = bit_count_lem 64 v some_v (omega arith) in
    let small : t ≤ 52 = let under : t < 53 = lt_of_pow-lt-pow t 53 (omega arith) in omega arith in
    rw (df_from_mag_lem v sign t hs count low high small)
      (df_to_i_lem v sign t is_signed hs low high small)

-- `__fixdfsi` undoes `__floatsidf` on every `int`.
pub fixdfsi-floatsidf : (v : ℕ) → v < 2 ^ 32 → fixdfsi (floatsidf v) ≡ v
unfolding fixdfsi floatsidf df_to_i df_from_mag
fixdfsi-floatsidf v h = elim (dec_lt v (2 ^ 31)) [
  | yes plus ↦ elim (ℕ_discrete v 0) [
    | yes e ↦ rw e refl
    | no some_v ↦
        let small : leb (2 ^ 31) v ≡ false = ground arith in
        rw small
          (from_to v 0 true (omega arith) (omega arith) (omega arith) ∙ clamp-signed_plus v plus)
  ]
  | no minus ↦
      let large : leb (2 ^ 31) v ≡ true = ground arith in
      let magnitude : 2 ^ 32 - (v + 1) + 1 ≡ 2 ^ 32 - v = omega arith in
      rw (large, magnitude)
        (from_to (2 ^ 32 - v) 1 true (omega arith) (omega arith) (omega arith)
          ∙ clamp-signed_minus (2 ^ 32 - v) (omega arith) (omega arith)
          ∙ omega arith)
]

-- `__fixunsdfsi` undoes `__floatunsidf` on every `unsigned`.
pub fixunsdfsi-floatunsidf : (v : ℕ) → v < 2 ^ 32 → fixunsdfsi (floatunsidf v) ≡ v
unfolding fixunsdfsi floatunsidf df_to_i df_from_mag
fixunsdfsi-floatunsidf v h = elim (ℕ_discrete v 0) [
  | yes e ↦ rw e refl
  | no some_v ↦ from_to v 0 false (omega arith) (omega arith) (omega arith) ∙ clamp-unsigned v h
]
