-- ===== src/SoftFloat/Double/Product.antt =====
-- `df_umul128` gives the two words of a product.
use lamp_userspace.Prelude.{
  ℕ, zero, suc, ◌+◌, ◌-◌, ◌*◌, ◌/◌, ◌%◌, ◌^◌, ◌≤◌, ◌<◌, ◌≡◌, refl, ltb, if◌then◌else◌, arith, u64,
  bit_or, bit_and, bit_and_low_mask, bit_or_disjoint, pow-add, div_unique, ap, sym, ◌∙◌, ltb-true,
  ltb-false,
}
use native.Mathlib.Decide.{dec_lt, ℕ_discrete}
use native.Mathlib.Nat.{
  pow-suc, one-le-pow, mul-le-mul_left, mul-le-mul_right, div-add-mod', mod-lt, div-lt_iff_lt-mul,
}
use lamp_userspace.SoftFloat.Double.{umul128_loop, df_umul128}

-- The number that two words stand for.
abbrev pub pair : ℕ × ℕ → ℕ
pair p = p.0 * 2 ^ 64 + p.1

-- One doubling of the two words.
double-pair :
    (h l : ℕ)
    → l < 2 ^ 64
    → h < 2 ^ 63
    → bit_or (u64 (h * 2 ^ 1)) (l / 2 ^ 63) * 2 ^ 64 + u64 (l * 2 ^ 1) ≡ 2 * (h * 2 ^ 64 + l)
double-pair h l hl hh =
    let fits : u64 (h * 2 ^ 1) ≡ h * 2 ^ 1 = omega arith in
    let join : bit_or (h * 2 ^ 1) (l / 2 ^ 63) ≡ h * 2 ^ 1 + l / 2 ^ 63 =
      bit_or_disjoint 1 h (l / 2 ^ 63) (omega arith) in
    rw (fits, join) (omega arith)

top-bit : (b : ℕ) → b < 2 ^ 64 → bit_and (b / 2 ^ 63) 1 ≡ b / 2 ^ 63
top-bit b h = omega (arith, bit_and_low_mask 1 (b / 2 ^ 63))

scale-lt : (a b p : ℕ) → a < b → a * p + p ≤ b * p
scale-lt a b p h = let scaled : suc a * p ≤ b * p = mul-le-mul_right p h in omega arith

-- The top bit of what is left of `b`, and the rest after the shift.
next-digit :
    (n k t : ℕ)
    → n + k ≡ 63
    → t < 2 ^ suc n
    → (t * 2 ^ k / 2 ^ 63 ≡ t / 2 ^ n) × (u64 (t * 2 ^ k * 2 ^ 1) ≡ t % 2 ^ n * 2 ^ suc k)
next-digit n k t e h =
    let whole : 2 ^ n * 2 ^ k ≡ 2 ^ 63 = sym (pow-add n k) ∙ ap (λ (j : ℕ). 2 ^ j) e in
    let d = t / 2 ^ n in
    let r = t % 2 ^ n in
    let some_power : 0 < 2 ^ n = one-le-pow n 2 (omega arith) in
    let cut : d * 2 ^ n + r ≡ t = div-add-mod' t (2 ^ n) in
    let spread : t * 2 ^ k ≡ d * (2 ^ n * 2 ^ k) + r * 2 ^ k =
      ap (λ (j : ℕ). j * 2 ^ k) (sym cut) ∙ omega arith in
    let at : d * (2 ^ n * 2 ^ k) ≡ d * 2 ^ 63 = ap (λ (j : ℕ). d * j) whole in
    let small : r < 2 ^ n = mod-lt t some_power in
    let below : r * 2 ^ k + 2 ^ k ≤ 2 ^ n * 2 ^ k = scale-lt r (2 ^ n) (2 ^ k) small in
    let power : 0 < 2 ^ k = one-le-pow k 2 (omega arith) in
    let digit : d < 2 = (div-lt_iff_lt-mul some_power).1 (omega (arith, pow-suc 2 n)) in
    let shifted : r * 2 ^ suc k ≡ 2 * (r * 2 ^ k) =
      omega (arith, ap (λ (j : ℕ). r * j) (pow-suc 2 k)) in
    (div_unique (t * 2 ^ k) (2 ^ 63) d (r * 2 ^ k) (omega arith) (omega arith), omega arith)

with_carry :
    (h l a : ℕ)
    → l < 2 ^ 64
    → a < 2 ^ 64
    → h * 2 ^ 64 + l + a < 2 ^ 128
    → (if ltb (u64 (l + a)) l then u64 (h + 1) else h) * 2 ^ 64 + u64 (l + a) ≡ h * 2 ^ 64 + l + a
with_carry h l a hl ha small = elim (dec_lt (l + a) (2 ^ 64)) [
  | yes fits ↦
      let same : u64 (l + a) ≡ l + a = omega arith in
      rw (same, ltb-false (l + a) l (omega arith)) (omega arith)
  | no over ↦
      let cut : u64 (l + a) ≡ l + a - 2 ^ 64 = omega arith in
      let up : u64 (h + 1) ≡ h + 1 = omega arith in
      rw (cut, ltb-true (l + a - 2 ^ 64) l (omega arith), up) (omega arith)
]

regroup : (w a d r q : ℕ) → (2 * w + d * a) * q + a * r ≡ w * (q * 2) + a * (d * q + r)
regroup w a d r q = omega arith

-- What one round does to the product so far, with the next digit `d` of `t`.
next-product :
    (n w a t : ℕ) → (2 * w + t / 2 ^ n * a) * 2 ^ n + a * (t % 2 ^ n) ≡ w * 2 ^ suc n + a * t
next-product n w a t =
    let cut : t / 2 ^ n * 2 ^ n + t % 2 ^ n ≡ t = div-add-mod' t (2 ^ n) in
    regroup w a (t / 2 ^ n) (t % 2 ^ n) (2 ^ n)
    ∙ ap (λ (j : ℕ). w * j + a * (t / 2 ^ n * 2 ^ n + t % 2 ^ n)) (sym (pow-suc 2 n))
    ∙ ap (λ (j : ℕ). w * 2 ^ suc n + a * j) cut

le-product : (x n y : ℕ) → x * 2 ^ n + y < 2 ^ 128 → x < 2 ^ 128
le-product x n y h =
    let power : 1 ≤ 2 ^ n = one-le-pow n 2 (omega arith) in
    let grown : x * 1 ≤ x * 2 ^ n = mul-le-mul_left x power in omega arith

-- The two ways through a round.
abbrev doubled : ℕ → ℕ → ℕ
doubled h l = bit_or (u64 (h * 2 ^ 1)) (l / 2 ^ 63)

round-zero :
    (n a h l b : ℕ)
    → bit_and (b / 2 ^ 63) 1 ≡ 0
    → umul128_loop (suc n) a h l b
      ≡ umul128_loop n a (doubled h l) (u64 (l * 2 ^ 1)) (u64 (b * 2 ^ 1))
unfolding umul128_loop
round-zero n a h l b e = rw e refl

round-one :
    (n a h l b : ℕ)
    → bit_and (b / 2 ^ 63) 1 ≡ 1
    → umul128_loop (suc n) a h l b
      ≡ umul128_loop n a
          (if ltb (u64 (u64 (l * 2 ^ 1) + a)) (u64 (l * 2 ^ 1))
            then u64 (doubled h l + 1)
            else doubled h l)
          (u64 (u64 (l * 2 ^ 1) + a))
          (u64 (b * 2 ^ 1))
unfolding umul128_loop
round-one n a h l b e = rw e refl

-- The part of `b` that is left: its `n` top bits, and zeros below.
product_loop :
    (n k a h l t : ℕ)
    → n + k ≡ 64
    → a < 2 ^ 64
    → l < 2 ^ 64
    → t < 2 ^ n
    → (h * 2 ^ 64 + l) * 2 ^ n + a * t < 2 ^ 128
    → let p = umul128_loop n a h l (t * 2 ^ k) in
      (pair p ≡ (h * 2 ^ 64 + l) * 2 ^ n + a * t) × (p.1 < 2 ^ 64)
unfolding umul128_loop
product_loop zero k a h l t e fa fl ft small =
    let none : t ≡ 0 = omega arith in rw none (omega arith, fl)
product_loop (suc n) k a h l t e fa fl ft small =
    let (digit, left) = next-digit n k t (omega arith) ft in
    let w = h * 2 ^ 64 + l in
    let same = next-product n w a t in
    let bounded : (2 * w + t / 2 ^ n * a) * 2 ^ n + a * (t % 2 ^ n) < 2 ^ 128 = omega arith in
    let room : 2 * w + t / 2 ^ n * a < 2 ^ 128 =
      le-product (2 * w + t / 2 ^ n * a) n (a * (t % 2 ^ n)) bounded in
    let twice : doubled h l * 2 ^ 64 + u64 (l * 2 ^ 1) ≡ 2 * w = double-pair h l fl (omega arith) in
    let rest : t % 2 ^ n < 2 ^ n = mod-lt t (one-le-pow n 2 (omega arith)) in
    let two : t / 2 ^ n < 2 =
      (div-lt_iff_lt-mul (one-le-pow n 2 (omega arith))).1 (omega (arith, pow-suc 2 n)) in
    let go : (h' l' : ℕ)
        → l' < 2 ^ 64
        → h' * 2 ^ 64 + l' ≡ 2 * w + t / 2 ^ n * a
        → let p = umul128_loop n a h' l' (t % 2 ^ n * 2 ^ suc k) in
          (pair p ≡ w * 2 ^ suc n + a * t) × (p.1 < 2 ^ 64) =
      λ h' l' fits value.
        let moved = ap (λ (j : ℕ). j * 2 ^ n + a * (t % 2 ^ n)) value in
        let (q, b) =
          product_loop n (suc k) a h' l' (t % 2 ^ n) (omega arith) fa fits rest (omega arith) in
        (q ∙ moved ∙ same, b) in
    elim (ℕ_discrete (t / 2 ^ n) 0) [
      | yes none ↦
          let top : bit_and (t * 2 ^ k / 2 ^ 63) 1 ≡ 0 =
            omega (arith, bit_and_low_mask 1 (t * 2 ^ k / 2 ^ 63)) in
          rw (round-zero n a h l (t * 2 ^ k) top, left)
            (go (doubled h l) (u64 (l * 2 ^ 1)) (omega arith) (twice ∙ rw none (omega arith)))
      | no some_digit ↦
          let one : t / 2 ^ n ≡ 1 = omega arith in
          let top : bit_and (t * 2 ^ k / 2 ^ 63) 1 ≡ 1 =
            omega (arith, bit_and_low_mask 1 (t * 2 ^ k / 2 ^ 63)) in
          let added : 2 * w + t / 2 ^ n * a ≡ 2 * w + a = rw one (omega arith) in
          rw (round-one n a h l (t * 2 ^ k) top, left)
            (go _ (u64 (u64 (l * 2 ^ 1) + a)) (omega arith) (
              with_carry (doubled h l) (u64 (l * 2 ^ 1)) a (omega arith) fa (omega arith)
              ∙ ap (λ (j : ℕ). j + a) twice
              ∙ sym added))
    ]

-- On 64-bit words `df_umul128` gives two words that together are their product.
pub df_umul128_lem :
    (a b : ℕ)
    → a < 2 ^ 64
    → b < 2 ^ 64
    → (pair (df_umul128 a b) ≡ a * b) × ((df_umul128 a b).1 < 2 ^ 64)
unfolding df_umul128
df_umul128_lem a b ha hb =
    let wide : a * b ≤ 2 ^ 64 * b = mul-le-mul_right b (omega arith) in
    let start : b * 2 ^ 0 ≡ b = omega arith in
    let (value, low) = product_loop 64 0 a 0 0 b refl ha (omega arith) hb (omega arith) in
    let sum : (0 * 2 ^ 64 + 0) * 2 ^ 64 + a * b ≡ a * b = omega arith in
    (ap (λ (j : ℕ). pair (umul128_loop 64 a 0 0 j)) (sym start) ∙ value ∙ sum, rw (← start) low)
