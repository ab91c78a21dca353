-- ===== src/DivMod/Shift.antt =====
-- The shift helpers work on 32-bit halves and agree with the shifts of the whole word.
use mathlib.Core.Path.{ap, ap₂, sym, ◌∙◌}
use native.Mathlib.Nat.{
  div-add-mod', mod-lt, div-lt_iff_lt-mul, one-le-pow, div-le_self, div-div-eq-div-mul,
  pow-le-pow_right, div-eq_of_lt,
}
use lamp_userspace.Prelude.{
  ℕ, ◌+◌, ◌-◌, ◌*◌, ◌/◌, ◌%◌, ◌^◌, ◌≤◌, ◌<◌, ◌≡◌, Bool-cases, inl, inr, leb, ◌==◌, bit_or,
  bit_and_low_mask, bit_or_disjoint, bit_or_disjoint_right, u32, u64, ◌<<<◌, ◌>>>◌, arith, pow-add,
  ==_iff, div_unique,
}
use lamp_userspace.DivMod.{di_join, low, high, ashldi3, lshrdi3}

pub low_lem : (a : ℕ) → low a ≡ a % 2 ^ 32
low_lem a = bit_and_low_mask 32 a

pub di_join_lem : (lo hi : ℕ) → lo < 2 ^ 32 → hi < 2 ^ 32 → di_join lo hi ≡ hi * 2 ^ 32 + lo
unfolding di_join
di_join_lem lo hi h k =
    let fits : u64 (hi <<< 32) ≡ hi * 2 ^ 32 = omega arith in
    rw fits (bit_or_disjoint_right 32 hi lo h)

-- In the lemmas below `p` is 2 ^ b and `r` is 2 ^ (32 - b).
module _ (p r : ℕ) (whole : p * r ≡ 2 ^ 32) (pos : 0 < p) where
  -- The high bits of `x` leave the half on the left.
  pub left_part : (x : ℕ) → x < 2 ^ 32 → u32 (x * r) ≡ x % p * r
  left_part x h =
      let halves : x / p * p + x % p ≡ x = div-add-mod' x p in
      let moved : x * r ≡ x / p * 2 ^ 32 + x % p * r =
        omega (arith, ap (λ (t : ℕ). t * r) halves, ap (λ (t : ℕ). x / p * t) whole) in
      let below : x % p * r < p * r = grind (arith, mod-lt x pos) in omega arith

  pub right_part : (x : ℕ) → x < 2 ^ 32 → x / p < r
  right_part x h = (div-lt_iff_lt-mul pos).1 (omega arith)

  pub shift_right_halves :
      (hi lo : ℕ) → (hi * 2 ^ 32 + lo) / p ≡ hi / p * 2 ^ 32 + (hi % p * r + lo / p)
  shift_right_halves hi lo =
      let split_hi : hi / p * p + hi % p ≡ hi = div-add-mod' hi p in
      let split_lo : lo / p * p + lo % p ≡ lo = div-add-mod' lo p in
      div_unique (hi * 2 ^ 32 + lo) p (hi / p * 2 ^ 32 + (hi % p * r + lo / p)) (lo % p)
        (omega (arith, ap (λ (t : ℕ). hi % p * t) whole)) (mod-lt lo pos)

  -- The half that takes the bits which cross from one half to the other.
  pub crossing : (x y : ℕ) → x < 2 ^ 32 → y < 2 ^ 32 → (x % p * r + y / p < 2 ^ 32)
  crossing x y h k =
      let below : (x % p + 1) * r ≤ p * r = grind (arith, mod-lt x pos) in
      omega (arith, right_part y k)

  shift_left_halves :
      (hi lo : ℕ)
      → hi < 2 ^ 32
      → lo < 2 ^ 32
      → u64 ((hi * 2 ^ 32 + lo) * r) ≡ (hi % p * r + lo / p) * 2 ^ 32 + lo % p * r
  shift_left_halves hi lo h k =
      let split_hi : hi / p * p + hi % p ≡ hi = div-add-mod' hi p in
      let split_lo : lo / p * p + lo % p ≡ lo = div-add-mod' lo p in
      let moved_hi : hi * r ≡ hi / p * 2 ^ 32 + hi % p * r =
        omega (arith, ap (λ (t : ℕ). t * r) split_hi, ap (λ (t : ℕ). hi / p * t) whole) in
      let moved_lo : lo * r ≡ lo / p * 2 ^ 32 + lo % p * r =
        omega (arith, ap (λ (t : ℕ). t * r) split_lo, ap (λ (t : ℕ). lo / p * t) whole) in
      let low_part : lo % p * r < 2 ^ 32 = omega (arith, left_part lo k) in
      omega (arith, crossing hi lo h k)

-- The two powers that a shift by less than 32 turns on.
pub powers : (b : ℕ) → b < 32 → (2 ^ b * 2 ^ (32 - b) ≡ 2 ^ 32) × (0 < 2 ^ b) × (0 < 2 ^ (32 - b))
powers b h =
    let all : b + (32 - b) ≡ 32 = omega arith in
    (
      sym (pow-add b (32 - b)) ∙ ap (λ (t : ℕ). 2 ^ t) all,
      one-le-pow b 2 (omega arith),
      one-le-pow (32 - b) 2 (omega arith),
    )

-- A word is its two halves.
pub halves :
    (a : ℕ) → a < 2 ^ 64 → (high a * 2 ^ 32 + low a ≡ a) × (high a < 2 ^ 32) × (low a < 2 ^ 32)
halves a h = omega (arith, low_lem a)

-- The word that takes the bits of both halves.
pub middle-lt :
    (a b : ℕ) → a < 2 ^ 64 → b < 32 → bit_or (low a >>> b) (u32 (high a <<< (32 - b))) < 2 ^ 32
middle-lt a b h few =
    let (whole, pos, _) = powers b few in
    let (joined, hi, lo) = halves a h in
    let mid =
      bit_or_disjoint_right (32 - b) (high a % 2 ^ b) (low a / 2 ^ b)
        (right_part (2 ^ b) (2 ^ (32 - b)) whole pos (low a) lo) in
    rw (left_part (2 ^ b) (2 ^ (32 - b)) whole pos (high a) hi, mid)
      (crossing (2 ^ b) (2 ^ (32 - b)) whole pos (high a) (low a) hi lo)

pub lshrdi3_short :
    (a b : ℕ)
    → a < 2 ^ 64
    → b < 32
    → di_join (bit_or (low a >>> b) (u32 (high a <<< (32 - b)))) (high a >>> b) ≡ a / 2 ^ b
lshrdi3_short a b h few =
    let (whole, pos, _) = powers b few in
    let (joined, hi, lo) = halves a h in
    let mid =
      bit_or_disjoint_right (32 - b) (high a % 2 ^ b) (low a / 2 ^ b)
        (right_part (2 ^ b) (2 ^ (32 - b)) whole pos (low a) lo) in
    rw (left_part (2 ^ b) (2 ^ (32 - b)) whole pos (high a) hi, mid)
      (di_join_lem _ _ (crossing (2 ^ b) (2 ^ (32 - b)) whole pos (high a) (low a) hi lo)
          (omega (arith, div-le_self (high a) (2 ^ b)))
        ∙ sym (shift_right_halves (2 ^ b) (2 ^ (32 - b)) whole pos (high a) (low a))
        ∙ ap (λ (t : ℕ). t / 2 ^ b) joined)

-- A shift by 32 to 63 is a shift of one half.
pub split_power : (b : ℕ) → 32 ≤ b → 2 ^ b ≡ 2 ^ 32 * 2 ^ (b - 32)
split_power b h =
    let all : b ≡ 32 + (b - 32) = omega arith in ap (λ (t : ℕ). 2 ^ t) all ∙ pow-add 32 (b - 32)

pub lshrdi3_half : (a b : ℕ) → a < 2 ^ 64 → 32 ≤ b → di_join (high a >>> (b - 32)) 0 ≡ a / 2 ^ b
lshrdi3_half a b h many =
    let shrinks : high a / 2 ^ (b - 32) ≤ high a = div-le_self (high a) (2 ^ (b - 32)) in
    let top : high a ≡ a / 2 ^ 32 = omega arith in
    di_join_lem (high a >>> (b - 32)) 0 (omega arith) (omega arith)
    ∙ (omega arith
        ∙ (ap (λ (t : ℕ). t / 2 ^ (b - 32)) top
            ∙ (div-div-eq-div-mul a (2 ^ 32) (2 ^ (b - 32))
                ∙ ap (λ (t : ℕ). a / t) (sym (split_power b many)))))

pub power_large : (a b : ℕ) → a < 2 ^ 64 → 64 ≤ b → a < 2 ^ b
power_large a b h many = omega (arith, pow-le-pow_right {n = 2} (omega arith) {i = 64} {j = b} many)

-- `__lshrdi3` shifts any 64-bit word right, also by 64 places and more.
pub lshrdi3_lem : (a b : ℕ) → a < 2 ^ 64 → lshrdi3 a b ≡ a / 2 ^ b
unfolding lshrdi3
lshrdi3_lem a b h = elim (Bool-cases (leb 64 b)) [
  | inl all ↦ rw all (sym (div-eq_of_lt (power_large a b h (ground arith))))
  | inr some_left ↦ rw some_left (elim (Bool-cases (leb 32 b)) [
    | inl half ↦ rw half (lshrdi3_half a b h (ground arith))
    | inr short ↦ rw short (elim (Bool-cases (b == 0)) [
      | inl none_moved ↦ rw none_moved (rw ((==_iff b 0).0 none_moved) (omega arith))
      | inr moved ↦ rw moved (lshrdi3_short a b h (ground arith))
    ])
  ])
]

ashldi3_short :
    (a b : ℕ)
    → a < 2 ^ 64
    → 0 < b
    → b < 32
    → di_join (u32 (low a <<< b)) (bit_or (u32 (high a <<< b)) (low a >>> (32 - b)))
      ≡ u64 (a * 2 ^ b)
ashldi3_short a b h more few =
    let (whole', _, pos) = powers b few in
    let whole : 2 ^ (32 - b) * 2 ^ b ≡ 2 ^ 32 = omega arith in
    let (joined, hi, lo) = halves a h in
    let mid =
      bit_or_disjoint b (high a % 2 ^ (32 - b)) (low a / 2 ^ (32 - b))
        (right_part (2 ^ (32 - b)) (2 ^ b) whole pos (low a) lo) in
    let moved_low = left_part (2 ^ (32 - b)) (2 ^ b) whole pos (low a) lo in
    rw (left_part (2 ^ (32 - b)) (2 ^ b) whole pos (high a) hi, mid)
      (di_join_lem _ _ (omega arith)
          (crossing (2 ^ (32 - b)) (2 ^ b) whole pos (high a) (low a) hi lo)
        ∙ (omega (arith, moved_low)
            ∙ (sym (shift_left_halves (2 ^ (32 - b)) (2 ^ b) whole pos (high a) (low a) hi lo)
                ∙ ap (λ (t : ℕ). u64 (t * 2 ^ b)) joined)))

ashldi3_half :
    (a b : ℕ) → a < 2 ^ 64 → 32 ≤ b → di_join 0 (u32 (low a <<< (b - 32))) ≡ u64 (a * 2 ^ b)
ashldi3_half a b h many =
    let (joined, hi, lo) = halves a h in
    let q = 2 ^ (b - 32) in
    let spread : a * 2 ^ b ≡ (high a * 2 ^ 32 + low a) * (2 ^ 32 * q) =
      omega (arith, ap₂ (λ (s t : ℕ). s * t) (sym joined) (split_power b many)) in
    di_join_lem 0 (u32 (low a <<< (b - 32))) (omega arith) (omega arith) ∙ omega arith

ashldi3_all : (a b : ℕ) → 64 ≤ b → 0 ≡ u64 (a * 2 ^ b)
ashldi3_all a b many =
    let all : b ≡ 64 + (b - 64) = omega arith in
    let spread : a * 2 ^ b ≡ a * (2 ^ 64 * 2 ^ (b - 64)) =
      ap (λ (t : ℕ). a * t) (ap (λ (t : ℕ). 2 ^ t) all ∙ pow-add 64 (b - 64)) in
    omega arith

-- `__ashldi3` shifts any 64-bit word left, also by 64 places and more.
pub ashldi3_lem : (a b : ℕ) → a < 2 ^ 64 → ashldi3 a b ≡ u64 (a * 2 ^ b)
unfolding ashldi3
ashldi3_lem a b h = elim (Bool-cases (leb 64 b)) [
  | inl all ↦ rw all (ashldi3_all a b (ground arith))
  | inr some_left ↦ rw some_left (elim (Bool-cases (leb 32 b)) [
    | inl half ↦ rw half (ashldi3_half a b h (ground arith))
    | inr short ↦ rw short (elim (Bool-cases (b == 0)) [
      | inl none_moved ↦ rw none_moved (rw ((==_iff b 0).0 none_moved) (omega arith))
      | inr moved ↦ rw moved (ashldi3_short a b h (ground arith) (ground arith))
    ])
  ])
]
