-- ===== src/Prelude/Word.antt =====
-- The unsigned words of C as native numbers: the wrap-around is written out, and `|` and `&` of
-- disjoint fields are sums and remainders.
use Prim.Native.Nat.{
  ℕ, zero, suc, ◌+◌, ◌-◌, ◌*◌, ◌/◌, ◌%◌, ◌^◌, ◌≤◌, ◌<◌, min, max, bit_and, bit_or,
}
use Prim.Native.Nat.{
  bit_xor, differ, digits, bitwise, bit_and-bitwise, bit_or-bitwise, bit_xor-bitwise,
}
use mathlib.Core.Path.{◌≡◌, refl, sym, ap, ◌∙◌}
use native.Mathlib.Omega.{arith}
use native.Mathlib.Nat.{
  add-zero, pow-suc, one-le-pow, pow-le-pow_right, div-eq_of_lt-le, div-add-mod',
  div-div-eq-div-mul,
}
use native.Mathlib.Decide.{dec_lt}

abbrev pub u8 : ℕ → ℕ
u8 n = n % 2 ^ 8

abbrev pub u32 : ℕ → ℕ
u32 n = n % 2 ^ 32

abbrev pub u64 : ℕ → ℕ
u64 n = n % 2 ^ 64

-- `x << k` and `x >> k` before any cut to the width of `x`.
infixl 75 ◌<<<◌ ◌>>>◌
abbrev pub ◌<<<◌ : ℕ → ℕ → ℕ
x <<< k = x * 2 ^ k

abbrev pub ◌>>>◌ : ℕ → ℕ → ℕ
x >>> k = x / 2 ^ k

-- The fuel of `digits` does not matter once it covers the number.
digits-enough :
    (z : ℕ → ℕ) (f : ℕ → ℕ → ℕ) (n a b : ℕ) → a ≤ n → digits z f n a b ≡ digits z f a a b
digits-enough z f n a b h = aligned n a a b h (omega arith)
  where
    aligned : (n m a b : ℕ) → a ≤ n → a ≤ m → digits z f n a b ≡ digits z f m a b
    aligned zero zero a b p q = refl
    aligned zero (suc m) zero b p q = refl
    aligned zero (suc m) (suc a) b p q = elim p [ ]
    aligned (suc n) zero zero b p q = refl
    aligned (suc n) zero (suc a) b p q = elim q [ ]
    aligned (suc n) (suc m) zero b p q = refl
    aligned (suc n) (suc m) (suc a) b p q =
        rw (aligned n m (suc a / 2) (b / 2) (omega arith) (omega arith))

bitwise_low :
    (z : ℕ → ℕ) (f : ℕ → ℕ → ℕ) (a b : ℕ)
    → bitwise z f (suc a) b ≡ bitwise z f (suc a / 2) (b / 2) * 2 + f (suc a % 2) (b % 2)
bitwise_low z f a b = omega (arith, digits-enough z f a (suc a / 2) (b / 2) (omega arith))

pub bit_or_low : (a b : ℕ) → bit_or a b ≡ bit_or (a / 2) (b / 2) * 2 + max (a % 2) (b % 2)
bit_or_low zero b = simp bit_or-bitwise (omega arith)
bit_or_low (suc a) b = simp bit_or-bitwise (bitwise_low (λ y. y) max a b)

pub bit_and_low : (a b : ℕ) → bit_and a b ≡ bit_and (a / 2) (b / 2) * 2 + min (a % 2) (b % 2)
bit_and_low zero b = simp bit_and-bitwise (omega arith)
bit_and_low (suc a) b = simp bit_and-bitwise (bitwise_low (λ y. 0) min a b)

bit_or-zero : (n a : ℕ) → a ≤ n → bit_or a 0 ≡ a
bit_or-zero n zero h = refl
bit_or-zero zero (suc a) h = elim h [ ]
bit_or-zero (suc n) (suc a) h =
    omega (arith, bit_or_low (suc a) 0, bit_or-zero n (suc a / 2) (omega arith))

bit_and-zero : (n a : ℕ) → a ≤ n → bit_and a 0 ≡ 0
bit_and-zero n zero h = refl
bit_and-zero zero (suc a) h = elim h [ ]
bit_and-zero (suc n) (suc a) h =
    omega (arith, bit_and_low (suc a) 0, bit_and-zero n (suc a / 2) (omega arith))

double_field : (q k : ℕ) → q * 2 ^ suc k ≡ 2 * (q * 2 ^ k)
double_field q k = omega (arith, ap (λ (t : ℕ). q * t) (pow-suc 2 k))

half_power : (k : ℕ) → 2 ^ suc k / 2 ≡ 2 ^ k
half_power k = omega (arith, pow-suc 2 k)

-- `(q << k) | r` adds, when `r` has no more than `k` bits.
pub bit_or_disjoint : (k q r : ℕ) → r < 2 ^ k → bit_or (q * 2 ^ k) r ≡ q * 2 ^ k + r
bit_or_disjoint zero q r h = ground (arith, bit_or-zero q q)
bit_or_disjoint (suc k) q r h = ground (
  arith,
  bit_or_low (q * 2 ^ suc k) r,
  double_field q k,
  bit_or_disjoint k q (r / 2) (omega (arith, pow-suc 2 k)),
)

-- The same with the fields the other way round.
pub bit_or_disjoint_right : (k q r : ℕ) → r < 2 ^ k → bit_or r (q * 2 ^ k) ≡ q * 2 ^ k + r
bit_or_disjoint_right zero q r h = ground (arith, bit_or-bitwise 0 q)
bit_or_disjoint_right (suc k) q r h = ground (
  arith,
  bit_or_low r (q * 2 ^ suc k),
  double_field q k,
  bit_or_disjoint_right k q (r / 2) (omega (arith, pow-suc 2 k)),
)

bit_xor_low : (a b : ℕ) → bit_xor a b ≡ bit_xor (a / 2) (b / 2) * 2 + differ (a % 2) (b % 2)
bit_xor_low zero b = simp bit_xor-bitwise (omega arith)
bit_xor_low (suc a) b = simp bit_xor-bitwise (bitwise_low (λ y. y) differ a b)

differ-zero : (r : ℕ) → differ r 0 ≡ r
differ-zero zero = refl
differ-zero (suc r) = refl

-- `^` with a field above the other number adds.
pub bit_xor_disjoint_right : (k q r : ℕ) → r < 2 ^ k → bit_xor r (q * 2 ^ k) ≡ q * 2 ^ k + r
bit_xor_disjoint_right zero q r h = ground (arith, bit_xor-bitwise 0 q)
bit_xor_disjoint_right (suc k) q r h = ground (
  arith,
  bit_xor_low r (q * 2 ^ suc k),
  double_field q k,
  differ-zero (r % 2),
  bit_xor_disjoint_right k q (r / 2) (omega (arith, pow-suc 2 k)),
)

bit_and_split : (k q r : ℕ) → r < 2 ^ k → bit_and (q * 2 ^ k + r) (2 ^ k - 1) ≡ r
bit_and_split zero q r h = ground (arith, bit_and-zero (q * 1 + r) (q * 1 + r))
bit_and_split (suc k) q r h = ground (
  arith,
  bit_and_low (q * 2 ^ suc k + r) (2 ^ suc k - 1),
  double_field q k,
  pow-suc 2 k,
  bit_and_split k q (r / 2) (omega (arith, pow-suc 2 k)),
)

-- `&` with a mask of `k` low bits is the remainder.
pub bit_and_low_mask : (k a : ℕ) → bit_and a (2 ^ k - 1) ≡ a % 2 ^ k
bit_and_low_mask k a = ground (arith, one-le-pow k 2, bit_and_split k (a / 2 ^ k) (a % 2 ^ k))

-- `&` with a single bit keeps that bit.
pub bit_and_single : (k a : ℕ) → bit_and a (2 ^ k) ≡ a / 2 ^ k % 2 * 2 ^ k
bit_and_single zero a = omega (arith, bit_and_low_mask 1 a)
bit_and_single (suc k) a =
    let halved : a / 2 ^ suc k ≡ a / 2 / 2 ^ k =
      ap (λ (t : ℕ). a / t) (omega (arith, pow-suc 2 k)) ∙ sym (div-div-eq-div-mul a 2 (2 ^ k)) in
    let doubled : a / 2 / 2 ^ k % 2 * 2 ^ suc k ≡ 2 * (a / 2 / 2 ^ k % 2 * 2 ^ k) =
      double_field (a / 2 / 2 ^ k % 2) k in
    rw halved (
      omega (
        arith,
        bit_and_low a (2 ^ suc k),
        pow-suc 2 k,
        doubled,
        ap (λ (t : ℕ). bit_and (a / 2) t) (half_power k),
        bit_and_single k (a / 2),
      ))

pub lt_of_pow-lt-pow : (n m : ℕ) → 2 ^ n < 2 ^ m → n < m
lt_of_pow-lt-pow n m h = elim (dec_lt n m) [
  | yes below ↦ below
  | no above ↦
      absurd (omega (arith, pow-le-pow_right {n = 2} (omega arith) {i = m} {j = n} (omega arith)))
]

-- A quotient and a remainder below the divisor are `/` and `%`.
pub div_unique : (a b q r : ℕ) → q * b + r ≡ a → r < b → a / b ≡ q
div_unique a b q r e h = div-eq_of_lt-le b {m = a} (omega arith) (omega arith)

pub mod_unique : (a b q r : ℕ) → q * b + r ≡ a → r < b → a % b ≡ r
mod_unique a b q r e h =
    let whole : a / b * b + a % b ≡ a = div-add-mod' a b in
    omega (arith, ap (λ (t : ℕ). t * b) (div_unique a b q r e h))

pub pow-add : (a b : ℕ) → 2 ^ (a + b) ≡ 2 ^ a * 2 ^ b
pow-add a zero = omega (arith, ap (λ (t : ℕ). 2 ^ t) (add-zero a))
pow-add a (suc b) =
    let e : a + suc b ≡ suc (a + b) = omega arith in
    omega (
      arith,
      ap (λ (t : ℕ). 2 ^ t) e,
      pow-suc 2 (a + b),
      ap (λ (t : ℕ). 2 ^ a * t) (pow-suc 2 b),
      pow-add a b,
    )

-- Words that differ by a multiple of the modulus are the same word.
pub u64_eq : (x y m : ℕ) → x + 2 ^ 64 * m ≡ y → u64 x ≡ u64 y
u64_eq x y m h = omega arith
