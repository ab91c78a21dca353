-- ===== src/DivMod/Multiply.antt =====
-- `__muldi3` multiplies modulo 2 ^ 64.
use mathlib.Core.Option
use mathlib.Core.Path.{ap, ◌∙◌}
use mathlib.Core.Bool.{Bool}
use native.Mathlib.Nat.{pow-suc}
use lamp_userspace.Prelude.{
  ℕ, zero, suc, ◌+◌, ◌*◌, ◌/◌, ◌%◌, ◌^◌, ◌<◌, ◌≡◌, some, not, Bool-cases, inl, inr, ◌==◌, bit_and,
  bit_and_low_mask, u64, u64_eq, ◌<<<◌, while, while_stop, while_step, arith,
}
use lamp_userspace.DivMod.{Product, shift_and_add, muldi3}

-- `a << 1` times half of `b` is `a` times the even part of `b`, up to the wraps of the shift.
doubled_half :
    (a b : ℕ)
    → u64 (a <<< 1) * (b / 2) + 2 ^ 64 * ((a * 2) / 2 ^ 64 * (b / 2)) + a * (b % 2) ≡ a * b
doubled_half a b =
    let halves : a * b ≡ a * (2 * (b / 2) + b % 2) = ap (λ (t : ℕ). a * t) (omega arith) in
    let wraps : a * 2 * (b / 2) ≡ (u64 (a * 2) + 2 ^ 64 * ((a * 2) / 2 ^ 64)) * (b / 2) =
      ap (λ (t : ℕ). t * (b / 2)) (omega arith) in
    omega arith

-- One round keeps `r + a * b`, as a word.
shift_and_add_lem :
    (s : Product) → let t = shift_and_add s in u64 (t.r + t.a * t.b) ≡ u64 (s.r + s.a * s.b)
unfolding shift_and_add
shift_and_add_lem s =
    let wraps = (s.a * 2) / 2 ^ 64 * (s.b / 2) in
    let parity : bit_and s.b 1 ≡ s.b % 2 = bit_and_low_mask 1 s.b in
    elim (Bool-cases (bit_and s.b 1 == 0)) [
      | inl even ↦
          let none_added : s.a * (s.b % 2) ≡ s.a * 0 = ap (λ (t : ℕ). s.a * t) (ground arith) in
          rw even (u64_eq _ _ wraps (omega (arith, doubled_half s.a s.b)))
      | inr odd ↦
          let added : s.a * (s.b % 2) ≡ s.a * 1 = ap (λ (t : ℕ). s.a * t) (ground arith) in
          rw odd (u64_eq _ _ (wraps + (s.r + s.a) / 2 ^ 64) (omega (arith, doubled_half s.a s.b)))
    ]

shift_and_add-lt : (s : Product) → s.r < 2 ^ 64 → (shift_and_add s).r < 2 ^ 64
unfolding shift_and_add
shift_and_add-lt s h = ground arith

shift_and_add_half : (s : Product) → (shift_and_add s).b ≡ s.b / 2
unfolding shift_and_add
shift_and_add_half s = omega arith

more : Product → Bool
more s = not (s.b == 0)

product_loop :
    (k : ℕ) (s : Product)
    → s.b < 2 ^ k
    → s.r < 2 ^ 64
    → Option.map (λ (s : Product). s.r) (while (suc k) more shift_and_add s)
      ≡ some (u64 (s.r + s.a * s.b))
unfolding more
product_loop zero s h small =
    let none_left : s.b ≡ 0 = omega arith in
    rw (while_stop 0 more shift_and_add s (ground arith))
      (ap some (omega (arith, ap (λ (t : ℕ). s.a * t) none_left)))
product_loop (suc k) s h small = elim (Bool-cases (s.b == 0)) [
  | inl done ↦
      let none_left : s.b ≡ 0 = ground arith in
      rw (while_stop (suc k) more shift_and_add s (rw done))
        (ap some (omega (arith, ap (λ (t : ℕ). s.a * t) none_left)))
  | inr left ↦ rw (while_step (suc k) more shift_and_add s (rw left)) (
      product_loop k (shift_and_add s) (omega (arith, shift_and_add_half s, pow-suc 2 k))
        (shift_and_add-lt s small)
      ∙ ap some (shift_and_add_lem s))
]

-- `__muldi3` ends and gives the low 64 bits of the product of two 64-bit words.
pub muldi3_lem : (a b : ℕ) → b < 2 ^ 64 → muldi3 a b ≡ some (u64 (a * b))
unfolding muldi3 more
muldi3_lem a b h =
    product_loop 64 (record { r = 0; a = a; b = b }) h (omega arith) ∙ ap some (omega arith)
