-- ===== src/DivMod/Correct.antt =====
-- `__udivmoddi4` divides.
use mathlib.Core.Path.{ap, sym, ◌∙◌}
use native.Mathlib.Nat.{pow-suc}
use lamp_userspace.Prelude.{
  ℕ, zero, suc, ◌+◌, ◌-◌, ◌*◌, ◌/◌, ◌%◌, ◌^◌, ◌≤◌, ◌<◌, ◌≡◌, some, true, false, Bool-cases, inl,
  inr, leb, u64, bit_or, ◌<<<◌, bit_or_disjoint, lt_of_pow-lt-pow, arith, while, while_total, u32,
  div_unique, mod_unique, ltb, ==-false,
}
use lamp_userspace.DivMod.{QuotRem, Scaled, can_scale, scale, restore_bit, restore, udivmoddi4}

shift_left_one : (q : ℕ) → 2 * q < 2 ^ 64 → u64 (q <<< 1) ≡ 2 * q
shift_left_one q h = omega arith

set_low_bit : (q : ℕ) → 2 * q < 2 ^ 64 → bit_or (u64 (q <<< 1)) 1 ≡ 2 * q + 1
set_low_bit q h =
    let fits : u64 (q <<< 1) ≡ q * 2 ^ 1 = omega arith in
    rw fits (omega (arith, bit_or_disjoint 1 q 1 (omega arith)))

-- One round moves one multiple of the divisor from `a` to `quot`, if it fits.
restore_bit_lem :
    (a d quot : ℕ)
    → a < 2 * d
    → 2 * quot * d + a < 2 ^ 64
    → let r = restore_bit a d quot in (r.quot * d + r.rem ≡ 2 * quot * d + a) × (r.rem < d)
unfolding restore_bit
restore_bit_lem a d quot h1 h2 =
    let small : 2 * quot < 2 ^ 64 = grind arith in
    elim (Bool-cases (leb d a)) [
      | inl fits ↦ rw (fits, set_low_bit quot small) (ground arith)
      | inr above ↦ rw above (ground (arith, shift_left_one quot small))
    ]

twice : (b s : ℕ) → b * 2 ^ suc s ≡ 2 * (b * 2 ^ s)
twice b s = omega (arith, ap (λ (t : ℕ). b * t) (pow-suc 2 s))

restore_lem :
    (s a b div quot : ℕ)
    → div ≡ b * 2 ^ s
    → a < 2 * div
    → 2 * quot * div + a < 2 ^ 64
    → let r = restore s a div quot in (r.quot * b + r.rem ≡ 2 * quot * div + a) × (r.rem < b)
unfolding restore
restore_lem zero a b div quot e h1 h2 =
    let e' : div ≡ b = omega arith in rw (← e') (restore_bit_lem a div quot h1 h2)
restore_lem (suc s) a b div quot e h1 h2 =
    let r = restore_bit a div quot in
    let step : (r.quot * div + r.rem ≡ 2 * quot * div + a) × (r.rem < div) =
      restore_bit_lem a div quot h1 h2 in
    let half : div / 2 ≡ b * 2 ^ s = omega (arith, twice b s) in
    let even : div ≡ 2 * (div / 2) = omega (arith, twice b s) in
    let same : 2 * r.quot * (div / 2) ≡ r.quot * div =
      omega (arith, ap (λ (t : ℕ). r.quot * t) even) in
    omega (arith, step, restore_lem s r.rem b (div / 2) r.quot half)

abbrev start : ℕ → Scaled
start b = record { div = b; shift = 0 }

-- The divisor was shifted `shift` times and is still at most `a`.
record IsScaled (a b : ℕ) (s : Scaled) : Type 0 where
  scaled : s.div ≡ b * 2 ^ s.shift
  within : s.div ≤ a
  few : s.shift < 64

scale-IsScaled :
    (a b : ℕ)
    → a < 2 ^ 64
    → 0 < b
    → (s : Scaled) → can_scale a s ≡ true
    → IsScaled a b s
    → IsScaled a b (scale s) × (64 - (scale s).shift < 64 - s.shift)
unfolding can_scale scale
scale-IsScaled a b fits pos s h inv =
    let below : s.div ≤ a / 2 = ground arith in
    let exact : (s.div * 2) % 2 ^ 64 ≡ b * 2 ^ suc s.shift = omega (arith, twice b s.shift) in
    let bound : 2 ^ suc s.shift ≤ b * 2 ^ suc s.shift = grind arith in
    let few : suc s.shift < 64 = lt_of_pow-lt-pow (suc s.shift) 64 (omega arith) in
    let count : u32 (s.shift + 1) ≡ suc s.shift = omega arith in
    (
      record {
        scaled = exact ∙ ap (λ (t : ℕ). b * 2 ^ t) (sym count);
        within = omega arith;
        few = omega arith;
      },
      omega arith,
    )

scaled_up :
    (a b : ℕ)
    → a < 2 ^ 64
    → 0 < b
    → b ≤ a
    → (s : Scaled) × (while 65 (can_scale a) scale (start b) ≡ some s)
      × IsScaled a b s
      × (can_scale a s ≡ false)
scaled_up a b fits pos h =
    while_total (can_scale a) scale (IsScaled a b) (λ s. 64 - s.shift) (scale-IsScaled a b fits pos)
      65 (start b) (record { scaled = omega arith; within = h; few = omega arith }) (omega arith)

-- The loop stops when the doubled divisor would pass `a` or leave the word.
stopped : (a : ℕ) (s : Scaled) → a < 2 ^ 64 → can_scale a s ≡ false → a < 2 * s.div
unfolding can_scale
stopped a s fits h = ground arith

QuotRem_path :
    (r : QuotRem) (a b : ℕ)
    → (r.quot * b + r.rem ≡ a) × (r.rem < b)
    → r ≡ record { quot = a / b; rem = a % b }
QuotRem_path r a b h = cc (div_unique a b r.quot r.rem h.0 h.1, mod_unique a b r.quot r.rem h.0 h.1)

-- On 64-bit words `__udivmoddi4` ends within 64 shifts and gives the quotient and the remainder,
-- unless the divisor is zero.
pub udivmoddi4_lem :
    (a b : ℕ) → a < 2 ^ 64 → 0 < b → udivmoddi4 a b ≡ some (record { quot = a / b; rem = a % b })
unfolding udivmoddi4
udivmoddi4_lem a b fits pos = elim (Bool-cases (ltb a b)) [
  | inl below ↦
      rw (==-false b 0 (omega arith), below)
        (ap some (QuotRem_path (record { quot = 0; rem = a }) a b (ground arith)))
  | inr above ↦
      let (s, runs, inv, stop) = scaled_up a b fits pos (ground arith) in
      let r = restore s.shift a s.div 0 in
      let divides : (r.quot * b + r.rem ≡ 2 * 0 * s.div + a) × (r.rem < b) =
        restore_lem s.shift a b s.div 0 inv.scaled (stopped a s fits stop) (omega arith) in
      rw (==-false b 0 (omega arith), above, runs) (ap some (QuotRem_path r a b (omega arith)))
]
