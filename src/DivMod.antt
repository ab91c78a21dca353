-- ===== src/DivMod.antt =====
-- lib/compiler_rt_divmod.c: 64-bit division, shifts and multiplication for a target that has only
-- 32-bit ones. A word is a number below 2 ^ 64 (`du_int`) or 2 ^ 32 (`unsigned`).
pub mod Correct
pub mod Signed
pub mod Shift
pub mod Arithmetic
pub mod Multiply
mod Tests
use mathlib.Core.Option
use mathlib.Core.Bool.{xor}
use lamp_userspace.Prelude.{
  ℕ, zero, suc, ◌+◌, ◌-◌, ◌*◌, ◌/◌, ◌%◌, ◌^◌, Bool, true, false, not, Option, none, some, ◌&&◌, ltb,
  leb, ◌==◌, if◌then◌else◌, while, u32, u64, ◌<<<◌, ◌>>>◌, bit_or, bit_and,
}

-- What `__udivmoddi4` returns and what it stores through `rem`.
pub record QuotRem : Type 0 where
  pub quot : ℕ
  pub rem : ℕ

-- The divisor as it is shifted up, and the count of the shifts.
pub record Scaled : Type 0 where
  pub div : ℕ
  pub shift : ℕ

-- The test and the body of the first loop of `__udivmoddi4`.
pub can_scale : ℕ → Scaled → Bool
can_scale a s = s.div >>> 63 == 0 && leb s.div (a >>> 1)

pub scale : Scaled → Scaled
scale s = record { div = u64 (s.div <<< 1); shift = u32 (s.shift + 1) }

-- The body of the second loop, up to its test of `shift`.
pub restore_bit : ℕ → ℕ → ℕ → QuotRem
restore_bit a div quot =
    let quot' = u64 (quot <<< 1) in
    if leb div a
    then record { quot = bit_or quot' 1; rem = a - div }
    else record { quot = quot'; rem = a }

-- The second loop, with `shift` rounds before its last.
pub restore : ℕ → ℕ → ℕ → ℕ → QuotRem
restore zero a div quot = restore_bit a div quot
restore (suc shift) a div quot =
    let r = restore_bit a div quot in restore shift r.rem (div >>> 1) r.quot

-- The first loop gets a round for each bit of a word and one more.
pub udivmoddi4 : ℕ → ℕ → Option QuotRem
udivmoddi4 a b =
    if b == 0
    then some (record { quot = 0; rem = 0 })
    else if ltb a b
    then some (record { quot = 0; rem = a })
    else elim (while 65 (can_scale a) scale (record { div = b; shift = 0 })) [
      | none ↦ none
      | some s ↦ some (restore s.shift a s.div 0)
    ]

pub udivdi3 : ℕ → ℕ → Option ℕ
udivdi3 a b = Option.map (λ r. r.quot) (udivmoddi4 a b)

pub umoddi3 : ℕ → ℕ → Option ℕ
umoddi3 a b = Option.map (λ r. r.rem) (udivmoddi4 a b)

-- A `di_int` is its bit pattern, and this is its test `< 0`.
abbrev pub is_negative : ℕ → Bool
is_negative v = leb (2 ^ 63) v

-- `0 - uv` on `du_int`, and `-v` on the pattern of a `di_int`.
abbrev pub negate : ℕ → ℕ
negate v = (2 ^ 64 - v) % 2 ^ 64

pub uabsdi : ℕ → ℕ
uabsdi v = if is_negative v then negate v else v

pub divdi3 : ℕ → ℕ → Option ℕ
divdi3 a b =
    if b == 0
    then some 0
    else Option.map (λ uq. if xor (is_negative a) (is_negative b) then negate uq else uq)
        (udivdi3 (uabsdi a) (uabsdi b))

pub moddi3 : ℕ → ℕ → Option ℕ
moddi3 a b =
    if b == 0
    then some 0
    else Option.map (λ ur. if is_negative a then negate ur else ur) (umoddi3 (uabsdi a) (uabsdi b))

-- The two halves of a word.
abbrev pub low : ℕ → ℕ
low v = bit_and v 0xffff_ffff

abbrev pub high : ℕ → ℕ
high v = u32 (v >>> 32)

pub di_join : ℕ → ℕ → ℕ
di_join lo hi = bit_or lo (u64 (hi <<< 32))

-- The shift counts are `int`, by their bit patterns: a negative one is above 63 as `unsigned`.
pub ashldi3 : ℕ → ℕ → ℕ
ashldi3 a b =
    if leb 64 b
    then 0
    else if leb 32 b
    then di_join 0 (u32 (low a <<< (b - 32)))
    else if b == 0
    then a
    else di_join (u32 (low a <<< b)) (bit_or (u32 (high a <<< b)) (low a >>> (32 - b)))

pub lshrdi3 : ℕ → ℕ → ℕ
lshrdi3 a b =
    if leb 64 b
    then 0
    else if leb 32 b
    then di_join (high a >>> (b - 32)) 0
    else if b == 0
    then a
    else di_join (bit_or (low a >>> b) (u32 (high a <<< (32 - b)))) (high a >>> b)

-- The test `hi & 0x80000000u`.
abbrev pub sign_bit : ℕ → Bool
sign_bit hi = not (bit_and hi 0x8000_0000 == 0)

-- The branch of `__ashrdi3` for 32 to 63 places.
pub ashr_high : ℕ → ℕ → ℕ
ashr_high a b =
    let fill = if sign_bit (high a) then 0xffff_ffff else 0 in
    let newlo = high a >>> (b - 32) in
    let sh = b - 32 in
    di_join
      (if not (fill == 0) && ltb sh 32 then bit_or newlo (u32 (fill <<< (32 - sh))) else newlo) fill

-- Its last branch, for 1 to 31 places.
pub ashr_both : ℕ → ℕ → ℕ
ashr_both a b =
    let newlo = bit_or (low a >>> b) (u32 (high a <<< (32 - b))) in
    let newhi = high a >>> b in
    let filled = bit_or newhi (u32 (0xffff_ffff <<< (32 - b))) in
    di_join newlo (if sign_bit (high a) then (if ltb b 32 then filled else newhi) else newhi)

pub ashrdi3 : ℕ → ℕ → ℕ
ashrdi3 a b =
    if leb 64 b
    then (if sign_bit (high a) then 2 ^ 64 - 1 else 0)
    else if leb 32 b
    then ashr_high a b
    else if b == 0
    then a
    else ashr_both a b

-- The loop variables of `__muldi3`.
pub record Product : Type 0 where
  pub r : ℕ
  pub a : ℕ
  pub b : ℕ

pub shift_and_add : Product → Product
shift_and_add s = record {
  r = if bit_and s.b 1 == 0 then s.r else u64 (s.r + s.a);
  a = u64 (s.a <<< 1);
  b = s.b >>> 1;
}

-- The loop gets a round for each bit of a word and one more.
pub muldi3 : ℕ → ℕ → Option ℕ
muldi3 a b =
    Option.map (λ s. s.r)
      (while 65 (λ s. not (s.b == 0)) shift_and_add (record { r = 0; a = a; b = b }))
