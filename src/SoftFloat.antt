-- ===== src/SoftFloat.antt =====
-- lib/compiler_rt_softfloat.c: binary64 arithmetic on 64-bit words. A double is its bit pattern, an
-- `int` result of a conversion its 32-bit pattern, and the result of a comparison an integer.
pub mod Compare
pub mod Convert
pub mod Round
pub mod Double
pub mod Single
mod Tests
use lamp_userspace.Prelude.{
  ℕ, zero, suc, ◌+◌, ◌-◌, ◌*◌, ◌^◌, Bool, true, false, not, ◌&&◌, ◌||◌, ltb, leb, ◌==◌,
  if◌then◌else◌, u32, u64, ◌<<<◌, ◌>>>◌, bit_and, bit_or, bit_xor,
}
use lamp_userspace.Prelude.Int.{ℤ, pos, negsuc}

abbrev pub d_sign : ℕ
d_sign = 0x8000000000000000

abbrev pub d_exp : ℕ
d_exp = 0x7FF0000000000000

abbrev pub d_frac : ℕ
d_frac = 0x000FFFFFFFFFFFFF

abbrev pub d_impl : ℕ
d_impl = 0x0010000000000000

abbrev pub d_quiet : ℕ
d_quiet = 0x0008000000000000

abbrev pub d_bias : ℕ
d_bias = 1023

pub df_is_nan : ℕ → Bool
df_is_nan x =
    bit_and (x >>> 32) 0x7FF00000 == 0x7FF00000
    && (not (bit_and (x >>> 32) 0x000FFFFF == 0) || not (u32 x == 0))

-- The two steps of `df_cmp3way` for each operand: both zeros are the same, and then the patterns
-- are put in the order of the numbers.
abbrev pub without_zero_sign : ℕ → ℕ
without_zero_sign u = if u64 (u <<< 1) == 0 then 0 else u

abbrev pub key : ℕ → ℕ
key u = if u >>> 63 == 0 then bit_xor u d_sign else 2 ^ 64 - 1 - u

pub df_cmp3way : ℕ → ℕ → ℤ → ℤ
df_cmp3way ua ub nan_result =
    let ka = key (without_zero_sign ua) in
    let kb = key (without_zero_sign ub) in
    if df_is_nan ua || df_is_nan ub
    then nan_result
    else if ltb ka kb
    then negsuc 0
    else if ltb kb ka
    then pos 1
    else pos 0

pub eqdf2 : ℕ → ℕ → ℤ
eqdf2 a b = df_cmp3way a b (pos 1)

unfoldable nedf2 : ℕ → ℕ → ℤ
nedf2 a b = df_cmp3way a b (pos 1)

unfoldable ltdf2 : ℕ → ℕ → ℤ
ltdf2 a b = df_cmp3way a b (pos 1)

unfoldable ledf2 : ℕ → ℕ → ℤ
ledf2 a b = df_cmp3way a b (pos 1)

unfoldable gtdf2 : ℕ → ℕ → ℤ
gtdf2 a b = df_cmp3way a b (negsuc 0)

unfoldable gedf2 : ℕ → ℕ → ℤ
gedf2 a b = df_cmp3way a b (negsuc 0)

unfoldable unorddf2 : ℕ → ℕ → Bool
unfolding df_is_nan
unorddf2 a b = df_is_nan a || df_is_nan b

-- The loop of `df_msb`, which counts the shifts until the number is zero. A word needs 64 at most.
pub bit_count : ℕ → ℕ → ℕ
bit_count zero v = 0
bit_count (suc rounds) v = let rest = bit_count rounds (v >>> 1) in if v == 0 then 0 else suc rest

-- `df_msb` of a word that is not zero.
abbrev pub df_msb : ℕ → ℕ
df_msb v = bit_count 64 v - 1

pub df_from_mag : ℕ → ℕ → ℕ
df_from_mag mag sign =
    let tm = df_msb mag in
    let q = u64 (mag <<< (52 - tm)) in
    if mag == 0
    then u64 (sign <<< 63)
    else bit_or (bit_or (u64 (sign <<< 63)) (u64 ((tm + d_bias) <<< 52))) (bit_and q d_frac)

pub floatsidf : ℕ → ℕ
floatsidf v = if leb (2 ^ 31) v then df_from_mag (2 ^ 32 - (v + 1) + 1) 1 else df_from_mag v 0

pub floatunsidf : ℕ → ℕ
floatunsidf v = df_from_mag v 0

-- The result that stands for a number out of range.
abbrev pub saturated : Bool → ℕ
saturated is_signed = if is_signed then 0x80000000 else 0x7FFFFFFF

-- The end of `df_to_i`, from the magnitude on.
pub clamp : ℕ → Bool → ℕ → ℕ
clamp sign is_signed ip =
    if is_signed
    then (if not (sign == 0)
        then (if ltb 0x80000000 ip then 0x80000000 else u32 (2 ^ 32 - ip))
        else if ltb 0x7FFFFFFF ip
        then 0x7FFFFFFF
        else ip)
    else if not (sign == 0) || ltb 0xFFFFFFFF ip
    then saturated is_signed
    else ip

pub df_to_i : ℕ → Bool → ℕ
unfolding clamp
df_to_i a is_signed =
    let sign = a >>> 63 in
    let e = bit_and (a >>> 52) 0x7FF in
    let q = bit_or (bit_and a d_frac) d_impl in
    let re = e - d_bias in
    let sh2 = re - 52 in
    if e == 0x7FF
    then saturated is_signed
    else if e == 0
    then 0
    else if ltb e d_bias
    then 0
    else if leb re 52
    then clamp sign is_signed (q >>> (52 - re))
    else if leb 32 sh2 || not (u64 (q <<< sh2) >>> 32 == 0)
    then saturated is_signed
    else clamp sign is_signed (u64 (q <<< sh2))

pub fixdfsi : ℕ → ℕ
fixdfsi a = df_to_i a true

pub fixunsdfsi : ℕ → ℕ
fixunsdfsi a = df_to_i a false
