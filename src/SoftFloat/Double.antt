-- ===== src/SoftFloat/Double.antt =====
-- lib/compiler_rt_softfloat.c, the arithmetic of doubles.
pub mod Product
use lamp_userspace.Prelude.{
  ℕ, zero, suc, ◌+◌, ◌-◌, ◌^◌, Bool, false, not, ◌&&◌, ◌||◌, ltb, leb, ◌==◌, if◌then◌else◌, u64,
  ◌<<<◌, ◌>>>◌, bit_and, bit_or, bit_xor,
}
use lamp_userspace.Prelude.Int.{pos, negsuc, ◌+ℤ◌, ◌-ℤ◌, ltb_ℤ, count_of}
use lamp_userspace.SoftFloat.{d_sign, d_exp, d_quiet}
use lamp_userspace.SoftFloat.Round.{Unpacked, df_unpack, sign_bit_of, df_norm_pack128, df_norm_pack}

-- The mark of an infinity or a NaN.
abbrev is_special : Unpacked → Bool
is_special u = elim u.exp [ pos f ↦ f == 0x7FFF | negsuc _ ↦ false ]

abbrev quiet_nan : ℕ
quiet_nan = bit_or d_exp d_quiet

-- The comparison of magnitudes that decides whether the operands of the addition change places.
abbrev is_less : Unpacked → Unpacked → Bool
is_less x y = ltb_ℤ x.exp y.exp || not (ltb_ℤ y.exp x.exp) && ltb x.sig y.sig

-- The addition from the alignment on: `x` has the larger magnitude and is the operand `larger`.
unfoldable add_aligned : ℕ → Unpacked → Unpacked → ℕ
unfolding df_norm_pack128
add_aligned larger x y =
    let align = count_of (x.exp -ℤ y.exp) in
    let ga = u64 (x.sig <<< 6) in
    let bl = u64 (y.sig <<< 6) in
    let tail = bit_and bl (2 ^ align - 1) in
    let s_extra =
      if leb 64 align then not (bl == 0) else if ltb 0 align then not (tail == 0) else false in
    let b = if leb 64 align then 0 else bl >>> align in
    let sum = u64 (ga + b) in
    let difference = ga - b in
    let e = x.exp -ℤ pos 6 in
    if ltb 122 align
    then larger
    else if x.sign == y.sign
    then df_norm_pack128 x.sign (if ltb sum ga then 1 else 0) sum e s_extra
    else if ltb ga b || difference == 0
    then 0
    else df_norm_pack128 x.sign 0 (if s_extra then difference - 1 else difference) e s_extra

unfoldable pub adddf3 : ℕ → ℕ → ℕ
unfolding add_aligned df_unpack
adddf3 a b =
    let x = df_unpack a in
    let y = df_unpack b in
    if is_special x
    then (if not (x.sig == 0)
        then bit_or a d_quiet
        else if is_special y && not (y.sign == x.sign)
        then quiet_nan
        else a)
    else if is_special y
    then (if not (y.sig == 0) then bit_or b d_quiet else b)
    else if x.is_zero
    then (if y.is_zero then sign_bit_of (bit_and x.sign y.sign) else b)
    else if y.is_zero
    then a
    else if is_less x y
    then add_aligned b y x
    else add_aligned a x y

unfoldable pub subdf3 : ℕ → ℕ → ℕ
unfolding adddf3
subdf3 a b = adddf3 a (bit_xor b d_sign)

-- The loop of `df_umul128`: 64 rounds on the two words of the product and on `b`.
pub umul128_loop : ℕ → ℕ → ℕ → ℕ → ℕ → ℕ × ℕ
umul128_loop zero a h l b = (h, l)
umul128_loop (suc rounds) a h l b =
    let nh = bit_or (u64 (h <<< 1)) (l >>> 63) in
    let nl = u64 (l <<< 1) in
    let sum = u64 (nl + a) in
    let top = bit_and (b >>> 63) 1 in
    umul128_loop rounds a (if top == 0 then nh else if ltb sum nl then u64 (nh + 1) else nh)
      (if top == 0 then nl else sum) (u64 (b <<< 1))

pub df_umul128 : ℕ → ℕ → ℕ × ℕ
df_umul128 a b = umul128_loop 64 a 0 0 b

unfoldable pub muldf3 : ℕ → ℕ → ℕ
unfolding df_umul128 umul128_loop df_norm_pack128 df_unpack
muldf3 a b =
    let x = df_unpack a in
    let y = df_unpack b in
    let rs = bit_xor x.sign y.sign in
    let (hi, lo) = df_umul128 x.sig y.sig in
    if is_special x || is_special y
    then (if is_special x && not (x.sig == 0) || is_special y && not (y.sig == 0)
        then quiet_nan
        else if is_special x && y.is_zero || is_special y && x.is_zero
        then quiet_nan
        else bit_or (sign_bit_of rs) d_exp)
    else if x.is_zero || y.is_zero
    then sign_bit_of rs
    else df_norm_pack128 rs hi lo (x.exp +ℤ y.exp) false

-- The loop of `__divdf3`, with `i` rounds left: the quotient and the rest.
unfoldable divide_loop : ℕ → ℕ → ℕ → ℕ → ℕ × ℕ
divide_loop zero mb q r = (q, r)
divide_loop (suc i) mb q r =
    let twice = u64 (r <<< 1) in
    divide_loop i mb (if leb mb twice then bit_or q (u64 (1 <<< i)) else q)
      (if leb mb twice then twice - mb else twice)

unfoldable pub divdf3 : ℕ → ℕ → ℕ
unfolding divide_loop df_norm_pack df_unpack
divdf3 a b =
    let x = df_unpack a in
    let y = df_unpack b in
    let rs = bit_xor x.sign y.sign in
    let (q, r) =
      divide_loop 54 y.sig (if leb y.sig x.sig then u64 (1 <<< 54) else 0)
        (if leb y.sig x.sig then x.sig - y.sig else x.sig) in
    if is_special x || is_special y
    then (if is_special x && not (x.sig == 0) || is_special y && not (y.sig == 0)
        then quiet_nan
        else if is_special x
        then (if is_special y then quiet_nan else bit_or (sign_bit_of rs) d_exp)
        else if not y.is_zero
        then sign_bit_of rs
        else quiet_nan)
    else if y.is_zero
    then (if x.is_zero then quiet_nan else bit_or (sign_bit_of rs) d_exp)
    else if x.is_zero
    then sign_bit_of rs
    else df_norm_pack rs q (x.exp -ℤ y.exp -ℤ pos 54) false (not (r == 0))
