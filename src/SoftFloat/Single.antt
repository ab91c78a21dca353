-- ===== src/SoftFloat/Single.antt =====
-- lib/compiler_rt_softfloat.c, the conversions between singles and doubles.
use lamp_userspace.Prelude.{
  ℕ, zero, suc, ◌+◌, ◌-◌, ◌^◌, Bool, true, false, not, ◌&&◌, ◌||◌, ◌==◌, if◌then◌else◌, u32, u64,
  ◌<<<◌, ◌>>>◌, bit_and, bit_or,
}
use lamp_userspace.Prelude.Int.{ℤ, pos, negsuc, sub_ℕ, ◌+ℤ◌, ◌-ℤ◌, ltb_ℤ, count_of}
use lamp_userspace.SoftFloat.{d_exp, d_frac, d_impl, d_quiet, df_msb}
use lamp_userspace.SoftFloat.Round.{normalize}

-- The loop on the fraction of a subnormal single, 23 rounds at most.
unfoldable normalize_single : ℕ → ℕ → ℕ → ℕ × ℕ
normalize_single zero frac shift = (frac, shift)
normalize_single (suc rounds) frac shift =
    let rest = normalize_single rounds (u32 (frac <<< 1)) (shift + 1) in
    if bit_and frac 0x00800000 == 0 then rest else (frac, shift)

unfoldable pub extendsfdf2 : ℕ → ℕ
unfolding normalize_single
extendsfdf2 a =
    let exp = bit_and (a >>> 23) 0xFF in
    let frac = bit_and a 0x007FFFFF in
    let r_sign = u64 (bit_and a 0x80000000 <<< 32) in
    let (normal, shift) = normalize_single 23 frac 0 in
    if exp == 0xFF
    then (if frac == 0
        then bit_or r_sign d_exp
        else bit_or (bit_or (bit_or r_sign d_exp) (frac <<< 29)) d_quiet)
    else if exp == 0 && frac == 0
    then r_sign
    else if exp == 0
    then bit_or (bit_or r_sign (u64 ((1023 - 126 - shift) <<< 52)))
        (bit_and normal 0x007FFFFF <<< 29)
    else bit_or (bit_or r_sign (u64 ((exp + (1023 - 127)) <<< 52))) (frac <<< 29)

-- The loop that shifts a subnormal result down: significand, guard and sticky bit.
unfoldable shift_down : ℕ → ℕ → Bool → Bool → ℕ × (Bool × Bool)
shift_down zero q g s = (q, (g, s))
shift_down (suc extra) q g s = shift_down extra (q >>> 1) (not (bit_and q 1 == 0)) (s || g)

-- The end of `__truncdfsf2`, after the shift.
unfoldable finish_single : ℕ → ℤ → Bool → ℕ × (Bool × Bool) → ℕ
finish_single sign fe subnormal_out (q24, (g, s)) =
    let up = g && (s || not (bit_and q24 1 == 0)) in
    let carried = up && q24 + 1 == 2 ^ 24 in
    let q = if carried then (q24 + 1) >>> 1 else if up then q24 + 1 else q24 in
    let subnormal = subnormal_out && not carried in
    let e = if carried && not subnormal_out then fe +ℤ pos 1 else fe in
    if ltb_ℤ (pos 127) e
    then bit_or sign 0x7F800000
    else if subnormal
    then (if q == 0 then sign else bit_or sign q)
    else if q == 0
    then sign
    else bit_or (bit_or sign (u32 (count_of (e +ℤ pos 127) <<< 23))) (bit_and q 0x007FFFFF)

-- The mask of the sticky bit has the guard bit in it, as in the source.
unfoldable pub truncdfsf2 : ℕ → ℕ
unfolding normalize shift_down finish_single
truncdfsf2 a =
    let sign = bit_and (a >>> 32) 0x80000000 in
    let e = bit_and (a >>> 52) 0x7FF in
    let m = bit_and a d_frac in
    let keep = bit_and (u32 (bit_or m (a >>> 32) >>> 21)) 0x003FFFFF in
    let (shifted, k) = normalize 52 m 0 in
    let q53 = if e == 0 then shifted else bit_or m d_impl in
    let re = if e == 0 then negsuc 1021 -ℤ pos k else sub_ℕ e 1023 in
    let sh = df_msb q53 - 23 in
    let g = not (bit_and (q53 >>> (sh - 1)) 1 == 0) in
    let s = not (bit_and q53 (2 ^ sh - 1) == 0) in
    let fe = re +ℤ sub_ℕ sh 29 in
    let extra = count_of (negsuc 125 -ℤ fe) in
    if e == 0x7FF
    then (if m == 0
        then bit_or sign 0x7F800000
        else bit_or (bit_or sign 0x7FC00000) (if keep == 0 then 0x400000 else keep))
    else if e == 0 && m == 0
    then sign
    else if ltb_ℤ fe (negsuc 125)
    then finish_single sign (negsuc 125) true (shift_down extra (q53 >>> sh) g s)
    else finish_single sign fe false (q53 >>> sh, (g, s))
