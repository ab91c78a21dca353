-- ===== src/SoftFloat/Round.antt =====
-- lib/compiler_rt_softfloat.c, the fields of a double and the functions that round to one. An
-- exponent is an integer, a guard or sticky bit a Boolean.
use lamp_userspace.Prelude.{
  ℕ, zero, suc, ◌+◌, ◌-◌, ◌^◌, Bool, true, false, not, ◌&&◌, ◌||◌, ltb, leb, ◌==◌, if◌then◌else◌,
  u64, ◌<<<◌, ◌>>>◌, bit_and, bit_or,
}
use lamp_userspace.Prelude.Int.{ℤ, pos, negsuc, sub_ℕ, ◌+ℤ◌, ◌-ℤ◌, ltb_ℤ, count_of}
use lamp_userspace.SoftFloat.{d_exp, d_frac, d_impl, df_msb}

-- What `df_unpack` stores, and its result.
pub record Unpacked : Type 0 where
  pub is_zero : Bool
  pub sign : ℕ
  pub exp : ℤ
  pub sig : ℕ

-- The loop that shifts a subnormal fraction up to the implicit bit, with the count of the shifts.
-- A fraction that is not zero needs 52 at most.
unfoldable pub normalize : ℕ → ℕ → ℕ → ℕ × ℕ
normalize zero m k = (m, k)
normalize (suc rounds) m k =
    let rest = normalize rounds (u64 (m <<< 1)) (k + 1) in
    if bit_and m d_impl == 0 then rest else (m, k)

unfoldable pub df_unpack : ℕ → Unpacked
unfolding normalize
df_unpack x =
    let f = bit_and (x >>> 52) 0x7FF in
    let m = bit_and x d_frac in
    let (m', k) = normalize 52 m 0 in
    if f == 0x7FF
    then record { is_zero = false; sign = x >>> 63; exp = pos 0x7FFF; sig = m }
    else if f == 0
    then (if m == 0
        then record { is_zero = true; sign = x >>> 63; exp = pos 0; sig = 0 }
        else record { is_zero = false; sign = x >>> 63; exp = negsuc 1073 -ℤ pos k; sig = m' })
    else record { is_zero = false; sign = x >>> 63; exp = sub_ℕ f 1075; sig = bit_or m d_impl }

abbrev pub sign_bit_of : ℕ → ℕ
sign_bit_of sign = u64 (sign <<< 63)

-- Rounding to nearest, ties to even: the significand and the exponent.
abbrev pub round_even : ℤ → ℕ → Bool → Bool → ℕ × ℤ
round_even e q g s =
    if g && (s || not (bit_and q 1 == 0))
    then (if q + 1 == d_impl <<< 1 then ((q + 1) >>> 1, e +ℤ pos 1) else (q + 1, e))
    else (q, e)

-- The end of `df_pack`, after the shift for a subnormal result.
encode : ℕ → Bool → ℕ × ℤ → ℕ
encode sign was_subnormal (q, e) =
    if ltb_ℤ (pos 971) e
    then bit_or (sign_bit_of sign) d_exp
    else if was_subnormal
    then (if q == 0
        then sign_bit_of sign
        else if q == d_impl
        then bit_or (sign_bit_of sign) d_impl
        else bit_or (sign_bit_of sign) q)
    else bit_or (bit_or (sign_bit_of sign) (u64 (count_of (e +ℤ pos 1075) <<< 52)))
        (bit_and q d_frac)

df_pack : ℕ → ℤ → ℕ → Bool → Bool → ℕ
unfolding encode
df_pack sign e q g s =
    let shift = count_of (negsuc 1073 -ℤ e) in
    let ng = not (bit_and (q >>> (shift - 1)) 1 == 0) in
    let s' = s || g || not (bit_and q (2 ^ (shift - 1) - 1) == 0) in
    if ltb_ℤ e (negsuc 1073)
    then (if ltb 54 shift
        then sign_bit_of sign
        else encode sign true (round_even (e +ℤ pos shift) (q >>> shift) ng s'))
    else encode sign false (round_even e q g s)

-- The top bit of a window of two words, and where it is cut: at 53 or below on every window that the
-- operations give, so that `high` is never taken with a shift by less than one.
unfoldable pub df_norm_pack128 : ℕ → ℕ → ℕ → ℤ → Bool → ℕ
unfolding df_pack
df_norm_pack128 sign whi wlo e s_extra =
    let tp = if whi == 0 then df_msb wlo else df_msb whi + 64 in
    let cut = tp - 52 in
    let sh2 = cut - 64 in
    let high =
      df_pack sign (e +ℤ pos cut) (whi >>> sh2) (not (bit_and (whi >>> (sh2 - 1)) 1 == 0))
        (s_extra || not (bit_and whi (2 ^ (sh2 - 1) - 1) == 0) || not (wlo == 0)) in
    let middle =
      df_pack sign (e +ℤ pos cut)
        (bit_or (wlo >>> cut) (u64 (bit_and whi (2 ^ cut - 1) <<< (64 - cut))))
        (not (bit_and (wlo >>> (cut - 1)) 1 == 0))
        (s_extra || not (bit_and wlo (2 ^ (cut - 1) - 1) == 0)) in
    let low = df_pack sign (e +ℤ sub_ℕ tp 52) (u64 (wlo <<< (52 - tp))) false s_extra in
    if whi == 0 && wlo == 0
    then (if s_extra then bit_or (sign_bit_of sign) 1 else sign_bit_of sign)
    else if leb 64 cut
    then high
    else if ltb 0 cut
    then middle
    else low

unfoldable pub df_norm_pack : ℕ → ℕ → ℤ → Bool → Bool → ℕ
unfolding df_pack
df_norm_pack sign w e g s =
    let t = df_msb w in
    let sh = t - 52 in
    if w == 0
    then sign_bit_of sign
    else if ltb t 52
    then df_pack sign (e -ℤ pos (52 - t)) (bit_and (u64 (w <<< (52 - t))) (bit_or d_frac d_impl)) g
        s
    else if ltb 52 t
    then df_pack sign (e +ℤ pos sh) (bit_and (w >>> sh) (bit_or d_frac d_impl))
        (not (bit_and (w >>> (sh - 1)) 1 == 0)) (s || g || not (bit_and w (2 ^ (sh - 1) - 1) == 0))
    else df_pack sign e (bit_and w (bit_or d_frac d_impl)) g s
