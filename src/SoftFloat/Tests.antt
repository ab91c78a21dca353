-- ===== src/SoftFloat/Tests.antt =====
-- Runs of the functions of lib/compiler_rt_softfloat.c, and instances of what is proved of them.
use lamp_userspace.Prelude.{ℕ, ◌*◌, ◌^◌, ◌<◌, ◌≡◌, refl, false, arith}
use lamp_userspace.Prelude.Int.{pos}
use lamp_userspace.SoftFloat.{
  df_is_nan, df_cmp3way, eqdf2, bit_count, df_from_mag, floatsidf, floatunsidf, fixdfsi, fixunsdfsi,
}
use lamp_userspace.SoftFloat.Double.{adddf3, subdf3, muldf3, divdf3, df_umul128}
use lamp_userspace.SoftFloat.Single.{extendsfdf2, truncdfsf2}
use lamp_userspace.SoftFloat.Double.Product.{pair, df_umul128_lem}
use lamp_userspace.SoftFloat.Compare.{compare_ℤ, sign_magnitude, df_cmp3way_lem}
use lamp_userspace.SoftFloat.Convert.{fixdfsi-floatsidf, fixunsdfsi-floatunsidf}

adds_tenths : adddf3 0x3fb999999999999a 0x3fc999999999999a ≡ 0x3fd3333333333334
unfolding adddf3 bit_count
adds_tenths = refl

subtracts_tenths : subdf3 0x3fd3333333333333 0x3fb999999999999a ≡ 0x3fc9999999999999
unfolding subdf3 bit_count
subtracts_tenths = refl

multiplies_tenth : muldf3 0x3fb999999999999a 0x4008000000000000 ≡ 0x3fd3333333333334
unfolding muldf3 bit_count
multiplies_tenth = refl

divides_third : divdf3 0x3ff0000000000000 0x4008000000000000 ≡ 0x3fd5555555555555
unfolding divdf3 bit_count
divides_third = refl

-- The product is subnormal.
multiplies_small : muldf3 0x1ebd3e314b3a0f97 0x1ece5e1f7f59d51d ≡ 0x1bc0
unfolding muldf3 bit_count
multiplies_small = refl

extends_tenth : extendsfdf2 0x3dcccccd ≡ 0x3fb99999a0000000
unfolding extendsfdf2
extends_tenth = refl

extends_subnormal : extendsfdf2 0x2ca ≡ 0x3736500000000000
unfolding extendsfdf2
extends_subnormal = refl

truncates_third : truncdfsf2 0x3fd5555555555555 ≡ 0x3eaaaaab
unfolding truncdfsf2 bit_count
truncates_third = refl

-- A tie goes up, also where the even neighbour is below.
truncates_tie : truncdfsf2 0x3ff0000010000000 ≡ 0x3f800001
unfolding truncdfsf2 bit_count
truncates_tie = refl

converts_minus : floatsidf 4294954951 ≡ 0xc0c81c8000000000
unfolding floatsidf df_from_mag bit_count
converts_minus = refl

compares_zeros : eqdf2 9223372036854775808 0 ≡ pos 0
unfolding eqdf2 df_cmp3way df_is_nan
compares_zeros = refl

abbrev minus_tenth : ℕ
minus_tenth = 0xbfb999999999999a

abbrev third : ℕ
third = 0x3fd5555555555555

is_number : df_is_nan minus_tenth ≡ false
unfolding df_is_nan
is_number = refl

is_number_third : df_is_nan third ≡ false
unfolding df_is_nan
is_number_third = refl

df_cmp3way_lem_example :
    df_cmp3way minus_tenth third (pos 1)
    ≡ compare_ℤ (sign_magnitude minus_tenth) (sign_magnitude third)
df_cmp3way_lem_example =
    df_cmp3way_lem minus_tenth third (pos 1) (omega arith) (omega arith) is_number is_number_third

fixdfsi-floatsidf_example : fixdfsi (floatsidf 4294954951) ≡ 4294954951
fixdfsi-floatsidf_example = fixdfsi-floatsidf 4294954951 (omega arith)

fixunsdfsi-floatunsidf_example : fixunsdfsi (floatunsidf 4294954951) ≡ 4294954951
fixunsdfsi-floatunsidf_example = fixunsdfsi-floatunsidf 4294954951 (omega arith)

df_umul128_lem_example :
    (pair (df_umul128 minus_tenth third) ≡ minus_tenth * third)
    × ((df_umul128 minus_tenth third).1 < 2 ^ 64)
df_umul128_lem_example = df_umul128_lem minus_tenth third (omega arith) (omega arith)
