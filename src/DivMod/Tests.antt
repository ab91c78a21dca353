-- ===== src/DivMod/Tests.antt =====
-- Runs of the functions of lib/compiler_rt_divmod.c, and instances of what is proved of them.
use lamp_userspace.Prelude.{ℕ, ◌-◌, ◌/◌, ◌%◌, ◌*◌, ◌^◌, ◌≡◌, some, arith, u64}
use lamp_userspace.Prelude.Int.{signed64, quot_ℤ, rem_ℤ}
use lamp_userspace.DivMod.{udivmoddi4, divdi3, moddi3, muldi3}
use lamp_userspace.DivMod.Correct.{udivmoddi4_lem}
use lamp_userspace.DivMod.Signed.{divdi3_lem, moddi3_lem}
use lamp_userspace.DivMod.Multiply.{muldi3_lem}

abbrev large : ℕ
large = 10000000000000000000

abbrev minus_seven : ℕ
minus_seven = 2 ^ 64 - 7

udivmoddi4_lem_example :
    udivmoddi4 large 12345 ≡ some (record { quot = large / 12345; rem = large % 12345 })
udivmoddi4_lem_example = udivmoddi4_lem large 12345 (omega arith) (omega arith)

divdi3_lem_example :
    (q : ℕ) × (divdi3 minus_seven 2 ≡ some q)
    × (signed64 q ≡ quot_ℤ (signed64 minus_seven) (signed64 2))
divdi3_lem_example =
    divdi3_lem minus_seven 2 (omega arith) (omega arith) (omega arith) (λ h. omega (arith, h.1))

moddi3_lem_example :
    (r : ℕ) × (moddi3 minus_seven 2 ≡ some r)
    × (signed64 r ≡ rem_ℤ (signed64 minus_seven) (signed64 2))
moddi3_lem_example = moddi3_lem minus_seven 2 (omega arith) (omega arith) (omega arith)

muldi3_lem_example : muldi3 large minus_seven ≡ some (u64 (large * minus_seven))
muldi3_lem_example = muldi3_lem large minus_seven (omega arith)
