-- ===== src/Prelude/Int.antt =====
-- Signed integers over the native numbers, with the names of the library's (which stands on the
-- unary numbers), and the two's complement reading of a 64-bit word.
use Prim.Native.Nat.{ℕ, ◌+◌, ◌-◌, ◌*◌, ◌/◌, ◌%◌, ◌^◌}
use mathlib.Core.Bool.{Bool, true, false}
use lamp_userspace.Prelude.Tests.{ltb, leb, if◌then◌else◌}

-- `negsuc n` is -(n + 1).
pub data ℤ : Type 0 where
  pos : ℕ → ℤ
  negsuc : ℕ → ℤ

-- a - b, as an integer.
abbrev pub sub_ℕ : ℕ → ℕ → ℤ
sub_ℕ a b = if leb b a then pos (a - b) else negsuc (b - a - 1)

-- The number that a 64-bit word stands for.
abbrev pub signed64 : ℕ → ℤ
signed64 w = if ltb w (2 ^ 63) then pos w else negsuc (2 ^ 64 - w - 1)

-- Division as C has it: the quotient is truncated toward zero.
abbrev pub quot_ℤ : ℤ → ℤ → ℤ
quot_ℤ (pos a) (pos b) = pos (a / b)
quot_ℤ (pos a) (negsuc b) = sub_ℕ 0 (a / (b + 1))
quot_ℤ (negsuc a) (pos b) = sub_ℕ 0 ((a + 1) / b)
quot_ℤ (negsuc a) (negsuc b) = pos ((a + 1) / (b + 1))

-- The remainder has the sign of the dividend.
abbrev pub rem_ℤ : ℤ → ℤ → ℤ
rem_ℤ (pos a) (pos b) = pos (a % b)
rem_ℤ (pos a) (negsuc b) = pos (a % (b + 1))
rem_ℤ (negsuc a) (pos b) = sub_ℕ 0 ((a + 1) % b)
rem_ℤ (negsuc a) (negsuc b) = sub_ℕ 0 ((a + 1) % (b + 1))

-- The arithmetic shift to the right: division by a power of two, rounded down.
abbrev pub shift_right_ℤ : ℤ → ℕ → ℤ
shift_right_ℤ (pos a) k = pos (a / 2 ^ k)
shift_right_ℤ (negsuc a) k = negsuc (a / 2 ^ k)

-- The arithmetic of `int` where it stays in range.
infixl 65 ◌+ℤ◌ ◌-ℤ◌
abbrev pub ◌+ℤ◌ : ℤ → ℤ → ℤ
pos a +ℤ pos b = pos (a + b)
pos a +ℤ negsuc b = sub_ℕ a (b + 1)
negsuc a +ℤ pos b = sub_ℕ b (a + 1)
negsuc a +ℤ negsuc b = negsuc (a + b + 1)

abbrev pub ◌-ℤ◌ : ℤ → ℤ → ℤ
pos a -ℤ pos b = sub_ℕ a b
pos a -ℤ negsuc b = pos (a + b + 1)
negsuc a -ℤ pos b = negsuc (a + b)
negsuc a -ℤ negsuc b = sub_ℕ b a

abbrev pub is_below_zero : ℤ → Bool
is_below_zero (pos a) = false
is_below_zero (negsuc a) = true

-- a < b.
abbrev pub ltb_ℤ : ℤ → ℤ → Bool
ltb_ℤ a b = is_below_zero (a -ℤ b)

-- A shift count, for an integer that is known not to be negative.
abbrev pub count_of : ℤ → ℕ
count_of (pos a) = a
count_of (negsuc a) = 0

infixl 70 ◌*ℤ◌
abbrev pub ◌*ℤ◌ : ℤ → ℤ → ℤ
pos a *ℤ pos b = pos (a * b)
pos a *ℤ negsuc b = sub_ℕ 0 (a * (b + 1))
negsuc a *ℤ pos b = sub_ℕ 0 ((a + 1) * b)
negsuc a *ℤ negsuc b = pos ((a + 1) * (b + 1))
