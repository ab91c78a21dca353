-- ===== src/DivMod/Arithmetic.antt =====
-- `__ashrdi3` shifts a signed word right and fills it with the sign.
use lamp_userspace.Prelude.{ℕ, ◌+◌, ◌-◌, ◌/◌, ◌^◌, leb, if◌then◌else◌}

-- The word that the code builds: `q` is 2 ^ (64 - b), and the sign fills the top `b` bits.
abbrev filled : ℕ → ℕ → ℕ → ℕ
filled a b q = if leb (2 ^ 63) a then 2 ^ 64 - q + a / 2 ^ b else a / 2 ^ b
