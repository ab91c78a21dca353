-- ===== src/Stdlib.antt =====
-- lib/libc_stdlib.c, part by part. `size_t` and `unsigned long` have 32 bits.
pub mod Heap
pub mod Sort
mod Tests
pub mod Env
pub mod Number
use lamp_userspace.Prelude.{ℕ}

abbrev pub enomem : ℕ
enomem = 12

abbrev pub einval : ℕ
einval = 22
