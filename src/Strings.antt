-- ===== src/Strings.antt =====
-- lib/libc_string.c: the functions on blocks of memory and the functions on texts.
pub mod Memory
pub mod Text
mod Tests
