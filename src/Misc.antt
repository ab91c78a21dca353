-- ===== src/Misc.antt =====
-- lib/libc_misc.c, and `execvp` of lib/libc_syscalls.c.
pub mod Inet
pub mod Getopt
pub mod Execvp
mod Tests
