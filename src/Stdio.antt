-- ===== src/Stdio.antt =====
-- lib/libc_stdio.c: formatted output and input, and streams.
pub mod Output
pub mod Directive
pub mod Format
pub mod Unsigned
pub mod Scan
pub mod Decimal
pub mod RoundTrip
pub mod Stream
mod Tests
