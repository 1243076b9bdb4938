-- ===== src/Libc.antt =====
-- What the source uses of the C library: strings, tokens, number scanning and printing.
pub mod Str
pub mod Strtoul
pub mod Printf
