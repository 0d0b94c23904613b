-- ===== src/Libc.antt =====
-- The C library, src/lib/libc.
pub mod Malloc
pub mod Ctype
pub mod String
pub mod Strings
pub mod Strton
pub mod Printf
pub mod Time
