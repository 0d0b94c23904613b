-- ===== src/Posix.antt =====
-- The POSIX layer, src/lib/libposix, on one core, with a 32-bit `long` and `size_t`.
pub mod Errno
pub mod Timespec
pub mod Kernel
pub mod Semaphore
pub mod Mqueue
pub mod Pthread
