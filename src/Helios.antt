-- ===== src/Helios.antt =====
-- The Helios kernel, src/visor/services/kernel/helios.
pub mod Kernel
pub mod Link
pub mod Sched
pub mod Mutex
pub mod Sem
pub mod Tasks
