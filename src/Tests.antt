-- ===== src/Tests.antt =====
-- Runs of the modelled code on concrete states, and instances of the theorems.
pub mod Helios
pub mod Malloc
pub mod Text
pub mod Nmath
pub mod Driver
pub mod Sysclk
pub mod Interrupt
pub mod Bakery
pub mod Tasks
pub mod Posix
pub mod Devices
pub mod Hal
pub mod Print
pub mod Clocks
