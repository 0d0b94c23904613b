-- ===== src/Hal.antt =====
-- The hardware abstraction layer of the ATmega platform, src/platform/mega_avr/common/hal, and the clocks of
-- the SiFive chips (Prci, Oscillators). The registers of the ATmega
-- are bytes by their address, as MMIO8 of src/include/mmio.h reaches them: a write keeps the low eight
-- bits. What the hardware changes by itself is a parameter of the functions that wait for it.
pub mod Bits
pub mod Clk
pub mod Gpio
pub mod Adc
pub mod Uart
pub mod Spi
pub mod Timer
pub mod Wdt
pub mod Prci
pub mod Oscillators
use Prim.Native.Nat.{bit_and, bit_or, bit_xor}
use cyancore.Common.{ℕ, ◌-◌, ◌%◌, ◌^◌, Bool, true, false, not, ◌==◌, if◌then◌else◌}

-- `MMIO8(a) = v`
abbrev pub write8 : (a v : ℕ) → (ℕ → ℕ) → ℕ → ℕ
write8 a v m x = if x == a then v % 2 ^ 8 else m x

-- What `|= mask`, `&= ~mask` and `^= mask` store in a byte
abbrev pub or_byte : (b mask : ℕ) → ℕ
or_byte b mask = bit_or b mask % 2 ^ 8

abbrev pub clear_byte : (b mask : ℕ) → ℕ
clear_byte b mask = bit_and b (2 ^ 8 - 1 - mask % 2 ^ 8)

abbrev pub xor_byte : (b mask : ℕ) → ℕ
xor_byte b mask = bit_xor b mask % 2 ^ 8

-- `MMIO8(a) |= mask`, `MMIO8(a) &= ~mask` and `MMIO8(a) ^= mask`
abbrev pub or8 : (a mask : ℕ) → (ℕ → ℕ) → ℕ → ℕ
or8 a mask m x = if x == a then or_byte (m a) mask else m x

abbrev pub clear8 : (a mask : ℕ) → (ℕ → ℕ) → ℕ → ℕ
clear8 a mask m x = if x == a then clear_byte (m a) mask else m x

abbrev pub xor8 : (a mask : ℕ) → (ℕ → ℕ) → ℕ → ℕ
xor8 a mask m x = if x == a then xor_byte (m a) mask else m x

-- `b & (1 << k)` is not zero
unfoldable pub test_bit : (b k : ℕ) → Bool
test_bit b k = not (bit_and b (2 ^ k) == 0)
