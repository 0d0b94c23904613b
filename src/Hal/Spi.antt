-- ===== src/Hal/Spi.antt =====
-- The serial peripheral interface, spi/spi.c and spi_private.h, and its calls of the pins. The four local
-- handles are not initialised: `local` gives what they hold. A result is none where the allocation of a pin
-- reaches behind `port_status`. The two set-ups differ in the bits that `spcr_value` starts with and in
-- the modes of the pins.
pub mod Allocs
pub mod Setup
use cyancore.Common.{
  ℕ, zero, suc, ◌+◌, ◌-◌, ◌*◌, ◌%◌, ◌^◌, Bool, true, false, not, Option, none, some, List, [], ◌∷◌,
  ltb, ◌==◌, if◌then◌else◌,
}
use cyancore.Status.{success, error_func_inval_arg, error_inval_pointer}
use cyancore.Driver.{status_or}
use cyancore.Hal.{write8, or8, clear8, test_bit}
use cyancore.Hal.Clk.{PlatformClk}
use cyancore.Hal.Gpio.{GpioPort, GpioMode, out, inp, Gpio, gpio_pin_alloc, gpio_pin_mode}

abbrev pub spcr_offset : ℕ
spcr_offset = 0x00

abbrev pub spsr_offset : ℕ
spsr_offset = 0x01

abbrev pub spdr_offset : ℕ
spdr_offset = 0x02

-- `com_pins` are the pins of MOSI, MISO, SCK and SS.
pub record SpiPort : Type 0 where
  pub clk_id : ℕ
  pub fdiv : ℕ
  pub baddr : ℕ
  pub com_port : ℕ
  pub com_pins : ℕ → ℕ

-- The cases of the switch, with the status of the default
unfoldable pub fdiv_bits : ℕ → ℕ × ℕ
fdiv_bits fdiv =
    if fdiv == 4
    then (success, 0x00)
    else if fdiv == 16
    then (success, 0x01)
    else if fdiv == 64
    then (success, 0x02)
    else if fdiv == 128
    then (success, 0x03)
    else (error_func_inval_arg, 0)

-- The bits SPE 6 and MSTR 4 are in `start`; DODR is 5, CPOL 3 and CPHA 2.
unfoldable pub spcr_value : (start : ℕ) → SpiPort → (df_format cpol cpha : Bool) → ℕ
spcr_value start port df_format cpol cpha =
    start
    + (fdiv_bits port.fdiv).1
    + (if df_format then 2 ^ 5 else 0)
    + (if cpol then 2 ^ 3 else 0)
    + (if cpha then 2 ^ 2 else 0)

-- The calls of the pins change registers and `port_status`.
abbrev pub M : Type 0 → Type 0
M A = Gpio → Option (A × Gpio)

infixl 5 ◌>>=◌
unfoldable pub ◌>>=◌ : {A B : Type 0} → M A → (A → M B) → M B
◌>>=◌ m f s = elim (m s) [ none ↦ none | some r ↦ f r.0 r.1 ]

unfoldable pub pure : {A : Type 0} → A → M A
pure a s = some (a, s)

infixl 5 ◌>>◌
unfoldable pub ◌>>◌ : {A B : Type 0} → M A → M B → M B
m >> k = m >>= λ _. k

unfoldable pub pin_mode : Option GpioPort → GpioMode → M ℕ
pin_mode p mode s = let r = gpio_pin_mode p mode s.mmio in some (r.0, record s { mmio = r.1 })

-- `MMIO8(port->baddr | SPCR_OFFSET) = spcr_value`
unfoldable pub write_spcr : (baddr value : ℕ) → M (Unit {0})
write_spcr baddr value s = some (tt, record s { mmio = write8 (baddr + spcr_offset) value s.mmio })

-- `platform_enable_clk`, whose status is not used
unfoldable pub enable_clk : PlatformClk → (id : ℕ) → M (Unit {0})
enable_clk clk id s = some (tt, record s { mmio = (clk.en id s.mmio).1 })

-- `ret |= status` for one status after the other
unfoldable pub or_all : ℕ → List ℕ → ℕ
or_all ret [] = ret
or_all ret (r ∷ rs) = or_all (status_or ret r) rs

module _ (n_port : ℕ) (fetch_dp : ℕ → ℕ × ℕ) where
  unfoldable pub pin_alloc : GpioPort → (portID pinID : ℕ) → M (ℕ × Option GpioPort)
  pin_alloc p portID pinID s = elim (gpio_pin_alloc n_port fetch_dp (some p) portID pinID s) [
    | none ↦ none
    | some r ↦ some ((r.0, r.1), r.2)
  ]

  -- `portID` is a byte.
  unfoldable pub set_up :
      (clk : PlatformClk) (local : ℕ → GpioPort) (start : ℕ)
      (mosi_mode miso_mode sck_mode ss_mode : GpioMode)
      → Option SpiPort
      → (df_format cpol cpha : Bool) → M ℕ
  set_up clk local start m0 m1 m2 m3 none df_format cpol cpha = pure error_inval_pointer
  set_up clk local start m0 m1 m2 m3 (some port) df_format cpol cpha =
      let portID = port.com_port % 2 ^ 8 in
      let pin = port.com_pins in
      do
        enable_clk clk port.clk_id
        mosi ← pin_alloc (local 0) portID (pin 0)
        miso ← pin_alloc (local 1) portID (pin 1)
        sck ← pin_alloc (local 2) portID (pin 2)
        ss ← pin_alloc (local 3) portID (pin 3)
        r0 ← pin_mode mosi.1 m0
        r1 ← pin_mode miso.1 m1
        r2 ← pin_mode sck.1 m2
        r3 ← pin_mode ss.1 m3
        write_spcr port.baddr (spcr_value start port df_format cpol cpha)
        pure (
            or_all (fdiv_bits port.fdiv).0
              (mosi.0 ∷ miso.0 ∷ sck.0 ∷ ss.0 ∷ r0 ∷ r1 ∷ r2 ∷ r3 ∷ []))

  unfoldable pub spi_master_setup :
      (clk : PlatformClk) (local : ℕ → GpioPort)
      → Option SpiPort
      → (df_format cpol cpha : Bool) → M ℕ
  spi_master_setup clk local port = set_up clk local (2 ^ 6 + 2 ^ 4) out inp out out port

  unfoldable pub spi_slave_setup :
      (clk : PlatformClk) (local : ℕ → GpioPort)
      → Option SpiPort
      → (df_format cpol cpha : Bool) → M ℕ
  spi_slave_setup clk local port = set_up clk local (2 ^ 6) inp out inp inp port

-- None where the assert fails
unfoldable pub spi_wcol_error : Option SpiPort → (ℕ → ℕ) → Option Bool
spi_wcol_error none m = none
spi_wcol_error (some port) m = some (test_bit (m (port.baddr + spsr_offset)) 6)

unfoldable pub spi_trx_done : Option SpiPort → (ℕ → ℕ) → Option Bool
spi_trx_done none m = none
spi_trx_done (some port) m = some (test_bit (m (port.baddr + spsr_offset)) 7)

unfoldable pub spi_int_en : Option SpiPort → (ℕ → ℕ) → ℕ × (ℕ → ℕ)
spi_int_en none m = (error_inval_pointer, m)
spi_int_en (some port) m = (success, or8 (port.baddr + spcr_offset) (2 ^ 7) m)

unfoldable pub spi_int_dis : Option SpiPort → (ℕ → ℕ) → ℕ × (ℕ → ℕ)
spi_int_dis none m = (error_inval_pointer, m)
spi_int_dis (some port) m = (success, clear8 (port.baddr + spcr_offset) (2 ^ 7) m)

unfoldable pub spi_tx : Option SpiPort → (data_ : ℕ) → (ℕ → ℕ) → ℕ × (ℕ → ℕ)
spi_tx none data_ m = (error_inval_pointer, m)
spi_tx (some port) data_ m = (success, write8 (port.baddr + spdr_offset) data_ m)

-- `present` is whether `data` is not null; the second result is `*data`, where it is written.
unfoldable pub spi_rx : Option SpiPort → (present : Bool) → (ℕ → ℕ) → ℕ × Option ℕ
spi_rx none present m = (error_inval_pointer, none)
spi_rx (some port) false m = (error_inval_pointer, none)
spi_rx (some port) true m = (success, some (m (port.baddr + spdr_offset)))
