-- ===== src/Hal/Gpio.antt =====
-- The pins and ports, gpio/gpio.c and gpio_private.h. `n_port` is N_PORT, the length of `port_status`, and
-- `fetch_dp` what the visor call gives for a port: its status and the base address of the module. A
-- pointer is an option, none for the null pointer; a result is none where `port_status` is reached
-- behind its end. The lock is not modelled, and BIT is 8.
pub mod Pins
pub mod Owners
pub mod Exclusion
use Prim.Native.Nat.{bit_and}
use cyancore.Common.{
  ℕ, zero, suc, ◌+◌, ◌-◌, ◌%◌, ◌^◌, Bool, true, false, not, Option, none, some, ltb, ◌==◌,
  if◌then◌else◌,
}
use cyancore.Status.{success, error_func_inval_arg, error_inval_pointer, error_driver_busy}
use cyancore.Hal.{write8, or8, clear8, xor8, test_bit}

abbrev pub pin_offset : ℕ
pin_offset = 0x00

abbrev pub ddr_offset : ℕ
ddr_offset = 0x01

abbrev pub port_offset : ℕ
port_offset = 0x02

pub data GpioMode : Type 0 where
  out : GpioMode
  inp : GpioMode
  pull_up : GpioMode
  other : GpioMode

pub record GpioPort : Type 0 where
  pub pbaddr : ℕ
  pub port : ℕ
  pub pin : ℕ

-- The registers and the bytes `port_status`
pub record Gpio : Type 0 where
  pub mmio : ℕ → ℕ
  pub port_status : ℕ → ℕ

module _ (n_port : ℕ) (fetch_dp : ℕ → ℕ × ℕ) where
  -- What the two allocations do once the bits of the port are taken
  unfoldable pub fill_handle : (portID pin : ℕ) → GpioPort → Gpio → ℕ × Option GpioPort × Gpio
  fill_handle portID pin p s =
      let r = fetch_dp portID in
      if r.0 == success
      then (success, some (record { pbaddr = r.1; port = portID; pin = pin }), s)
      else (r.0, some (record p { port = portID; pin = pin }), s)

  unfoldable pub gpio_pin_alloc :
      Option GpioPort → (portID pinID : ℕ) → Gpio → Option (ℕ × Option GpioPort × Gpio)
  gpio_pin_alloc none portID pinID s = some (error_inval_pointer, none, s)
  gpio_pin_alloc (some p) portID pinID s =
      if ltb portID n_port
      then (if test_bit (s.port_status portID) pinID
          then some (error_driver_busy, some p, s)
          else some (
              fill_handle portID pinID p
                (record s { port_status = or8 portID (2 ^ pinID) s.port_status })))
      else none

  unfoldable pub gpio_port_alloc :
      Option GpioPort → (portID : ℕ) → Gpio → Option (ℕ × Option GpioPort × Gpio)
  gpio_port_alloc none portID s = some (error_inval_pointer, none, s)
  gpio_port_alloc (some p) portID s =
      if ltb portID n_port
      then (if s.port_status portID == 0
          then some (
              fill_handle portID (2 ^ 8 - 1) p
                (record s { port_status = write8 portID (2 ^ 8 - 1) s.port_status }))
          else some (error_driver_busy, some p, s))
      else none

module _ (n_port : ℕ) where
  unfoldable pub gpio_pin_free : Option GpioPort → Gpio → Option (ℕ × Option GpioPort × Gpio)
  gpio_pin_free none s = some (error_inval_pointer, none, s)
  gpio_pin_free (some p) s =
      if ltb p.port n_port
      then some (
        success,
        some (record { pbaddr = 0x00; port = 0; pin = 0 }),
        record s { port_status = clear8 p.port (2 ^ p.pin) s.port_status },
      )
      else none

  unfoldable pub gpio_port_free : Option GpioPort → Gpio → Option (ℕ × Option GpioPort × Gpio)
  gpio_port_free none s = some (error_inval_pointer, none, s)
  gpio_port_free (some p) s =
      if ltb p.port n_port
      then some (
        success,
        some (record { pbaddr = 0x00; port = 0; pin = 0 }),
        record s { port_status = write8 p.port 0 s.port_status },
      )
      else none

-- The statement that the case `pull_up` of the two modes falls through to
unfoldable pub gpio_pin_mode : Option GpioPort → GpioMode → (ℕ → ℕ) → ℕ × (ℕ → ℕ)
gpio_pin_mode none mode m = (error_inval_pointer, m)
gpio_pin_mode (some p) out m = (success, or8 (p.pbaddr + ddr_offset) (2 ^ p.pin) m)
gpio_pin_mode (some p) pull_up m = (
  success,
  clear8 (p.pbaddr + ddr_offset) (2 ^ p.pin) (or8 (p.pbaddr + port_offset) (2 ^ p.pin) m),
)
gpio_pin_mode (some p) inp m = (success, clear8 (p.pbaddr + ddr_offset) (2 ^ p.pin) m)
gpio_pin_mode (some p) other m = (error_func_inval_arg, m)

unfoldable pub gpio_pin_set : Option GpioPort → (ℕ → ℕ) → ℕ × (ℕ → ℕ)
gpio_pin_set none m = (error_inval_pointer, m)
gpio_pin_set (some p) m = (success, or8 (p.pbaddr + port_offset) (2 ^ p.pin) m)

unfoldable pub gpio_pin_clear : Option GpioPort → (ℕ → ℕ) → ℕ × (ℕ → ℕ)
gpio_pin_clear none m = (error_inval_pointer, m)
gpio_pin_clear (some p) m = (success, clear8 (p.pbaddr + port_offset) (2 ^ p.pin) m)

unfoldable pub gpio_pin_toggle : Option GpioPort → (ℕ → ℕ) → ℕ × (ℕ → ℕ)
gpio_pin_toggle none m = (error_inval_pointer, m)
gpio_pin_toggle (some p) m = (success, xor8 (p.pbaddr + port_offset) (2 ^ p.pin) m)

-- None where the assert fails
unfoldable pub gpio_pin_read : Option GpioPort → (ℕ → ℕ) → Option Bool
gpio_pin_read none m = none
gpio_pin_read (some p) m = some (test_bit (m (p.pbaddr + pin_offset)) p.pin)

unfoldable pub gpio_port_mode : Option GpioPort → GpioMode → (ℕ → ℕ) → ℕ × (ℕ → ℕ)
gpio_port_mode none mode m = (error_inval_pointer, m)
gpio_port_mode (some p) out m = (success, write8 (p.pbaddr + ddr_offset) p.pin m)
gpio_port_mode (some p) pull_up m =
    (success, clear8 (p.pbaddr + ddr_offset) p.pin (write8 (p.pbaddr + port_offset) p.pin m))
gpio_port_mode (some p) inp m = (success, clear8 (p.pbaddr + ddr_offset) p.pin m)
gpio_port_mode (some p) other m = (error_func_inval_arg, m)

unfoldable pub gpio_port_write : Option GpioPort → (val : ℕ) → (ℕ → ℕ) → ℕ × (ℕ → ℕ)
gpio_port_write none val m = (error_inval_pointer, m)
gpio_port_write (some p) val m = (success, write8 (p.pbaddr + port_offset) (bit_and val 0xff) m)

-- The value that is read, where the port is not null
unfoldable pub gpio_port_read : Option GpioPort → (ℕ → ℕ) → ℕ × Option ℕ
gpio_port_read none m = (error_inval_pointer, none)
gpio_port_read (some p) m = (success, some (m (p.pbaddr + pin_offset)))
