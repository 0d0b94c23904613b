-- ===== src/Hal/Wdt.antt =====
-- The watchdog, wdt/wdt.c and wdt_private.h. `kept` gives what the control register holds after the timed
-- write of wdt_util.S, and `link` what linking the interrupt returns. The lock, the saved state of the
-- interrupts and the reset of the counter are not modelled. The handler is whether it is not null.
pub mod Timeout
use Prim.Native.Nat.{bit_and, bit_or}
use cyancore.Common.{
  ℕ, zero, suc, ◌+◌, ◌-◌, ◌*◌, ◌/◌, ◌%◌, ◌^◌, Bool, true, false, not, Option, none, some, leb, ltb,
  ◌==◌, if◌then◌else◌,
}
use cyancore.Status.{
  success, error_inval_pointer, error_func_inval_arg, error_driver_init_failed, error_driver_data,
}
use cyancore.Driver.{status_or}
use cyancore.Hal.{or_byte, clear_byte, clear8}

abbrev pub wdtcsr : ℕ
wdtcsr = 0x60

abbrev pub mcusr : ℕ
mcusr = 0x54

pub record WdtPort : Type 0 where
  pub timeout : ℕ
  pub wdt_handler : Bool

-- The bits WDP0 to WDP2 are 0 to 2, and WDP3 is 5.
unfoldable pub get_timeout : (timeout : ℕ) → ℕ
get_timeout timeout =
    let temp = bit_and timeout 0xf in bit_or (bit_and temp 7) (temp / 2 ^ 3 * 2 ^ 5) % 2 ^ 8

module _ (kept : ℕ → ℕ) where
  unfoldable pub write_wdtcsr : (data_ : ℕ) → (ℕ → ℕ) → ℕ → ℕ
  write_wdtcsr data_ m x = if x == wdtcsr then kept data_ else m x

  unfoldable pub wdt_setup : (link : ℕ) → Option WdtPort → (ℕ → ℕ) → ℕ × (ℕ → ℕ)
  wdt_setup link none m = (error_inval_pointer, m)
  wdt_setup link (some port) m =
      if port.wdt_handler
      then (let m' = write_wdtcsr 0 m in
          (if m' wdtcsr == 0 then link else status_or link error_driver_init_failed, m'))
      else (error_func_inval_arg, m)

  -- The bit of MCUSR that is cleared is 3. What unlinking the interrupt returns is not used.
  unfoldable pub wdt_shutdown : Option WdtPort → (ℕ → ℕ) → ℕ × (ℕ → ℕ)
  wdt_shutdown none m = (error_inval_pointer, m)
  wdt_shutdown (some port) m =
      let m' = write_wdtcsr 0 (clear8 mcusr (2 ^ 3) m) in
      (if m' wdtcsr == 0 then success else error_driver_data, m')

  unfoldable pub wdt_set_timeout : Option WdtPort → (ℕ → ℕ) → ℕ × (ℕ → ℕ)
  wdt_set_timeout none m = (error_inval_pointer, m)
  wdt_set_timeout (some port) m =
      if leb port.timeout 9
      then (let timeout = get_timeout port.timeout in
          let value = if timeout == 0 then timeout else or_byte timeout (2 ^ 6) in
          let m' = write_wdtcsr value m in
          (if m' wdtcsr == value then success else status_or success error_driver_init_failed, m'))
      else (error_driver_data, m)

  unfoldable pub wdt_sre : (ℕ → ℕ) → ℕ × (ℕ → ℕ)
  wdt_sre m =
      let val = or_byte (m wdtcsr) (2 ^ 3) in
      let m' = write_wdtcsr val m in
      (if m' wdtcsr == val then success else error_driver_init_failed, m')

  unfoldable pub wdt_srd : (ℕ → ℕ) → ℕ × (ℕ → ℕ)
  wdt_srd m =
      let val = clear_byte (m wdtcsr) (2 ^ 3) in
      let m' = write_wdtcsr val m in
      (if m' wdtcsr == val then success else error_driver_init_failed, m')
