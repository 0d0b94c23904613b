-- ===== src/Hal/Wdt/Timeout.antt =====
-- How a time-out stands in the control register.
use cyancore.Common.{
  ℕ, ◌+◌, ◌*◌, ◌/◌, ◌%◌, ◌^◌, ◌<◌, ◌≡◌, refl, false, not, some, le→leb, ◌==◌, ==_refl,
  if◌then◌else◌, arith,
}
use cyancore.Status.{success}
use cyancore.Hal.{or_byte, test_bit}
use cyancore.Hal.Bits.{all_below, all_below_sound, equal_below, same, same_sound}
use cyancore.Hal.Wdt.{WdtPort, wdtcsr, get_timeout, write_wdtcsr, wdt_set_timeout}

-- What is written for a time-out
abbrev value_of : (t : ℕ) → ℕ
value_of t = if get_timeout t == 0 then get_timeout t else or_byte (get_timeout t) (2 ^ 6)

fields : (t : ℕ) → t < 10 → value_of t % 8 + value_of t / 32 % 2 * 8 ≡ t
unfolding all_below get_timeout
fields t h =
    equal_below 10 1 (λ a b. value_of a % 8 + value_of a / 32 % 2 * 8) (λ a b. a) refl t 0 h
      (omega arith)

interrupt : (t : ℕ) → t < 10 → test_bit (value_of t) 6 ≡ not (t == 0)
unfolding all_below get_timeout same test_bit
interrupt t h =
    same_sound _ _
      (all_below_sound 10 (λ a. same (test_bit (value_of a) 6) (not (a == 0))) refl t h)

no_reset : (t : ℕ) → t < 10 → test_bit (value_of t) 3 ≡ false
unfolding all_below get_timeout same test_bit
no_reset t h =
    same_sound _ _ (all_below_sound 10 (λ a. same (test_bit (value_of a) 3) false) refl t h)

-- Where the hardware keeps what is written, a time-out of 0 to 9 is set with success: its low three bits
-- and its fourth stand in their two fields, the reset is disabled, and the interrupt is enabled but for the
-- time-out 0.
pub wdt_set_timeout-fields :
    (kept : ℕ → ℕ) (port : WdtPort) (m : ℕ → ℕ)
    → ((v : ℕ) → kept v ≡ v)
    → port.timeout < 10
    → let r = wdt_set_timeout kept (some port) m in
      (r.0 ≡ success)
      × (r.1 wdtcsr % 8 + r.1 wdtcsr / 32 % 2 * 8 ≡ port.timeout)
      × (test_bit (r.1 wdtcsr) 6 ≡ not (port.timeout == 0))
      × (test_bit (r.1 wdtcsr) 3 ≡ false)
unfolding wdt_set_timeout write_wdtcsr
wdt_set_timeout-fields kept port m keep h =
    let t = port.timeout in
    let low = le→leb t 9 (omega (arith, h)) in
    let v = value_of t in
    rw (low, keep v, ==_refl v) (refl, fields t h, interrupt t h, no_reset t h)
