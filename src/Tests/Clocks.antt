-- ===== src/Tests/Clocks.antt =====
-- Runs of the clocks, the timers and the watchdog, and instances of their theorems.
use cyancore.Common.{ℕ, ◌+◌, ◌*◌, ◌/◌, ◌%◌, ◌≤◌, ◌≡◌, refl, true, false, not, some, ◌==◌, arith}
use cyancore.Status.{success}
use cyancore.Hal.{test_bit}
use cyancore.Hal.Prci.{zero_config, distance}
use cyancore.Hal.Prci.Nearest.{IsCandidate, output}
use cyancore.Hal.Oscillators.{
  Prci, internal, external, pll, Sysclk, writes_of, faults, sysclk_configure_clk,
  sysclk_disable_writes, sysclk_get_freq,
}
use cyancore.Hal.Oscillators.Running.{
  running, IsDriven, IsInternal, sysclk_configure_clk-IsDriven, writes_of-undriven,
}
use cyancore.Hal.Oscillators.Frequency.{sysclk_get_freq-nearest}
use cyancore.Hal.Timer.{TimerPort}
use cyancore.Hal.Wdt.{WdtPort, wdtcsr, wdt_set_timeout}
use cyancore.Hal.Wdt.Timeout.{wdt_set_timeout-fields}

abbrev threes : ℕ → ℕ
threes a = 3

-- Timer 1, unit A
abbrev timer_1 : TimerPort
timer_1 = record { port_id = 0x10; clk_id = 3; baddr = 0x80; value = 0; tmr_handler = false }

abbrev dog : WdtPort
dog = record { timeout = 9; wdt_handler = true }

wdt_set_timeout-fields_example :
    ((wdt_set_timeout (λ v. v) (some dog) threes).0 ≡ success)
    × ((wdt_set_timeout (λ v. v) (some dog) threes).1 wdtcsr % 8
          + (wdt_set_timeout (λ v. v) (some dog) threes).1 wdtcsr / 32 % 2 * 8
        ≡ 9)
    × (test_bit ((wdt_set_timeout (λ v. v) (some dog) threes).1 wdtcsr) 6 ≡ not (9 == 0))
    × (test_bit ((wdt_set_timeout (λ v. v) (some dog) threes).1 wdtcsr) 3 ≡ false)
wdt_set_timeout-fields_example =
    wdt_set_timeout-fields (λ v. v) dog threes (λ v. refl) (omega arith)

abbrev crystal_16 : Prci
crystal_16 = record {
  hfrosc_en = false;
  hfrosc_div = 0;
  hfxosc_en = true;
  pllsel = true;
  pllrefsel = true;
  pllbypass = true;
  pllr = 0;
  pllf = 0;
  pllq = 0;
  plloutdiv = 0;
  plloutdivby1 = false;
}

abbrev clock_driver : Sysclk
clock_driver = record {
  ready = true;
  base_clk = 16000000;
  pllc = zero_config;
  clk_type = external;
  regs = crystal_16;
}

-- From the crystal to the ring oscillator, while the loop is not locked
sysclk_configure_clk-IsDriven_example :
    ((st : ℕ) × (s' : Sysclk) × (sysclk_configure_clk true 0 0 internal 16000000 clock_driver
        ≡ some (st, s'))
      × IsDriven false (writes_of internal 16000000 zero_config) crystal_16
      × IsInternal s'.regs)
    × IsDriven false sysclk_disable_writes crystal_16
unfolding faults running
sysclk_configure_clk-IsDriven_example =
    sysclk_configure_clk-IsDriven true false 0 0 16000000 clock_driver refl refl refl

writes_of-undriven_example :
    (¬ IsDriven false (writes_of external 16000000 zero_config) crystal_16)
    × (¬ IsDriven false (writes_of pll 16000000 zero_config) crystal_16)
writes_of-undriven_example = writes_of-undriven 16000000 zero_config crystal_16

-- The factors of 256 MHz
sysclk_get_freq-nearest_example :
    (st : ℕ) × (s' : Sysclk) × (c : ℕ) × (sysclk_configure_clk false 0 0 pll 320000000 clock_driver
      ≡ some (st, s'))
    × (sysclk_get_freq s' ≡ (success, some c))
    × (distance 320000000 c ≤ distance 320000000 (output 16000000 1 31 1))
    × (distance 320000000 c ≤ distance 320000000 (output 16000000 1 31 1 / (2 * (0 + 1))))
unfolding faults IsCandidate
sysclk_get_freq-nearest_example =
    sysclk_get_freq-nearest 0 0 320000000 1 31 1 0 clock_driver refl refl
      (omega arith, omega arith, omega arith, omega arith, omega arith, refl, refl, refl)
      (omega arith)
