-- ===== src/Hal/Clk.antt =====
-- The clocks of the peripherals, platform/platform_clk.c of atmega328p and atmega2560 in
-- src/platform/mega_avr: a bit of the power reduction registers for each peripheral.
use cyancore.Common.{ℕ, ◌-◌, ◌^◌, ltb, if◌then◌else◌}
use cyancore.Status.{success, error_func_inval_arg}
use cyancore.Hal.{or8, clear8}

-- The power reduction registers; `prr0` has the address of `PRR`.
abbrev pub prr0 : ℕ
prr0 = 0x64

abbrev pub prr1 : ℕ
prr1 = 0x65

-- `platform_clk_en` and `platform_clk_dis` of a chip
pub record PlatformClk : Type 0 where
  pub en : (id : ℕ) → (ℕ → ℕ) → ℕ × (ℕ → ℕ)
  pub dis : (id : ℕ) → (ℕ → ℕ) → ℕ × (ℕ → ℕ)

unfoldable pub atmega328p : PlatformClk
atmega328p = record {
  en = λ id m. if ltb id 8 then (success, clear8 prr0 (2 ^ id) m) else (error_func_inval_arg, m);
  dis = λ id m. if ltb id 8 then (success, or8 prr0 (2 ^ id) m) else (error_func_inval_arg, m);
}

unfoldable pub atmega2560 : PlatformClk
atmega2560 = record {
  en = λ id m.
      if ltb id 8
      then (success, clear8 prr0 (2 ^ id) m)
      else if ltb id 16
      then (success, clear8 prr1 (2 ^ (id - 8)) m)
      else (error_func_inval_arg, m);
  dis = λ id m.
      if ltb id 8
      then (success, or8 prr0 (2 ^ id) m)
      else if ltb id 16
      then (success, or8 prr1 (2 ^ (id - 8)) m)
      else (error_func_inval_arg, m);
}
