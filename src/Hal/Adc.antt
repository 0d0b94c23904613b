-- ===== src/Hal/Adc.antt =====
-- The analogue-to-digital converter, adc/adc.c and adc_private.h. `clk` and `link` are what the calls on the
-- platform's clock and on the interrupts return, and `n_adc_pins` is N_ADC_PINS. The conversion to a
-- temperature is in floating point and not modelled.
pub mod Config
use Prim.Native.Nat.{bit_and, bit_or}
use cyancore.Common.{
  ℕ, zero, suc, ◌+◌, ◌-◌, ◌*◌, ◌%◌, ◌^◌, Bool, true, false, not, Option, none, some, ltb, ◌==◌,
  if◌then◌else◌,
}
use cyancore.Status.{success, error_func_inval_arg, error_inval_pointer}
use cyancore.Driver.{status_or}
use cyancore.Hal.{write8, or8, clear8, test_bit}

abbrev pub adcl_offset : ℕ
adcl_offset = 0x00

abbrev pub adch_offset : ℕ
adch_offset = 0x01

abbrev pub adcsra_offset : ℕ
adcsra_offset = 0x02

abbrev pub adcsrb_offset : ℕ
adcsrb_offset = 0x03

abbrev pub admux_offset : ℕ
admux_offset = 0x04

pub record AdcPort : Type 0 where
  pub fdiv : ℕ
  pub baddr : ℕ
  pub adc_handler : Bool

unfoldable pub adc_enable : AdcPort → (ℕ → ℕ) → ℕ → ℕ
adc_enable port m = or8 (port.baddr + adcsra_offset) (2 ^ 7) m

unfoldable pub adc_disable : AdcPort → (ℕ → ℕ) → ℕ → ℕ
adc_disable port m = clear8 (port.baddr + adcsra_offset) (2 ^ 7) m

-- The cases of the switch
unfoldable pub prescaler : ℕ → Option ℕ
prescaler fdiv =
    if fdiv == 2
    then some 1
    else if fdiv == 4
    then some 2
    else if fdiv == 8
    then some 3
    else if fdiv == 16
    then some 4
    else if fdiv == 32
    then some 5
    else if fdiv == 64
    then some 6
    else if fdiv == 128
    then some 7
    else none

unfoldable pub adc_set_prescaler : AdcPort → (ℕ → ℕ) → ℕ × (ℕ → ℕ)
adc_set_prescaler port m = elim (prescaler port.fdiv) [
  | none ↦ (error_func_inval_arg, or8 (port.baddr + adcsra_offset) 0 m)
  | some v ↦ (success, or8 (port.baddr + adcsra_offset) (bit_and v 0x7) m)
]

unfoldable pub adc_start_conv : AdcPort → (ℕ → ℕ) → ℕ → ℕ
adc_start_conv port m = or8 (port.baddr + adcsra_offset) (2 ^ 6) m

unfoldable pub adc_config_trigger : AdcPort → (trigger : ℕ) → (ℕ → ℕ) → ℕ × (ℕ → ℕ)
adc_config_trigger port trigger m =
    let trig_value = trigger % 2 ^ 8 in
    let m1 = or8 (port.baddr + adcsrb_offset) (bit_and trig_value 0x07) m in
    (
      if ltb 7 trig_value then error_func_inval_arg else success,
      if ltb 0 trigger then or8 (port.baddr + adcsra_offset) (2 ^ 5) m1 else m1,
    )

unfoldable pub adc_config_resolution : AdcPort → (resolution : ℕ) → (ℕ → ℕ) → ℕ × (ℕ → ℕ)
adc_config_resolution port resolution m =
    if resolution == 8
    then (success, write8 (port.baddr + admux_offset) (2 ^ 5) m)
    else if resolution == 10
    then (success, m)
    else (error_func_inval_arg, m)

-- The cases of the switch, for `ref_ext`, `ref_avcc` and `ref_1_1`
unfoldable pub ref_value : ℕ → Option ℕ
ref_value vref =
    if vref == 0 then some 0 else if vref == 1 then some 1 else if vref == 2 then some 3 else none

unfoldable pub adc_config_vref : AdcPort → (vref : ℕ) → (ℕ → ℕ) → ℕ × (ℕ → ℕ)
adc_config_vref port vref m = elim (ref_value vref) [
  | none ↦ (error_func_inval_arg, m)
  | some v ↦ (success, or8 (port.baddr + admux_offset) (v * 2 ^ 6) m)
]

unfoldable pub adc_int_en : Option AdcPort → (ℕ → ℕ) → ℕ × (ℕ → ℕ)
adc_int_en none m = (error_inval_pointer, m)
adc_int_en (some port) m = (success, or8 (port.baddr + adcsra_offset) (2 ^ 3) m)

unfoldable pub adc_int_dis : Option AdcPort → (ℕ → ℕ) → ℕ × (ℕ → ℕ)
adc_int_dis none m = (error_inval_pointer, m)
adc_int_dis (some port) m = (success, clear8 (port.baddr + adcsra_offset) (2 ^ 3) m)

unfoldable pub adc_setup : (clk link : ℕ) → Option AdcPort → (ℕ → ℕ) → ℕ × (ℕ → ℕ)
adc_setup clk link none m = (error_inval_pointer, m)
adc_setup clk link (some port) m =
    let r = adc_set_prescaler port (adc_enable port m) in
    let ret = status_or (status_or success clk) r.0 in
    if port.adc_handler
    then (
      status_or (status_or ret link) (adc_int_en (some port) r.1).0,
      (adc_int_en (some port) r.1).1,
    )
    else (ret, r.1)

unfoldable pub adc_shutdown : (clk : ℕ) → Option AdcPort → (ℕ → ℕ) → ℕ × (ℕ → ℕ)
adc_shutdown clk none m = (error_inval_pointer, m)
adc_shutdown clk (some port) m =
    let r = adc_int_dis (some port) m in
    (status_or (status_or success r.0) clk, adc_disable port r.1)

-- None where the assert fails
unfoldable pub adc_busy : Option AdcPort → (ℕ → ℕ) → Option Bool
adc_busy none m = none
adc_busy (some port) m = some (test_bit (m (port.baddr + adcsra_offset)) 6)

unfoldable pub adc_config_pin :
    (n_adc_pins : ℕ) → Option AdcPort → (pin trigger resolution vref : ℕ) → (ℕ → ℕ) → ℕ × (ℕ → ℕ)
adc_config_pin n_adc_pins none pin trigger resolution vref m = (error_inval_pointer, m)
adc_config_pin n_adc_pins (some port) pin trigger resolution vref m =
    if ltb n_adc_pins pin
    then (error_func_inval_arg, m)
    else let r1 = adc_config_vref port vref m in
      let r2 = adc_config_resolution port resolution r1.1 in
      let r3 = adc_config_trigger port trigger r2.1 in
      (
        status_or (status_or (status_or success r1.0) r2.0) r3.0,
        adc_start_conv port (or8 (port.baddr + admux_offset) pin r3.1),
      )

-- The second result is `*adc_val`, where it is written; `value` is whether `adc_val` is not null.
unfoldable pub adc_read : Option AdcPort → (value : Bool) → (ℕ → ℕ) → ℕ × Option ℕ × (ℕ → ℕ)
adc_read none value m = (error_inval_pointer, none, m)
adc_read (some port) false m = (error_inval_pointer, none, m)
adc_read (some port) true m = (
  success,
  some (
      if test_bit (m (port.baddr + admux_offset)) 5
      then m (port.baddr + adch_offset)
      else bit_or (m (port.baddr + adcl_offset)) (m (port.baddr + adch_offset) * 2 ^ 8 % 2 ^ 16)),
  clear8 (port.baddr + admux_offset) (bit_or (3 * 2 ^ 6) (2 ^ 5)) m,
)
