-- ===== src/Hal/Adc/Config.antt =====
-- What the configuration of a pin leaves in the multiplexer's register, and what a reading gives.
use Prim.Native.Nat.{bit_or}
use cyancore.Common.{
  ℕ, ◌+◌, ◌*◌, ◌%◌, ◌^◌, ◌≤◌, ◌<◌, ◌≡◌, refl, inl, inr, true, some, ltb, le→ltb, ◌==◌, ==_iff,
  ==_refl, ne→==, Bool-cases, if◌then◌else◌, arith,
}
use cyancore.Status.{success}
use cyancore.Hal.{write8, or8, or_byte, clear_byte, test_bit}
use cyancore.Hal.Bits.{all_below, all_below_sound, equal_below}
use cyancore.Hal.Adc.{
  AdcPort, adcl_offset, adch_offset, admux_offset, adcsra_offset, adcsrb_offset, adc_read,
  adc_config_pin, adc_config_vref, adc_config_resolution, adc_config_trigger, adc_start_conv,
  ref_value,
}

join_bytes : (h l : ℕ) → h < 256 → l < 256 → bit_or l (h * 2 ^ 8 % 2 ^ 16) ≡ h * 256 + l
unfolding all_below
join_bytes h l hh hl =
    equal_below 256 256 (λ c j. bit_or j (c * 2 ^ 8 % 2 ^ 16)) (λ c j. c * 256 + j) refl h l hh hl

low_five : (b : ℕ) → b < 256 → clear_byte b (bit_or (3 * 2 ^ 6) (2 ^ 5)) ≡ b % 32
unfolding all_below
low_five b h =
    (==_iff _ _).0
      (all_below_sound 256 (λ c. clear_byte c (bit_or (3 * 2 ^ 6) (2 ^ 5)) == c % 32) refl b h)

-- A reading with both pointers gives the high byte where the result is adjusted to the left, and else the
-- number of both bytes; it keeps the selected pin and takes back the reference and the adjustment.
pub adc_read-value :
    (port : AdcPort) (m : ℕ → ℕ)
    → m (port.baddr + admux_offset) < 256
    → m (port.baddr + adcl_offset) < 256
    → m (port.baddr + adch_offset) < 256
    → let r = adc_read (some port) true m in
      (r.0 ≡ success)
      × (r.1
          ≡ some (
              if test_bit (m (port.baddr + admux_offset)) 5
              then m (port.baddr + adch_offset)
              else m (port.baddr + adch_offset) * 256 + m (port.baddr + adcl_offset)))
      × (r.2 (port.baddr + admux_offset) ≡ m (port.baddr + admux_offset) % 32)
unfolding adc_read
adc_read-value port m hm hl hh = (
  refl,
  rw (join_bytes (m (port.baddr + adch_offset)) (m (port.baddr + adcl_offset)) hh hl) refl,
  rw (==_refl (port.baddr + admux_offset)) (low_five (m (port.baddr + admux_offset)) hm),
)

-- The register of the multiplexer behind the other registers' writes
admux_of :
    (port : AdcPort) (trigger pin : ℕ) (m : ℕ → ℕ)
    → adc_start_conv port
        (or8 (port.baddr + admux_offset) pin (adc_config_trigger port trigger m).1)
        (port.baddr + admux_offset)
      ≡ or_byte (m (port.baddr + admux_offset)) pin
unfolding adc_start_conv adc_config_trigger
admux_of port trigger pin m =
    let x = port.baddr + admux_offset in
    let a = ne→== x (port.baddr + adcsra_offset) (λ e. omega (arith, e)) in
    let b = ne→== x (port.baddr + adcsrb_offset) (λ e. omega (arith, e)) in
    elim (Bool-cases (ltb 0 trigger)) [
      | inl e ↦ rw (a, ==_refl x, e, a, b) refl
      | inr e ↦ rw (a, ==_refl x, e, b) refl
    ]

-- The three fields of the register
fields :
    (v old pin : ℕ)
    → v < 4
    → old < 32
    → pin < 32
    → or_byte (or_byte old (v * 2 ^ 6)) pin ≡ v * 64 + bit_or old pin
unfolding all_below
fields v old pin hv ho hp =
    equal_below 32 32 (λ o p. or_byte (or_byte o (v * 2 ^ 6)) p) (λ o p. v * 64 + bit_or o p)
      (all_below_sound 4
        (λ w.
          all_below 32
            (λ o. all_below 32 (λ p. or_byte (or_byte o (w * 2 ^ 6)) p == w * 64 + bit_or o p)))
        refl v hv)
      old pin ho hp

-- The register after the reference is selected
vref_of :
    (port : AdcPort) (vref v : ℕ) (m : ℕ → ℕ)
    → ref_value vref ≡ some v
    → adc_config_vref port vref m ≡ (success, or8 (port.baddr + admux_offset) (v * 2 ^ 6) m)
unfolding adc_config_vref
vref_of port vref v m e = rw (adc_config_vref, e) refl

left_adjusted : (pin : ℕ) → pin < 32 → or_byte (2 ^ 5 % 2 ^ 8) pin ≡ 32 + pin
unfolding all_below
left_adjusted pin h =
    (==_iff _ _).0 (all_below_sound 32 (λ p. or_byte (2 ^ 5 % 2 ^ 8) p == 32 + p) refl pin h)

-- The configuration of a pin that is in range and below 32 leaves these selections in the register of the
-- multiplexer: at 10 bits, with a valid reference and where the register held a pin alone, the reference
-- and the bits of both the old pin and the new one; at 8 bits the adjustment and the pin, but no
-- reference, whichever is asked for.
pub adc_config_pin-admux :
    (n_adc_pins : ℕ) (port : AdcPort) (pin trigger vref v : ℕ) (m : ℕ → ℕ)
    → pin ≤ n_adc_pins
    → pin < 32
    → ref_value vref ≡ some v
    → v < 4
    → m (port.baddr + admux_offset) < 32
    → ((adc_config_pin n_adc_pins (some port) pin trigger 10 vref m).1 (port.baddr + admux_offset)
        ≡ v * 64 + bit_or (m (port.baddr + admux_offset)) pin)
      × ((adc_config_pin n_adc_pins (some port) pin trigger 8 vref m).1 (port.baddr + admux_offset)
          ≡ 32 + pin)
unfolding adc_config_pin adc_config_resolution
adc_config_pin-admux n_adc_pins port pin trigger vref v m hn hp hv hv4 hm =
    let x = port.baddr + admux_offset in
    let inside = le→ltb n_adc_pins pin hn in
    let start = vref_of port vref v m hv in
    let referred = or8 x (v * 2 ^ 6) m in
    (
      rw (inside, start, admux_of port trigger pin referred, ==_refl x)
          (fields v (m x) pin hv4 hm hp),
      rw (inside, start, admux_of port trigger pin (write8 x (2 ^ 5) referred), ==_refl x)
          (left_adjusted pin hp),
    )
