-- ===== src/Hal/Timer/Compare.antt =====
-- What setting the width of a pulse leaves in the compare registers.
use Prim.Native.Nat.{bit_and}
use cyancore.Common.{
  ℕ, ◌+◌, ◌*◌, ◌%◌, ◌^◌, ◌≡◌, inl, inr, Bool-cases, Bool, some, ==_refl, ne→==, if◌then◌else◌,
  arith,
}
use cyancore.Hal.Timer.{
  TimerPort, ocra_8b_offset, ocral_16b_offset, ocrah_16b_offset, is_timer8, timer8_set, timer16_set,
  timer_pwm_set,
}

-- Setting the width for the unit A of a timer leaves it in the compare register, cut to 8 bits for a timer of
-- 8 bits; for one of 16 bits the two bytes together are the width, cut to 16 bits.
pub timer_pwm_set-compare :
    (port : TimerPort) (invert : Bool) (value : ℕ) (m : ℕ → ℕ)
    → bit_and port.port_id 0xf ≡ 0
    → let m' = (timer_pwm_set (some port) invert value m).1 in
      (if is_timer8 port
        then m' (port.baddr + ocra_8b_offset)
        else m' (port.baddr + ocrah_16b_offset) * 2 ^ 8 + m' (port.baddr + ocral_16b_offset))
      ≡ value % (if is_timer8 port then 2 ^ 8 else 2 ^ 16)
unfolding timer_pwm_set timer8_set timer16_set
timer_pwm_set-compare port invert value m unit = elim (Bool-cases (is_timer8 port)) [
  | inl e ↦ rw (e, unit, ==_refl (port.baddr + ocra_8b_offset)) (omega arith)
  | inr e ↦
      let h =
        ne→== (port.baddr + ocrah_16b_offset) (port.baddr + ocral_16b_offset)
          (λ x. omega (arith, x)) in
      rw
        (
          e,
          unit,
          h,
          ==_refl (port.baddr + ocrah_16b_offset),
          ==_refl (port.baddr + ocral_16b_offset),
        )
        (omega arith)
]
