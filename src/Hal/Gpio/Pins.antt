-- ===== src/Hal/Gpio/Pins.antt =====
-- What a pin's functions do to the levels and the directions of all pins of its port.
use cyancore.Common.{
  ℕ, ◌+◌, ◌<◌, ◌≡◌, ◌≢◌, refl, inl, inr, Bool, true, false, not, some, ◌==◌, ==_iff, ==_refl, ne→==,
  Bool-cases, if◌then◌else◌, arith,
}
use cyancore.Status.{success}
use cyancore.Hal.{test_bit}
use cyancore.Hal.Bits.{test_bit-or_byte, test_bit-clear_byte, test_bit-xor_byte, xor_byte-xor_byte}
use cyancore.Hal.Gpio.{
  GpioPort, ddr_offset, port_offset, gpio_pin_set, gpio_pin_clear, gpio_pin_toggle, gpio_pin_mode,
  out, inp, pull_up,
}

-- The levels that the port drives or pulls up, and the pins that are outputs
unfoldable pub level : GpioPort → (ℕ → ℕ) → ℕ → Bool
level p m j = test_bit (m (p.pbaddr + port_offset)) j

unfoldable pub output : GpioPort → (ℕ → ℕ) → ℕ → Bool
output p m j = test_bit (m (p.pbaddr + ddr_offset)) j

-- The abstract write of one pin
unfoldable pub with_pin : ℕ → Bool → (ℕ → Bool) → ℕ → Bool
with_pin k v f j = if j == k then v else f j

kept_at : (a v x : ℕ) (m : ℕ → ℕ) → x ≢ a → (if x == a then v else m x) ≡ m x
kept_at a v x m h = rw (ne→== x a h) refl

written_at : (a v : ℕ) (m : ℕ → ℕ) → (if a == a then v else m a) ≡ v
written_at a v m = rw (==_refl a) refl

-- Setting, clearing and toggling a pin of a port whose register is a byte changes the level of that pin
-- only, to high, to low and to its contrary; no other register changes, and each returns success.
pub gpio_pin-level :
    (p : GpioPort) (m : ℕ → ℕ) (j : ℕ)
    → p.pin < 8
    → j < 8
    → m (p.pbaddr + port_offset) < 256
    → (x : ℕ) → x ≢ p.pbaddr + port_offset
    → let set = gpio_pin_set (some p) m in
      let clear = gpio_pin_clear (some p) m in
      let toggle = gpio_pin_toggle (some p) m in
      ((set.0 ≡ success) × (level p set.1 j ≡ with_pin p.pin true (level p m) j) × (set.1 x ≡ m x))
      × ((clear.0 ≡ success)
          × (level p clear.1 j ≡ with_pin p.pin false (level p m) j)
          × (clear.1 x ≡ m x))
      × ((toggle.0 ≡ success)
          × (level p toggle.1 j ≡ with_pin p.pin (not (level p m p.pin)) (level p m) j)
          × (toggle.1 x ≡ m x))
unfolding gpio_pin_set gpio_pin_clear gpio_pin_toggle level with_pin
gpio_pin-level p m j hp hj hm x hx =
    let a = p.pbaddr + port_offset in
    (
      (refl, rw (==_refl a) (test_bit-or_byte (m a) p.pin j hm hp hj), kept_at a _ x m hx),
      (refl, rw (==_refl a) (test_bit-clear_byte (m a) p.pin j hm hp hj), kept_at a _ x m hx),
      (refl, rw (==_refl a) (test_bit-xor_byte (m a) p.pin j hm hp hj), kept_at a _ x m hx),
    )

-- The modes `out`, `pull_up` and `in` of a pin make it an output, an input and an input; `pull_up` also
-- raises its level and `in` leaves the levels alone. The other pins keep direction and level, and no other
-- register changes, where the two registers of the port are bytes.
pub gpio_pin_mode-output :
    (p : GpioPort) (m : ℕ → ℕ) (j : ℕ)
    → p.pin < 8
    → j < 8
    → m (p.pbaddr + ddr_offset) < 256
    → m (p.pbaddr + port_offset) < 256
    → (x : ℕ) → x ≢ p.pbaddr + ddr_offset
    → x ≢ p.pbaddr + port_offset
    → let as_out = (gpio_pin_mode (some p) out m).1 in
      let as_in = (gpio_pin_mode (some p) inp m).1 in
      let pulled = (gpio_pin_mode (some p) pull_up m).1 in
      ((output p as_out j ≡ with_pin p.pin true (output p m) j)
        × (level p as_out j ≡ level p m j)
        × (as_out x ≡ m x))
      × ((output p as_in j ≡ with_pin p.pin false (output p m) j)
          × (level p as_in j ≡ level p m j)
          × (as_in x ≡ m x))
      × ((output p pulled j ≡ with_pin p.pin false (output p m) j)
          × (level p pulled j ≡ with_pin p.pin true (level p m) j)
          × (pulled x ≡ m x))
unfolding gpio_pin_mode output level with_pin
gpio_pin_mode-output p m j hp hj hd hl x hx hy =
    let d = p.pbaddr + ddr_offset in
    let l = p.pbaddr + port_offset in
    let d≠l = ne→== d l (λ e. omega (arith, e)) in
    let l≠d = ne→== l d (λ e. omega (arith, e)) in
    (
      (rw (==_refl d) (test_bit-or_byte (m d) p.pin j hd hp hj), rw l≠d refl, kept_at d _ x m hx),
      (
        rw (==_refl d) (test_bit-clear_byte (m d) p.pin j hd hp hj),
        rw l≠d refl,
        kept_at d _ x m hx,
      ),
      (
        rw (==_refl d, d≠l) (test_bit-clear_byte (m d) p.pin j hd hp hj),
        rw (l≠d, ==_refl l) (test_bit-or_byte (m l) p.pin j hl hp hj),
        rw (ne→== x d hx, ne→== x l hy) refl,
      ),
    )

-- A pin of a byte that is toggled twice is back, and so are all registers.
pub gpio_pin_toggle-twice :
    (p : GpioPort) (m : ℕ → ℕ)
    → p.pin < 8
    → m (p.pbaddr + port_offset) < 256
    → (x : ℕ) → (gpio_pin_toggle (some p) (gpio_pin_toggle (some p) m).1).1 x ≡ m x
unfolding gpio_pin_toggle
gpio_pin_toggle-twice p m hp hm x =
    let a = p.pbaddr + port_offset in
    elim (Bool-cases (x == a)) [
      | inl e ↦
          let x≡a = (==_iff x a).0 e in rw (e, ==_refl a, x≡a) (xor_byte-xor_byte (m a) p.pin hm hp)
      | inr e ↦ rw e refl
    ]
