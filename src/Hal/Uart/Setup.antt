-- ===== src/Hal/Uart/Setup.antt =====
-- What the set-up leaves in the registers.
use cyancore.Common.{
  ℕ, ◌+◌, ◌*◌, ◌^◌, ◌<◌, ◌≡◌, ◌≢◌, refl, sym, ap, subst, Bool, true, false, some, ◌∷◌, ◌==◌, ◌||◌,
  ◌∙◌, inl, inr, Option-cases, ==_refl, ne→==, if◌then◌else◌, arith,
}
use cyancore.Status.{success}
use cyancore.Hal.{write8, or8, or_byte, test_bit}
use cyancore.Hal.Bits.{test_bit-or_byte, or_byte_bound, agree, all_below, same}
use cyancore.Hal.Uart.{
  UartPort, Uart, baud_rate_value, ucsra_offset, ucsrb_offset, ucsrc_offset, ubrrl_offset,
  ubrrh_offset, configure, enable_direction, enable_tx_irq, enable_rx_irq, uart_tx_int_en,
  uart_rx_int_en, clk_en, uart_setup, Direction, tx, rx, trx, other,
}

-- The register of the transmitter and the receiver after an interrupt is enabled
abbrev ucsrb : UartPort → (ℕ → ℕ) → ℕ
ucsrb port m = m (port.baddr + ucsrb_offset)

-- An interrupt's bit is neither TXEN nor RXEN.
IsLike : UartPort → (m m' : ℕ → ℕ) → Type 0
IsLike port m m' =
    (ucsrb port m' < 256)
    × (test_bit (ucsrb port m') 3 ≡ test_bit (ucsrb port m) 3)
    × (test_bit (ucsrb port m') 4 ≡ test_bit (ucsrb port m) 4)

IsLike-refl : (port : UartPort) (m : ℕ → ℕ) → ucsrb port m < 256 → IsLike port m m
unfolding IsLike
IsLike-refl port m h = (h, refl, refl)

IsLike-ucsrb : (port : UartPort) (m m' : ℕ → ℕ) → IsLike port m m' → ucsrb port m' < 256
unfolding IsLike
IsLike-ucsrb port m m' h = h.0

IsLike-trans :
    (port : UartPort) (m m' m'' : ℕ → ℕ) → IsLike port m m' → IsLike port m' m'' → IsLike port m m''
unfolding IsLike
IsLike-trans port m m' m'' h k = (k.0, k.1 ∙ h.1, k.2 ∙ h.2)

or_byte-IsLike :
    (port : UartPort) (m : ℕ → ℕ) (k : ℕ)
    → ucsrb port m < 256
    → k < 8
    → 4 < k
    → IsLike port m (or8 (port.baddr + ucsrb_offset) (2 ^ k) m)
unfolding IsLike
or_byte-IsLike port m k h hk h4 =
    let x = port.baddr + ucsrb_offset in
    let b = m x in
    (
      rw (==_refl x) (or_byte_bound b (2 ^ k)),
      rw
          (
            ==_refl x,
            test_bit-or_byte b k 3 h hk (omega arith),
            ne→== 3 k (λ e. omega (arith, e, h4)),
          )
          refl,
      rw
          (
            ==_refl x,
            test_bit-or_byte b k 4 h hk (omega arith),
            ne→== 4 k (λ e. omega (arith, e, h4)),
          )
          refl,
    )

tx_irq-IsLike :
    (port : UartPort) (s : Uart)
    → ucsrb port s.mmio < 256
    → IsLike port s.mmio (enable_tx_irq port s).mmio
unfolding enable_tx_irq uart_tx_int_en IsLike
tx_irq-IsLike port s h = elim (Option-cases port.tx_irq) [
  | inl e ↦ rw (enable_tx_irq, e) (IsLike-refl port s.mmio h)
  | inr (irq, e) ↦
      rw (enable_tx_irq, e) (or_byte-IsLike port s.mmio 6 h (omega arith) (omega arith))
]

rx_irq-IsLike :
    (port : UartPort) (s : Uart)
    → ucsrb port s.mmio < 256
    → IsLike port s.mmio (enable_rx_irq port s).mmio
unfolding enable_rx_irq uart_rx_int_en IsLike
rx_irq-IsLike port s h = elim (Option-cases port.rx_irq) [
  | inl e ↦ rw (enable_rx_irq, e) (IsLike-refl port s.mmio h)
  | inr (irq, e) ↦
      rw (enable_rx_irq, e) (or_byte-IsLike port s.mmio 7 h (omega arith) (omega arith))
]

-- Whether a direction transmits and receives
unfoldable pub transmits : Direction → Bool
transmits tx = true
transmits rx = false
transmits trx = true
transmits other = false

unfoldable pub receives : Direction → Bool
receives tx = false
receives rx = true
receives trx = true
receives other = false

-- What the switch gives for a direction
enable_direction-bits :
    (port : UartPort) (d : Direction) (s : Uart)
    → d ≢ other
    → ucsrb port s.mmio < 256
    → (en : ℕ) × (s' : Uart) × (enable_direction port d s ≡ some (en, s'))
      × IsLike port s.mmio s'.mmio
      × (en ≡ (if transmits d then 8 else 0) + (if receives d then 16 else 0))
unfolding enable_direction transmits receives
enable_direction-bits port tx s h hb =
    (8, enable_tx_irq port s, refl, tx_irq-IsLike port s hb, refl)
enable_direction-bits port rx s h hb =
    (16, enable_rx_irq port s, refl, rx_irq-IsLike port s hb, refl)
enable_direction-bits port trx s h hb =
    let s1 = enable_tx_irq port s in
    let l1 = tx_irq-IsLike port s hb in
    let s2 = enable_rx_irq port s1 in
    let l2 = rx_irq-IsLike port s1 (IsLike-ucsrb port s.mmio s1.mmio l1) in
    (24, s2, refl, IsLike-trans port s.mmio s1.mmio s2.mmio l1 l2, refl)
enable_direction-bits port other s h hb = absurd (h refl)

-- The bits TXEN and RXEN of the mask that the switch gives
mask_bits :
    (t r : Bool) (b : ℕ)
    → b < 256
    → let en = (if t then 8 else 0) + (if r then 16 else 0) in
      (test_bit (or_byte b en) 3 ≡ (t || test_bit b 3))
      × (test_bit (or_byte b en) 4 ≡ (r || test_bit b 4))
unfolding all_below same test_bit
mask_bits false false b h = (
  agree (λ c. test_bit (or_byte c 0) 3) (λ c. false || test_bit c 3) refl b h,
  agree (λ c. test_bit (or_byte c 0) 4) (λ c. false || test_bit c 4) refl b h,
)
mask_bits false true b h = (
  agree (λ c. test_bit (or_byte c 16) 3) (λ c. false || test_bit c 3) refl b h,
  agree (λ c. test_bit (or_byte c 16) 4) (λ c. true || test_bit c 4) refl b h,
)
mask_bits true false b h = (
  agree (λ c. test_bit (or_byte c 8) 3) (λ c. true || test_bit c 3) refl b h,
  agree (λ c. test_bit (or_byte c 8) 4) (λ c. false || test_bit c 4) refl b h,
)
mask_bits true true b h = (
  agree (λ c. test_bit (or_byte c 24) 3) (λ c. true || test_bit c 3) refl b h,
  agree (λ c. test_bit (or_byte c 24) 4) (λ c. true || test_bit c 4) refl b h,
)

-- The four registers behind the switch
configure_registers :
    (port : UartPort) (en b p : ℕ) (m : ℕ → ℕ)
    → b < 2 ^ 16
    → p < 4
    → let m' = configure port en b p m in
      (m' (port.baddr + ubrrh_offset) * 2 ^ 8 + m' (port.baddr + ubrrl_offset) ≡ b)
      × (m' (port.baddr + ucsrc_offset) ≡ p * 16 + 6)
      × (m' (port.baddr + ucsrb_offset) ≡ or_byte (ucsrb port m) en)
unfolding configure
configure_registers port en b p m b16 p4 =
    let at = λ (o : ℕ). port.baddr + o in
    let differ : (i j : ℕ) → i ≢ j → (at i == at j) ≡ false =
      λ i j h. ne→== (at i) (at j) (λ e. h (omega (arith, e))) in
    (
      rw
          (
            differ 5 2 (λ e. omega (arith, e)),
            differ 5 4 (λ e. omega (arith, e)),
            ==_refl (at 5),
            differ 4 2 (λ e. omega (arith, e)),
            ==_refl (at 4),
          )
          (omega (arith, b16)),
      rw (==_refl (at 2)) (omega (arith, p4)),
      rw
          (
            differ 1 2 (λ e. omega (arith, e)),
            differ 1 4 (λ e. omega (arith, e)),
            differ 1 5 (λ e. omega (arith, e)),
            ==_refl (at 1),
          )
          refl,
    )

-- In each direction but an invalid one, where the clock is found and the prescaler `b` is computed and fits
-- 16 bits, the set-up of a port succeeds: the two rate registers hold `b`, the frame register the parity and
-- a frame of 8 bits, and the transmitter and the receiver are enabled as the direction asks; neither is
-- disabled where it was enabled before. The control register held a byte.
pub uart_setup-registers :
    (clk : ℕ) (port : UartPort) (d : Direction) (p b : ℕ) (s : Uart)
    → d ≢ other
    → baud_rate_value clk port.baud ≡ some b
    → b < 2 ^ 16
    → p < 4
    → ucsrb port s.mmio < 256
    → (s' : Uart) × (uart_setup success clk (some port) d p s ≡ some (success, s'))
      × (s'.mmio (port.baddr + ubrrh_offset) * 2 ^ 8 + s'.mmio (port.baddr + ubrrl_offset) ≡ b)
      × (s'.mmio (port.baddr + ucsrc_offset) ≡ p * 16 + 6)
      × (test_bit (s'.mmio (port.baddr + ucsrb_offset)) 3
          ≡ (transmits d || test_bit (s.mmio (port.baddr + ucsrb_offset)) 3))
      × (test_bit (s'.mmio (port.baddr + ucsrb_offset)) 4
          ≡ (receives d || test_bit (s.mmio (port.baddr + ucsrb_offset)) 4))
unfolding uart_setup IsLike
uart_setup-registers clk port d p b s hd hb b16 p4 hs =
    let base = port.baddr in
    let s1 : Uart = record {
      mmio = write8 (base + ucsra_offset) 0x00 s.mmio;
      calls = clk_en port.clk_id ∷ s.calls;
    } in
    let x = base + ucsrb_offset in
    let old : ucsrb port s1.mmio ≡ s.mmio x =
      rw (ne→== x (base + ucsra_offset) (λ e. omega (arith, e))) refl in
    let (en, s2, e, like, e') =
      enable_direction-bits port d s1 hd (subst (λ v. v < 256) (sym old) hs) in
    let now = ucsrb port s2.mmio in
    let bits = mask_bits (transmits d) (receives d) now (IsLike-ucsrb port s1.mmio s2.mmio like) in
    let (rate, frame, control) = configure_registers port en b p s2.mmio b16 p4 in
    let control' = control ∙ ap (or_byte now) e' in
    (
      record s2 { mmio = configure port en b p s2.mmio },
      rw (e, hb) refl,
      rate,
      frame,
      ap (λ v. test_bit v 3) control'
          ∙ bits.0
          ∙ ap (λ v. transmits d || v) (like.1 ∙ ap (λ v. test_bit v 3) old),
      ap (λ v. test_bit v 4) control'
          ∙ bits.1
          ∙ ap (λ v. receives d || v) (like.2 ∙ ap (λ v. test_bit v 4) old),
    )
