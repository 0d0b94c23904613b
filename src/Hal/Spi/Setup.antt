-- ===== src/Hal/Spi/Setup.antt =====
-- The set-up of a master on pins that are free, and on a pin that is taken.
use cyancore.Common.{
  ℕ, zero, suc, ◌+◌, ◌%◌, ◌^◌, ◌<◌, ◌≡◌, ◌≢◌, refl, sym, ap, subst, ◌∙◌, inl, inr, Bool-cases,
  ==_iff, Bool, true, false, Option, some, ◌||◌, [], ◌∷◌, ◌==◌, ==_refl, ne→==, if◌then◌else◌,
  arith,
}
use cyancore.Status.{success}
use cyancore.Driver.{bit_or}
use cyancore.Hal.{write8, or8, clear8, test_bit}
use cyancore.Hal.Bits.{test_bit-or_byte, test_bit-clear_byte, clear_byte_bound}
use cyancore.Hal.Clk.{PlatformClk}
use cyancore.Hal.Gpio.{GpioPort, out, inp, Gpio, ddr_offset, gpio_pin_mode}
use cyancore.Hal.Spi.{
  SpiPort, spcr_offset, fdiv_bits, spcr_value, pin_mode, write_spcr, pure, set_up, enable_clk,
  or_all, ◌>>=◌, ◌>>◌, spi_master_setup,
}
use cyancore.Hal.Spi.Allocs.{still_byte, all_taken, allocs-free}

module _ (n_port : ℕ) (fetch_dp : ℕ → ℕ × ℕ) where
  -- The modes of four handles of the port and the write behind them
  modes_result :
      (q : ℕ) (pin : ℕ → ℕ) (baddr value ret : ℕ) (s : Gpio)
      → let h : ℕ → Option GpioPort =
          λ i. some (record { pbaddr = (fetch_dp q).1; port = q; pin = pin i }) in
        let d = (fetch_dp q).1 + ddr_offset in
        (pin_mode (h 0) out >>= λ r0. pin_mode (h 1) inp >>= λ r1. pin_mode (h 2) out >>= λ r2.
        pin_mode (h 3) out >>= λ r3.
        write_spcr baddr value
        >> pure (or_all ret (success ∷ success ∷ success ∷ success ∷ r0 ∷ r1 ∷ r2 ∷ r3 ∷ [])))
          s
        ≡ some (
          or_all ret
              (success ∷ success ∷ success ∷ success ∷ success ∷ success ∷ success ∷ success ∷ []),
          record s {
            mmio = write8 (baddr + spcr_offset) value (
                or8 d
                  (2 ^ pin 3)
                  (or8 d (2 ^ pin 2) (clear8 d (2 ^ pin 1) (or8 d (2 ^ pin 0) s.mmio))));
          },
        )
  unfolding ◌>>=◌ ◌>>◌ pin_mode gpio_pin_mode write_spcr pure
  modes_result q pin baddr value ret s = refl

-- Whether a pin is one of the first `n`
unfoldable pub one_of : (pin : ℕ → ℕ) (n k : ℕ) → Bool
one_of pin zero k = false
one_of pin (suc n) k = k == pin n || one_of pin n k

or_if : (c x : Bool) → (if c then true else x) ≡ (c || x)
or_if true x = refl
or_if false x = refl

or_flat :
    (a b c d x : Bool) → (a || (b || (c || (d || x)))) ≡ ((a || (b || (c || (d || false)))) || x)
or_flat true b c d x = refl
or_flat false true c d x = refl
or_flat false false true d x = refl
or_flat false false false true x = refl
or_flat false false false false x = refl

taken_bit :
    (q j : ℕ) (ps : ℕ → ℕ) (k : ℕ)
    → ps q < 256
    → j < 8
    → k < 8
    → test_bit (or8 q (2 ^ j) ps q) k ≡ (k == j || test_bit (ps q) k)
taken_bit q j ps k hb hj hk =
    rw (==_refl q, test_bit-or_byte (ps q) j k hb hj hk) (or_if (k == j) (test_bit (ps q) k))

-- The bits of the byte after the four pins are taken
all_taken-bits :
    (q : ℕ) (pin : ℕ → ℕ) (ps : ℕ → ℕ) (k : ℕ)
    → ps q < 256
    → ((i : ℕ) → i < 4 → pin i < 8)
    → k < 8
    → test_bit (all_taken q pin ps q) k ≡ (one_of pin 4 k || test_bit (ps q) k)
unfolding one_of
all_taken-bits q pin ps k hb h8 hk =
    let p1 = or8 q (2 ^ pin 0) ps in
    let p2 = or8 q (2 ^ pin 1) p1 in
    let p3 = or8 q (2 ^ pin 2) p2 in
    let b1 = taken_bit q (pin 0) ps k hb (h8 0 (omega arith)) hk in
    let b2 = taken_bit q (pin 1) p1 k (still_byte q _ ps) (h8 1 (omega arith)) hk in
    let b3 = taken_bit q (pin 2) p2 k (still_byte q _ p1) (h8 2 (omega arith)) hk in
    let b4 = taken_bit q (pin 3) p3 k (still_byte q _ p2) (h8 3 (omega arith)) hk in
    b4
    ∙ ap (λ v. k == pin 3 || v) (b3 ∙ ap (λ v. k == pin 2 || v) (b2 ∙ ap (λ v. k == pin 1 || v) b1))
    ∙ or_flat (k == pin 3) (k == pin 2) (k == pin 1) (k == pin 0) (test_bit (ps q) k)

cleared_byte : (d j : ℕ) (m : ℕ → ℕ) → m d < 256 → j < 8 → clear8 d (2 ^ j) m d < 256
cleared_byte d j m h hj = rw (==_refl d) (clear_byte_bound (m d) j h hj)

cleared_bit :
    (d j : ℕ) (m : ℕ → ℕ) (k : ℕ)
    → m d < 256
    → j < 8
    → k < 8
    → test_bit (clear8 d (2 ^ j) m d) k ≡ (if k == j then false else test_bit (m d) k)
cleared_bit d j m k h hj hk = rw (==_refl d) (test_bit-clear_byte (m d) j k h hj hk)

directions :
    (d : ℕ) (pin : ℕ → ℕ) (m : ℕ → ℕ) (k : ℕ)
    → m d < 256
    → ((i : ℕ) → i < 4 → pin i < 8)
    → ((i j : ℕ) → i < j → j < 4 → pin j ≢ pin i)
    → k < 8
    → test_bit
        (or8 d (2 ^ pin 3) (or8 d (2 ^ pin 2) (clear8 d (2 ^ pin 1) (or8 d (2 ^ pin 0) m))) d)
        k
      ≡ (if k == pin 1 then false else one_of pin 4 k || test_bit (m d) k)
unfolding one_of
directions d pin m k hb h8 differ hk =
    let m1 = or8 d (2 ^ pin 0) m in
    let m2 = clear8 d (2 ^ pin 1) m1 in
    let m3 = or8 d (2 ^ pin 2) m2 in
    let m1<256 = still_byte d (2 ^ pin 0) m in
    let m2<256 = cleared_byte d (pin 1) m1 m1<256 (h8 1 (omega arith)) in
    let b1 = taken_bit d (pin 0) m k hb (h8 0 (omega arith)) hk in
    let b2 = cleared_bit d (pin 1) m1 k m1<256 (h8 1 (omega arith)) hk in
    let b3 = taken_bit d (pin 2) m2 k m2<256 (h8 2 (omega arith)) hk in
    let b4 = taken_bit d (pin 3) m3 k (still_byte d _ m2) (h8 3 (omega arith)) hk in
    b4
    ∙ ap (λ v. k == pin 3 || v)
        (b3 ∙ ap (λ v. k == pin 2 || v) (b2 ∙ ap (λ v. if k == pin 1 then false else v) b1))
    ∙ elim (Bool-cases (k == pin 1)) [
      | inl e ↦
          let k≡ = (==_iff k (pin 1)).0 e in
          let no3 = ne→== k (pin 3) (λ e3. differ 1 3 (omega arith) (omega arith) (sym e3 ∙ k≡)) in
          let no2 = ne→== k (pin 2) (λ e2. differ 1 2 (omega arith) (omega arith) (sym e2 ∙ k≡)) in
          rw (e, no3, no2) refl
      | inr e ↦ rw e (or_flat (k == pin 3) (k == pin 2) false (k == pin 0) (test_bit (m d) k))
    ]

away : (x a v : ℕ) (m : ℕ → ℕ) → x ≢ a → write8 a v m x ≡ m x
away x a v m h = rw (ne→== x a h) refl

all_success :
    or_all success
      (success ∷ success ∷ success ∷ success ∷ success ∷ success ∷ success ∷ success ∷ [])
    ≡ success
unfolding or_all bit_or
all_success = refl

-- A port whose four pins differ, are 0 to 7 and free, on a port that is in range and that the visor call
-- finds, and with a valid divisor: the set-up of the master succeeds, the four pins are taken and no other,
-- MOSI, SCK and SS are made outputs and MISO an input, each other pin keeps its direction, and the control
-- register holds the value. The bytes of `port_status` and of the direction are bytes, and the control
-- register is not the one of the directions, which enabling the clock does not change.
pub spi_master_setup-free :
    (n_port : ℕ) (fetch_dp : ℕ → ℕ × ℕ) (clk : PlatformClk) (local : ℕ → GpioPort) (port : SpiPort)
    (df_format cpol cpha : Bool) (s : Gpio) (k : ℕ)
    → let q = port.com_port % 2 ^ 8 in
      let pin = port.com_pins in
      let d = (fetch_dp q).1 + ddr_offset in
      q < n_port
      → (fetch_dp q).0 ≡ success
      → s.port_status q < 256
      → s.mmio d < 256
      → ((i : ℕ) → i < 4 → pin i < 8)
      → ((i j : ℕ) → i < j → j < 4 → pin j ≢ pin i)
      → ((i : ℕ) → i < 4 → test_bit (s.port_status q) (pin i) ≡ false)
      → (fdiv_bits port.fdiv).0 ≡ success
      → d ≢ port.baddr + spcr_offset
      → (clk.en port.clk_id s.mmio).1 d ≡ s.mmio d
      → k < 8
      → (g : Gpio) × (spi_master_setup n_port fetch_dp clk local (some port) df_format cpol cpha s
          ≡ some (success, g))
        × (test_bit (g.port_status q) k ≡ (one_of pin 4 k || test_bit (s.port_status q) k))
        × (test_bit (g.mmio d) k
            ≡ (if k == pin 1 then false else one_of pin 4 k || test_bit (s.mmio d) k))
        × (g.mmio (port.baddr + spcr_offset)
            ≡ spcr_value (2 ^ 6 + 2 ^ 4) port df_format cpol cpha % 2 ^ 8)
unfolding spi_master_setup set_up enable_clk ◌>>=◌ ◌>>◌
spi_master_setup-free n_port fetch_dp clk local port df_format cpol cpha s k hq hf hb hm h8 differ
      free hd hne hclk hk =
    let q = port.com_port % 2 ^ 8 in
    let pin = port.com_pins in
    let d = (fetch_dp q).1 + ddr_offset in
    let value = spcr_value (2 ^ 6 + 2 ^ 4) port df_format cpol cpha in
    let on : Gpio = record s { mmio = (clk.en port.clk_id s.mmio).1 } in
    let taken : Gpio = record on { port_status = all_taken q pin s.port_status } in
    let ran =
      allocs-free n_port fetch_dp local q pin on _ hq hf hb h8 differ free
      ∙ modes_result n_port fetch_dp q pin port.baddr value (fdiv_bits port.fdiv).0 taken in
    let m4 =
      or8 d (2 ^ pin 3) (or8 d (2 ^ pin 2) (clear8 d (2 ^ pin 1) (or8 d (2 ^ pin 0) on.mmio))) in
    let g : Gpio = record {
      mmio = write8 (port.baddr + spcr_offset) value m4;
      port_status = all_taken q pin s.port_status;
    } in
    let eight =
      success ∷ success ∷ success ∷ success ∷ success ∷ success ∷ success ∷ success ∷ [] in
    (
      g,
      ran ∙ ap (λ r. some (r, g)) (ap (λ r. or_all r eight) hd ∙ all_success),
      all_taken-bits q pin s.port_status k hb h8 hk,
      ap (λ v. test_bit v k) (away d (port.baddr + spcr_offset) value m4 hne)
          ∙ directions d pin on.mmio k (subst (λ v. v < 256) (sym hclk) hm) h8 differ hk
          ∙ ap (λ v. if k == pin 1 then false else one_of pin 4 k || test_bit v k) hclk,
      rw (==_refl (port.baddr + spcr_offset)) refl,
    )
