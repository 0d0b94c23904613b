-- ===== src/Hal/Spi/Allocs.antt =====
-- The allocation of the four pins of a master.
use cyancore.Common.{
  ℕ, ◌^◌, ◌<◌, ◌≡◌, ◌≢◌, refl, ◌∙◌, false, Option, some, lt→ltb, ==_refl, ne→==, arith,
}
use cyancore.Status.{success}
use cyancore.Hal.{or8, test_bit}
use cyancore.Hal.Bits.{test_bit-or_byte, or_byte_bound}
use cyancore.Hal.Gpio.{GpioPort, Gpio, gpio_pin_alloc, fill_handle}
use cyancore.Hal.Spi.{pin_alloc, M, ◌>>=◌}

bind-some :
    {A B : Type 0} (m : M A) (f : A → M B) (s s' : Gpio) (a : A)
    → m s ≡ some (a, s')
    → (m >>= f) s ≡ f a s'
unfolding ◌>>=◌
bind-some m f s s' a e = rw (◌>>=◌, e) refl

-- Another pin of the port stays free.
still_free :
    (q j k : ℕ) (ps : ℕ → ℕ)
    → ps q < 256
    → j < 8
    → k < 8
    → k ≢ j
    → test_bit (ps q) k ≡ false
    → test_bit (or8 q (2 ^ j) ps q) k ≡ false
still_free q j k ps hb hj hk ne free =
    rw (==_refl q, test_bit-or_byte (ps q) j k hb hj hk, ne→== k j ne, free) refl

pub still_byte : (q mask : ℕ) (ps : ℕ → ℕ) → or8 q mask ps q < 256
still_byte q mask ps = rw (==_refl q) (or_byte_bound (ps q) mask)

-- Four pins of a port are taken.
abbrev pub all_taken : (q : ℕ) (pin : ℕ → ℕ) → (ℕ → ℕ) → ℕ → ℕ
all_taken q pin ps =
    or8 q (2 ^ pin 3) (or8 q (2 ^ pin 2) (or8 q (2 ^ pin 1) (or8 q (2 ^ pin 0) ps)))

module _ (n_port : ℕ) (fetch_dp : ℕ → ℕ × ℕ) where
  -- A free pin is taken, and the handle is filled.
  pin_alloc-free :
      (p : GpioPort) (q k : ℕ) (s : Gpio)
      → q < n_port
      → (fetch_dp q).0 ≡ success
      → test_bit (s.port_status q) k ≡ false
      → pin_alloc n_port fetch_dp p q k s
        ≡ some (
          (success, some (record { pbaddr = (fetch_dp q).1; port = q; pin = k })),
          record s { port_status = or8 q (2 ^ k) s.port_status },
        )
  unfolding gpio_pin_alloc fill_handle pin_alloc
  pin_alloc-free p q k s hq hf free = rw (pin_alloc, lt→ltb q n_port hq, free, hf) refl

  -- What an allocation returns
  abbrev got : (q k : ℕ) → ℕ × Option GpioPort
  got q k = (success, some (record { pbaddr = (fetch_dp q).1; port = q; pin = k }))

  alloc_step :
      {B : Type 0} (p : GpioPort) (q k : ℕ) (s : Gpio) (f : ℕ × Option GpioPort → M B)
      → q < n_port
      → (fetch_dp q).0 ≡ success
      → test_bit (s.port_status q) k ≡ false
      → (pin_alloc n_port fetch_dp p q k >>= f) s
        ≡ f (got q k) (record s { port_status = or8 q (2 ^ k) s.port_status })
  alloc_step p q k s f hq hf free =
      bind-some (pin_alloc n_port fetch_dp p q k) f s _ _ (pin_alloc-free p q k s hq hf free)

  -- The four allocations, for any rest
  pub allocs-free :
      {B : Type 0} (local : ℕ → GpioPort) (q : ℕ) (pin : ℕ → ℕ) (s : Gpio)
      (rest : (r0 r1 r2 r3 : ℕ × Option GpioPort) → M B)
      → q < n_port
      → (fetch_dp q).0 ≡ success
      → s.port_status q < 256
      → ((i : ℕ) → i < 4 → pin i < 8)
      → ((i j : ℕ) → i < j → j < 4 → pin j ≢ pin i)
      → ((i : ℕ) → i < 4 → test_bit (s.port_status q) (pin i) ≡ false)
      → (pin_alloc n_port fetch_dp (local 0) q (pin 0) >>= λ r0.
            pin_alloc n_port fetch_dp (local 1) q (pin 1) >>= λ r1.
            pin_alloc n_port fetch_dp (local 2) q (pin 2) >>= λ r2.
            pin_alloc n_port fetch_dp (local 3) q (pin 3) >>= λ r3. rest r0 r1 r2 r3)
          s
        ≡ rest
            (got q (pin 0))
            (got q (pin 1))
            (got q (pin 2))
            (got q (pin 3))
            (record s { port_status = all_taken q pin s.port_status })
  allocs-free local q pin s rest hq hf hb h8 differ free =
      let ps1 = or8 q (2 ^ pin 0) s.port_status in
      let ps2 = or8 q (2 ^ pin 1) ps1 in
      let ps3 = or8 q (2 ^ pin 2) ps2 in
      let on : (i j : ℕ) (ps : ℕ → ℕ)
          → ps q < 256
          → i < j
          → j < 4
          → test_bit (ps q) (pin j) ≡ false
          → test_bit (or8 q (2 ^ pin i) ps q) (pin j) ≡ false =
        λ i j ps h lt j4 e.
          still_free q (pin i) (pin j) ps h (h8 i (omega (arith, lt, j4))) (h8 j j4)
            (differ i j lt j4) e in
      let f1 = on 0 1 s.port_status hb (omega arith) (omega arith) (free 1 (omega arith)) in
      let f2 =
        on 1 2 ps1 (still_byte q _ s.port_status) (omega arith) (omega arith)
          (on 0 2 s.port_status hb (omega arith) (omega arith) (free 2 (omega arith))) in
      let f3 = on 2 3 ps2 (still_byte q _ ps1) (omega arith) (omega arith) (
        on 1 3 ps1 (still_byte q _ s.port_status) (omega arith) (omega arith)
          (on 0 3 s.port_status hb (omega arith) (omega arith) (free 3 (omega arith)))) in
      alloc_step (local 0) q (pin 0) s _ hq hf (free 0 (omega arith))
      ∙ alloc_step (local 1) q (pin 1) (record s { port_status = ps1 }) _ hq hf f1
      ∙ alloc_step (local 2) q (pin 2) (record s { port_status = ps2 }) _ hq hf f2
      ∙ alloc_step (local 3) q (pin 3) (record s { port_status = ps3 }) _ hq hf f3
