-- ===== src/Hal/Gpio/Owners/Steps.antt =====
-- Each call keeps the pins exclusive.
use cyancore.Common.{
  ℕ, ◌^◌, ◌≤◌, ◌<◌, ◌≡◌, subst, inl, inr, Bool, true, false, some, List, ◌∷◌, ◌++◌, ltb, ◌==◌,
  ==_iff, Bool-cases, arith,
}
use cyancore.Status.{success, error_driver_busy}
use cyancore.Hal.{or_byte, clear_byte, test_bit}
use cyancore.Hal.Bits.{test_bit-or_byte, test_bit_ones, clear_byte_bound, or_byte_bound}
use cyancore.Hal.Gpio.{
  GpioPort, Gpio, gpio_pin_alloc, gpio_port_alloc, gpio_pin_free, gpio_port_free, fill_handle,
}
use cyancore.Hal.Gpio.Owners.{
  Handle, System, bit, owners, keep, drop, IsExclusive, written, written-IsExclusive, taken_pin,
  taken_port, other_port, freed_others, freed_pin, freed_port, one_held,
}

-- A call that finds the pin or the port taken
busy :
    (whole : Bool) (s : System) (p : GpioPort)
    → IsExclusive s
    → IsExclusive (keep whole s (some (error_driver_busy, some p, s.gpio)))
unfolding keep IsExclusive
busy whole s p h = h

-- A pin that is taken without a handle, since the visor call fails
lost :
    (s : System) (portID pinID : ℕ)
    → pinID < 8
    → IsExclusive s
    → IsExclusive (record {
      held = s.held;
      gpio = written portID (or_byte (s.gpio.port_status portID) (2 ^ pinID)) s.gpio;
    })
unfolding IsExclusive
lost s portID pinID hp h =
    let b = s.gpio.port_status portID in
    written-IsExclusive s.held s.held s.gpio portID (or_byte b (2 ^ pinID)) h
      (or_byte_bound b (2 ^ pinID))
      (λ k hk. more b pinID k s.held portID (h.1 portID) hp hk (h.0 portID k hk))
      (λ q k e. omega arith)
  where
    more :
        (b pinID k : ℕ) (l : List Handle) (q : ℕ)
        → b < 256
        → pinID < 8
        → k < 8
        → owners l q k ≤ bit (test_bit b k)
        → owners l q k ≤ bit (test_bit (or_byte b (2 ^ pinID)) k)
    more b pinID k l q hb hp hk h = elim (Bool-cases (k == pinID)) [
      | inl e ↦ rw (test_bit-or_byte b pinID k hb hp hk, e) (one_held l q k b h)
      | inr e ↦ rw (test_bit-or_byte b pinID k hb hp hk, e) h
    ]

got :
    (s : System) (p : GpioPort)
    → p.pin < 8
    → test_bit (s.gpio.port_status p.port) p.pin ≡ false
    → IsExclusive s
    → IsExclusive (record {
      held = record { whole = false; at = p } ∷ s.held;
      gpio = written p.port (or_byte (s.gpio.port_status p.port) (2 ^ p.pin)) s.gpio;
    })
unfolding IsExclusive
got s p hp free h =
    let b = s.gpio.port_status p.port in
    written-IsExclusive s.held (record { whole = false; at = p } ∷ s.held) s.gpio p.port
      (or_byte b (2 ^ p.pin)) h (or_byte_bound b (2 ^ p.pin))
      (λ k hk. taken_pin s.held p b hp (h.1 p.port) free k hk (h.0 p.port k hk))
      (λ q k e. other_port s.held (record { whole = false; at = p }) q k e)

-- The owners of a port whose byte is 0
free_port :
    (s : System) (q k : ℕ)
    → s.gpio.port_status q ≡ 0
    → IsExclusive s
    → k < 8
    → owners s.held q k ≤ bit (test_bit 0 k)
unfolding IsExclusive
free_port s q k e h hk = subst (λ b. owners s.held q k ≤ bit (test_bit b k)) e (h.0 q k hk)

lost_port :
    (s : System) (portID : ℕ)
    → s.gpio.port_status portID ≡ 0
    → IsExclusive s
    → IsExclusive (record { held = s.held; gpio = written portID 255 s.gpio })
lost_port s portID e h =
    written-IsExclusive s.held s.held s.gpio portID 255 h (omega arith)
      (λ k hk. rw (test_bit_ones k hk) (one_held s.held portID k 0 (free_port s portID k e h hk)))
      (λ q k e. omega arith)

got_port :
    (s : System) (p : GpioPort)
    → s.gpio.port_status p.port ≡ 0
    → IsExclusive s
    → IsExclusive (record {
      held = record { whole = true; at = p } ∷ s.held;
      gpio = written p.port 255 s.gpio;
    })
got_port s p e h =
    written-IsExclusive s.held (record { whole = true; at = p } ∷ s.held) s.gpio p.port 255 h
      (omega arith) (λ k hk. taken_port s.held p k hk (free_port s p.port k e h hk))
      (λ q k e. other_port s.held (record { whole = true; at = p }) q k e)

pub freed_pin-IsExclusive :
    (n_port : ℕ) (l l' : List Handle) (p : GpioPort) (g : Gpio)
    → p.pin < 8
    → IsExclusive (record { held = l ++ (record { whole = false; at = p } ∷ l'); gpio = g })
    → IsExclusive (
        drop
          (l ++ l')
          (record { held = l ++ (record { whole = false; at = p } ∷ l'); gpio = g })
          (gpio_pin_free n_port (some p) g))
unfolding drop gpio_pin_free IsExclusive
freed_pin-IsExclusive n_port l l' p g hp h =
    let here : Handle = record { whole = false; at = p } in
    let b = g.port_status p.port in
    elim (Bool-cases (ltb p.port n_port)) [
      | inr e ↦ rw e h
      | inl e ↦ rw e (
          written-IsExclusive (l ++ (here ∷ l')) (l ++ l') g p.port (clear_byte b (2 ^ p.pin)) h
            (clear_byte_bound b p.pin (h.1 p.port) hp)
            (λ k hk. freed_pin l l' p b k hp (h.1 p.port) hk (h.0 p.port k hk))
            (λ q k e. freed_others l l' here q k))
    ]

pub freed_port-IsExclusive :
    (n_port : ℕ) (l l' : List Handle) (p : GpioPort) (g : Gpio)
    → IsExclusive (record { held = l ++ (record { whole = true; at = p } ∷ l'); gpio = g })
    → IsExclusive (
        drop
          (l ++ l')
          (record { held = l ++ (record { whole = true; at = p } ∷ l'); gpio = g })
          (gpio_port_free n_port (some p) g))
unfolding drop gpio_port_free IsExclusive
freed_port-IsExclusive n_port l l' p g h =
    let here : Handle = record { whole = true; at = p } in
    elim (Bool-cases (ltb p.port n_port)) [
      | inr e ↦ rw e h
      | inl e ↦ rw e (
          written-IsExclusive (l ++ (here ∷ l')) (l ++ l') g p.port 0 h (omega arith)
            (λ k hk. omega (arith, freed_port l l' p (g.port_status p.port) k (h.0 p.port k hk)))
            (λ q k e. freed_others l l' here q k))
    ]

module _ (n_port : ℕ) (fetch_dp : ℕ → ℕ × ℕ) where
  -- Whether the visor call succeeds decides only whether the caller gets the handle.
  filled-IsExclusive :
      (whole : Bool) (s : System) (p : GpioPort) (q pin : ℕ) (g : Gpio)
      → IsExclusive (record { held = s.held; gpio = g })
      → ((a : ℕ)
          → IsExclusive (record {
            held =
                record { whole = whole; at = record { pbaddr = a; port = q; pin = pin } } ∷ s.held;
            gpio = g;
          }))
      → IsExclusive (keep whole s (some (fill_handle n_port fetch_dp q pin p g)))
  unfolding keep fill_handle
  filled-IsExclusive whole s p q pin g failed ok = elim (Bool-cases ((fetch_dp q).0 == success)) [
    | inl e ↦ rw e (ok (fetch_dp q).1)
    | inr e ↦ rw (e, e) failed
  ]

  pub pin_alloc-IsExclusive :
      (s : System) (p : GpioPort) (portID pinID : ℕ)
      → pinID < 8
      → IsExclusive s
      → IsExclusive (keep false s (gpio_pin_alloc n_port fetch_dp (some p) portID pinID s.gpio))
  unfolding gpio_pin_alloc keep
  pin_alloc-IsExclusive s p portID pinID hp h = elim (Bool-cases (ltb portID n_port)) [
    | inr e ↦ rw e h
    | inl e ↦ elim (Bool-cases (test_bit (s.gpio.port_status portID) pinID)) [
      | inl e2 ↦ rw (e, e2) (busy false s p h)
      | inr e2 ↦
          rw (e, e2)
            (filled-IsExclusive false s p portID pinID
              (written portID (or_byte (s.gpio.port_status portID) (2 ^ pinID)) s.gpio)
              (lost s portID pinID hp h)
              (λ a. got s (record { pbaddr = a; port = portID; pin = pinID }) hp e2 h))
    ]
  ]

  pub port_alloc-IsExclusive :
      (s : System) (p : GpioPort) (portID : ℕ)
      → IsExclusive s
      → IsExclusive (keep true s (gpio_port_alloc n_port fetch_dp (some p) portID s.gpio))
  unfolding gpio_port_alloc keep
  port_alloc-IsExclusive s p portID h = elim (Bool-cases (ltb portID n_port)) [
    | inr e ↦ rw e h
    | inl e ↦ elim (Bool-cases (s.gpio.port_status portID == 0)) [
      | inr e2 ↦ rw (e, e2) (busy true s p h)
      | inl e2 ↦
          rw (e, e2)
            (filled-IsExclusive true s p portID 255 (written portID 255 s.gpio)
              (lost_port s portID ((==_iff _ _).0 e2) h)
              (λ a.
                got_port s (record { pbaddr = a; port = portID; pin = 255 }) ((==_iff _ _).0 e2) h))
    ]
  ]
