-- ===== src/Hal/Gpio/Exclusion.antt =====
-- No pin is ever held twice.
use cyancore.Common.{ℕ, ◌≤◌, ◌<◌, ◌≡◌, refl, subst, inl, inr, some, lt→ltb, Bool-cases, arith}
use cyancore.Status.{error_driver_busy}
use cyancore.Hal.{test_bit}
use cyancore.Hal.Gpio.{GpioPort, gpio_pin_alloc}
use cyancore.Hal.Gpio.Owners.{
  System, bit, owners, Step, pin_allocated, port_allocated, pin_freed, port_freed, used, Reachable,
  start, step, IsExclusive, one_held,
}
use cyancore.Hal.Gpio.Owners.Steps.{
  pin_alloc-IsExclusive, port_alloc-IsExclusive, freed_pin-IsExclusive, freed_port-IsExclusive,
}

module _ {n_port : ℕ} {fetch_dp : ℕ → ℕ × ℕ} where
  Step-IsExclusive : {s s' : System} → Step n_port fetch_dp s s' → IsExclusive s → IsExclusive s'
  unfolding IsExclusive
  Step-IsExclusive (pin_allocated s p portID pinID hp) h =
      pin_alloc-IsExclusive n_port fetch_dp s p portID pinID hp h
  Step-IsExclusive (port_allocated s p portID) h =
      port_alloc-IsExclusive n_port fetch_dp s p portID h
  Step-IsExclusive (pin_freed l l' p g hp) h = freed_pin-IsExclusive n_port l l' p g hp h
  Step-IsExclusive (port_freed l l' p g) h = freed_port-IsExclusive n_port l l' p g h
  Step-IsExclusive (used s m) h = h

  Reachable-IsExclusive : {s : System} → Reachable n_port fetch_dp s → IsExclusive s
  unfolding IsExclusive owners
  Reachable-IsExclusive (start m) = ((λ q k hk. omega arith), λ q. omega arith)
  Reachable-IsExclusive (step r c) = Step-IsExclusive c (Reachable-IsExclusive r)

-- After any calls that allocate, free and use pins 0 to 7 and whole ports, whatever the visor call
-- returns, no pin is held by two callers, counting the ports that hold it, and the bytes of
-- `port_status` stay bytes.
pub Reachable-owners :
    (n_port : ℕ) (fetch_dp : ℕ → ℕ × ℕ) (s : System) (port k : ℕ)
    → Reachable n_port fetch_dp s
    → k < 8
    → (owners s.held port k ≤ 1) × (s.gpio.port_status port < 256)
unfolding IsExclusive
Reachable-owners n_port fetch_dp s port k r hk =
    let h = Reachable-IsExclusive r in
    (one_held s.held port k (s.gpio.port_status port) (h.0 port k hk), h.1 port)

-- After any such calls, a pin of 0 to 7 that a caller holds, by itself or with its port, is not allocated
-- again: the call returns error_driver_busy and changes nothing.
pub gpio_pin_alloc-busy :
    (n_port : ℕ) (fetch_dp : ℕ → ℕ × ℕ) (s : System) (p : GpioPort) (port k : ℕ)
    → Reachable n_port fetch_dp s
    → port < n_port
    → k < 8
    → 0 < owners s.held port k
    → gpio_pin_alloc n_port fetch_dp (some p) port k s.gpio
      ≡ some (error_driver_busy, some p, s.gpio)
unfolding IsExclusive gpio_pin_alloc
gpio_pin_alloc-busy n_port fetch_dp s p port k r hn hk held =
    let h = (Reachable-IsExclusive r).0 port k hk in
    elim (Bool-cases (test_bit (s.gpio.port_status port) k)) [
      | inl e ↦ rw (lt→ltb port n_port hn, e) refl
      | inr e ↦
          let h' = subst (λ b. owners s.held port k ≤ bit b) e h in absurd (omega (arith, held, h'))
    ]
