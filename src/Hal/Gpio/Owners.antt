-- ===== src/Hal/Gpio/Owners.antt =====
-- Which pins the callers hold, as they allocate and free pins and whole ports one after the other: no pin
-- is held twice. A caller frees what it holds by the function that fits.
pub mod Steps
use cyancore.Common.{
  ℕ, zero, suc, ◌+◌, ◌-◌, ◌%◌, ◌^◌, ◌≤◌, ◌<◌, ◌≡◌, ◌≢◌, refl, ap, subst, ◌∙◌, inl, inr, Bool, true,
  false, not, ◌&&◌, ◌||◌, Option, none, some, List, [], ◌∷◌, ◌++◌, ltb, ◌==◌, ==_iff, ==_refl,
  ne→==, Bool-cases, if◌then◌else◌, arith,
}
use cyancore.Status.{success, error_driver_busy}
use cyancore.Hal.{or_byte, clear_byte, test_bit}
use cyancore.Hal.Bits.{test_bit-or_byte, test_bit-clear_byte, test_bit_zero, test_bit_ones}
use cyancore.Hal.Gpio.{
  GpioPort, Gpio, gpio_pin_alloc, gpio_port_alloc, gpio_pin_free, gpio_port_free, fill_handle,
}

-- What a caller holds: a whole port or a pin
pub record Handle : Type 0 where
  pub whole : Bool
  pub at : GpioPort

pub record System : Type 0 where
  pub held : List Handle
  pub gpio : Gpio

unfoldable pub owns : Handle → (port k : ℕ) → Bool
owns h port k = port == h.at.port && (h.whole || k == h.at.pin)

abbrev pub bit : Bool → ℕ
bit b = if b then 1 else 0

-- How often a pin is held
unfoldable pub owners : List Handle → (port k : ℕ) → ℕ
owners [] port k = 0
owners (h ∷ l) port k = bit (owns h port k) + owners l port k

-- A result of success adds the handle; with any other, the caller holds nothing more.
unfoldable pub keep : (whole : Bool) → System → Option (ℕ × Option GpioPort × Gpio) → System
keep whole s none = s
keep whole s (some (st, none, g)) = record s { gpio = g }
keep whole s (some (st, some p, g)) = record {
  held = if st == success then record { whole = whole; at = p } ∷ s.held else s.held;
  gpio = g;
}

-- What is freed is no longer held, where the function returns.
unfoldable pub drop : List Handle → System → Option (ℕ × Option GpioPort × Gpio) → System
drop l s none = s
drop l s (some (st, p, g)) = record { held = l; gpio = g }

module _ (n_port : ℕ) (fetch_dp : ℕ → ℕ × ℕ) where
  -- One call; the pins of a port are 0 to 7. `used` is any of the calls that write the registers.
  pub data Step : System → System → Type 0 where
    pin_allocated :
        (s : System) (p : GpioPort) (portID pinID : ℕ)
        → pinID < 8
        → Step s (keep false s (gpio_pin_alloc n_port fetch_dp (some p) portID pinID s.gpio))
    port_allocated :
        (s : System) (p : GpioPort) (portID : ℕ)
        → Step s (keep true s (gpio_port_alloc n_port fetch_dp (some p) portID s.gpio))
    pin_freed :
        (l l' : List Handle) (p : GpioPort) (g : Gpio)
        → p.pin < 8
        → Step
            (record { held = l ++ (record { whole = false; at = p } ∷ l'); gpio = g })
            (drop
              (l ++ l')
              (record { held = l ++ (record { whole = false; at = p } ∷ l'); gpio = g })
              (gpio_pin_free n_port (some p) g))
    port_freed :
        (l l' : List Handle) (p : GpioPort) (g : Gpio)
        → Step
            (record { held = l ++ (record { whole = true; at = p } ∷ l'); gpio = g })
            (drop
              (l ++ l')
              (record { held = l ++ (record { whole = true; at = p } ∷ l'); gpio = g })
              (gpio_port_free n_port (some p) g))
    used : (s : System) (m : ℕ → ℕ) → Step s (record s { gpio = record s.gpio { mmio = m } })

  -- From a system in which no pin is taken
  pub data Reachable : System → Type 0 where
    start :
        (m : ℕ → ℕ)
        → Reachable (record { held = []; gpio = record { mmio = m; port_status = λ x. 0 } })
    step : {s s' : System} → Reachable s → Step s s' → Reachable s'

-- A pin is held at most once, and only where its bit of `port_status` is set; these are bytes.
unfoldable pub IsExclusive : System → Type 0
IsExclusive s =
    ((port k : ℕ) → k < 8 → owners s.held port k ≤ bit (test_bit (s.gpio.port_status port) k))
    × ((port : ℕ) → s.gpio.port_status port < 256)

abbrev pub written : (port b : ℕ) → Gpio → Gpio
written port b g = record g { port_status = λ x. if x == port then b else g.port_status x }

-- A write of one byte keeps the invariant where the byte covers the port's new owners and no pin of another
-- port gets a new owner.
pub written-IsExclusive :
    (l l' : List Handle) (g : Gpio) (port b : ℕ)
    → IsExclusive (record { held = l; gpio = g })
    → b < 256
    → ((k : ℕ) → k < 8 → owners l' port k ≤ bit (test_bit b k))
    → ((q k : ℕ) → (q == port) ≡ false → owners l' q k ≤ owners l q k)
    → IsExclusive (record { held = l'; gpio = written port b g })
unfolding IsExclusive
written-IsExclusive l l' g port b h hb here there = (
  λ q k hk. elim (Bool-cases (q == port)) [
    | inl e ↦ rw (e, (==_iff q port).0 e) (here k hk)
    | inr e ↦ rw e (omega (arith, there q k e, h.0 q k hk))
  ],
  λ q. elim (Bool-cases (q == port)) [ inl e ↦ rw e hb | inr e ↦ rw e (h.1 q) ],
)

owners_append : (l l' : List Handle) (q k : ℕ) → owners (l ++ l') q k ≡ owners l q k + owners l' q k
unfolding owners
owners_append [] l' q k = omega arith
owners_append (h ∷ l) l' q k = omega (arith, owners_append l l' q k)

none_held :
    (l : List Handle) (q k b : ℕ)
    → test_bit b k ≡ false
    → owners l q k ≤ bit (test_bit b k)
    → owners l q k ≡ 0
none_held l q k b e h = let h' = subst (λ c. owners l q k ≤ bit c) e h in omega (arith, h')

pub one_held : (l : List Handle) (q k b : ℕ) → owners l q k ≤ bit (test_bit b k) → owners l q k ≤ 1
one_held l q k b h = elim (Bool-cases (test_bit b k)) [
  | inl e ↦ subst (λ c. owners l q k ≤ bit c) e h
  | inr e ↦ omega (arith, none_held l q k b e h)
]

-- The pin that is allocated
pub taken_pin :
    (l : List Handle) (p : GpioPort) (b : ℕ)
    → p.pin < 8
    → b < 256
    → test_bit b p.pin ≡ false
    → (k : ℕ) → k < 8
    → owners l p.port k ≤ bit (test_bit b k)
    → owners (record { whole = false; at = p } ∷ l) p.port k
      ≤ bit (test_bit (or_byte b (2 ^ p.pin)) k)
unfolding owners owns
taken_pin l p b hp hb free k hk h = elim (Bool-cases (k == p.pin)) [
  | inl e ↦
      rw (test_bit-or_byte b p.pin k hb hp hk, ==_refl p.port, e)
        (omega (arith, none_held l p.port k b (ap (test_bit b) ((==_iff k p.pin).0 e) ∙ free) h))
  | inr e ↦ rw (test_bit-or_byte b p.pin k hb hp hk, ==_refl p.port, e) (omega (arith, h))
]

-- The pins of the port that is allocated
pub taken_port :
    (l : List Handle) (p : GpioPort) (k : ℕ)
    → k < 8
    → owners l p.port k ≤ bit (test_bit 0 k)
    → owners (record { whole = true; at = p } ∷ l) p.port k ≤ bit (test_bit 255 k)
unfolding owners owns
taken_port l p k hk h =
    rw (test_bit_ones k hk, ==_refl p.port)
      (omega (arith, none_held l p.port k 0 (test_bit_zero k hk) h))

-- No other port's pin gets an owner.
pub other_port :
    (l : List Handle) (h : Handle) (q k : ℕ)
    → (q == h.at.port) ≡ false
    → owners (h ∷ l) q k ≤ owners l q k
unfolding owners owns
other_port l h q k e = rw e (omega arith)

-- What is freed leaves at most the others.
pub freed_others :
    (l l' : List Handle) (h : Handle) (q k : ℕ) → owners (l ++ l') q k ≤ owners (l ++ (h ∷ l')) q k
unfolding owners
freed_others l l' h q k = rw (owners_append l l' q k, owners_append l (h ∷ l') q k) (omega arith)

-- What was held once and is freed is held no more.
freed_one :
    (l l' : List Handle) (h : Handle) (q k : ℕ)
    → owns h q k ≡ true
    → owners (l ++ (h ∷ l')) q k ≤ 1
    → owners (l ++ l') q k ≡ 0
unfolding owners
freed_one l l' h q k e c =
    let c' = subst (λ n. n ≤ 1) (owners_append l (h ∷ l') q k) c in
    let c'' = subst (λ b. owners l q k + (bit b + owners l' q k) ≤ 1) e c' in
    rw (owners_append l l' q k) (omega (arith, c''))

pub freed_pin :
    (l l' : List Handle) (p : GpioPort) (b k : ℕ)
    → p.pin < 8
    → b < 256
    → k < 8
    → owners (l ++ (record { whole = false; at = p } ∷ l')) p.port k ≤ bit (test_bit b k)
    → owners (l ++ l') p.port k ≤ bit (test_bit (clear_byte b (2 ^ p.pin)) k)
unfolding owns
freed_pin l l' p b k hp hb hk h =
    let here : Handle = record { whole = false; at = p } in
    elim (Bool-cases (k == p.pin)) [
      | inl e ↦ omega (
        arith,
        freed_one l l' here p.port k (rw (==_refl p.port, e) refl)
            (one_held (l ++ (here ∷ l')) p.port k b h),
      )
      | inr e ↦
          rw (test_bit-clear_byte b p.pin k hb hp hk, e)
            (omega (arith, freed_others l l' here p.port k, h))
    ]

pub freed_port :
    (l l' : List Handle) (p : GpioPort) (b k : ℕ)
    → owners (l ++ (record { whole = true; at = p } ∷ l')) p.port k ≤ bit (test_bit b k)
    → owners (l ++ l') p.port k ≡ 0
unfolding owns
freed_port l l' p b k h =
    let here : Handle = record { whole = true; at = p } in
    freed_one l l' here p.port k (rw (==_refl p.port) refl)
      (one_held (l ++ (here ∷ l')) p.port k b h)
