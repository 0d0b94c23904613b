-- ===== src/Driver/Led.antt =====
-- The on-board LED, src/driver/onboardled/onboardled.c. What a function of the GPIO layer returns for a pin
-- is a parameter. The lock is not modelled. A result is none where the code reads through the null pointer.
use cyancore.Common.{
  ℕ, zero, suc, ◌≡◌, refl, Bool, true, false, ◌||◌, Option, none, some, ◌==◌, if◌then◌else◌,
}
use cyancore.Status.{success, error_driver_init_failed, error_memory_low}
use cyancore.Driver.{bit_or, status_or}

-- `obled_sp`, by its number of pins, and whether `obledPort` is not null
pub record Led : Type 0 where
  pub sp : Option ℕ
  pub port : Bool

-- The loops over the pins, which collect the statuses
pub for_pins : (ℕ → ℕ) → ℕ → ℕ
for_pins f zero = success
for_pins f (suc n) = status_or (for_pins f n) (f n)

-- What toggling, on and off share: `f` is the function of the pin.
pub on_pins : (ℕ → ℕ) → Led → Option ℕ
unfolding for_pins
on_pins f s = elim s.sp [
  | none ↦ some error_driver_init_failed
  | some n ↦ if s.port || n == 0 then some (for_pins f n) else none
]

pub onboardled_toggle : (ℕ → ℕ) → Led → Option ℕ
onboardled_toggle pin_toggle s = on_pins pin_toggle s

pub onboardled_on : (ℕ → ℕ) → Led → Option ℕ
onboardled_on pin_set s = on_pins pin_set s

pub onboardled_off : (ℕ → ℕ) → Led → Option ℕ
onboardled_off pin_clear s = on_pins pin_clear s

-- The loop of the set-up, which allocates each pin and sets its mode
pub setup_pins : (alloc mode : ℕ → ℕ) → ℕ → ℕ
setup_pins alloc mode zero = success
setup_pins alloc mode (suc n) = status_or (status_or (setup_pins alloc mode n) (alloc n)) (mode n)

-- `vstatus` and `npins` are what the visor call gives, and `port` whether the allocation succeeds. The
-- software properties are kept where it fails.
pub onboardled_setup : (vstatus npins : ℕ) → Bool → (alloc mode : ℕ → ℕ) → Led → ℕ × Led
unfolding setup_pins
onboardled_setup vstatus npins port alloc mode s =
    if vstatus == 0
    then (if port
        then (setup_pins alloc mode npins, record { sp = some npins; port = true })
        else (error_memory_low, record { sp = some npins; port = false }))
    else (vstatus, s)

pub onboardled_exit : (ℕ → ℕ) → Led → Option (ℕ × Led)
unfolding on_pins
onboardled_exit pin_free s = elim s.sp [
  | none ↦ some (error_driver_init_failed, s)
  | some n ↦ elim (on_pins pin_free s) [
    | none ↦ none
    | some ret ↦ some (ret, record s { sp = none })
  ]
]

for_pins-success : (f : ℕ → ℕ) (n : ℕ) → ((i : ℕ) → f i ≡ success) → for_pins f n ≡ success
unfolding for_pins bit_or
for_pins-success f zero h = refl
for_pins-success f (suc n) h = rw (for_pins-success f n h, h n) refl

-- Where the visor call and the allocation succeed and every function of the pins returns success, so do the
-- set-up, the three functions behind it and the exit.
pub onboardled-success :
    (npins : ℕ) (f : ℕ → ℕ) (s : Led)
    → ((i : ℕ) → f i ≡ success)
    → let s' = (onboardled_setup success npins true f f s).1 in
      (onboardled_toggle f s' ≡ some success)
      × (onboardled_on f s' ≡ some success)
      × (onboardled_off f s' ≡ some success)
      × (onboardled_exit f s' ≡ some (success, record { sp = none; port = true }))
unfolding onboardled_setup onboardled_toggle onboardled_on onboardled_off onboardled_exit on_pins
onboardled-success npins f s h =
    let e = for_pins-success f npins h in (rw e refl, rw e refl, rw e refl, rw e refl)
