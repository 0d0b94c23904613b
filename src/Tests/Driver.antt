-- ===== src/Tests/Driver.antt =====
-- Runs of driver.c, and instances of its theorems.
use cyancore.Common.{ℕ, ◌≡◌, refl, true, false, Bool, List, [], ◌∷◌, arith}
use cyancore.Status.{success}
use cyancore.Driver.{
  Device, driver_setup_all, driver_setup, with_name, for_orders, with_order, driver_register,
  ascending,
}
use cyancore.Driver.Order.{can_register, in_orders}
use cyancore.Driver.Order.All.{IsTable, driver_setup_all-in_orders}

abbrev a_device : ℕ → ℕ → ℕ → Bool → Device
a_device c s e p = record { name = c ∷ []; sorder = s; eorder = e; exec = false; percpu = p }

abbrev console : Device
console = a_device b'c' 1 0 false

abbrev timer : Device
timer = a_device b't' 0 1 true

abbrev two_devices : List Device
two_devices = console ∷ timer ∷ []

abbrev ok : Device → ℕ
ok d = success

-- The start orders decide.
started : (driver_setup_all ok two_devices).calls ≡ timer ∷ console ∷ []
unfolding driver_setup_all for_orders with_order driver_register
started = refl

named : (driver_setup ok (b't' ∷ []) two_devices).calls ≡ timer ∷ []
unfolding driver_setup with_name driver_register
named = refl

driver_setup_all-in_orders_example :
    (driver_setup_all ok two_devices).calls ≡ in_orders can_register (ascending 0 256) two_devices
driver_setup_all-in_orders_example = driver_setup_all-in_orders ok two_devices

two_devices-IsTable : IsTable two_devices
two_devices-IsTable = (omega arith, (omega arith, tt))
