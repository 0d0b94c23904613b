-- ===== src/Driver.antt =====
-- The driver core, src/driver/driver.c. The driver table is the list of its devices; what a device's
-- own `driver_setup` or `driver_exit` returns is a parameter, and the calls of these are recorded.
-- The locks around `exec` are not modelled: one core works on the table.
pub mod Order
pub mod Sysclk
pub mod Interrupt
pub mod Console
pub mod Watchdog
pub mod Schedclk
pub mod Irq
pub mod Plic
pub mod Led
use cyancore.Common.{
  ℕ, zero, suc, ◌+◌, ◌*◌, ◌/◌, ◌%◌, Bool, true, false, ◌&&◌, not, List, [], ◌∷◌, ◌++◌, ltb, leb,
  ◌==◌, if◌then◌else◌,
}
use cyancore.Status.{success, error_func_inval, error_driver, error_driver_init_done}

-- The fields of `device_t`, without the lock and the two function pointers.
pub record Device : Type 0 where
  pub name : List ℕ
  pub sorder : ℕ
  pub eorder : ℕ
  pub exec : Bool
  pub percpu : Bool

-- What a function leaves: its status, and the table or the device, with the calls that it made.
pub record Outcome (A : Type 0) : Type 0 where
  pub status : ℕ
  pub result : A
  pub calls : List Device

abbrev pub Operation : Type 0
Operation = Device → Outcome Device

-- `a | b`, on the given number of bits.
unfoldable pub bit_or : ℕ → ℕ → ℕ → ℕ
bit_or zero a b = 0
bit_or (suc w) a b = (if a % 2 == 0 then b % 2 else 1) + 2 * bit_or w (a / 2) (b / 2)

abbrev pub status_or : ℕ → ℕ → ℕ
status_or a b = bit_or 32 a b

unfoldable pub driver_register : (Device → ℕ) → Operation
driver_register setup d =
    if not d.percpu && d.exec
    then record { status = error_driver_init_done; result = d; calls = [] }
    else record {
      status = setup d;
      result = if d.percpu then d else record d { exec = true };
      calls = d ∷ [];
    }

unfoldable pub driver_deregister : (Device → ℕ) → Operation
driver_deregister exit d =
    if not d.percpu && not d.exec
    then record { status = error_driver; result = d; calls = [] }
    else record {
      status = exit d;
      result = if d.percpu then d else record d { exec = false };
      calls = d ∷ [];
    }

-- `driver_register_with_order` and `driver_deregister_with_order`, which differ in the operation
-- that they call. `ret` is the status so far.
unfoldable pub with_order : Operation → ℕ → ℕ → List Device → Outcome (List Device)
with_order op order ret [] = record { status = ret; result = []; calls = [] }
with_order op order ret (d ∷ ds) =
    let o = op d in
    let rest = with_order op order (status_or ret o.status) ds in
    let skipped = with_order op order ret ds in
    if order == d.sorder
    then record {
      status = rest.status;
      result = o.result ∷ rest.result;
      calls = o.calls ++ rest.calls;
    }
    else record { status = skipped.status; result = d ∷ skipped.result; calls = skipped.calls }

-- The loops over the orders.
unfoldable pub for_orders : Operation → List ℕ → ℕ → List Device → Outcome (List Device)
for_orders op [] ret table = record { status = ret; result = table; calls = [] }
for_orders op (o ∷ os) ret table =
    let now = with_order op o success table in
    let rest = for_orders op os (status_or ret now.status) now.result in
    record { status = rest.status; result = rest.result; calls = now.calls ++ rest.calls }

abbrev pub ascending : ℕ → ℕ → List ℕ
ascending from zero = []
ascending from (suc n) = from ∷ ascending (from + 1) n

abbrev pub descending : ℕ → List ℕ
descending zero = []
descending (suc n) = n ∷ descending n

unfoldable pub driver_setup_all : (Device → ℕ) → List Device → Outcome (List Device)
driver_setup_all setup table = for_orders (driver_register setup) (ascending 0 256) success table

unfoldable pub driver_exit_all : (Device → ℕ) → List Device → Outcome (List Device)
driver_exit_all exit table = for_orders (driver_deregister exit) (descending 256) success table

abbrev pub same_name : List ℕ → List ℕ → Bool
same_name [] [] = true
same_name [] (d ∷ t) = false
same_name (c ∷ s) [] = false
same_name (c ∷ s) (d ∷ t) = if c == d then same_name s t else false

-- `driver_setup_with_name` and `driver_exit_with_name`: the first device of the name.
unfoldable pub with_name : Operation → List ℕ → List Device → Outcome (List Device)
with_name op name [] = record { status = error_func_inval; result = []; calls = [] }
with_name op name (d ∷ ds) =
    let o = op d in
    let rest = with_name op name ds in
    if same_name d.name name
    then record { status = o.status; result = o.result ∷ ds; calls = o.calls }
    else record { status = rest.status; result = d ∷ rest.result; calls = rest.calls }

unfoldable pub driver_setup : (Device → ℕ) → List ℕ → List Device → Outcome (List Device)
driver_setup setup name table = with_name (driver_register setup) name table

unfoldable pub driver_exit : (Device → ℕ) → List ℕ → List Device → Outcome (List Device)
driver_exit exit name table = with_name (driver_deregister exit) name table
