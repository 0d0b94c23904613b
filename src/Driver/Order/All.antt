-- ===== src/Driver/Order/All.antt =====
-- driver_setup_all and driver_exit_all of driver.c as a whole.
use cyancore.Common.{
  ℕ, zero, suc, ◌+◌, ◌≤◌, ◌<◌, ◌≡◌, refl, ap, ap₂, ◌∙◌, true, false, ◌&&◌, List, [], ◌∷◌, ◌++◌, map,
  arith, ◌==◌, if◌then◌else◌, inl, inr, Bool-cases,
}
use cyancore.Status.{success}
use cyancore.Driver.{
  Device, driver_register, driver_deregister, ascending, descending, driver_setup_all,
  driver_exit_all,
}
use cyancore.Driver.Order.{
  can_register, can_deregister, registered, deregistered, register-IsOperation,
  deregister-IsOperation, at_order, in_orders, member, IsDistinct, after_orders, for_orders-calls,
  for_orders-result,
}

member-ascending : (s from n : ℕ) → s < from → member s (ascending from n) ≡ false
member-ascending s from zero h = refl
member-ascending s from (suc n) h =
    let rest = member-ascending s (from + 1) n (omega arith) in ground arith

ascending-IsDistinct : (from n : ℕ) → IsDistinct (ascending from n)
ascending-IsDistinct from zero = tt
ascending-IsDistinct from (suc n) =
    (member-ascending from (from + 1) n (omega arith), ascending-IsDistinct (from + 1) n)

ascending-member : (s from n : ℕ) → from ≤ s → s < from + n → member s (ascending from n) ≡ true
ascending-member s from zero lo hi = ground arith
ascending-member s from (suc n) lo hi = elim (Bool-cases (from == s)) [
  | inl e ↦ rw e refl
  | inr ne ↦ rw ne (ascending-member s (from + 1) n (ground arith) (omega arith))
]

member-descending : (s n : ℕ) → n ≤ s → member s (descending n) ≡ false
member-descending s zero h = refl
member-descending s (suc n) h = let rest = member-descending s n (omega arith) in ground arith

descending-IsDistinct : (n : ℕ) → IsDistinct (descending n)
descending-IsDistinct zero = tt
descending-IsDistinct (suc n) = (member-descending n n (omega arith), descending-IsDistinct n)

-- driver_setup_all calls the drivers that are not running in the order of their start orders, from
-- 0 to 255, and in the order of the table where these are equal.
pub driver_setup_all-in_orders :
    (setup : Device → ℕ) (table : List Device)
    → (driver_setup_all setup table).calls ≡ in_orders can_register (ascending 0 256) table
unfolding driver_setup_all
driver_setup_all-in_orders setup table =
    for_orders-calls (driver_register setup) can_register registered (register-IsOperation setup)
      (ascending 0 256) success table (ascending-IsDistinct 0 256)

-- driver_exit_all calls the drivers that are running in the reverse order of their start orders,
-- from 255 to 0; the exit orders of the devices play no part.
pub driver_exit_all-in_orders :
    (exit : Device → ℕ) (table : List Device)
    → (driver_exit_all exit table).calls ≡ in_orders can_deregister (descending 256) table
unfolding driver_exit_all
driver_exit_all-in_orders exit table =
    for_orders-calls (driver_deregister exit) can_deregister deregistered
      (deregister-IsOperation exit) (descending 256) success table (descending-IsDistinct 256)

-- The start order is a field of eight bits.
abbrev pub IsTable : List Device → Type 0
IsTable [] = Unit
IsTable (d ∷ ds) = (d.sorder < 256) × IsTable ds

all_registered :
    (table : List Device)
    → IsTable table
    → map (after_orders registered (ascending 0 256)) table ≡ map registered table
all_registered [] h = refl
all_registered (d ∷ ds) (lo, h) =
    ap₂ (λ x xs. x ∷ xs)
      (ap (λ b. if b then registered d else d) (ascending-member d.sorder 0 256 (omega arith) lo))
      (all_registered ds h)

can_register-registered : (d : Device) → can_register (registered d) ≡ (registered d).percpu
can_register-registered d = ground arith

select-registered :
    (o : ℕ) (table : List Device)
    → at_order can_register o (map registered table)
      ≡ at_order (λ d. d.percpu) o (map registered table)
select-registered o [] = refl
select-registered o (d ∷ ds) =
    ap₂ (λ b xs. if o == (registered d).sorder && b then registered d ∷ xs else xs)
      (can_register-registered d) (select-registered o ds)

in_orders-registered :
    (os : List ℕ) (table : List Device)
    → in_orders can_register os (map registered table)
      ≡ in_orders (λ d. d.percpu) os (map registered table)
in_orders-registered [] table = refl
in_orders-registered (o ∷ os) table =
    ap₂ (λ xs ys. xs ++ ys) (select-registered o table) (in_orders-registered os table)

-- Where the start orders fit their eight bits, driver_setup_all marks every device of the table as
-- running, except those that run on each core, and calling it again starts only the latter.
pub driver_setup_all_again :
    (setup again : Device → ℕ) (table : List Device)
    → IsTable table
    → ((driver_setup_all setup table).result ≡ map registered table)
      × ((driver_setup_all again (driver_setup_all setup table).result).calls
          ≡ in_orders (λ d. d.percpu) (ascending 0 256) (map registered table))
unfolding driver_setup_all
driver_setup_all_again setup again table h =
    let first : (driver_setup_all setup table).result ≡ map registered table =
      for_orders-result (driver_register setup) can_register registered (register-IsOperation setup)
        (ascending 0 256) success table (ascending-IsDistinct 0 256)
      ∙ all_registered table h in
    (
      first,
      ap (λ t. (driver_setup_all again t).calls) first
          ∙ driver_setup_all-in_orders again (map registered table)
          ∙ in_orders-registered (ascending 0 256) table,
    )
