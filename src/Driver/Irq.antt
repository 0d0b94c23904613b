-- ===== src/Driver/Irq.antt =====
-- The links of interrupts to their handlers and the waits for them, src/driver/interrupt/interrupt.c. A
-- handler is its address. `local_` and `plat` say whether the build has LOCAL_INTERRUPT_DEVICE and
-- PLAT_INTERRUPT_DEVICE.
use cyancore.Common.{ℕ, zero, suc, Bool, true, Option, none, some, ◌==◌, if◌then◌else◌}
use cyancore.Status.{success, error_system_irq_link_fail, error_system_irq_unlink_fail}

-- `int_module_t`
pub data IntModule : Type 0 where
  int_arch int_local int_plat : IntModule

-- What is registered: the controller, the interrupt and the handler.
abbrev pub Registration : Type 0
Registration = Option (IntModule × ℕ × ℕ)

-- Whether the build knows the controller
abbrev pub has_device : (local_ plat : Bool) → IntModule → Bool
has_device local_ plat int_arch = true
has_device local_ plat int_local = local_
has_device local_ plat int_plat = plat

unfoldable pub link_interrupt :
    (local_ plat : Bool) → IntModule → (id handler : ℕ) → ℕ × Registration
link_interrupt local_ plat target id handler =
    if has_device local_ plat target
    then (success, some (target, id, handler))
    else (error_system_irq_link_fail, none)

-- The handlers `arch_panic_handler` and `plat_panic_handler` are arguments.
abbrev pub panic_of : (arch_panic plat_panic : ℕ) → IntModule → ℕ
panic_of arch_panic plat_panic int_arch = arch_panic
panic_of arch_panic plat_panic int_local = plat_panic
panic_of arch_panic plat_panic int_plat = plat_panic

unfoldable pub unlink_interrupt :
    (local_ plat : Bool) → (arch_panic plat_panic : ℕ) → IntModule → ℕ → ℕ × Registration
unlink_interrupt local_ plat arch_panic plat_panic target id =
    if has_device local_ plat target
    then (success, some (target, id, panic_of arch_panic plat_panic target))
    else (error_system_irq_unlink_fail, none)

-- The status, and the lock of `int_wait_t`
pub wait_lock : ℕ × ℕ
wait_lock = (success, 1)

pub wait_release_on_irq : ℕ × ℕ
wait_release_on_irq = (success, 0)

-- `lock n` is the lock after the interrupt `n`; the loop takes rounds.
unfoldable pub wait_till_irq : (ℕ → ℕ) → ℕ → ℕ → Option ℕ
wait_till_irq lock zero n = none
wait_till_irq lock (suc rounds) n =
    let rest = wait_till_irq lock rounds (suc n) in if lock n == 1 then rest else some success
