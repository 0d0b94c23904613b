-- ===== src/Driver/Interrupt.antt =====
-- The interrupt controller that is attached, src/driver/interrupt/interrupt_controller.c. What the
-- functions of a controller return is a field of its model, and the number of the core, which
-- `arch_core_index` gives, is an argument. The lock is not modelled. A result is none where the
-- code reads through the null pointer.
pub mod Attached
use cyancore.Common.{ℕ, Bool, true, false, ◌&&◌, not, Option, none, some, ◌==◌, if◌then◌else◌}
use cyancore.Status.{success, error_device_inval, error_driver_init_failed}

-- The functions of `ic_t` that return a number; `register_handler` returns nothing.
pub record Port : Type 0 where
  pub get_irq : ℕ
  pub set_priority : ℕ → ℕ → ℕ
  pub get_priority : ℕ → ℕ
  pub en_irq : ℕ → ℕ
  pub dis_irq : ℕ → ℕ
  pub get_affinity : ℕ → ℕ
  pub set_affinity : ℕ → ℕ → ℕ

-- The statics `ic` and `ic_attached`.
pub record Controller : Type 0 where
  pub ic : Option Port
  pub ic_attached : Bool

abbrev pub initial : Controller
initial = record { ic = none; ic_attached = false }

unfoldable pub attach_device : ℕ → Option Port → ℕ × Controller
attach_device dev_status none = (error_device_inval, record { ic = none; ic_attached = false })
attach_device dev_status (some p) =
    (dev_status, record { ic = some p; ic_attached = dev_status == success })

unfoldable pub release_device : ℕ × Controller
release_device = (success, record { ic = none; ic_attached = false })

-- A call of the controller, with the result where there is none.
abbrev pub call_port : (Port → ℕ) → ℕ → Controller → Option ℕ
call_port f otherwise s =
    if s.ic_attached then elim s.ic [ none ↦ none | some p ↦ some (f p) ] else some otherwise

unfoldable pub get_irq : Controller → Option ℕ
get_irq s = call_port (λ p. p.get_irq) 0 s

unfoldable pub set_priority_of_irq : ℕ → ℕ → Controller → Option ℕ
set_priority_of_irq irq_id priority s =
    call_port (λ p. p.set_priority irq_id priority) error_driver_init_failed s

unfoldable pub get_priority_of_irq : ℕ → Controller → Option ℕ
get_priority_of_irq irq_id s = call_port (λ p. p.get_priority irq_id) 0 s

unfoldable pub en_irq : ℕ → Controller → Option ℕ
en_irq irq_id s = call_port (λ p. p.en_irq irq_id) error_driver_init_failed s

unfoldable pub dis_irq : ℕ → Controller → Option ℕ
dis_irq irq_id s = call_port (λ p. p.dis_irq irq_id) error_driver_init_failed s

unfoldable pub get_affinity_of_core : ℕ → Controller → Option ℕ
get_affinity_of_core core_id s = call_port (λ p. p.get_affinity core_id) 0 s

unfoldable pub set_affinity_of_core : ℕ → ℕ → Controller → Option ℕ
set_affinity_of_core core_id irq_id s =
    call_port (λ p. p.set_affinity core_id irq_id) error_driver_init_failed s

-- What is handed to the controller's `register_handler`, if it is called.
unfoldable pub register_interrupt_handler : ℕ → ℕ → Controller → Option (Option (ℕ × ℕ))
register_interrupt_handler id handler s =
    if s.ic_attached && (not (handler == 0) && not (id == 0))
    then elim s.ic [ none ↦ none | some p ↦ some (some (id, handler)) ]
    else some none
