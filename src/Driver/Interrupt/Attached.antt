-- ===== src/Driver/Interrupt/Attached.antt =====
-- The controller through any sequence of attachments and releases.
use cyancore.Common.{ℕ, ◌≡◌, ◌⊎◌, Option, some}
use cyancore.Status.{error_driver_init_failed}
use cyancore.Driver.Interrupt.{
  Port, Controller, initial, attach_device, release_device, get_irq, set_priority_of_irq,
  get_priority_of_irq, en_irq, dis_irq, get_affinity_of_core, set_affinity_of_core,
  register_interrupt_handler,
}

-- The states that the statics can reach.
pub data Reachable : Controller → Type 0 where
  start : Reachable initial
  attach :
      (s : Controller) (v : ℕ) (p : Option Port) → Reachable s → Reachable (attach_device v p).1
  release : (s : Controller) → Reachable s → Reachable release_device.1

-- What the calls give: a result each, the controller's where one is attached, or else the result
-- that says there is none.
pub record IsServed (s : Controller) (answer : (Port → ℕ) → ℕ → ℕ) : Type 0 where
  pub irq : get_irq s ≡ some (answer (λ p. p.get_irq) 0)
  pub priority : (i : ℕ) → get_priority_of_irq i s ≡ some (answer (λ p. p.get_priority i) 0)
  pub set_priority :
      (i v : ℕ)
      → set_priority_of_irq i v s ≡ some (answer (λ p. p.set_priority i v) error_driver_init_failed)
  pub enable : (i : ℕ) → en_irq i s ≡ some (answer (λ p. p.en_irq i) error_driver_init_failed)
  pub disable : (i : ℕ) → dis_irq i s ≡ some (answer (λ p. p.dis_irq i) error_driver_init_failed)
  pub affinity : (c : ℕ) → get_affinity_of_core c s ≡ some (answer (λ p. p.get_affinity c) 0)
  pub set_affinity :
      (c i : ℕ)
      → set_affinity_of_core c i s
        ≡ some (answer (λ p. p.set_affinity c i) error_driver_init_failed)
  pub handler : (i h : ℕ) → (o : Option (ℕ × ℕ)) × (register_interrupt_handler i h s ≡ some o)

abbrev pub by_port : Port → (Port → ℕ) → ℕ → ℕ
by_port p f otherwise = f p

abbrev pub by_none : (Port → ℕ) → ℕ → ℕ
by_none f otherwise = otherwise

-- Either a controller is attached and answers every call, or every call is refused.
abbrev pub IsSafe : Controller → Type 0
IsSafe s = ((p : Port) × (s.ic ≡ some p) × IsServed s (by_port p)) ⊎ IsServed s by_none
