-- ===== src/Driver/Plic.antt =====
-- The platform-level interrupt controller of RISC-V, src/driver/interrupt/plic/plic.c and plic_private.h.
-- The registers are words by their offset from the base address, which is not null, so that the asserts
-- hold; `core_id` is what `arch_core_index` gives, and `claim` what the claim register reads. A handler is
-- its address; a result is none where the table of handlers is read or written behind its end.
pub mod Setup
use cyancore.Common.{
  ℕ, zero, suc, ◌+◌, ◌-◌, ◌*◌, ◌/◌, ◌%◌, ◌^◌, Bool, true, false, ◌&&◌, not, Option, none, some, ltb,
  ◌==◌, if◌then◌else◌,
}
use cyancore.Status.{success}

pub ipriority_offset : ℕ → ℕ
ipriority_offset irq = 4 * irq

pub ipending_offset : ℕ → ℕ
ipending_offset irq = 0x1000 + 4 * (irq / 31)

pub ienable_offset : ℕ → ℕ → ℕ
ienable_offset core irq = 0x2000 + 0x80 * core + 4 * (irq / 32)

pub ithreshold_offset : ℕ → ℕ
ithreshold_offset core = 0x200000 + 0x1000 * core

pub iclaim_offset : ℕ → ℕ
iclaim_offset core = 0x200004 + 0x1000 * core

-- The registers, and `plic_irq_handler`
pub record Plic : Type 0 where
  pub word : ℕ → ℕ
  pub irq_handler : ℕ → ℕ

abbrev pub write_word : ℕ → ℕ → Plic → Plic
write_word offset v s = record s { word = λ o. if o == offset then v else s.word o }

pub get_priority : ℕ → Plic → ℕ
unfolding ipriority_offset
get_priority irq_id s = s.word (ipriority_offset irq_id)

pub set_priority : ℕ → ℕ → Plic → ℕ × Plic
unfolding ipriority_offset
set_priority irq_id priority s = (success, write_word (ipriority_offset irq_id) priority s)

pub get_threshold : ℕ → Plic → ℕ
unfolding ithreshold_offset
get_threshold core_id s = s.word (ithreshold_offset core_id)

pub set_threshold : ℕ → ℕ → Plic → ℕ × Plic
unfolding ithreshold_offset
set_threshold core_id threshold s = (success, write_word (ithreshold_offset core_id) threshold s)

pub clr_interrupt : ℕ → ℕ → Plic → Plic
unfolding iclaim_offset
clr_interrupt core_id irq_id s = write_word (iclaim_offset core_id) irq_id s

-- `w & (1 << k)` is not zero
abbrev pub has_bit : ℕ → ℕ → Bool
has_bit w k = w / 2 ^ k % 2 == 1

-- `w | (1 << k)` and `w & ~(1 << k)`
abbrev pub set_bit : ℕ → ℕ → ℕ
set_bit w k = if has_bit w k then w else w + 2 ^ k

abbrev pub clear_bit : ℕ → ℕ → ℕ
clear_bit w k = if has_bit w k then w - 2 ^ k else w

pub int_en : ℕ → ℕ → Plic → ℕ × Plic
unfolding ienable_offset
int_en core_id irq_id s =
    let offset = ienable_offset core_id irq_id in
    (success, write_word offset (set_bit (s.word offset) (irq_id % 32)) s)

pub int_dis : ℕ → ℕ → Plic → ℕ × Plic
unfolding ienable_offset
int_dis core_id irq_id s =
    let offset = ienable_offset core_id irq_id in
    (success, write_word offset (clear_bit (s.word offset) (irq_id % 32)) s)

pub get_pending : ℕ → Plic → Bool
unfolding ipending_offset
get_pending irq_id s = has_bit (s.word (ipending_offset irq_id)) (irq_id % 32)

-- The first argument is N_PLAT_IRQS. The result is the handler that runs.
pub irqhandler : (n_plat_irqs core_id claim : ℕ) → Plic → Option (ℕ × Plic)
unfolding clr_interrupt
irqhandler n_plat_irqs core_id claim s =
    if ltb claim n_plat_irqs
    then some (s.irq_handler claim, clr_interrupt core_id claim s)
    else none

pub register_irq_handler : (n_plat_irqs id handler : ℕ) → Plic → Option Plic
register_irq_handler n_plat_irqs id handler s =
    if not (id == 0) && not (handler == 0)
    then (if ltb id n_plat_irqs
        then some (record s { irq_handler = λ i. if i == id then handler else s.irq_handler i })
        else none)
    else some s

-- The loop of `plic_driver_setup` over the interrupts from 1 to `n`
pub setup_irqs : ℕ → ℕ → Plic → Plic
unfolding int_dis set_priority
setup_irqs core_id zero s = s
setup_irqs core_id (suc n) s =
    (set_priority (suc n) 1 (int_dis core_id (suc n) (setup_irqs core_id n s)).1).1

-- The loop of `plic_driver_setup_pcpu`, which takes the interrupts that are pending: `claim n` is what the
-- claim register reads the time `n`. The loop takes rounds; the result is how often it read.
pub drain : (ℕ → ℕ) → ℕ → ℕ → ℕ → Plic → Option (ℕ × Plic)
unfolding clr_interrupt
drain claim zero core_id n s = none
drain claim (suc rounds) core_id n s =
    let rest = drain claim rounds core_id (suc n) (clr_interrupt core_id (claim n) s) in
    if claim n == 0 then some (suc n, s) else rest
