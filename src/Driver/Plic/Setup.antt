-- ===== src/Driver/Plic/Setup.antt =====
-- What the set-up of src/driver/interrupt/plic/plic.c leaves in the registers.
use cyancore.Common.{
  ℕ, zero, suc, ◌+◌, ◌*◌, ◌/◌, ◌<◌, ◌≡◌, ap, ◌∙◌, arith, ◌==◌, if◌then◌else◌, ne→==, ◌&&◌, ltb, leb,
}
use cyancore.Driver.Plic.{
  Plic, get_priority, set_priority, int_dis, setup_irqs, ipriority_offset, ienable_offset,
}

get_priority-set_priority :
    (i j v : ℕ) (s : Plic)
    → get_priority i (set_priority j v s).1 ≡ (if i == j then v else get_priority i s)
unfolding get_priority set_priority ipriority_offset
get_priority-set_priority i j v s = ground arith

-- The priorities lie below the enable registers.
get_priority-int_dis :
    (i core j : ℕ) (s : Plic) → i < 0x800 → get_priority i (int_dis core j s).1 ≡ get_priority i s
unfolding get_priority int_dis ipriority_offset ienable_offset
get_priority-int_dis i core j s h =
    rw (ne→== (4 * i) (0x2000 + 0x80 * core + 4 * (j / 32)) (λ e. omega (arith, e, h)))

next_irq :
    (i n p : ℕ)
    → (if i == suc n then 1 else (if ltb 0 i && leb i n then 1 else p))
      ≡ (if ltb 0 i && leb i (suc n) then 1 else p)
next_irq i n p = ground arith

-- After the loop of the set-up on a core, each of the `n` interrupts has the priority 1, and the others,
-- below the number 2048, the one that they had.
pub get_priority-setup_irqs :
    (core n : ℕ) (s : Plic) (i : ℕ)
    → i < 0x800
    → get_priority i (setup_irqs core n s) ≡ (if ltb 0 i && leb i n then 1 else get_priority i s)
unfolding setup_irqs
get_priority-setup_irqs core zero s i h = ground arith
get_priority-setup_irqs core (suc n) s i h =
    get_priority-set_priority i (suc n) 1 (int_dis core (suc n) (setup_irqs core n s)).1
    ∙ ap (λ p. if i == suc n then 1 else p)
        (get_priority-int_dis i core (suc n) (setup_irqs core n s) h
          ∙ get_priority-setup_irqs core n s i h)
    ∙ next_irq i n (get_priority i s)
