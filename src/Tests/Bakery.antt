-- ===== src/Tests/Bakery.antt =====
-- A core that takes the bakery lock while another one is idle, and an instance of mutual exclusion.
use cyancore.Common.{ℕ, ◌<◌, ◌≢◌, inr, refl, arith}
use cyancore.Bakery.{
  idle, critical, announce, look, publish, unprotect, clear, gone, there, not_less, behind, enter,
  HasRoom, update, Reach, start, next, initial,
}
use cyancore.Bakery.Exclusion.{Reach-exclusive}

abbrev held : ℕ → ℕ
held = update (λ i. 0) 0 1

none_held : HasRoom initial.lock
none_held i = omega arith

one_held : (i : ℕ) → held i < 255
one_held i = ground arith

begun : Reach 2 initial.lock initial.pc
begun = start

-- The core 0 has entered, so the core 1 has not.
Reach-exclusive_example : idle ≢ critical
Reach-exclusive_example =
    let r₁ = next 0 begun (omega arith) none_held announce in
    let r₂ = next 0 r₁ (omega arith) none_held (look (omega arith)) in
    let r₃ = next 0 r₂ (omega arith) none_held (look (omega arith)) in
    let r₄ = next 0 r₃ (omega arith) none_held (publish refl) in
    let r₅ = next 0 r₄ (omega arith) one_held unprotect in
    let r₆ = next 0 r₅ (omega arith) one_held (clear (omega arith) refl) in
    let r₇ = next 0 r₆ (omega arith) one_held (there (λ e. omega (arith, e))) in
    let r₈ = next 0 r₇ (omega arith) one_held (not_less (omega arith)) in
    let r₉ = next 0 r₈ (omega arith) one_held (behind (inr (omega arith))) in
    let r₁₀ = next 0 r₉ (omega arith) one_held (clear (omega arith) refl) in
    let r₁₁ = next 0 r₁₀ (omega arith) one_held (gone refl) in
    let r₁₂ = next 0 r₁₁ (omega arith) one_held (enter refl) in
    Reach-exclusive 0 1 r₁₂ (omega arith) (omega arith) (λ e. omega (arith, e)) refl
