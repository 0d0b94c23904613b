-- ===== src/Bakery/Exclusion.antt =====
-- The bakery lock lets one core in at a time.
use cyancore.Common.{ℕ, ◌<◌, ◌≡◌, ◌≢◌, refl, sym, arith}
use cyancore.Bakery.{Lock, Pc, critical, update, initial, HasRoom, Move, Reach, start, next}
use cyancore.Bakery.Invariant.{Inv, Before}
use cyancore.Bakery.Moves.{
  Move-small, Move-shield, Move-none, Move-some, Move-respect, Move-least, Move-first,
}

initial-Inv : (n : ℕ) → Inv n initial.lock initial.pc
initial-Inv n = record {
  none = λ i h. refl;
  some = λ i h. cc;
  shield = λ i h. cc;
  small = λ i. tt;
  respect = λ a b lt lu ne s. tt;
  least = λ a b lt lu s t. cc;
  first = λ a b lt lu ne s t. cc;
}

Move-Inv :
    {n : ℕ} {l l' : Lock} {pc : ℕ → Pc} {p' : Pc} (c : ℕ)
    → Inv n l pc
    → HasRoom l
    → Move n c l (pc c) l' p'
    → Inv n l' (update pc c p')
Move-Inv c inv room mv = record {
  none = Move-none inv room c mv refl;
  some = Move-some inv room c mv refl;
  shield = Move-shield inv room c mv refl;
  small = Move-small inv room c mv refl;
  respect = Move-respect inv room c mv refl;
  least = Move-least inv room c mv refl;
  first = Move-first inv room c mv refl;
}

pub Reach-Inv : {n : ℕ} {l : Lock} {pc : ℕ → Pc} → Reach n l pc → Inv n l pc
Reach-Inv {n} start = initial-Inv n
Reach-Inv (next c r lt room mv) = Move-Inv c (Reach-Inv r) room mv

not_both : (count : ℕ → ℕ) (a b : ℕ) → Before count a b → ¬ Before count b a
not_both count a b h k = ground arith

-- As long as no core holds the ticket 255, never are two cores between bakerylock_acquire and
-- bakerylock_release, in any interleaving of their accesses.
pub Reach-exclusive :
    {n : ℕ} {l : Lock} {pc : ℕ → Pc} (a b : ℕ)
    → Reach n l pc
    → a < n
    → b < n
    → a ≢ b
    → pc a ≡ critical
    → pc b ≢ critical
Reach-exclusive {l = l} a b r lt lu ne ha hb =
    let inv = Reach-Inv r in
    not_both l.thread_count a b (inv.first a b lt lu ne (rw ha refl) (rw hb refl))
      (inv.first b a lu lt (λ e. ne (sym e)) (rw hb refl) (rw ha refl))
