-- ===== src/Bakery/Moves.antt =====
-- A move of one core keeps the invariant of the bakery lock, field by field.
use cyancore.Common.{ℕ, ◌≤◌, ◌<◌, ◌≡◌, ◌≢◌, ◌⊎◌, true, false, arith}
use cyancore.Bakery.{
  Lock, Pc, update, HasRoom, Move, announce, look, publish, clear, gone, there, not_less, behind,
  enter,
}
use cyancore.Bakery.Invariant.{
  Inv, has_ticket, is_shielded, passed, seen, not_below, Respects, HasSmallMax, Before,
}

-- The premise of a move, which a catch-all clause cannot name.
abbrev Guard : {n c : ℕ} {l l' : Lock} {p p' : Pc} → Move n c l p l' p' → Type 0
Guard {n} (look {i} h) = i < n
Guard {n} (publish {i} h) = i ≡ n
Guard {n} {l = l} (clear {i} h o) = (i < n) × (l.protect i ≡ false)
Guard {l = l} (gone {i} h) = l.thread_count i ≡ 0
Guard {l = l} (there {i} h) = l.thread_count i ≢ 0
Guard {c = c} {l = l} (not_less {i} h) = l.thread_count c ≤ l.thread_count i
Guard {c = c} {l = l} (behind {i} h) = (l.thread_count i ≢ l.thread_count c) ⊎ (c ≤ i)
Guard {n} (enter {i} h) = i ≡ n
Guard _ = Unit

guard : {n c : ℕ} {l l' : Lock} {p p' : Pc} (mv : Move n c l p l' p') → Guard mv
guard (look h) = h
guard (publish h) = h
guard (clear h o) = (h, o)
guard (gone h) = h
guard (there h) = h
guard (not_less h) = h
guard (behind h) = h
guard (enter h) = h
guard _ = tt

module _ {n : ℕ} {l : Lock} {pc : ℕ → Pc} (inv : Inv n l pc) (room : HasRoom l) (c : ℕ) where
  pub Move-small :
      {p p' : Pc} {l' : Lock}
      → Move n c l p l' p'
      → pc c ≡ p
      → (i : ℕ) → HasSmallMax (update pc c p' i)
  Move-small (look {i = k} h) e i = ground (arith, inv.small i, inv.small c, room k)
  Move-small mv e i = ground (arith, inv.small i)

  pub Move-shield :
      {p p' : Pc} {l' : Lock}
      → Move n c l p l' p'
      → pc c ≡ p
      → (i : ℕ) → is_shielded (update pc c p' i) ≡ true
      → l'.protect i ≡ true
  Move-shield announce e i h = ground (arith, inv.shield i)
  Move-shield mv e i h = ground (arith, inv.shield i)

  pub Move-none :
      {p p' : Pc} {l' : Lock}
      → Move n c l p l' p'
      → pc c ≡ p
      → (i : ℕ) → has_ticket (update pc c p' i) ≡ false
      → l'.thread_count i ≡ 0
  Move-none announce e i h = ground (arith, inv.none i)
  Move-none mv e i h = ground (arith, inv.none i)

  pub Move-some :
      {p p' : Pc} {l' : Lock}
      → Move n c l p l' p'
      → pc c ≡ p
      → (i : ℕ) → has_ticket (update pc c p' i) ≡ true
      → 0 < l'.thread_count i
  Move-some announce e i h = ground (arith, inv.some i, inv.small c)
  Move-some mv e i h = ground (arith, inv.some i, inv.small c)

  pub Move-respect :
      {p p' : Pc} {l' : Lock}
      → Move n c l p l' p'
      → pc c ≡ p
      → (a b : ℕ) → a < n
      → b < n
      → a ≢ b
      → seen (update pc c p' a) b ≡ true
      → Respects (update pc c p' b) a (l'.thread_count a)
  Move-respect (look {i = k} h) e a b lt lu ne s = ground (arith, inv.respect a b)
  Move-respect mv e a b lt lu ne s = ground (arith, guard mv, inv.respect a b, inv.shield b)

  pub Move-least :
      {p p' : Pc} {l' : Lock}
      → Move n c l p l' p'
      → pc c ≡ p
      → (a b : ℕ) → a < n
      → b < n
      → not_below (update pc c p' a) b ≡ true
      → has_ticket (update pc c p' b) ≡ true
      → l'.thread_count a ≤ l'.thread_count b
  Move-least announce e a b lt lu s t = ground (arith, inv.least a b)
  Move-least mv e a b lt lu s t =
      ground (arith, guard mv, inv.least a b, inv.respect a b, inv.small b)

  pub Move-first :
      {p p' : Pc} {l' : Lock}
      → Move n c l p l' p'
      → pc c ≡ p
      → (a b : ℕ) → a < n
      → b < n
      → a ≢ b
      → passed (update pc c p' a) b ≡ true
      → has_ticket (update pc c p' b) ≡ true
      → Before l'.thread_count a b
  Move-first announce e a b lt lu ne s t = ground (arith, inv.first a b)
  Move-first mv e a b lt lu ne s t =
      ground
        (arith, guard mv, inv.first a b, inv.least a b, inv.respect a b, inv.small b, inv.some b)
