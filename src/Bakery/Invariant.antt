-- ===== src/Bakery/Invariant.antt =====
-- What holds of the cores at the bakery lock at any time.
use cyancore.Common.{ℕ, ◌≤◌, ◌<◌, ◌≡◌, ◌≢◌, ◌⊎◌, Bool, true, false, ltb, ◌==◌, leb}
use cyancore.Bakery.{
  Lock, Pc, idle, scan, drop, wait_protect, read_zero, read_less, read_equal, critical,
}

-- The core has drawn its ticket.
abbrev pub has_ticket : Pc → Bool
has_ticket idle = false
has_ticket (scan i m) = false
has_ticket p = true

abbrev pub is_shielded : Pc → Bool
is_shielded (scan i m) = true
is_shielded drop = true
is_shielded p = false

-- The core has waited for the core `b`.
abbrev pub passed : Pc → ℕ → Bool
passed (wait_protect i) b = ltb b i
passed (read_zero i) b = ltb b i
passed (read_less i) b = ltb b i
passed (read_equal i) b = ltb b i
passed critical b = true
passed p b = false

-- The core has seen that `b` was not drawing a ticket.
abbrev pub seen : Pc → ℕ → Bool
seen (read_zero i) b = leb b i
seen (read_less i) b = leb b i
seen (read_equal i) b = leb b i
seen p b = passed p b

-- The core has seen that the ticket of `b` was not below its own.
abbrev pub not_below : Pc → ℕ → Bool
not_below (read_equal i) b = b == i
not_below p b = false

-- A core that draws a ticket has the ticket `t` of `a` ahead of it, or has taken it into account.
abbrev pub Respects : Pc → ℕ → ℕ → Type 0
Respects (scan i m) a t = (i ≤ a) ⊎ (t ≤ m)
Respects p a t = Unit

abbrev pub HasSmallMax : Pc → Type 0
HasSmallMax (scan i m) = m < 255
HasSmallMax p = Unit

-- The ticket of `a` comes first.
abbrev pub Before : (ℕ → ℕ) → ℕ → ℕ → Type 0
Before count a b = (count a < count b) ⊎ ((count a ≡ count b) × (a < b))

pub record Inv (n : ℕ) (l : Lock) (pc : ℕ → Pc) : Type 0 where
  pub none : (i : ℕ) → has_ticket (pc i) ≡ false → l.thread_count i ≡ 0
  pub some : (i : ℕ) → has_ticket (pc i) ≡ true → 0 < l.thread_count i
  pub shield : (i : ℕ) → is_shielded (pc i) ≡ true → l.protect i ≡ true
  pub small : (i : ℕ) → HasSmallMax (pc i)
  pub respect :
      (a b : ℕ)
      → a < n
      → b < n
      → a ≢ b
      → seen (pc a) b ≡ true
      → Respects (pc b) a (l.thread_count a)
  pub least :
      (a b : ℕ)
      → a < n
      → b < n
      → not_below (pc a) b ≡ true
      → has_ticket (pc b) ≡ true
      → l.thread_count a ≤ l.thread_count b
  pub first :
      (a b : ℕ)
      → a < n
      → b < n
      → a ≢ b
      → passed (pc a) b ≡ true
      → has_ticket (pc b) ≡ true
      → Before l.thread_count a b
