-- ===== src/Nmath/Log.antt =====
-- clog2 is the logarithm to base 2, rounded up.
use cyancore.Common.{
  ℕ, zero, suc, ◌+◌, ◌-◌, ◌*◌, ◌/◌, ◌%◌, ◌^◌, ◌≤◌, ◌<◌, ◌≡◌, refl, false, some, arith, ltb, ◌==◌,
  Bool-cases, ltb→lt, ap, inl, inr, if◌then◌else◌,
}
use native.Mathlib.Numerals.{unary_clauses}
use cyancore.Nmath.{clog2}

-- The least exponent whose power of two is large enough.
pub record IsLog (n k : ℕ) : Type 0 where
  pub enough : n ≤ 2 ^ k
  pub least : (j : ℕ) → n ≤ 2 ^ j → k ≤ j

-- Half of a number, rounded up.
abbrev half : ℕ → ℕ
half n = if n % 2 == 1 then (n + 1) % 2 ^ 32 / 2 else n / 2

half-double : (n p : ℕ) → n < 2 ^ 32 - 1 → (half n ≤ p → n ≤ p * 2) × (n ≤ p * 2 → half n ≤ p)
half-double n p h = (ground arith, ground arith)

suc_le : {k j : ℕ} → k ≤ j → suc k ≤ suc j
suc_le h = omega arith

-- An exponent that is enough for a number above one is enough for its half, less one.
below : (n k : ℕ) → 1 < n → n < 2 ^ 32 - 1 → IsLog (half n) k → (j : ℕ) → n ≤ 2 ^ j → suc k ≤ j
below n k big w h zero e = ground arith
below n k big w h (suc j) e =
    suc_le (h.least j ((half-double n (2 ^ j) w).1 (simp unary_clauses at e)))

IsLog-suc : (n k : ℕ) → 1 < n → n < 2 ^ 32 - 1 → IsLog (half n) k → IsLog n (suc k)
IsLog-suc n k big w h = record {
  enough = simp unary_clauses ((half-double n (2 ^ k) w).0 h.enough);
  least = below n k big w h;
}

half_lt :
    (n f : ℕ) → 1 < n → n < 2 ^ 32 - 1 → n ≤ 2 ^ suc f → (half n ≤ 2 ^ f) × (half n < 2 ^ 32 - 1)
half_lt n f big w h = ((half-double n (2 ^ f) w).1 (simp unary_clauses at h), ground arith)

small_ltb : (n : ℕ) → n ≤ 1 → ltb 1 n ≡ false
small_ltb n h = ground arith

-- With more rounds than bits, clog2 returns the least exponent whose power of two is not below the
-- number, for every 32-bit number but the highest.
pub clog2-IsLog :
    (f n : ℕ) → n ≤ 2 ^ f → n < 2 ^ 32 - 1 → (k : ℕ) × (clog2 (suc f) n ≡ some k) × IsLog n k
unfolding clog2
clog2-IsLog zero n h w =
    (0, rw (small_ltb n h) refl, record { enough = h; least = λ j e. omega arith })
clog2-IsLog (suc f) n h w = elim (Bool-cases (ltb 1 n)) [
  | inl big ↦
      let b = ltb→lt 1 n big in
      let (m, c) = half_lt n f b w h in
      let (k, run, log) = clog2-IsLog f (half n) m c in
      (suc k, rw (big, run) (ap some (omega arith)), IsLog-suc n k b w log)
  | inr small ↦ (0, rw small refl, record { enough = ground arith; least = λ j e. omega arith })
]
