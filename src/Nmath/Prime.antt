-- ===== src/Nmath/Prime.antt =====
-- What isPrime answers for the primes beyond three.
use cyancore.Common.{ℕ, ◌%◌, ◌<◌, ◌≡◌, ◌⊎◌, inl, inr, false, ◌==◌, some, arith, Bool-cases}
use Prim.Native.Nat.{◌∣◌}
use native.Mathlib.Nat.{dvd_of_mod-eq-zero}
use cyancore.Nmath.{is_prime}

abbrev pub IsPrime : ℕ → Type 0
IsPrime p = (1 < p) × ((d : ℕ) → d ∣ p → (d ≡ 1) ⊎ (d ≡ p))

odd : (p : ℕ) → 3 < p → IsPrime p → (p % 2 == 0) ≡ false
odd p big (gt, only) = elim (Bool-cases (p % 2 == 0)) [
  | inl even ↦ elim (only 2 (dvd_of_mod-eq-zero 2 (ground arith))) [
    | inl one ↦ ground arith
    | inr two ↦ ground arith
  ]
  | inr h ↦ h
]

-- isPrime answers no for every prime beyond three.
pub is_prime-IsPrime : (rounds p : ℕ) → 3 < p → IsPrime p → is_prime rounds p ≡ some false
unfolding is_prime
is_prime-IsPrime rounds p big prime = rw (odd p big prime) (ground arith)
