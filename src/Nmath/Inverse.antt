-- ===== src/Nmath/Inverse.antt =====
-- What multiplicative_inverse returns.
use cyancore.Common.{ℕ, zero, suc, ◌+◌, ◌%◌, ◌≡◌, ap, ◌/◌, ◌==◌, some, arith, Bool-cases, inl, inr}
use cyancore.Common.Int.{ℤ, pos, negsuc, ◌-ℤ◌, ◌*ℤ◌}
use cyancore.Nmath.{gcd, modulus, remainder, inverse_loop, multiplicative_inverse}

modulus-one : (z : ℤ) → modulus z (pos 1) ≡ pos 0
unfolding modulus remainder
modulus-one (pos n) = ground arith
modulus-one (negsuc n) = ground arith

add_zero : (b : ℕ) → b + 0 ≡ b
add_zero b = omega arith

-- The loop follows the recursion of gcd, so it ends where gcd does, at the number one.
inverse_loop-gcd :
    (f : ℕ) (t u : ℤ) (b s : ℕ)
    → gcd f b s ≡ some 1
    → inverse_loop f t u (pos b) (pos s) ≡ some (pos 0)
unfolding inverse_loop gcd
inverse_loop-gcd zero t u b s h = cc
inverse_loop-gcd (suc f) t u b s h = elim (Bool-cases (s == 0)) [
  | inl z ↦ let one : b ≡ 1 = ground arith in rw (add_zero s, z, one) (ap some (modulus-one t))
  | inr nz ↦
      rw (add_zero s, nz) (inverse_loop-gcd f u (t -ℤ pos (b / s) *ℤ u) s (b % s) (rw nz at h))
]

-- Where gcd finds that two numbers are coprime, multiplicative_inverse returns zero, not the
-- inverse: its last step reduces by what is left of the base, which is one.
pub multiplicative_inverse-gcd :
    (f b s : ℕ) → gcd f b s ≡ some 1 → multiplicative_inverse f (pos b) (pos s) ≡ some (pos 0)
unfolding multiplicative_inverse
multiplicative_inverse-gcd f b s h = inverse_loop-gcd f (pos 0) (pos 1) b s h
