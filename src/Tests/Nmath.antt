-- ===== src/Tests/Nmath.antt =====
-- Runs of the functions of arithmetic.c, and instances of their theorems.
use cyancore.Common.{ℕ, zero, ◌-◌, ◌%◌, suc, ◌^◌, ◌≤◌, ◌≡◌, ◌⊎◌, inl, inr, refl, some, arith}
use cyancore.Common.Int.{pos, negsuc, ◌+ℤ◌, ◌-ℤ◌}
use Prim.Native.Nat.{◌∣◌}
use native.Mathlib.Nat.{mod-eq-zero_of_dvd, le_of_dvd}
use cyancore.Nmath.{clog2, gcd, modulus, abs}
use cyancore.Nmath.Gcd.{IsGcd, gcd-IsGcd}
use cyancore.Nmath.Prime.{IsPrime}

gcd_run : gcd 13 18 12 ≡ some 6
unfolding gcd
gcd_run = refl

-- The highest number is rounded to zero and gets the logarithm one.
clog2_highest : clog2 33 (2 ^ 32 - 1) ≡ some 1
unfolding clog2
clog2_highest = refl

modulus_run : modulus (negsuc 6) (pos 5) ≡ pos 3
unfolding modulus ◌+ℤ◌
modulus_run = refl

abs_run : abs (negsuc 6) ≡ pos 7
unfolding abs ◌-ℤ◌
abs_run = refl

gcd-IsGcd_example : (g : ℕ) × (gcd 13 18 12 ≡ some g) × IsGcd 18 12 g
gcd-IsGcd_example = gcd-IsGcd 13 18 12 (omega arith)

five_mod : (d : ℕ) → d ≤ 5 → 5 % d ≡ 0 → (d ≡ 1) ⊎ (d ≡ 5)
five_mod zero le h = ground arith
five_mod (suc zero) le h = inl refl
five_mod (suc (suc zero)) le h = ground arith
five_mod (suc (suc (suc zero))) le h = ground arith
five_mod (suc (suc (suc (suc zero)))) le h = ground arith
five_mod (suc (suc (suc (suc (suc zero))))) le h = inr refl
five_mod (suc (suc (suc (suc (suc (suc d)))))) le h = ground arith

five_dvd : (d : ℕ) → d ∣ 5 → (d ≡ 1) ⊎ (d ≡ 5)
five_dvd d h = five_mod d (le_of_dvd (omega arith) h) (mod-eq-zero_of_dvd d h)

five-IsPrime : IsPrime 5
five-IsPrime = (omega arith, five_dvd)

-- 4 is the inverse of 2 modulo 7.
coprime : gcd 9 7 2 ≡ some 1
unfolding gcd
coprime = refl
