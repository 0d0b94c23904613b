-- ===== src/Nmath/Gcd.antt =====
-- gcd computes the greatest common divisor.
use cyancore.Common.{
  ℕ, zero, suc, ◌%◌, ◌<◌, ◌≡◌, refl, some, arith, ◌==◌, ==_iff, Bool-cases, inl, inr,
}
use Prim.Native.Nat.{◌∣◌}
use native.Mathlib.Nat.{dvd_refl, dvd-zero, dvd-mod_iff}
use cyancore.Nmath.{gcd}

-- A common divisor that every common divisor divides.
pub record IsGcd (a b g : ℕ) : Type 0 where
  pub left : g ∣ a
  pub right : g ∣ b
  pub greatest : (d : ℕ) → d ∣ a → d ∣ b → d ∣ g

IsGcd-zero : (a b : ℕ) → b ≡ 0 → IsGcd a b a
IsGcd-zero a b h = record { left = dvd_refl a; right = rw h (dvd-zero a); greatest = λ d da db. da }

IsGcd-step : (a b g : ℕ) → IsGcd b (a % b) g → IsGcd a b g
IsGcd-step a b g h = record {
  left = (dvd-mod_iff g h.left).0 h.right;
  right = h.left;
  greatest = λ d da db. h.greatest d db ((dvd-mod_iff d db).1 da);
}

-- With more rounds than the second number, gcd returns the greatest common divisor.
pub gcd-IsGcd : (f a b : ℕ) → b < f → (g : ℕ) × (gcd f a b ≡ some g) × IsGcd a b g
unfolding gcd
gcd-IsGcd zero a b h = elim h [ ]
gcd-IsGcd (suc f) a b h = elim (Bool-cases (b == 0)) [
  | inl z ↦ (a, rw z refl, IsGcd-zero a b ((==_iff b 0).0 z))
  | inr nz ↦
      let (g, run, h) = gcd-IsGcd f b (a % b) (ground arith) in (g, rw nz run, IsGcd-step a b g h)
]
