-- ===== src/Nmath.antt =====
-- The integer functions of src/lib/libnmath/arithmetic/arithmetic.c, with a 32-bit `long` and no
-- signed overflow. A loop and a recursion take rounds, and return nothing when these are used up.
pub mod Gcd
pub mod Log
pub mod Prime
pub mod Inverse
use cyancore.Common.{
  ℕ, zero, suc, ◌+◌, ◌*◌, ◌/◌, ◌%◌, ◌^◌, Bool, true, false, ◌||◌, not, Option, none, some, List,
  get_elem?, ltb, leb, ◌==◌, if◌then◌else◌,
}
use cyancore.Common.Int.{ℤ, pos, negsuc, pos_part, neg_part, sub_ℕ, ltb_ℤ, ◌+ℤ◌, ◌-ℤ◌, ◌*ℤ◌}

abbrev pub suc_option : Option ℕ → Option ℕ
suc_option none = none
suc_option (some k) = some (1 + k)

unfoldable pub clog2 : ℕ → ℕ → Option ℕ
clog2 zero num = none
clog2 (suc f) num =
    let rest = clog2 f (if num % 2 == 1 then (num + 1) % 2 ^ 32 / 2 else num / 2) in
    if ltb 1 num then suc_option rest else some 0

unfoldable pub gcd : ℕ → ℕ → ℕ → Option ℕ
gcd zero a b = none
gcd (suc f) a b = let rest = gcd f b (a % b) in if b == 0 then some a else rest

-- C's division of signed numbers, which rounds to zero, and its remainder.
abbrev pub opposite : ℕ → ℤ
opposite n = sub_ℕ 0 n

abbrev pub magnitude : ℤ → ℕ
magnitude z = pos_part z + neg_part z

unfoldable pub quotient : ℤ → ℤ → ℤ
quotient (pos a) (pos b) = pos (a / b)
quotient (pos a) (negsuc b) = opposite (a / suc b)
quotient (negsuc a) (pos b) = opposite (suc a / b)
quotient (negsuc a) (negsuc b) = pos (suc a / suc b)

unfoldable pub remainder : ℤ → ℤ → ℤ
remainder (pos a) b = pos (a % magnitude b)
remainder (negsuc a) b = opposite (suc a % magnitude b)

unfoldable pub modulus : ℤ → ℤ → ℤ
unfolding remainder
modulus a b = let ret = remainder a b in if ltb_ℤ ret (pos 0) then b +ℤ ret else ret

-- The loop of `multiplicative_inverse`.
unfoldable pub inverse_loop : ℕ → ℤ → ℤ → ℤ → ℤ → Option ℤ
unfolding quotient remainder
inverse_loop zero t1 t2 base subject = none
inverse_loop (suc f) t1 t2 base subject =
    let rest =
      inverse_loop f t2 (t1 -ℤ quotient base subject *ℤ t2) subject (remainder base subject) in
    if magnitude subject == 0 then some (modulus t1 base) else rest

unfoldable pub multiplicative_inverse : ℕ → ℤ → ℤ → Option ℤ
multiplicative_inverse rounds base subject = inverse_loop rounds (pos 0) (pos 1) base subject

unfoldable pub abs : ℤ → ℤ
abs x = if ltb_ℤ x (pos 0) then pos 0 -ℤ x else x

-- The loop of `isPrime`.
unfoldable pub prime_loop : ℕ → ℕ → ℕ → Option Bool
prime_loop zero x i = none
prime_loop (suc f) x i =
    let rest = prime_loop f x (i + 2) in
    if leb (i * i) x then (if x % i == 0 then some false else rest) else some true

-- For a number that is not negative.
unfoldable pub is_prime : ℕ → ℕ → Option Bool
is_prime rounds x =
    if ltb x 2
    then some false
    else if leb x 3
    then some true
    else if not (x % 2 == 0) || not (x % 3 == 0)
    then some false
    else prime_loop rounds x 5
