-- ===== src/Libc/Printf/RoundTrip.antt =====
-- What printf.c prints, strton.c reads back.
use cyancore.Common.{
  ℕ, zero, suc, ◌+◌, ◌-◌, ◌*◌, ◌/◌, ◌%◌, ◌^◌, ◌≤◌, ◌<◌, ◌≡◌, refl, true, false, ◌&&◌, not, List, [],
  ◌∷◌, ◌++◌, arith, ltb, ◌==◌, length, inl, inr, Bool-cases, lt→ltb,
}
use cyancore.Common.Int.{ℤ, pos, negsuc, pos_part}
use mathlib.Core.List.{reverse, reverse-append}
use native.Mathlib.Numerals.{unary_clauses}
use cyancore.Libc.Ctype.{is_space, is_digit}
use cyancore.Libc.Strton.{is_sign, trail_whitespace, set_negative_flag, integer_traverse, atol}
use cyancore.Libc.Printf.{digit_char, fill, max_digits, unumprint, print_d}

-- Decimal digits.
abbrev Digits : List ℕ → Type 0
Digits [] = Unit
Digits (c ∷ cs) = (b'0' ≤ c) × (c ≤ b'9') × Digits cs

Digits-append : (xs ys : List ℕ) → Digits xs → Digits ys → Digits (xs ++ ys)
Digits-append [] ys h k = k
Digits-append (x ∷ xs) ys (lo, hi, h) k = (lo, hi, Digits-append xs ys h k)

digit_lem :
    (c : ℕ) → b'0' ≤ c → c ≤ b'9' → (not (c == b'.') && (not (is_space c) && is_digit c)) ≡ true
unfolding is_space is_digit
digit_lem c lo hi = ground arith

integer_traverse-append :
    (a : ℕ) (xs ys : List ℕ)
    → Digits xs
    → integer_traverse a (xs ++ ys) ≡ integer_traverse (integer_traverse a xs) ys
unfolding integer_traverse
integer_traverse-append a [] ys h = refl
integer_traverse-append a (x ∷ xs) ys (lo, hi, h) =
    rw (digit_lem x lo hi) (integer_traverse-append ((a * 10 + (x - b'0')) % 2 ^ 32) xs ys h)

digit_char-decimal : (d : ℕ) → d < 10 → digit_char d ≡ b'0' + d
unfolding digit_char
digit_char-decimal d h = ground arith

reverse-cons : (c : ℕ) (cs : List ℕ) → reverse (c ∷ cs) ≡ reverse cs ++ c ∷ []
reverse-cons c cs = reverse-append (c ∷ []) cs

digit_char-Digits : (u : ℕ) → Digits (digit_char (u % 10) ∷ [])
digit_char-Digits u = rw (digit_char-decimal (u % 10) (omega arith)) (omega arith, omega arith, tt)

-- The digits of a number below ten to the fuel.
fill-Digits : (f u : ℕ) → Digits (reverse (fill f u 10))
unfolding fill
fill-Digits zero u = tt
fill-Digits (suc f) u = elim (Bool-cases (ltb 0 (u / 10))) [
  | inl more ↦
      rw (more, reverse-cons (digit_char (u % 10)) (fill f (u / 10) 10))
        (Digits-append (reverse (fill f (u / 10) 10)) (digit_char (u % 10) ∷ [])
          (fill-Digits f (u / 10)) (digit_char-Digits u))
  | inr last ↦ rw last (digit_char-Digits u)
]

integer_traverse-digit :
    (a u : ℕ) → integer_traverse a (digit_char (u % 10) ∷ []) ≡ (a * 10 + u % 10) % 2 ^ 32
unfolding integer_traverse
integer_traverse-digit a u =
    rw
      (
        digit_char-decimal (u % 10) (omega arith),
        digit_lem (b'0' + u % 10) (omega arith) (omega arith),
      )
      (omega arith)

last-digit : (u : ℕ) → ltb 0 (u / 10) ≡ false → (0 * 10 + u % 10) % 2 ^ 32 ≡ u
last-digit u last = ground arith

below_half : (u p : ℕ) → u < p * 2 → u / 10 < p
below_half u p h = omega arith

half : (f u : ℕ) → u < 2 ^ suc f → u / 10 < 2 ^ f
half f u h = below_half u (2 ^ f) (simp unary_clauses at h)

one-digit : (u : ℕ) → u < 1 → ltb 0 (u / 10) ≡ false
one-digit u h = ground arith

-- Reading the digits back gives the number.
integer_traverse-fill :
    (f u : ℕ) → u < 2 ^ f → u < 2 ^ 32 → integer_traverse 0 (reverse (fill (suc f) u 10)) ≡ u
unfolding fill
integer_traverse-fill zero u h w =
    rw (one-digit u h, integer_traverse-digit 0 u) (last-digit u (one-digit u h))
integer_traverse-fill (suc f) u h w = elim (Bool-cases (ltb 0 (u / 10))) [
  | inl more ↦
      rw
        (
          more,
          reverse-cons (digit_char (u % 10)) (fill (suc f) (u / 10) 10),
          integer_traverse-append 0 (reverse (fill (suc f) (u / 10) 10)) (digit_char (u % 10) ∷ [])
              (fill-Digits (suc f) (u / 10)),
          integer_traverse-fill f (u / 10) (half f u h) (omega arith),
          integer_traverse-digit (u / 10) u,
        )
        (omega arith)
  | inr last ↦ rw (last, integer_traverse-digit 0 u) (last-digit u last)
]

trail_whitespace-Digits : (xs : List ℕ) → Digits xs → trail_whitespace xs ≡ xs
unfolding trail_whitespace is_space
trail_whitespace-Digits [] h = refl
trail_whitespace-Digits (x ∷ xs) (lo, hi, h) = ground arith

set_negative_flag-Digits : (xs : List ℕ) → Digits xs → set_negative_flag xs ≡ (xs, false)
unfolding set_negative_flag is_sign
set_negative_flag-Digits [] h = refl
set_negative_flag-Digits (x ∷ xs) (lo, hi, h) = ground arith

-- A number that an `int` can hold and whose opposite it can hold too.
abbrev pub IsInt : ℤ → Type 0
IsInt (pos n) = n < 2 ^ 31
IsInt (negsuc n) = suc n < 2 ^ 31

atol-Digits :
    (xs : List ℕ) (n : ℕ) → Digits xs → integer_traverse 0 xs ≡ n → n < 2 ^ 31 → atol xs ≡ pos n
unfolding atol
atol-Digits xs n h val w =
    rw (trail_whitespace-Digits xs h, set_negative_flag-Digits xs h, val) (ground arith)

atol-minus :
    (xs : List ℕ) (n : ℕ)
    → integer_traverse 0 xs ≡ suc n
    → suc n < 2 ^ 31
    → atol (b'-' ∷ xs) ≡ negsuc n
unfolding atol trail_whitespace is_space set_negative_flag
atol-minus xs n val w = rw (val, lt→ltb (suc n) (2 ^ 31) w) (ground arith)

no_padding : (m : ℕ) → 0 - m ≡ 0
no_padding m = omega arith

-- Without a width only the digits are printed.
unumprint-reverse :
    (u : ℕ) (padn : ℤ) → pos_part padn ≡ 0 → unumprint u 10 0 padn ≡ reverse (fill max_digits u 10)
unfolding unumprint
unumprint-reverse u padn h = rw (h, no_padding (length (fill max_digits u 10))) refl

-- atol reads back every number that printf's %d prints, except the lowest `int`, whose opposite
-- does not fit.
pub atol-print_d : (z : ℤ) → IsInt z → atol (print_d z) ≡ z
unfolding print_d
atol-print_d (pos n) h = rw (unumprint-reverse n (pos 0) refl) (
    atol-Digits (reverse (fill max_digits n 10)) n (fill-Digits max_digits n)
      (integer_traverse-fill 31 n h (omega arith)) h)
atol-print_d (negsuc n) h = rw (unumprint-reverse (suc n) (negsuc 0) refl) (
    atol-minus (reverse (fill max_digits (suc n) 10)) n
      (integer_traverse-fill 31 (suc n) h (omega arith)) h)
