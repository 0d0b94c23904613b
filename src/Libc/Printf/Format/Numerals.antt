-- ===== src/Libc/Printf/Format/Numerals.antt =====
-- The printing of numbers gives their numerals.
use cyancore.Common.{
  ℕ, zero, suc, ◌-◌, ◌/◌, ◌%◌, ◌<◌, ◌≡◌, refl, sym, ap, ◌∙◌, true, false, inl, inr, Bool-cases,
  List, [], ◌∷◌, ◌++◌, ltb, ◌==◌, length, replicate, arith,
}
use cyancore.Common.Int.{ℤ, pos, negsuc, pos_part, wrap}
use mathlib.Core.List.{reverse, reverse-append}
use cyancore.Hal.Bits.{all_below, equal_below}
use cyancore.Libc.Printf.{digit_char, fill, max_digits, unumprint, print_d}
use cyancore.Libc.Printf.Format.Pieces.{
  Piece, literal, percent, decimal, padded, unsigned, hex, pointer, str, char, hex_digits, char_at,
  numeral_in, numeral, zeros, meaning, weight,
}

digit_char-char_at : (d : ℕ) → d < 16 → digit_char d ≡ char_at d hex_digits
unfolding all_below digit_char char_at
digit_char-char_at d h =
    equal_below 16 1 (λ a c. digit_char a) (λ a c. char_at a hex_digits) refl d 0 h (omega arith)

-- The buffer holds the numeral from its end.
reverse-fill :
    (places radix n : ℕ)
    → ((v : ℕ) → v % radix < 16)
    → reverse (fill places n radix) ≡ numeral_in places radix n
unfolding fill numeral_in
reverse-fill zero radix n h = refl
reverse-fill (suc places) radix n h = elim (Bool-cases (n / radix == 0)) [
  | inl last ↦
      let none_ : ltb 0 (n / radix) ≡ false = ground (arith, last) in
      rw (last, none_) (ap (λ c. c ∷ []) (digit_char-char_at (n % radix) (h n)))
  | inr more ↦
      let some_ : ltb 0 (n / radix) ≡ true = ground (arith, more) in
      rw
        (
          more,
          some_,
          reverse-append (digit_char (n % radix) ∷ []) (fill places (n / radix) radix),
          reverse-fill places radix (n / radix) h,
          digit_char-char_at (n % radix) (h n),
        )
        refl
]

unumprint-numeral :
    (radix n padc : ℕ) (w : ℤ)
    → ((v : ℕ) → v % radix < 16)
    → pos_part w ≡ 0
    → unumprint n radix padc w ≡ numeral radix n
unfolding unumprint
unumprint-numeral radix n padc w h e =
    let buf = fill max_digits n radix in
    let no_pad : pos_part w - length buf ≡ 0 = omega (arith, e) in
    ap (λ k. replicate k padc ++ reverse buf) no_pad ∙ reverse-fill 32 radix n h

length_snoc : (c : ℕ) (xs : List ℕ) → length (xs ++ c ∷ []) ≡ suc (length xs)
length_snoc c [] = refl
length_snoc c (x ∷ xs) = ap suc (length_snoc c xs)

length-fill :
    (places radix n : ℕ) → length (fill places n radix) ≡ length (numeral_in places radix n)
unfolding fill numeral_in
length-fill zero radix n = refl
length-fill (suc places) radix n = elim (Bool-cases (n / radix == 0)) [
  | inl last ↦ let none_ : ltb 0 (n / radix) ≡ false = ground (arith, last) in rw (last, none_) refl
  | inr more ↦
      let some_ : ltb 0 (n / radix) ≡ true = ground (arith, more) in
      rw (more, some_)
        (ap suc (length-fill places radix (n / radix))
          ∙ sym
              (length_snoc (char_at (n % radix) hex_digits) (numeral_in places radix (n / radix))))
]

unumprint-zeros : (n z : ℕ) → unumprint z 10 b'0' (pos n) ≡ zeros n (numeral 10 z)
unfolding unumprint
unumprint-zeros n z =
    ap (λ l. replicate (n - l) b'0' ++ reverse (fill max_digits z 10)) (length-fill 32 10 z)
    ∙ ap (λ cs. replicate (n - length (numeral 10 z)) b'0' ++ cs)
        (reverse-fill 32 10 z (λ v. omega arith))

-- What the code prints for a piece, by its own printing of numbers
unfoldable pub printed : Piece → List ℕ
printed (literal c) = c ∷ []
printed percent = b'%' ∷ []
printed (decimal long z) = print_d z
printed (padded n z) = unumprint z 10 b'0' (pos n)
printed (unsigned n) = print_d (pos n)
printed (hex long n) = unumprint n 16 0 (pos 0)
printed (pointer n) = b'0' ∷ b'x' ∷ unumprint n 16 0 (pos 0)
printed (str cs) = cs
printed (char c) = c ∷ []

-- What the code adds to its result
unfoldable pub counted : (write : ℕ → ℕ) → Piece → ℤ
counted write (literal c) = pos 1
counted write percent = wrap 32 (pos (write b'%'))
counted write (decimal long (pos n)) = pos (length (unumprint n 10 0 (pos 0)))
counted write (decimal long (negsuc n)) = pos (length (unumprint (suc n) 10 0 (pos 0)))
counted write (padded n z) = pos (length (unumprint z 10 b'0' (pos n)))
counted write (unsigned n) = pos (length (unumprint n 10 0 (pos 0)))
counted write (hex long n) = pos (length (unumprint n 16 0 (pos 0)))
counted write (pointer n) = pos (length (b'0' ∷ b'x' ∷ unumprint n 16 0 (pos 0)))
counted write (str cs) = pos (length cs)
counted write (char c) = wrap 32 (pos (write c))

decimal-numeral : (n : ℕ) (w : ℤ) → pos_part w ≡ 0 → unumprint n 10 0 w ≡ numeral 10 n
decimal-numeral n w e = unumprint-numeral 10 n 0 w (λ v. omega arith) e

hex-numeral : (n : ℕ) → unumprint n 16 0 (pos 0) ≡ numeral 16 n
hex-numeral n = unumprint-numeral 16 n 0 (pos 0) (λ v. omega arith) refl

pub printed-meaning : (p : Piece) → printed p ≡ meaning p
unfolding printed meaning print_d
printed-meaning (literal c) = refl
printed-meaning percent = refl
printed-meaning (decimal long (pos n)) = decimal-numeral n (pos 0) refl
printed-meaning (decimal long (negsuc n)) =
    ap (λ d. b'-' ∷ d) (decimal-numeral (suc n) (negsuc 0) refl)
printed-meaning (padded n z) = unumprint-zeros n z
printed-meaning (unsigned n) = decimal-numeral n (pos 0) refl
printed-meaning (hex long n) = hex-numeral n
printed-meaning (pointer n) = ap (λ d. b'0' ∷ b'x' ∷ d) (hex-numeral n)
printed-meaning (str cs) = refl
printed-meaning (char c) = refl

pub counted-weight : (write : ℕ → ℕ) (p : Piece) → counted write p ≡ weight write p
unfolding counted weight
counted-weight write (literal c) = refl
counted-weight write percent = refl
counted-weight write (decimal long (pos n)) =
    ap (λ d. pos (length d)) (decimal-numeral n (pos 0) refl)
counted-weight write (decimal long (negsuc n)) =
    ap (λ d. pos (length d)) (decimal-numeral (suc n) (pos 0) refl)
counted-weight write (padded n z) = ap (λ d. pos (length d)) (unumprint-zeros n z)
counted-weight write (unsigned n) = ap (λ d. pos (length d)) (decimal-numeral n (pos 0) refl)
counted-weight write (hex long n) = ap (λ d. pos (length d)) (hex-numeral n)
counted-weight write (pointer n) = ap (λ d. pos (length (b'0' ∷ b'x' ∷ d))) (hex-numeral n)
counted-weight write (str cs) = refl
counted-weight write (char c) = refl
