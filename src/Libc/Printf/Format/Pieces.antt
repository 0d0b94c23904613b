-- ===== src/Libc/Printf/Format/Pieces.antt =====
-- What a format means: a sequence of pieces, with the text that each stands for.
use cyancore.Common.{
  ℕ, zero, suc, ◌+◌, ◌-◌, ◌/◌, ◌%◌, ◌^◌, ◌<◌, ◌≢◌, ◌==◌, Bool, List, [], ◌∷◌, ◌++◌, if◌then◌else◌,
  length, replicate,
}
use cyancore.Common.Int.{ℤ, pos, negsuc, ◌+ℤ◌, InRange, wrap}
use cyancore.Libc.Printf.Format.{Arg, number, string, Out, fputs}

-- A character of the text, a percent sign, and the directives %d, %ld, %0Nd of one digit, %u, %x, %lx, %p,
-- %s and %c
pub data Piece : Type 0 where
  literal : ℕ → Piece
  percent : Piece
  decimal : (long : Bool) → ℤ → Piece
  padded : (n : ℕ) → ℕ → Piece
  unsigned : ℕ → Piece
  hex : (long : Bool) → ℕ → Piece
  pointer : ℕ → Piece
  str : List ℕ → Piece
  char : ℕ → Piece

-- The text is no percent sign, and the numbers are ones of 32 bits.
unfoldable pub IsPiece : Piece → Type 0
IsPiece (literal c) = c ≢ b'%'
IsPiece percent = Unit {0}
IsPiece (decimal long z) = InRange 32 z
IsPiece (padded n z) = (n < 10) × (z < 2 ^ 31)
IsPiece (unsigned n) = n < 2 ^ 32
IsPiece (hex long n) = n < 2 ^ 32
IsPiece (pointer n) = n < 2 ^ 32
IsPiece (str cs) = Unit {0}
IsPiece (char c) = c < 2 ^ 8

unfoldable pub ArePieces : List Piece → Type 0
ArePieces [] = Unit {0}
ArePieces (p ∷ ps) = IsPiece p × ArePieces ps

abbrev pub long_mark : Bool → List ℕ → List ℕ
long_mark long fmt = if long then b'l' ∷ fmt else fmt

-- The format in front of what follows it
unfoldable pub format : Piece → List ℕ → List ℕ
format (literal c) fmt = c ∷ fmt
format percent fmt = b'%' ∷ b'%' ∷ fmt
format (decimal long z) fmt = b'%' ∷ long_mark long (b'd' ∷ fmt)
format (padded n z) fmt = b'%' ∷ b'0' ∷ (b'0' + n) ∷ b'd' ∷ fmt
format (unsigned n) fmt = b'%' ∷ b'u' ∷ fmt
format (hex long n) fmt = b'%' ∷ long_mark long (b'x' ∷ fmt)
format (pointer n) fmt = b'%' ∷ b'p' ∷ fmt
format (str cs) fmt = b'%' ∷ b's' ∷ fmt
format (char c) fmt = b'%' ∷ b'c' ∷ fmt

unfoldable pub argument : Piece → List Arg → List Arg
argument (literal c) args = args
argument percent args = args
argument (decimal long z) args = number z ∷ args
argument (padded n z) args = number (pos z) ∷ args
argument (unsigned n) args = number (pos n) ∷ args
argument (hex long n) args = number (pos n) ∷ args
argument (pointer n) args = number (pos n) ∷ args
argument (str cs) args = string cs ∷ args
argument (char c) args = number (pos c) ∷ args

abbrev pub hex_digits : List ℕ
hex_digits =
    b'0' ∷ b'1' ∷ b'2' ∷ b'3' ∷ b'4' ∷ b'5' ∷ b'6' ∷ b'7' ∷ b'8' ∷ b'9' ∷ b'a' ∷ b'b' ∷ b'c' ∷ b'd'
    ∷ b'e' ∷ b'f' ∷ []

-- The character at a place
unfoldable pub char_at : ℕ → List ℕ → ℕ
char_at n [] = 0
char_at zero (c ∷ cs) = c
char_at (suc n) (c ∷ cs) = char_at n cs

-- The numeral of a number of 32 bits, the highest digit first: the numeral of the quotient by the radix,
-- where it is not zero, and the digit of the remainder.
unfoldable pub numeral_in : (places radix n : ℕ) → List ℕ
numeral_in zero radix n = []
numeral_in (suc places) radix n =
    let high = numeral_in places radix (n / radix) in
    (if n / radix == 0 then [] else high) ++ char_at (n % radix) hex_digits ∷ []

abbrev pub numeral : (radix n : ℕ) → List ℕ
numeral radix n = numeral_in 32 radix n

-- Zeros in front of a numeral fill the width.
abbrev pub zeros : (n : ℕ) → List ℕ → List ℕ
zeros n cs = replicate (n - length cs) b'0' ++ cs

-- The characters that a piece stands for
unfoldable pub meaning : Piece → List ℕ
meaning (literal c) = c ∷ []
meaning percent = b'%' ∷ []
meaning (decimal long (pos n)) = numeral 10 n
meaning (decimal long (negsuc n)) = b'-' ∷ numeral 10 (suc n)
meaning (padded n z) = zeros n (numeral 10 z)
meaning (unsigned n) = numeral 10 n
meaning (hex long n) = numeral 16 n
meaning (pointer n) = b'0' ∷ b'x' ∷ numeral 16 n
meaning (str cs) = cs
meaning (char c) = c ∷ []

-- What a piece adds to the result: its length, less a sign, or for one character what the write returns
unfoldable pub weight : (write : ℕ → ℕ) → Piece → ℤ
weight write (literal c) = pos 1
weight write percent = wrap 32 (pos (write b'%'))
weight write (decimal long (pos n)) = pos (length (numeral 10 n))
weight write (decimal long (negsuc n)) = pos (length (numeral 10 (suc n)))
weight write (padded n z) = pos (length (zeros n (numeral 10 z)))
weight write (unsigned n) = pos (length (numeral 10 n))
weight write (hex long n) = pos (length (numeral 16 n))
weight write (pointer n) = pos (length (b'0' ∷ b'x' ∷ numeral 16 n))
weight write (str cs) = pos (length cs)
weight write (char c) = wrap 32 (pos (write c))

unfoldable pub format_all : List Piece → List ℕ → List ℕ
format_all [] fmt = fmt
format_all (p ∷ ps) fmt = format p (format_all ps fmt)

unfoldable pub arguments : List Piece → List Arg
arguments [] = []
arguments (p ∷ ps) = argument p (arguments ps)

-- The sums and the output go from the left, as in the loop.
unfoldable pub weights : (write : ℕ → ℕ) → ℤ → List Piece → ℤ
weights write ret [] = ret
weights write ret (p ∷ ps) = weights write (ret +ℤ weight write p) ps

unfoldable pub meanings : (en_stdout : Bool) (dev : ℕ) → Out → List Piece → Out
meanings en_stdout dev out [] = out
meanings en_stdout dev out (p ∷ ps) =
    meanings en_stdout dev (out ++ fputs en_stdout dev (meaning p)) ps
