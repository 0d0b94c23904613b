-- ===== src/Tests/Print.antt =====
-- Runs of vprintf and instances of its theorems.
use cyancore.Common.{ℕ, ◌≡◌, refl, true, false, Option, some, List, [], ◌∷◌, arith}
use cyancore.Common.Int.{negsuc}
use cyancore.Libc.Printf.Format.{takes_arg, vprintf}
use cyancore.Libc.Printf.Format.Pieces.{
  Piece, literal, percent, decimal, padded, hex, str, char, IsPiece, ArePieces, format_all,
  arguments, meanings, meaning, numeral_in, char_at, format,
}
use cyancore.Libc.Printf.Format.Printed.{vprintf-invalid}

-- Every device writes and returns 0.
abbrev files : ℕ → Option (ℕ → ℕ)
files dev = some (λ c. 0)

-- "a=%ld, %02d %x%%\n%s"
abbrev pieces : List Piece
pieces =
    literal b'a'
    ∷ literal b'='
    ∷ decimal true (negsuc 41)
    ∷ literal b' '
    ∷ padded 2 7
    ∷ hex false 255
    ∷ percent
    ∷ literal b'\n'
    ∷ str (b'o' ∷ b'k' ∷ [])
    ∷ char b'!'
    ∷ []

pieces-ArePieces : ArePieces pieces
unfolding ArePieces IsPiece
pieces-ArePieces = (
  (λ e. omega (arith, e)),
  (
    (λ e. omega (arith, e)),
    (
      omega arith,
      (
        (λ e. omega (arith, e)),
        (
          (omega arith, omega arith),
          (omega arith, (tt, ((λ e. omega (arith, e)), (tt, (omega arith, tt))))),
        ),
      ),
    ),
  ),
)

text_of_pieces :
    format_all pieces []
    ≡ b'a' ∷ b'=' ∷ b'%' ∷ b'l' ∷ b'd' ∷ b' ' ∷ b'%' ∷ b'0' ∷ b'2' ∷ b'd' ∷ b'%' ∷ b'x' ∷ b'%'
      ∷ b'%' ∷ b'\n' ∷ b'%' ∷ b's' ∷ b'%' ∷ b'c' ∷ []
unfolding format_all format
text_of_pieces = refl

-- -42, 07 and ff
texts_of_numbers :
    (meaning (decimal true (negsuc 41)) ≡ b'-' ∷ b'4' ∷ b'2' ∷ [])
    × (meaning (padded 2 7) ≡ b'0' ∷ b'7' ∷ [])
    × (meaning (hex false 255) ≡ b'f' ∷ b'f' ∷ [])
unfolding meaning numeral_in char_at
texts_of_numbers = (refl, refl, refl)

-- A width of more than one digit that starts with another digit than 0 is no directive.
vprintf-invalid_example :
    vprintf files 1 true (format_all pieces (b'%' ∷ b'5' ∷ b'd' ∷ [])) (arguments pieces)
    ≡ some (negsuc 0, meanings true 1 [] pieces)
unfolding takes_arg
vprintf-invalid_example =
    vprintf-invalid files 1 true pieces b'5' (b'd' ∷ []) pieces-ArePieces refl
      (λ e. omega (arith, e)) (λ e. omega (arith, e)) (λ e. omega (arith, e))
      (λ e. omega (arith, e)) (λ e. omega (arith, e)) (λ e. omega (arith, e))
