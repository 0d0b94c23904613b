-- ===== src/Tests/Text.antt =====
-- Runs of ctype.c, printf.c, strton.c and string.c, and instances of their theorems.
use cyancore.Common.{◌==◌, ◌+◌, ◌≡◌, refl, true, [], ◌∷◌, arith, if◌then◌else◌, ltb}
use cyancore.Common.Int.{pos, negsuc}
use cyancore.Libc.Ctype.{is_space, is_digit, is_uppercase}
use cyancore.Libc.Strton.{atol, set_negative_flag, trail_whitespace, integer_traverse}
use cyancore.Libc.Printf.{print_d, unumprint}
use cyancore.Libc.Printf.RoundTrip.{atol-print_d}
use cyancore.Libc.String.{Memory, memmove, memcpy}
use cyancore.Libc.Strings.{IsString}
use cyancore.Libc.String.Copy.{IsCopied, memmove-IsCopied}

printed : print_d (negsuc 1206) ≡ b'-' ∷ b'1' ∷ b'2' ∷ b'0' ∷ b'7' ∷ []
unfolding print_d
printed = refl

printed_hex : unumprint 0x2f 16 b'0' (pos 4) ≡ b'0' ∷ b'0' ∷ b'2' ∷ b'f' ∷ []
unfolding unumprint
printed_hex = refl

read_number : atol (b' ' ∷ b'+' ∷ b'4' ∷ b'2' ∷ b'x' ∷ []) ≡ pos 42
unfolding atol set_negative_flag trail_whitespace is_space integer_traverse is_digit
read_number = refl

atol-print_d_example : atol (print_d (negsuc 1206)) ≡ negsuc 1206
atol-print_d_example = atol-print_d (negsuc 1206) (omega arith)

upper : is_uppercase b'Q' ≡ true
unfolding is_uppercase
upper = refl

-- Eight bytes that differ.
abbrev bytes : Memory
bytes a = if ltb a 8 then a + 1 else 0

memmove-IsCopied_example :
    ((memmove 2 0 5 bytes).0 ≡ 2) × IsCopied 2 0 5 bytes (memmove 2 0 5 bytes).1
memmove-IsCopied_example = memmove-IsCopied 2 0 5 bytes (omega arith) (omega arith)

-- memcpy returns the end of the copy, not its start.
copied : (memcpy 4 0 3 bytes).0 ≡ 7
unfolding memcpy
copied = refl

-- The string "ab" at 10, and zero elsewhere.
abbrev ab : Memory
ab a = if a == 10 then b'a' else (if a == 11 then b'b' else 0)

ab-IsString : IsString ab 10 (b'a' ∷ b'b' ∷ [])
ab-IsString = (refl, ground arith, (refl, ground arith, refl))
