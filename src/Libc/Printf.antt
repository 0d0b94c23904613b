-- ===== src/Libc/Printf.antt =====
-- The number printing of src/lib/libc/printf.c. What a call prints is the list of characters that it
-- hands to `__fputc`.
pub mod RoundTrip
pub mod Format
use cyancore.Common.{
  ℕ, zero, suc, ◌+◌, ◌-◌, ◌/◌, ◌%◌, List, [], ◌∷◌, ◌++◌, ltb, if◌then◌else◌, length, replicate,
}
use cyancore.Common.Int.{ℤ, pos, negsuc, pos_part}
use mathlib.Core.List.{reverse}

unfoldable pub digit_char : ℕ → ℕ
digit_char rem = if ltb rem 0xa then b'0' + rem else b'a' + (rem - 0xa)

-- The do-while loop that fills `buf`, the lowest digit first. A 32-bit number has at most 32 digits.
unfoldable pub fill : ℕ → ℕ → ℕ → List ℕ
fill zero unum radix = []
fill (suc f) unum radix =
    let rest = fill f (unum / radix) radix in
    digit_char (unum % radix) ∷ (if ltb 0 (unum / radix) then rest else [])

abbrev pub max_digits : ℕ
max_digits = 32

-- The padding loop lowers `padn` to the number of digits; the result is the number of characters.
unfoldable pub unumprint : ℕ → ℕ → ℕ → ℤ → List ℕ
unfolding fill digit_char
unumprint unum radix padc padn =
    let buf = fill max_digits unum radix in
    replicate (pos_part padn - length buf) padc ++ reverse buf

-- The case of `%d` and `%i` in `vprintf`, without a width
unfoldable pub print_d : ℤ → List ℕ
unfolding unumprint
print_d (pos n) = unumprint n 10 0 (pos 0)
print_d (negsuc n) = b'-' ∷ unumprint (suc n) 10 0 (negsuc 0)
