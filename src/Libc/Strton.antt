-- ===== src/Libc/Strton.antt =====
-- `atol` and `atoi` of src/lib/libc/strton.c. A string is the list of its characters before the
-- terminator, and a `long` is a 32-bit pattern.
use cyancore.Common.{
  ℕ, ◌+◌, ◌-◌, ◌*◌, ◌%◌, ◌^◌, Bool, false, ◌&&◌, ◌||◌, not, List, [], ◌∷◌, ltb, ◌==◌, if◌then◌else◌,
}
use cyancore.Common.Int.{ℤ, pos, negsuc, sub_ℕ, pos_part, neg_part}
use cyancore.Libc.Ctype.{is_space, is_digit}

unfoldable pub is_sign : ℕ → Bool
is_sign c = c == b'-' || c == b'+'

unfoldable pub trail_whitespace : List ℕ → List ℕ
trail_whitespace [] = []
trail_whitespace (c ∷ s) = if is_space c then trail_whitespace s else c ∷ s

-- The rest of the string and the flag.
unfoldable pub set_negative_flag : List ℕ → List ℕ × Bool
unfolding is_sign
set_negative_flag [] = ([], false)
set_negative_flag (c ∷ s) = if is_sign c then (s, c == b'-') else (c ∷ s, false)

-- The loop of `integer_traverse`, from the value so far.
unfoldable pub integer_traverse : ℕ → List ℕ → ℕ
integer_traverse a [] = a
integer_traverse a (c ∷ s) =
    let rest = integer_traverse ((a * 10 + (c - b'0')) % 2 ^ 32) s in
    if not (c == b'.') && (not (is_space c) && is_digit c) then rest else a

-- The number that a 32-bit pattern stands for.
abbrev pub signed32 : ℕ → ℤ
signed32 w = if ltb w (2 ^ 31) then pos w else negsuc (2 ^ 32 - w - 1)

abbrev pub negate : ℤ → ℤ
negate z = sub_ℕ (neg_part z) (pos_part z)

unfoldable pub atol : List ℕ → ℤ
atol s =
    let (digits, negative) = set_negative_flag (trail_whitespace s) in
    let a = integer_traverse 0 digits in
    if negative && not (a == 0) then negate (signed32 a) else signed32 a

-- `int` and `long` have the same width.
unfoldable pub atoi : List ℕ → ℤ
atoi s = atol s
