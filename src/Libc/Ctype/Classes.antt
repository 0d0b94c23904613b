-- ===== src/Libc/Ctype/Classes.antt =====
-- How the classes of ctype.c partition the characters.
use cyancore.Common.{ℕ, ◌<◌, ◌==◌, ◌≡◌, true, false, ◌&&◌, ◌||◌, arith}
use cyancore.Libc.Ctype.{
  is_whitespace, is_space, is_lowercase, is_uppercase, is_digit, is_alpha, is_alpha_numeric,
  is_graph, is_control, is_printable, is_punct, to_lowercase, to_uppercase,
}

-- The class of a character.
pub record IsClassified (c : ℕ) : Type 0 where
  pub covered : (is_control c || c == b' ' || is_alpha c || is_digit c || is_punct c) ≡ true
  pub control_print : (is_control c && is_printable c) ≡ false
  pub alpha_digit : (is_alpha c && is_digit c) ≡ false
  pub alnum_punct : (is_alpha_numeric c && is_punct c) ≡ false
  pub lower_upper : (is_lowercase c && is_uppercase c) ≡ false
  pub space_graph : (is_space c && is_graph c) ≡ false

-- Every ASCII character is a control character, the blank, a letter, a digit or punctuation; control
-- characters do not print, and no letter is a digit, no letter or digit punctuation, no lower case
-- letter an upper case one, and no space has a shape.
pub ctype-IsClassified : (c : ℕ) → c < 0x80 → IsClassified c
unfolding is_whitespace is_space is_lowercase is_uppercase is_digit is_alpha is_alpha_numeric
    is_graph is_control is_printable is_punct
ctype-IsClassified c h = record {
  covered = ground arith;
  control_print = ground arith;
  alpha_digit = ground arith;
  alnum_punct = ground arith;
  lower_upper = ground arith;
  space_graph = ground arith;
}

-- toLowercase turns an upper case letter into a lower case one, and toUppercase turns that back.
pub to_uppercase-to_lowercase :
    (c : ℕ)
    → is_uppercase c ≡ true
    → (is_lowercase (to_lowercase c) ≡ true) × (to_uppercase (to_lowercase c) ≡ c)
unfolding is_uppercase is_lowercase to_lowercase to_uppercase
to_uppercase-to_lowercase c h = ground arith
