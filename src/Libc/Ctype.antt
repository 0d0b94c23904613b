-- ===== src/Libc/Ctype.antt =====
-- The character classes of src/lib/libc/ctype.c, on characters as numbers.
pub mod Classes
use cyancore.Common.{ℕ, ◌+◌, ◌-◌, Bool, ◌&&◌, ◌||◌, not, ltb, leb, ◌==◌, if◌then◌else◌}

unfoldable pub is_whitespace : ℕ → Bool
is_whitespace c = c == b' ' || c == 9

unfoldable pub is_space : ℕ → Bool
unfolding is_whitespace
is_space c = is_whitespace c || c == 12 || c == 10 || c == 13 || c == 11

unfoldable pub is_lowercase : ℕ → Bool
is_lowercase c = leb b'a' c && leb c b'z'

unfoldable pub is_uppercase : ℕ → Bool
is_uppercase c = leb b'A' c && leb c b'Z'

unfoldable pub is_digit : ℕ → Bool
is_digit c = leb b'0' c && leb c b'9'

unfoldable pub is_alpha : ℕ → Bool
unfolding is_lowercase is_uppercase
is_alpha c = is_lowercase c || is_uppercase c

unfoldable pub is_alpha_numeric : ℕ → Bool
unfolding is_alpha is_digit
is_alpha_numeric c = is_alpha c || is_digit c

unfoldable pub is_hex_digit : ℕ → Bool
unfolding is_digit
is_hex_digit c = is_digit c || (leb b'a' c && leb c b'f') || (leb b'A' c && leb c b'F')

unfoldable pub is_graph : ℕ → Bool
is_graph c = ltb b' ' c && ltb c 0x7f

unfoldable pub is_control : ℕ → Bool
is_control c = ltb c b' ' || c == 0x7f

unfoldable pub is_printable : ℕ → Bool
is_printable c = leb 0x20 c && ltb c 0x7f

unfoldable pub is_punct : ℕ → Bool
unfolding is_graph is_alpha_numeric
is_punct c = is_graph c && not (is_alpha_numeric c)

unfoldable pub is_ascii : ℕ → Bool
is_ascii c = ltb c 0x80

unfoldable pub to_lowercase : ℕ → ℕ
unfolding is_uppercase
to_lowercase c = if is_uppercase c then c + (b'a' - b'A') else c

unfoldable pub to_uppercase : ℕ → ℕ
unfolding is_lowercase
to_uppercase c = if is_lowercase c then c - (b'a' - b'A') else c
