-- ===== src/Libc/Strings/Length.antt =====
-- strlen and strnlen measure strings.
use cyancore.Common.{
  ℕ, zero, suc, ◌+◌, ◌≡◌, ◌≢◌, refl, true, false, ◌==◌, some, List, [], ◌∷◌, length, arith,
  if◌then◌else◌, ltb,
}
use cyancore.Libc.String.{Memory, strlen, strnlen}
use cyancore.Libc.Strings.{IsString}

zero_test : (m : Memory) (i : ℕ) → m i ≡ 0 → (m i == 0) ≡ true
zero_test m i h = ground arith

char_test : (m : Memory) (i x : ℕ) → m i ≡ x → x ≢ 0 → (m i == 0) ≡ false
char_test m i x h ne = ground arith

-- strlen returns the length of the string, in one round more than it has characters.
pub strlen-length :
    (m : Memory) (i : ℕ) (xs : List ℕ)
    → IsString m i xs
    → strlen (suc (length xs)) i m ≡ some (length xs)
unfolding strlen
strlen-length m i [] h = rw (zero_test m i h) refl
strlen-length m i (x ∷ xs) (e, ne, h) = rw (char_test m i x e ne, strlen-length m (i + 1) xs h) refl

-- strnlen returns the length of the string or its limit, whichever is less.
pub strnlen-length :
    (m : Memory) (i size : ℕ) (xs : List ℕ)
    → IsString m i xs
    → strnlen i size m ≡ (if ltb (length xs) size then length xs else size)
unfolding strnlen
strnlen-length m i zero xs h = ground arith
strnlen-length m i (suc size) [] h = rw (zero_test m i h) (ground arith)
strnlen-length m i (suc size) (x ∷ xs) (e, ne, h) =
    rw (char_test m i x e ne, strnlen-length m (i + 1) size xs h) (ground arith)
