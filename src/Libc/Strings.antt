-- ===== src/Libc/Strings.antt =====
-- The functions of src/lib/libc/string.c on strings in memory. A loop that ends at a terminator
-- takes rounds, and returns nothing when these are used up.
pub mod Length
pub mod Equal
pub mod Limited
use cyancore.Common.{
  ℕ, zero, suc, ◌+◌, ◌-◌, ◌%◌, ◌^◌, ◌≡◌, ◌≢◌, Option, none, some, List, [], ◌∷◌, ◌==◌,
  if◌then◌else◌,
}
use cyancore.Common.Int.{ℤ, pos, ◌-ℤ◌}
use cyancore.Libc.String.{Memory, store, byte}

-- The string at an address: its characters, none of them the terminator, and the terminator.
abbrev pub IsString : Memory → ℕ → List ℕ → Type 0
IsString m i [] = m i ≡ 0
IsString m i (x ∷ xs) = (m i ≡ x) × (x ≢ 0) × IsString m (i + 1) xs

unfoldable pub strchr : ℕ → ℕ → ℕ → Memory → Option (Option ℕ)
strchr zero i r m = none
strchr (suc f) i r m =
    let rest = strchr f (i + 1) r m in
    if m i == byte r then some (some i) else (if m i == 0 then some none else rest)

-- The loop of `strchr_rev`, from the result so far.
unfoldable pub last_match : ℕ → ℕ → ℕ → Option ℕ → Memory → Option (Option ℕ)
last_match zero i r ret m = none
last_match (suc f) i r ret m =
    let found = if m i == byte r then some i else ret in
    let rest = last_match f (i + 1) r found m in if m i == 0 then some found else rest

unfoldable pub strchr_rev : ℕ → ℕ → ℕ → Memory → Option (Option ℕ)
strchr_rev rounds i r m = last_match rounds i r none m

unfoldable pub strcmp : ℕ → ℕ → ℕ → Memory → Option ℤ
strcmp zero i j m = none
strcmp (suc f) i j m =
    let rest = strcmp f (i + 1) (j + 1) m in
    if m i == m j then (if m i == 0 then some (pos 0) else rest) else some (pos (m i) -ℤ pos (m j))

unfoldable pub strncmp : ℕ → ℕ → ℕ → Memory → ℤ
strncmp i j zero m = pos 0
strncmp i j (suc n) m =
    let rest = strncmp (i + 1) (j + 1) n m in
    if m i == m j then (if m i == 0 then pos 0 else rest) else pos (m i) -ℤ pos (m j)

-- The loop of `strlcpy`, for the rounds that its limit allows: where the source is left, and the
-- memory with the terminator.
unfoldable pub copy_string : ℕ → ℕ → ℕ → Memory → ℕ × Memory
copy_string zero i j m = (j, store i 0 m)
copy_string (suc k) i j m =
    let rest = copy_string k (i + 1) (j + 1) (store i (m j) m) in
    if m j == 0 then (j + 1, store i (m j) m) else rest

unfoldable pub strlcpy : ℕ → ℕ → ℕ → Memory → ℕ × Memory
strlcpy i j zero m = (2 ^ 32 - 1, m)
strlcpy i j (suc k) m =
    let (left, after) = copy_string k i j m in ((left + 2 ^ 32 - j - 1) % 2 ^ 32, after)
