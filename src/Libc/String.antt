-- ===== src/Libc/String.antt =====
-- The memory and string functions of src/lib/libc/string.c. A memory gives the byte at each
-- address; a pointer never passes the end of the address space.
pub mod Copy
pub mod Compare
use cyancore.Common.{ℕ, zero, suc, ◌+◌, ◌-◌, ◌%◌, ◌^◌, Option, none, some, leb, ◌==◌, if◌then◌else◌}
use cyancore.Common.Int.{ℤ, pos, ◌-ℤ◌}

abbrev pub Memory : Type 0
Memory = ℕ → ℕ

abbrev pub store : ℕ → ℕ → Memory → Memory
store a v m = λ b. if b == a then v else m b

abbrev pub byte : ℕ → ℕ
byte v = v % 2 ^ 8

-- The loop of `memcpy`, for the number of bytes that are left.
unfoldable pub copy_up : ℕ → ℕ → ℕ → Memory → Memory
copy_up zero dst src m = m
copy_up (suc n) dst src m = copy_up n (dst + 1) (src + 1) (store dst (m src) m)

-- The result is the pointer behind the last byte that was written.
unfoldable pub memcpy : ℕ → ℕ → ℕ → Memory → ℕ × Memory
memcpy i j size m = (i + size, copy_up size i j m)

-- The loop of `memmove` that goes down, for the number of bytes that are left.
unfoldable pub copy_down : ℕ → ℕ → ℕ → Memory → Memory
copy_down zero dst src m = m
copy_down (suc n) dst src m = copy_down n dst src (store (dst + n) (m (src + n)) m)

unfoldable pub memmove : ℕ → ℕ → ℕ → Memory → ℕ × Memory
memmove i j size m =
    if leb size ((i + 2 ^ 32 - j) % 2 ^ 32)
    then (i, (memcpy i j size m).1)
    else (i, copy_down size i j m)

-- The loop of `memset`.
unfoldable pub fill_up : ℕ → ℕ → ℕ → Memory → Memory
fill_up zero p n m = m
fill_up (suc k) p n m = fill_up k (p + 1) n (store p (byte n) m)

unfoldable pub memset : ℕ → ℕ → ℕ → Memory → ℕ × Memory
memset i n size m = (i, fill_up size i n m)

unfoldable pub memcmp : ℕ → ℕ → ℕ → Memory → ℤ
memcmp i j zero m = pos 0
memcmp i j (suc size) m =
    let rest = memcmp (i + 1) (j + 1) size m in if m i == m j then rest else pos (m i) -ℤ pos (m j)

unfoldable pub memchr : ℕ → ℕ → ℕ → Memory → Option ℕ
memchr i r zero m = none
memchr i r (suc n) m = let rest = memchr (i + 1) r n m in if m i == byte r then some i else rest

unfoldable pub memchr_rev : ℕ → ℕ → ℕ → Memory → Option ℕ
memchr_rev i r zero m = none
memchr_rev i r (suc n) m =
    let rest = memchr_rev i r n m in if m (i + n) == byte r then some (i + n) else rest

unfoldable pub strnlen : ℕ → ℕ → Memory → ℕ
strnlen i zero m = 0
strnlen i (suc size) m = let rest = strnlen (i + 1) size m in if m i == 0 then 0 else suc rest

abbrev pub next : Option ℕ → Option ℕ
next none = none
next (some n) = some (suc n)

-- `strlen` makes as many rounds as it takes to find the terminator.
unfoldable pub strlen : ℕ → ℕ → Memory → Option ℕ
strlen zero i m = none
strlen (suc f) i m = let rest = strlen f (i + 1) m in if m i == 0 then some 0 else next rest
