-- ===== src/Libc/Malloc.antt =====
-- The allocator, src/lib/libc/malloc_lite.c, for a 32-bit `size_t` and `HEAP_ALIGN` 4 as on the
-- RISC-V and ARM platforms. The list that `freeList` heads is the list of its chunks in the order
-- of `next`, each with the address of its header.
pub mod Steps
pub mod Tiling
pub mod Blocks
pub mod Coalesce
pub mod RoundTrip
pub mod Search
use cyancore.Common.{
  ℕ, ◌+◌, ◌-◌, ◌*◌, ◌%◌, ◌^◌, Bool, true, false, ◌&&◌, ◌||◌, not, Option, none, some, List, [], ◌∷◌,
  ltb, leb, ◌==◌, if◌then◌else◌,
}

-- `chunk_t`, less its `next`
pub record Chunk : Type 0 where
  pub addr : ℕ
  pub size : ℕ
  pub free : Bool

abbrev pub header : ℕ
header = 12

abbrev pub word : ℕ
word = 2 ^ 32

-- What a call leaves: a result and the chunks, or nothing where a null pointer or a pointer to no
-- chunk was followed.
abbrev pub Outcome : Type 0 → Type 0
Outcome A = Option (A × List Chunk)

-- The two chunks that `split` makes of one.
unfoldable pub split : Chunk → ℕ → List Chunk → List Chunk
split c n cs =
    record c { size = n; free = false }
    ∷ record {
      addr = (c.addr + n + header) % word;
      size = (c.size + word + word - n - header) % word;
      free = true;
    }
    ∷ cs

-- One pass of `merge`: a chunk absorbs the next one, and the pass goes on behind it.
unfoldable pub merge : List Chunk → List Chunk
merge [] = []
merge (c ∷ []) = c ∷ []
merge (c ∷ d ∷ cs) =
    if c.free && d.free
    then record c { size = (c.size + d.size + header) % word } ∷ merge cs
    else c ∷ merge (d ∷ cs)

-- `platform_init_heap`, for the bounds of the heap that the linker gives
unfoldable pub init_heap : ℕ → ℕ → List Chunk
init_heap start end =
    record { addr = start; size = (end + word + word - start - header) % word; free = true } ∷ []

abbrev pub is_empty : List Chunk → Bool
is_empty [] = true
is_empty (c ∷ cs) = false

-- The chunk at which the search stopped.
unfoldable pub take : ℕ → Chunk → List Chunk → Option ℕ × List Chunk
take n c cs =
    if c.size == n
    then (some (c.addr + header), record c { free = false } ∷ cs)
    else if ltb ((n + header) % word) c.size
    then (some (c.addr + header), split c n cs)
    else (none, c ∷ cs)

abbrev pub behind : Chunk → Outcome (Option ℕ) → Outcome (Option ℕ)
behind c none = none
behind c (some (p, cs)) = some (p, c ∷ cs)

-- The search and what follows it. Behind the last chunk the search reads through a null pointer.
unfoldable pub fit : ℕ → List Chunk → Outcome (Option ℕ)
fit n [] = none
fit n (c ∷ cs) =
    if ltb c.size n || (not c.free && not (is_empty cs))
    then behind c (fit n cs)
    else some (take n c cs)

-- `ROUNDUP_ALIGN(n, 4)` of src/include/utils.h
unfoldable pub roundup_align : ℕ → ℕ
roundup_align n = (n + (4 - n % 4)) % word

-- `malloc`, on a heap that has been initialised
unfoldable pub malloc : ℕ → List Chunk → Outcome (Option ℕ)
malloc n [] = none
malloc n (c ∷ cs) =
    if n == 0
    then some (none, c ∷ cs)
    else if c.size == 0
    then some (none, c ∷ cs)
    else fit (roundup_align n) (c ∷ cs)

-- `cur->free = 1` at the header with the given address
unfoldable pub set_free : ℕ → List Chunk → Option (List Chunk)
set_free a [] = none
set_free a (c ∷ cs) =
    if c.addr == a
    then some (record c { free = true } ∷ cs)
    else elim (set_free a cs) [ none ↦ none | some ds ↦ some (c ∷ ds) ]

-- `get_header`
abbrev pub get_header : ℕ → ℕ
get_header p = (p + word - header) % word

-- `free`, for the bounds of the heap
unfoldable pub free : ℕ → ℕ → ℕ → List Chunk → Option (List Chunk)
free start end p cs =
    if p == 0
    then some cs
    else if leb start (get_header p) && leb (get_header p) end
    then elim (set_free (get_header p) cs) [ none ↦ none | some ds ↦ some (merge (merge ds)) ]
    else some cs

-- `heap_usage`: the loop ends at the last chunk and does not count it.
unfoldable pub heap_usage : List Chunk → ℕ
heap_usage [] = 0
heap_usage (c ∷ []) = 0
heap_usage (c ∷ d ∷ cs) = ((if c.free then 0 else c.size + header) + heap_usage (d ∷ cs)) % word
