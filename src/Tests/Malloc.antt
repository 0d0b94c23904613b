-- ===== src/Tests/Malloc.antt =====
-- A heap of 256 bytes at 0x1000 for the allocator.
use cyancore.Common.{ℕ, ◌≡◌, refl, true, false, some, List, [], ◌∷◌, arith}
use cyancore.Libc.Malloc
use cyancore.Libc.Malloc.{
  Chunk, init_heap, malloc, roundup_align, take, fit, split, set_free, merge,
}
use cyancore.Libc.Malloc.Tiling.{Tiles, malloc-Tiles, free-Tiles}
use cyancore.Libc.Malloc.Blocks.{used, IsAdded, malloc-IsAdded, free-used}
use cyancore.Libc.Malloc.Coalesce.{IsCoalesced, free-IsCoalesced}
use cyancore.Libc.Malloc.RoundTrip.{free-malloc}

abbrev chunk : ℕ → ℕ → Chunk
chunk a n = record { addr = a; size = n; free = true }

abbrev busy : ℕ → ℕ → Chunk
busy a n = record { addr = a; size = n; free = false }

abbrev fresh : List Chunk
fresh = chunk 0x1000 244 ∷ []

-- The heap after `malloc(5)`, which takes 8 bytes.
abbrev one : List Chunk
one = busy 0x1000 8 ∷ chunk 0x1014 224 ∷ []

-- A heap that is used up to its end.
abbrev full : List Chunk
full = busy 0x1000 8 ∷ busy 0x1014 224 ∷ []

init_fresh : init_heap 0x1000 0x1100 ≡ fresh
unfolding init_heap
init_fresh = refl

malloc_five : malloc 5 fresh ≡ some (some 0x100c, one)
unfolding malloc fit take split roundup_align
malloc_five = refl

-- A multiple of four is rounded up too.
roundup_eight : roundup_align 8 ≡ 12
unfolding roundup_align
roundup_eight = refl

malloc-Tiles_example : Tiles 0x1000 one 0x1100
malloc-Tiles_example =
    malloc-Tiles 5 0x1000 fresh (some 0x100c) one 0x1100 (omega arith) (refl, refl) malloc_five

free_one : Malloc.free 0x1000 0x1100 0x100c one ≡ some fresh
unfolding Malloc.free set_free merge
free_one = refl

free-Tiles_example : Tiles 0x1000 fresh 0x1100
free-Tiles_example =
    free-Tiles 0x1000 0x1100 0x100c 0x1000 one fresh 0x1100 (omega arith) (refl, (refl, refl))
      free_one

malloc-IsAdded_example : IsAdded (0x100c, roundup_align 5) [] ((0x100c, 8) ∷ [])
malloc-IsAdded_example = malloc-IsAdded 5 0x100c fresh one refl malloc_five

free-used_example :
    (ds : List Chunk) × (Malloc.free 0x1000 0x1100 0x1020 full ≡ some ds)
    × (used ds ≡ (0x100c, 8) ∷ [])
free-used_example =
    free-used 0x1000 0x1100 0x1020 224 full ((0x100c, 8) ∷ []) [] (omega arith) (refl, (refl, refl))
      refl

free-IsCoalesced_example : IsCoalesced fresh
free-IsCoalesced_example = free-IsCoalesced 0x1000 0x1100 0x100c one fresh (refl, tt) free_one

free-malloc_example : Malloc.free 0x1000 0x1100 0x100c one ≡ some fresh
free-malloc_example =
    free-malloc 5 0x100c 0x1000 0x1100 fresh one (omega arith) (refl, refl) tt refl malloc_five
