-- ===== src/Libc/Malloc/Search.antt =====
-- When the search of `malloc` ends well, and when it does not.
use cyancore.Common.{
  ℕ, ◌+◌, ◌≤◌, ◌<◌, ◌≡◌, refl, ap, ◌≢◌, true, false, ◌||◌, ◌&&◌, not, Option, none, some, List, [],
  ◌∷◌, ◌++◌, arith, ltb, ◌==◌, ◌⊎◌, lt→ltb,
}
use cyancore.Libc.Malloc.{Chunk, header, is_empty, take, fit, roundup_align, malloc}

-- The search goes past a chunk that is too small or, where another follows, in use.
abbrev pub Unfit : ℕ → List Chunk → Type 0
Unfit n [] = Unit
Unfit n (c ∷ cs) = ((c.size < n) ⊎ (c.free ≡ false)) × Unfit n cs

abbrev pub TooSmall : ℕ → List Chunk → Type 0
TooSmall n [] = Unit
TooSmall n (c ∷ cs) = (c.size < n) × TooSmall n cs

fit-TooSmall : (n : ℕ) (cs : List Chunk) → TooSmall n cs → fit n cs ≡ none
unfolding fit
fit-TooSmall n [] h = refl
fit-TooSmall n (c ∷ cs) (s, h) = rw (lt→ltb c.size n s, fit-TooSmall n cs h)

fit_first :
    (n : ℕ) (xs : List Chunk) (c : Chunk) (cs : List Chunk)
    → Unfit n xs
    → (ltb c.size n || (not c.free && not (is_empty cs))) ≡ false
    → fit n (xs ++ c ∷ cs) ≡ some ((take n c cs).0, xs ++ (take n c cs).1)
unfolding fit
fit_first n [] c cs u stop = rw stop
fit_first n (x ∷ []) c cs (u, us) stop =
    let goes : (ltb x.size n || (not x.free && true)) ≡ true = ground arith in
    rw (goes, fit_first n [] c cs tt stop)
fit_first n (x ∷ y ∷ xs) c cs (u, us) stop =
    let goes : (ltb x.size n || (not x.free && true)) ≡ true = ground arith in
    rw (goes, fit_first n (y ∷ xs) c cs us stop)

malloc_search :
    (n : ℕ) (cs : List Chunk) (c : Chunk)
    → n ≢ 0
    → c.size ≢ 0
    → malloc n (c ∷ cs) ≡ fit (roundup_align n) (c ∷ cs)
unfolding malloc
malloc_search n cs c nz cz =
    let a : (n == 0) ≡ false = ground arith in
    let b : (c.size == 0) ≡ false = ground arith in rw (a, b)

-- Where every chunk is too small for the rounded size, `malloc` does not return a null pointer: it
-- runs past the last chunk and reads through one.
pub malloc_too_large :
    (n : ℕ) (c : Chunk) (cs : List Chunk)
    → n ≢ 0
    → c.size ≢ 0
    → TooSmall (roundup_align n) (c ∷ cs)
    → malloc n (c ∷ cs) ≡ none
malloc_too_large n c cs nz cz small =
    rw (malloc_search n cs c nz cz) (fit-TooSmall (roundup_align n) (c ∷ cs) small)

take_in_use :
    (n : ℕ) (c : Chunk)
    → c.size ≡ n
    → c.free ≡ false
    → take n c [] ≡ (some (c.addr + header), c ∷ [])
unfolding take
take_in_use n c size busy = ground arith

-- Where the last chunk is in use, has exactly the rounded size, and no chunk before it will do,
-- `malloc` returns the block that is in use, and the heap does not change.
pub malloc_in_use :
    (n : ℕ) (b : Chunk) (xs : List Chunk) (c : Chunk)
    → n ≢ 0
    → b.size ≢ 0
    → Unfit (roundup_align n) (b ∷ xs)
    → c.free ≡ false
    → c.size ≡ roundup_align n
    → malloc n (b ∷ xs ++ c ∷ []) ≡ some (some (c.addr + header), b ∷ xs ++ c ∷ [])
malloc_in_use n b xs c nz bz u busy size =
    rw (malloc_search n (xs ++ c ∷ []) b nz bz, fit_first (roundup_align n) (b ∷ xs) c [] u stop)
      (ap (λ (t : Option ℕ × List Chunk). some (t.0, b ∷ xs ++ t.1))
        (take_in_use (roundup_align n) c size busy))
  where
    stop : (ltb c.size (roundup_align n) || (not c.free && false)) ≡ false
    stop = ground arith

-- `malloc` stops at the first free chunk that is large enough, however the ones before it are used.
-- It gives that chunk out, or returns a null pointer where the rest of a split would have no room
-- for its header.
pub malloc_first_fit :
    (n : ℕ) (b : Chunk) (xs : List Chunk) (c : Chunk) (cs : List Chunk)
    → n ≢ 0
    → b.size ≢ 0
    → Unfit (roundup_align n) (b ∷ xs)
    → c.free ≡ true
    → roundup_align n ≤ c.size
    → malloc n (b ∷ xs ++ c ∷ cs)
      ≡ some ((take (roundup_align n) c cs).0, b ∷ xs ++ (take (roundup_align n) c cs).1)
malloc_first_fit n b xs c cs nz bz u unused large =
    rw (malloc_search n (xs ++ c ∷ cs) b nz bz)
      (fit_first (roundup_align n) (b ∷ xs) c cs u (ground arith))
