-- ===== src/Libc/Malloc/Blocks.antt =====
-- The blocks that are in use: what `malloc` hands out and what `free` takes back.
use cyancore.Common.{
  ℕ, ◌+◌, ◌-◌, ◌≤◌, ◌<◌, ◌≡◌, refl, sym, ap, ap₂, ◌∙◌, Bool, true, false, ◌&&◌, ◌||◌, not, some,
  List, [], ◌∷◌, ◌++◌, arith, ltb, leb, ◌==◌, if◌then◌else◌, Bool-cases, inl, inr,
}
use cyancore.Libc.Malloc.{
  Chunk, header, word, split, merge, is_empty, take, fit, roundup_align, malloc, set_free,
  get_header, free,
}
use cyancore.Libc.Malloc.Tiling.{Tiles, Tiles-le}
use cyancore.Libc.Malloc.Steps.{fit-IsFit}

-- The address and the size of each block in use, in the order of the addresses.
abbrev pub used : List Chunk → List (ℕ × ℕ)
used [] = []
used (c ∷ cs) = if c.free then used cs else (c.addr + header, c.size) ∷ used cs

abbrev pub last_free : List Chunk → Bool
last_free [] = true
last_free (c ∷ []) = c.free
last_free (c ∷ d ∷ cs) = last_free (d ∷ cs)

used-append : (xs ys : List Chunk) → used (xs ++ ys) ≡ used xs ++ used ys
used-append [] ys = refl
used-append (c ∷ xs) ys = ground (arith, used-append xs ys)

pub last_free-append :
    (xs : List Chunk) (c : Chunk) (ys : List Chunk) → last_free (xs ++ c ∷ ys) ≡ last_free (c ∷ ys)
last_free-append [] c ys = refl
last_free-append (x ∷ []) c ys = refl
last_free-append (x ∷ y ∷ xs) c ys = last_free-append (y ∷ xs) c ys

pub used-merge : (cs : List Chunk) → used (merge cs) ≡ used cs
unfolding merge
used-merge [] = refl
used-merge (c ∷ []) = refl
used-merge (c ∷ d ∷ cs) = ground (arith, used-merge cs, used-merge (d ∷ cs))

-- Where the search stops at a chunk in use, it is the last one.
pub stop_free :
    (n : ℕ) (c : Chunk) (cs : List Chunk)
    → (ltb c.size n || (not c.free && not (is_empty cs))) ≡ false
    → last_free (c ∷ cs) ≡ true
    → c.free ≡ true
stop_free n c [] h l = l
stop_free n c (d ∷ cs) h l = ground arith

-- One more block is in use.
pub record IsAdded (b : ℕ × ℕ) (us vs : List (ℕ × ℕ)) : Type 0 where
  pub below : List (ℕ × ℕ)
  pub above : List (ℕ × ℕ)
  pub was : us ≡ below ++ above
  pub now : vs ≡ below ++ b ∷ above

take-used :
    (n p : ℕ) (c : Chunk) (cs : List Chunk)
    → c.free ≡ true
    → some p ≡ (take n c cs).0
    → (p ≡ c.addr + header) × (used (take n c cs).1 ≡ (p, n) ∷ used cs)
unfolding take split
take-used n p c cs f h = ground arith

-- What `malloc` does once its first tests are passed.
pub malloc-fit :
    (n p : ℕ) (cs ds : List Chunk)
    → malloc n cs ≡ some (some p, ds)
    → fit (roundup_align n) cs ≡ some (some p, ds)
unfolding malloc
malloc-fit n p [] ds h = absurd (cc)
malloc-fit n p (c ∷ cs) ds h = ground arith

-- Where the last chunk is free, `malloc` adds one block of the rounded size to the blocks in use,
-- at the address that it returns, and leaves all others as they are.
pub malloc-IsAdded :
    (n p : ℕ) (cs ds : List Chunk)
    → last_free cs ≡ true
    → malloc n cs ≡ some (some p, ds)
    → IsAdded (p, roundup_align n) (used cs) (used ds)
malloc-IsAdded n p cs ds l h =
    let f = fit-IsFit (roundup_align n) cs (some p) ds (malloc-fit n p cs ds h) in
    let last : last_free (f.chunk ∷ f.behind) ≡ true =
      sym (last_free-append f.before f.chunk f.behind) ∙ sym (ap last_free f.was) ∙ l in
    let unused = stop_free (roundup_align n) f.chunk f.behind f.stops last in
    let (at, after) = take-used (roundup_align n) p f.chunk f.behind unused f.result in
    record {
      below = used f.before;
      above = used f.behind;
      was =
          ap used f.was
          ∙ used-append f.before (f.chunk ∷ f.behind)
          ∙ ap (λ l. used f.before ++ l) (used_free f.chunk f.behind unused);
      now = ap used f.now ∙ used-append f.before _ ∙ ap (λ l. used f.before ++ l) after;
    }
  where
    used_free : (c : Chunk) (cs : List Chunk) → c.free ≡ true → used (c ∷ cs) ≡ used cs
    used_free c cs e = rw e

-- Every block in use lies inside the heap, behind a header.
pub used_bounds :
    (a : ℕ) (cs : List Chunk) (e p m : ℕ) (below above : List (ℕ × ℕ))
    → Tiles a cs e
    → used cs ≡ below ++ (p, m) ∷ above
    → (a + header ≤ p) × (p + m ≤ e)
used_bounds a [] e p m [] above t h = absurd (cc)
used_bounds a [] e p m (b ∷ bs) above t h = absurd (cc)
used_bounds a (c ∷ cs) e p m [] above (s, t) h = elim (Bool-cases c.free) [
  | inl unused ↦
      let r = used_bounds (a + header + c.size) cs e p m [] above t (rw unused at h) in
      (omega (arith, r.0), r.1)
  | inr busy ↦
      let le = Tiles-le (a + header + c.size) cs e t in
      let h' : ((c.addr + header, c.size) ∷ used cs) ≡ (p, m) ∷ above = rw busy at h in ground arith
]
used_bounds a (c ∷ cs) e p m (b ∷ bs) above (s, t) h = elim (Bool-cases c.free) [
  | inl unused ↦
      let r = used_bounds (a + header + c.size) cs e p m (b ∷ bs) above t (rw unused at h) in
      (omega (arith, r.0), r.1)
  | inr busy ↦
      let h' : ((c.addr + header, c.size) ∷ used cs) ≡ b ∷ (bs ++ (p, m) ∷ above) = rw busy at h in
      let r = used_bounds (a + header + c.size) cs e p m bs above t (ground arith) in
      (omega (arith, r.0), r.1)
]

-- Marking the header of a block in use as free takes the block, and no other, out of use.
set_free-used :
    (a : ℕ) (cs : List Chunk) (e p m : ℕ) (below above : List (ℕ × ℕ))
    → Tiles a cs e
    → used cs ≡ below ++ (p, m) ∷ above
    → (ds : List Chunk) × (set_free (p - header) cs ≡ some ds) × (used ds ≡ below ++ above)
unfolding set_free
set_free-used a [] e p m [] above t h = absurd (cc)
set_free-used a [] e p m (b ∷ bs) above t h = absurd (cc)
set_free-used a (c ∷ cs) e p m [] above (s, t) h = elim (Bool-cases c.free) [
  | inl unused ↦
      let h' : used cs ≡ (p, m) ∷ above = rw unused at h in
      let (ds, run, u) = set_free-used (a + header + c.size) cs e p m [] above t h' in
      let (lo, hi) = used_bounds (a + header + c.size) cs e p m [] above t h' in
      let miss : (c.addr == p - header) ≡ false = ground arith in
      (c ∷ ds, rw (miss, run), rw unused u)
  | inr busy ↦
      let h' : ((c.addr + header, c.size) ∷ used cs) ≡ (p, m) ∷ above = rw busy at h in
      let hit : (c.addr == p - header) ≡ true = ground arith in
      (record c { free = true } ∷ cs, rw hit, ground arith)
]
set_free-used a (c ∷ cs) e p m (b ∷ bs) above (s, t) h = elim (Bool-cases c.free) [
  | inl unused ↦
      let h' : used cs ≡ b ∷ (bs ++ (p, m) ∷ above) = rw unused at h in
      let (ds, run, u) = set_free-used (a + header + c.size) cs e p m (b ∷ bs) above t h' in
      let (lo, hi) = used_bounds (a + header + c.size) cs e p m (b ∷ bs) above t h' in
      let miss : (c.addr == p - header) ≡ false = ground arith in
      (c ∷ ds, rw (miss, run), rw unused u)
  | inr busy ↦
      let h' : ((c.addr + header, c.size) ∷ used cs) ≡ b ∷ (bs ++ (p, m) ∷ above) = rw busy at h in
      let t' : used cs ≡ bs ++ (p, m) ∷ above = ground arith in
      let b_lem : (c.addr + header, c.size) ≡ b = ground arith in
      let (ds, run, u) = set_free-used (a + header + c.size) cs e p m bs above t t' in
      let (lo, hi) = used_bounds (a + header + c.size) cs e p m bs above t t' in
      let miss : (c.addr == p - header) ≡ false = ground arith in
      (c ∷ ds, rw (miss, run), rw busy (ap₂ ◌∷◌ b_lem u))
]

-- In a heap that its chunks tile, `free` of a block in use returns, and takes that block, and no
-- other, out of use.
pub free-used :
    (start end p m : ℕ) (cs : List Chunk) (below above : List (ℕ × ℕ))
    → end < word
    → Tiles start cs end
    → used cs ≡ below ++ (p, m) ∷ above
    → (ds : List Chunk) × (free start end p cs ≡ some ds) × (used ds ≡ below ++ above)
unfolding free
free-used start end p m cs below above small t h =
    let (lo, hi) = used_bounds start cs end p m below above t h in
    let (ds, run, u) = set_free-used start cs end p m below above t h in
    let nz : (p == 0) ≡ false = ground arith in
    let at : get_header p ≡ p - header = omega arith in
    let inside : (leb start (p - header) && leb (p - header) end) ≡ true = ground arith in
    (merge (merge ds), rw (nz, at, inside) (rw run), used-merge (merge ds) ∙ used-merge ds ∙ u)
