-- ===== src/Libc/Malloc/RoundTrip.antt =====
-- `free` undoes `malloc`.
use cyancore.Common.{
  ℕ, ◌+◌, ◌-◌, ◌%◌, ◌≤◌, ◌<◌, ◌≡◌, refl, sym, ap, subst, ◌∙◌, true, false, ◌&&◌, some, List, [],
  ◌∷◌, ◌++◌, arith, ltb, leb, ◌==◌, Bool-cases, ◌⊎◌, inl, inr, ltb→lt,
}
use cyancore.Libc.Malloc.{
  Chunk, header, word, split, merge, take, roundup_align, malloc, set_free, get_header, free,
}
use cyancore.Libc.Malloc.Tiling.{Tiles, Tiles-le, Tiles-split, malloc-Tiles}
use cyancore.Libc.Malloc.Steps.{fit-IsFit}
use cyancore.Libc.Malloc.Blocks.{last_free, last_free-append, stop_free, malloc-fit}
use cyancore.Libc.Malloc.Coalesce.{IsCoalesced, merge-IsCoalesced, merge_step}

-- In a tiled heap a header is found by its address.
set_free_at :
    (a : ℕ) (xs : List Chunk) (c : Chunk) (cs : List Chunk) (e : ℕ)
    → Tiles a (xs ++ c ∷ cs) e
    → set_free c.addr (xs ++ c ∷ cs) ≡ some (xs ++ record c { free = true } ∷ cs)
unfolding set_free
set_free_at a [] c cs e t = ground arith
set_free_at a (x ∷ xs) c cs e (s, t) =
    let (m, l, r) = Tiles-split (a + header + x.size) xs (c ∷ cs) e t in
    let le = Tiles-le (a + header + x.size) xs m l in
    let miss : (x.addr == c.addr) ≡ false = ground arith in
    rw (miss, set_free_at (a + header + x.size) xs c cs e t)

merge_prefix :
    (xs : List Chunk) (c c' : Chunk) (cs ds : List Chunk)
    → c'.free ≡ c.free
    → IsCoalesced (xs ++ c ∷ cs)
    → merge (xs ++ c' ∷ ds) ≡ xs ++ merge (c' ∷ ds)
merge_prefix [] c c' cs ds e h = refl
merge_prefix (x ∷ []) c c' cs ds e (apart, h) = merge_step x c' ds (rw e apart)
merge_prefix (x ∷ y ∷ ys) c c' cs ds e (apart, h) =
    merge_step x y (ys ++ c' ∷ ds) apart ∙ ap (λ l. x ∷ l) (merge_prefix (y ∷ ys) c c' cs ds e h)

IsCoalesced-suffix : (xs ys : List Chunk) → IsCoalesced (xs ++ ys) → IsCoalesced ys
IsCoalesced-suffix [] ys h = h
IsCoalesced-suffix (x ∷ []) [] h = tt
IsCoalesced-suffix (x ∷ []) (y ∷ ys) (apart, h) = h
IsCoalesced-suffix (x ∷ y ∷ xs) ys (apart, h) = IsCoalesced-suffix (y ∷ xs) ys h

-- The two chunks of a split merge into the chunk that was split.
merge_split :
    (n : ℕ) (c : Chunk) (cs : List Chunk)
    → n + header < c.size
    → c.size < word
    → c.free ≡ true
    → IsCoalesced (c ∷ cs)
    → (r : Chunk) → r.size ≡ c.size - n - header
    → r.free ≡ true
    → merge (record c { size = n; free = true } ∷ r ∷ cs) ≡ c ∷ cs
unfolding merge
merge_split n c cs large small f h r rs rf =
    let size : (n + r.size + header) % word ≡ c.size = omega arith in
    let tail : merge cs ≡ cs = merge-IsCoalesced cs (IsCoalesced-suffix (c ∷ []) cs h) in
    rw (rf, tail, size) (ground arith)

-- The two ways in which `take` gives out a chunk.
take_cases :
    (n p : ℕ) (c : Chunk) (cs : List Chunk)
    → some p ≡ (take n c cs).0
    → (p ≡ c.addr + header)
      × (((take n c cs).1 ≡ record c { free = false } ∷ cs)
          ⊎ (((n + header) % word < c.size) × ((take n c cs).1 ≡ split c n cs)))
unfolding take
take_cases n p c cs h = elim (Bool-cases (c.size == n)) [
  | inl exact ↦ (ground arith, inl (rw exact))
  | inr other ↦ elim (Bool-cases (ltb ((n + header) % word) c.size)) [
    | inl large ↦ (ground arith, inr (ltb→lt _ _ large, rw (other, large)))
    | inr tight ↦ absurd (ground arith)
  ]
]

module _ (a : ℕ) (xs : List Chunk) (c : Chunk) (cs : List Chunk) (e : ℕ) (small : e < word)
    (f : c.free ≡ true) (co : IsCoalesced (xs ++ c ∷ cs)) where
  whole : record c { free = true } ≡ c
  whole = sym (ap (λ b. record c { free = b }) f)

  settled : merge (merge (xs ++ c ∷ cs)) ≡ xs ++ c ∷ cs
  settled = rw (merge-IsCoalesced (xs ++ c ∷ cs) co) (merge-IsCoalesced (xs ++ c ∷ cs) co)

  -- The heap behind `set_free` merges back into the heap before `malloc`.
  abbrev Restored : List Chunk → Type 0
  Restored hs =
      (ds : List Chunk) × (set_free c.addr hs ≡ some ds) × (merge (merge ds) ≡ xs ++ c ∷ cs)

  Restored-exact :
      Tiles a (xs ++ record c { free = false } ∷ cs) e
      → Restored (xs ++ record c { free = false } ∷ cs)
  Restored-exact t = (
    xs ++ record c { free = true } ∷ cs,
    set_free_at a xs (record c { free = false }) cs e t,
    subst (λ d. merge (merge (xs ++ d ∷ cs)) ≡ xs ++ c ∷ cs) (sym whole) settled,
  )

  Restored-split :
      (n : ℕ)
      → n + header < c.size
      → c.size < word
      → Tiles a (xs ++ split c n cs) e
      → Restored (xs ++ split c n cs)
  unfolding split
  Restored-split n large fits t =
      let r : Chunk = record {
        addr = (c.addr + n + header) % word;
        size = (c.size + word + word - n - header) % word;
        free = true;
      } in
      let c₁ : Chunk = record c { size = n; free = true } in
      let one : merge (xs ++ c₁ ∷ r ∷ cs) ≡ xs ++ c ∷ cs =
        merge_prefix xs c c₁ cs (r ∷ cs) (sym f) co
        ∙ ap (λ l. xs ++ l)
            (merge_split n c cs large fits f (IsCoalesced-suffix xs (c ∷ cs) co) r (omega arith)
              refl) in
      (
        xs ++ c₁ ∷ r ∷ cs,
        set_free_at a xs (record c { size = n; free = false }) (r ∷ cs) e t,
        rw one (merge-IsCoalesced (xs ++ c ∷ cs) co),
      )

  Restored-take :
      (n p : ℕ)
      → n ≤ c.size
      → c.size + header ≤ e
      → some p ≡ (take n c cs).0
      → Tiles a (xs ++ (take n c cs).1) e
      → Restored (xs ++ (take n c cs).1)
  Restored-take n p fits room h t = elim (take_cases n p c cs h).1 [
    | inl q ↦
        subst (λ l. Restored (xs ++ l)) (sym q)
          (Restored-exact (subst (λ l. Tiles a (xs ++ l) e) q t))
    | inr (large, q) ↦
        subst (λ l. Restored (xs ++ l)) (sym q)
          (Restored-split n (omega arith) (omega arith) (subst (λ l. Tiles a (xs ++ l) e) q t))
  ]

-- Freeing a block that was just allocated gives the heap back as it was before, chunk by chunk, if
-- the chunks tile a 32-bit heap, no two free ones are neighbours and the last one is free.
pub free-malloc :
    (n p start end : ℕ) (cs ds : List Chunk)
    → end < word
    → Tiles start cs end
    → IsCoalesced cs
    → last_free cs ≡ true
    → malloc n cs ≡ some (some p, ds)
    → free start end p ds ≡ some cs
unfolding free
free-malloc n p start end cs ds small t co l h =
    let g = fit-IsFit (roundup_align n) cs (some p) ds (malloc-fit n p cs ds h) in
    let last : last_free (g.chunk ∷ g.behind) ≡ true =
      sym (last_free-append g.before g.chunk g.behind) ∙ sym (ap last_free g.was) ∙ l in
    let f = stop_free (roundup_align n) g.chunk g.behind g.stops last in
    let (m, lo, hi) =
      Tiles-split start g.before (g.chunk ∷ g.behind) end
        (subst (λ x. Tiles start x end) g.was t) in
    let le = Tiles-le start g.before m lo in
    let ge = Tiles-le (m + header + g.chunk.size) g.behind end hi.1 in
    let fits : roundup_align n ≤ g.chunk.size = ground (arith, g.stops) in
    let after =
      subst (λ x. Tiles start x end) g.now (malloc-Tiles n start cs (some p) ds end small t h) in
    let (es, run, back) =
      Restored-take start g.before g.chunk g.behind end small f (subst IsCoalesced g.was co)
        (roundup_align n) p fits (omega arith) g.result after in
    let at = (take_cases (roundup_align n) p g.chunk g.behind g.result).0 in
    let nz : (p == 0) ≡ false = ground arith in
    let header_at : get_header p ≡ g.chunk.addr = omega arith in
    let inside : (leb start g.chunk.addr && leb g.chunk.addr end) ≡ true = ground arith in
    let run' : set_free g.chunk.addr ds ≡ some es =
      subst (λ x. set_free g.chunk.addr x ≡ some es) (sym g.now) run in
    rw (nz, header_at, inside) (rw run' (ap some (back ∙ sym g.was)))
