-- ===== src/Libc/Malloc/Coalesce.antt =====
-- No two free chunks are neighbours: why `free` merges twice.
use cyancore.Common.{
  ℕ, ◌+◌, ◌%◌, ◌≡◌, refl, sym, ap, subst, false, ◌&&◌, some, List, [], ◌∷◌, ◌++◌, arith, leb, ◌==◌,
  Bool-cases, Option-cases, inl, inr,
}
use cyancore.Libc.Malloc.{Chunk, header, word, merge, set_free, get_header, free}
use cyancore.Libc.Malloc.Steps.{set_free-IsFreed}

-- No two free chunks are neighbours.
abbrev pub IsCoalesced : List Chunk → Type 0
IsCoalesced [] = Unit
IsCoalesced (c ∷ []) = Unit
IsCoalesced (c ∷ d ∷ cs) = ((c.free && d.free) ≡ false) × IsCoalesced (d ∷ cs)

pub merge-IsCoalesced : (cs : List Chunk) → IsCoalesced cs → merge cs ≡ cs
unfolding merge
merge-IsCoalesced [] h = refl
merge-IsCoalesced (c ∷ []) h = refl
merge-IsCoalesced (c ∷ d ∷ cs) (h, r) = rw h (ap (λ l. c ∷ l) (merge-IsCoalesced (d ∷ cs) r))

IsCoalesced-tail : (c : Chunk) (cs : List Chunk) → IsCoalesced (c ∷ cs) → IsCoalesced cs
IsCoalesced-tail c [] h = tt
IsCoalesced-tail c (d ∷ cs) h = h.1

-- The flag of a chunk decides what may follow it.
IsCoalesced-head :
    (c c' : Chunk) (cs : List Chunk)
    → c'.free ≡ c.free
    → IsCoalesced (c ∷ cs)
    → IsCoalesced (c' ∷ cs)
IsCoalesced-head c c' [] e h = tt
IsCoalesced-head c c' (d ∷ cs) e (h, r) = (rw e h, r)

-- One pass repairs a list that is coalesced behind its first chunk.
merge_first : (c : Chunk) (cs : List Chunk) → IsCoalesced cs → IsCoalesced (merge (c ∷ cs))
unfolding merge
merge_first c [] h = tt
merge_first c (d ∷ cs) h = elim (Bool-cases (c.free && d.free)) [
  | inl both ↦
      rw (both, merge-IsCoalesced cs (IsCoalesced-tail d cs h))
        (IsCoalesced-head d (record c { size = (c.size + d.size + header) % word }) cs
          (ground arith) h)
  | inr other ↦ rw (other, merge-IsCoalesced (d ∷ cs) h) (other, h)
]

-- A pass keeps the flag of the first chunk.
merge_head :
    (c : Chunk) (cs : List Chunk)
    → (d : Chunk) × (ds : List Chunk) × (merge (c ∷ cs) ≡ d ∷ ds) × (d.free ≡ c.free)
unfolding merge
merge_head c [] = (c, [], refl, refl)
merge_head c (d ∷ cs) = elim (Bool-cases (c.free && d.free)) [
  | inl both ↦ (record c { size = (c.size + d.size + header) % word }, merge cs, rw both, refl)
  | inr other ↦ (c, merge (d ∷ cs), rw other, refl)
]

pub merge_step :
    (b c : Chunk) (cs : List Chunk)
    → (b.free && c.free) ≡ false
    → merge (b ∷ c ∷ cs) ≡ b ∷ merge (c ∷ cs)
unfolding merge
merge_step b c cs h = rw h

-- Two passes repair one with two chunks in front of a coalesced rest.
merge_second :
    (b c : Chunk) (cs : List Chunk) → IsCoalesced cs → IsCoalesced (merge (merge (b ∷ c ∷ cs)))
unfolding merge
merge_second b c cs h = elim (Bool-cases (b.free && c.free)) [
  | inl both ↦ rw (both, merge-IsCoalesced cs h) (merge_first _ cs h)
  | inr other ↦ rw other (merge_first b (merge (c ∷ cs)) (merge_first c cs h))
]

-- So they repair a coalesced list in which one chunk has become free.
merge_middle :
    (xs : List Chunk) (c c' : Chunk) (cs : List Chunk)
    → IsCoalesced (xs ++ c ∷ cs)
    → IsCoalesced (merge (merge (xs ++ c' ∷ cs)))
merge_middle [] c c' cs h =
    let one = merge_first c' cs (IsCoalesced-tail c cs h) in
    subst IsCoalesced (sym (merge-IsCoalesced (merge (c' ∷ cs)) one)) one
merge_middle (x ∷ []) c c' cs h = merge_second x c' cs (IsCoalesced-tail c cs h.1)
merge_middle (x ∷ y ∷ ys) c c' cs (apart, h) =
    let ih = merge_middle (y ∷ ys) c c' cs h in
    let (z, zs, e, fz) = merge_head y (ys ++ c' ∷ cs) in
    let (w, ws, d, fw) = merge_head z zs in
    let zapart : (x.free && z.free) ≡ false = rw fz apart in
    let wapart : (x.free && w.free) ≡ false = rw fw zapart in
    rw (merge_step x y (ys ++ c' ∷ cs) apart, e, merge_step x z zs zapart, d)
      (wapart, subst IsCoalesced d (subst (λ l. IsCoalesced (merge l)) e ih))

-- Where no two free chunks stand side by side, none do after a `free` that returns.
pub free-IsCoalesced :
    (start end p : ℕ) (cs ds : List Chunk)
    → IsCoalesced cs
    → free start end p cs ≡ some ds
    → IsCoalesced ds
unfolding free
free-IsCoalesced start end p cs ds co h = elim (Bool-cases (p == 0)) [
  | inl z ↦ let same : cs ≡ ds = ground arith in subst IsCoalesced same co
  | inr nz ↦ elim (Bool-cases (leb start (get_header p) && leb (get_header p) end)) [
    | inr out ↦ let same : cs ≡ ds = ground arith in subst IsCoalesced same co
    | inl inside ↦ elim (Option-cases (set_free (get_header p) cs)) [
      | inl e ↦ absurd (ground arith)
      | inr (es, q) ↦
          let f = set_free-IsFreed (get_header p) cs es q in
          let merged : merge (merge es) ≡ ds = ground arith in
          subst IsCoalesced merged (
            subst (λ l. IsCoalesced (merge (merge l))) (sym f.now)
              (merge_middle f.before f.chunk _ f.behind (subst IsCoalesced f.was co)))
    ]
  ]
]
