-- ===== src/Libc/Malloc/Tiling.antt =====
-- The chunks tile the heap: each starts where the one before it ends, and the last ends the heap.
use cyancore.Common.{
  ℕ, ◌+◌, ◌-◌, ◌%◌, ◌≤◌, ◌<◌, ◌≡◌, refl, sym, subst, ◌&&◌, Option, some, List, [], ◌∷◌, ◌++◌, arith,
  ltb, leb, ◌==◌, Bool-cases, Option-cases, inl, inr, ltb→lt,
}
use cyancore.Libc.Malloc.{
  Chunk, header, word, split, merge, take, roundup_align, malloc, set_free, get_header, free,
}
use cyancore.Libc.Malloc.Steps.{IsFit, fit-IsFit, set_free-IsFreed}

abbrev pub Tiles : ℕ → List Chunk → ℕ → Type 0
Tiles a [] e = a ≡ e
Tiles a (c ∷ cs) e = (c.addr ≡ a) × Tiles (a + header + c.size) cs e

pub Tiles-le : (a : ℕ) (cs : List Chunk) (e : ℕ) → Tiles a cs e → a ≤ e
Tiles-le a [] e t = omega arith
Tiles-le a (c ∷ cs) e (s, t) = omega (arith, Tiles-le (a + header + c.size) cs e t)

pub merge-Tiles : (a : ℕ) (cs : List Chunk) (e : ℕ) → e < word → Tiles a cs e → Tiles a (merge cs) e
unfolding merge
merge-Tiles a [] e small t = t
merge-Tiles a (c ∷ []) e small t = t
merge-Tiles a (c ∷ d ∷ cs) e small (s, (r, t)) = elim (Bool-cases (c.free && d.free)) [
  | inl both ↦
      let le = Tiles-le _ cs e t in
      let size : (c.size + d.size + header) % word ≡ c.size + d.size + header = omega arith in
      let at : a + header + (c.size + d.size + header) ≡ a + header + c.size + header + d.size =
        omega arith in
      rw (both, size, at) (s, merge-Tiles (a + header + c.size + header + d.size) cs e small t)
  | inr other ↦ rw other (s, merge-Tiles (a + header + c.size) (d ∷ cs) e small (r, t))
]

-- The chunks of a prefix end where those behind it start.
pub Tiles-split :
    (a : ℕ) (xs bs : List Chunk) (e : ℕ)
    → Tiles a (xs ++ bs) e
    → (m : ℕ) × Tiles a xs m × Tiles m bs e
Tiles-split a [] bs e t = (a, refl, t)
Tiles-split a (c ∷ xs) bs e (s, t) =
    let (m, l, r) = Tiles-split (a + header + c.size) xs bs e t in (m, (s, l), r)

pub Tiles-append :
    (a : ℕ) (xs bs : List Chunk) (m e : ℕ) → Tiles a xs m → Tiles m bs e → Tiles a (xs ++ bs) e
Tiles-append a [] bs m e l r = rw l r
Tiles-append a (c ∷ xs) bs m e (s, l) r = (s, Tiles-append (a + header + c.size) xs bs m e l r)

-- A chunk that is taken covers the same addresses after, split or not.
take-Tiles :
    (n a : ℕ) (c : Chunk) (cs : List Chunk) (e : ℕ)
    → e < word
    → n ≤ c.size
    → Tiles a (c ∷ cs) e
    → Tiles a (take n c cs).1 e
unfolding take split
take-Tiles n a c cs e small le (s, t) = elim (Bool-cases (c.size == n)) [
  | inl exact ↦ rw exact (s, t)
  | inr other ↦ elim (Bool-cases (ltb ((n + header) % word) c.size)) [
    | inl large ↦
        let h = Tiles-le _ cs e t in
        let l : (n + header) % word < c.size = ltb→lt _ _ large in
        let at : (c.addr + n + header) % word ≡ a + header + n = omega arith in
        let sz : (c.size + word + word - n - header) % word ≡ c.size - n - header = omega arith in
        let end : a + header + n + header + (c.size - n - header) ≡ a + header + c.size =
          omega arith in
        rw (other, large) (s, (at, rw (sz, end) t))
    | inr tight ↦ rw (other, tight) (s, t)
  ]
]

IsFit-Tiles :
    (n a : ℕ) (cs : List Chunk) (p : Option ℕ) (ds : List Chunk) (e : ℕ)
    → e < word
    → IsFit n cs p ds
    → Tiles a cs e
    → Tiles a ds e
IsFit-Tiles n a cs p ds e small f t =
    let (m, l, r) =
      Tiles-split a f.before (f.chunk ∷ f.behind) e (subst (λ x. Tiles a x e) f.was t) in
    let le : n ≤ f.chunk.size = ground (arith, f.stops) in
    subst (λ x. Tiles a x e) (sym f.now)
      (Tiles-append a f.before (take n f.chunk f.behind).1 m e l
        (take-Tiles n m f.chunk f.behind e small le r))

-- `malloc` keeps the tiling, whatever it returns.
pub malloc-Tiles :
    (n a : ℕ) (cs : List Chunk) (p : Option ℕ) (ds : List Chunk) (e : ℕ)
    → e < word
    → Tiles a cs e
    → malloc n cs ≡ some (p, ds)
    → Tiles a ds e
unfolding malloc
malloc-Tiles n a [] p ds e small t h = absurd (cc)
malloc-Tiles n a (c ∷ cs) p ds e small t h = elim (Bool-cases (n == 0)) [
  | inl z ↦ let same : c ∷ cs ≡ ds = ground arith in subst (λ x. Tiles a x e) same t
  | inr nz ↦ elim (Bool-cases (c.size == 0)) [
    | inl none_left ↦ let same : c ∷ cs ≡ ds = ground arith in subst (λ x. Tiles a x e) same t
    | inr pos ↦
        IsFit-Tiles (roundup_align n) a (c ∷ cs) p ds e small
          (fit-IsFit (roundup_align n) (c ∷ cs) p ds (ground arith)) t
  ]
]

set_free-Tiles :
    (x a : ℕ) (cs ds : List Chunk) (e : ℕ) → set_free x cs ≡ some ds → Tiles a cs e → Tiles a ds e
set_free-Tiles x a cs ds e h t =
    let f = set_free-IsFreed x cs ds h in
    let (m, l, r) =
      Tiles-split a f.before (f.chunk ∷ f.behind) e (subst (λ y. Tiles a y e) f.was t) in
    subst (λ y. Tiles a y e) (sym f.now) (Tiles-append a f.before _ m e l r)

-- `free` keeps the tiling.
pub free-Tiles :
    (start end p a : ℕ) (cs ds : List Chunk) (e : ℕ)
    → e < word
    → Tiles a cs e
    → free start end p cs ≡ some ds
    → Tiles a ds e
unfolding free
free-Tiles start end p a cs ds e small t h = elim (Bool-cases (p == 0)) [
  | inl z ↦ let same : cs ≡ ds = ground arith in subst (λ x. Tiles a x e) same t
  | inr nz ↦ elim (Bool-cases (leb start (get_header p) && leb (get_header p) end)) [
    | inr out ↦ let same : cs ≡ ds = ground arith in subst (λ x. Tiles a x e) same t
    | inl inside ↦ elim (Option-cases (set_free (get_header p) cs)) [
      | inl e ↦ absurd (ground arith)
      | inr (es, q) ↦
          let merged : merge (merge es) ≡ ds = ground arith in
          subst (λ x. Tiles a x e) merged
            (merge-Tiles a (merge es) e small
              (merge-Tiles a es e small (set_free-Tiles (get_header p) a cs es e q t)))
    ]
  ]
]
