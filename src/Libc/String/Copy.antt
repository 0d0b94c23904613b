-- ===== src/Libc/String/Copy.antt =====
-- memmove copies a region to any other, the two may overlap.
use cyancore.Common.{
  ℕ, zero, suc, ◌+◌, ◌-◌, ◌%◌, ◌^◌, ◌≤◌, ◌<◌, ◌≡◌, ◌≢◌, refl, ap, ltb, ◌∙◌, ◌⊎◌, inl, inr, arith,
  leb, Bool-cases, ne→==, ==_refl,
}
use cyancore.Libc.String.{Memory, store, copy_up, copy_down, memcpy, memmove}

-- Outside the region of `n` bytes at `i`.
abbrev pub IsOutside : ℕ → ℕ → ℕ → Type 0
IsOutside i n a = (a < i) ⊎ (i + n ≤ a)

-- The region at `i` holds what the region at `j` held, and no other byte has changed.
pub record IsCopied (i j n : ℕ) (before after : Memory) : Type 0 where
  pub inside : (t : ℕ) → t < n → after (i + t) ≡ before (j + t)
  pub outside : (a : ℕ) → IsOutside i n a → after a ≡ before a

store-same : (a v : ℕ) (m : Memory) → store a v m a ≡ v
store-same a v m = rw (==_refl a) refl

store-other : (a v b : ℕ) (m : Memory) → b ≢ a → store a v m b ≡ m b
store-other a v b m ne = rw (ne→== b a ne) refl

up-inside :
    (n i j : ℕ) (m after : Memory)
    → (i ≤ j) ⊎ (j + suc n ≤ i)
    → IsCopied (i + 1) (j + 1) n (store i (m j) m) after
    → (t : ℕ) → t < suc n
    → after (i + t) ≡ m (j + t)
up-inside n i j m after h rest zero b =
    let e : i + 0 ≡ i = omega arith in
    let d : j ≡ j + 0 = omega arith in
    ap after e ∙ rest.outside i (inl (omega arith)) ∙ store-same i (m j) m ∙ ap m d
up-inside n i j m after h rest (suc t) b =
    let e : i + suc t ≡ i + 1 + t = omega arith in
    let d : j + 1 + t ≡ j + suc t = omega arith in
    ap after e
    ∙ rest.inside t (omega arith)
    ∙ store-other i (m j) (j + 1 + t) m (ground arith)
    ∙ ap m d

-- A copy upwards is right unless its target starts inside its source, behind its first byte.
copy_up-IsCopied :
    (n i j : ℕ) (m : Memory) → (i ≤ j) ⊎ (j + n ≤ i) → IsCopied i j n m (copy_up n i j m)
unfolding copy_up
copy_up-IsCopied zero i j m h = record { inside = λ t b. elim b [ ]; outside = λ a o. refl }
copy_up-IsCopied (suc n) i j m h =
    let rest = copy_up-IsCopied n (i + 1) (j + 1) (store i (m j) m) (ground arith) in
    record {
      inside = up-inside n i j m (copy_up n (i + 1) (j + 1) (store i (m j) m)) h rest;
      outside = λ a o. rest.outside a (ground arith) ∙ store-other i (m j) a m (ground arith);
    }

down-inside :
    (n i j : ℕ) (m after : Memory)
    → j ≤ i
    → IsCopied i j n (store (i + n) (m (j + n)) m) after
    → (t : ℕ) → t < suc n
    → after (i + t) ≡ m (j + t)
down-inside n i j m after h rest t b = elim (Bool-cases (ltb t n)) [
  | inl lt ↦ rest.inside t (ground arith) ∙ store-other (i + n) (m (j + n)) (j + t) m (ground arith)
  | inr ge ↦
      let last : t ≡ n = ground arith in
      rw last (rest.outside (i + n) (inr (omega arith)) ∙ store-same (i + n) (m (j + n)) m)
]

-- A copy downwards is right where the target is not below its source.
copy_down-IsCopied : (n i j : ℕ) (m : Memory) → j ≤ i → IsCopied i j n m (copy_down n i j m)
unfolding copy_down
copy_down-IsCopied zero i j m h = record { inside = λ t b. elim b [ ]; outside = λ a o. refl }
copy_down-IsCopied (suc n) i j m h =
    let rest = copy_down-IsCopied n i j (store (i + n) (m (j + n)) m) h in
    record {
      inside = down-inside n i j m (copy_down n i j (store (i + n) (m (j + n)) m)) h rest;
      outside =
          λ a o. rest.outside a (ground arith) ∙ store-other (i + n) (m (j + n)) a m (ground arith);
    }

-- memmove copies the region at `j` to the one at `i`, however the two overlap, and changes no other
-- byte, where both lie in a 32-bit address space; it returns `i`.
pub memmove-IsCopied :
    (i j size : ℕ) (m : Memory)
    → i + size ≤ 2 ^ 32
    → j + size ≤ 2 ^ 32
    → ((memmove i j size m).0 ≡ i) × IsCopied i j size m (memmove i j size m).1
unfolding memmove memcpy
memmove-IsCopied i j size m hi hj = elim (Bool-cases (leb size ((i + 2 ^ 32 - j) % 2 ^ 32))) [
  | inl apart ↦ rw apart (refl, copy_up-IsCopied size i j m (ground arith))
  | inr near ↦ rw near (refl, copy_down-IsCopied size i j m (ground arith))
]
