-- ===== src/Libc/Strings/Limited.antt =====
-- strlcpy copies as much of a string as its limit allows, and ends it.
use cyancore.Common.{
  ℕ, zero, suc, ◌+◌, ◌<◌, ◌≡◌, ◌≢◌, refl, sym, subst, ◌∙◌, ◌⊎◌, inl, inr, ◌==◌, List, [], ◌∷◌,
  length, arith, ne→==, ==_refl, Bool-cases,
}
use cyancore.Libc.String.{Memory, store}
use cyancore.Libc.Strings.Equal.{is_zero, not_zero}
use cyancore.Libc.Strings.{IsString, copy_string, strlcpy}

abbrev pub take : ℕ → List ℕ → List ℕ
take zero xs = []
take (suc k) [] = []
take (suc k) (x ∷ xs) = x ∷ take k xs

-- An address that the string at `j` does not use.
abbrev pub IsApart : ℕ → ℕ → List ℕ → Type 0
IsApart a j xs = (a < j) ⊎ (j + length xs < a)

store-other : (m : Memory) (a v b : ℕ) → b ≢ a → store a v m b ≡ m b
store-other m a v b ne = rw (ne→== b a ne) refl

store-same : (m : Memory) (a v : ℕ) → store a v m a ≡ v
store-same m a v = rw (==_refl a) refl

store-IsString :
    (m : Memory) (a v j : ℕ) (xs : List ℕ)
    → IsApart a j xs
    → IsString m j xs
    → IsString (store a v m) j xs
store-IsString m a v j [] ap_ h = store-other m a v j (ground arith) ∙ h
store-IsString m a v j (x ∷ xs) ap_ (e, ne, h) =
    (store-other m a v j (ground arith) ∙ e, ne, store-IsString m a v (j + 1) xs (ground arith) h)

-- Nothing below the target is written.
copy_string-below : (k i j : ℕ) (m : Memory) (a : ℕ) → a < i → (copy_string k i j m).1 a ≡ m a
unfolding copy_string
copy_string-below zero i j m a h = store-other m i 0 a (ground arith)
copy_string-below (suc k) i j m a h = elim (Bool-cases (m j == 0)) [
  | inl e ↦ rw e (store-other m i (m j) a (ground arith))
  | inr ne ↦ rw ne (
      copy_string-below k (i + 1) (j + 1) (store i (m j) m) a (omega arith)
      ∙ store-other m i (m j) a (ground arith))
]

-- The target and the source of a copy of at most `k` characters do not overlap.
abbrev pub IsFar : ℕ → ℕ → ℕ → List ℕ → Type 0
IsFar i j k xs = (i + k < j) ⊎ (j + length xs < i)

copy_string-char :
    (k i j : ℕ) (m : Memory) (x : ℕ)
    → m j ≡ x
    → x ≢ 0
    → copy_string (suc k) i j m ≡ copy_string k (i + 1) (j + 1) (store i (m j) m)
unfolding copy_string
copy_string-char k i j m x e ne = rw (not_zero (m j) x e ne) refl

copy_string-IsString :
    (k i j : ℕ) (m : Memory) (xs : List ℕ)
    → IsFar i j k xs
    → IsString m j xs
    → IsString (copy_string k i j m).1 i (take k xs)
unfolding copy_string
copy_string-IsString zero i j m xs far h = store-same m i 0
copy_string-IsString (suc k) i j m [] far h = rw (is_zero (m j) h) (store-same m i (m j) ∙ h)
copy_string-IsString (suc k) i j m (x ∷ xs) far (e, ne, h) =
    subst (λ r. IsString r.1 i (x ∷ take k xs)) (sym (copy_string-char k i j m x e ne))
      (
        copy_string-below k (i + 1) (j + 1) (store i (m j) m) i (omega arith)
            ∙ store-same m i (m j)
            ∙ e,
        ne,
        copy_string-IsString k (i + 1) (j + 1) (store i (m j) m) xs (ground arith)
            (store-IsString m i (m j) (j + 1) xs (ground arith) h),
      )

-- strlcpy leaves at its target the string that its source holds, cut to one character less than the
-- limit, where the limit is not zero and the two do not overlap.
pub strlcpy-take :
    (k i j : ℕ) (m : Memory) (xs : List ℕ)
    → IsFar i j k xs
    → IsString m j xs
    → IsString (strlcpy i j (suc k) m).1 i (take k xs)
unfolding strlcpy
strlcpy-take k i j m xs far h = copy_string-IsString k i j m xs far h
