-- ===== src/Libc/Strings/Equal.antt =====
-- strcmp finds out whether two strings are equal.
use cyancore.Common.{
  ℕ, zero, suc, ◌+◌, ◌<◌, ◌≡◌, ◌≢◌, ◌↔◌, sym, ap₂, refl, true, false, ◌==◌, some, List, [], ◌∷◌,
  length, arith, Bool-cases, inl, inr,
}
use cyancore.Common.Int.{ℤ, pos, ◌-ℤ◌}
use cyancore.Libc.String.{Memory}
use cyancore.Libc.Strings.{IsString, strcmp}

diff_nonzero : (a b : ℕ) → (a == b) ≡ false → pos a -ℤ pos b ≢ pos 0
unfolding ◌-ℤ◌
diff_nonzero a b h = ground arith

same_bytes : (a b c : ℕ) → a ≡ c → b ≡ c → (a == b) ≡ true
same_bytes a b c h k = ground arith

pub is_zero : (a : ℕ) → a ≡ 0 → (a == 0) ≡ true
is_zero a h = ground arith

pub not_zero : (a x : ℕ) → a ≡ x → x ≢ 0 → (a == 0) ≡ false
not_zero a x h ne = ground arith

-- What strcmp answers about two strings.
abbrev pub IsAnswer : List ℕ → List ℕ → ℤ → Type 0
IsAnswer xs ys r = (r ≡ pos 0) ↔ (xs ≡ ys)

cons≢nil : (x : ℕ) (xs : List ℕ) → (x ∷ xs) ≢ []
cons≢nil x xs e = cc

head_eq : (x y : ℕ) (xs ys : List ℕ) → (x ∷ xs) ≡ (y ∷ ys) → x ≡ y
head_eq x y xs ys e = cc

tail_eq : (x y : ℕ) (xs ys : List ℕ) → (x ∷ xs) ≡ (y ∷ ys) → xs ≡ ys
tail_eq x y xs ys e = cc

-- Where the first bytes differ, so do the strings.
strcmp_differ :
    (f i j : ℕ) (m : Memory) (xs ys : List ℕ)
    → (m i == m j) ≡ false
    → xs ≢ ys
    → (r : ℤ) × (strcmp (suc f) i j m ≡ some r) × IsAnswer xs ys r
unfolding strcmp
strcmp_differ f i j m xs ys h ne = (
  pos (m i) -ℤ pos (m j),
  rw h refl,
  (λ z. absurd (diff_nonzero (m i) (m j) h z), λ e. absurd (ne e)),
)

-- With more rounds than the first string has characters, strcmp returns a number, and the number is
-- zero exactly where the two strings are equal.
pub strcmp-IsAnswer :
    (f i j : ℕ) (m : Memory) (xs ys : List ℕ)
    → length xs < f
    → IsString m i xs
    → IsString m j ys
    → (r : ℤ) × (strcmp f i j m ≡ some r) × IsAnswer xs ys r
unfolding strcmp
strcmp-IsAnswer zero i j m xs ys b hx hy = elim b [ ]
strcmp-IsAnswer (suc f) i j m [] [] b hx hy =
    (pos 0, rw (same_bytes (m i) (m j) 0 hx hy, is_zero (m i) hx) refl, (λ z. refl, λ e. refl))
strcmp-IsAnswer (suc f) i j m [] (y ∷ ys) b hx (ey, ny, hy) =
    strcmp_differ f i j m [] (y ∷ ys) (ground arith) (λ e. cons≢nil y ys (sym e))
strcmp-IsAnswer (suc f) i j m (x ∷ xs) [] b (ex, nx, hx) hy =
    strcmp_differ f i j m (x ∷ xs) [] (ground arith) (cons≢nil x xs)
strcmp-IsAnswer (suc f) i j m (x ∷ xs) (y ∷ ys) b (ex, nx, hx) (ey, ny, hy) =
    elim (Bool-cases (m i == m j)) [
      | inl e ↦
          let (r, run, ans) = strcmp-IsAnswer f (i + 1) (j + 1) m xs ys (omega arith) hx hy in
          let same : x ≡ y = ground arith in
          (
            r,
            rw (e, not_zero (m i) x ex nx) run,
            (λ z. ap₂ (λ a l. a ∷ l) same (ans.0 z), λ q. ans.1 (tail_eq x y xs ys q)),
          )
      | inr ne ↦
          strcmp_differ f i j m (x ∷ xs) (y ∷ ys) ne
            (λ q. let h = head_eq x y xs ys q in ground arith)
    ]
