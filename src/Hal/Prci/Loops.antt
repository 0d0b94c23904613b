-- ===== src/Hal/Prci/Loops.antt =====
-- What the loops of the search keep, and what they reach.
use cyancore.Common.{
  ℕ, zero, suc, ◌+◌, ◌≤◌, ◌<◌, ◌≡◌, subst, ◌⊎◌, inl, inr, List, [], ◌∷◌, ◌==◌, ==_iff, Bool-cases,
  arith,
}
use cyancore.Hal.Prci.{Search, for_each, count_from}

unfoldable pub InList : ℕ → List ℕ → Type 0
InList x [] = x < 0
InList x (y ∷ ys) = (x ≡ y) ⊎ InList x ys

pub count_from-InList : (low n x : ℕ) → low ≤ x → x < low + n → InList x (count_from low n)
unfolding InList count_from
count_from-InList low zero x h k = absurd (omega (arith, h, k))
count_from-InList low (suc n) x h k = elim (Bool-cases (x == low)) [
  | inl e ↦ inl ((==_iff x low).0 e)
  | inr e ↦ inr (count_from-InList (low + 1) n x (ground (arith, e, h)) (omega (arith, k)))
]

pub for_each-keeps :
    (I : Search → Type 0) (is : List ℕ) (body : ℕ → Search → Search) (s : Search)
    → ((i : ℕ) (s : Search) → I s → I (body i s))
    → I s
    → I (for_each is body s)
unfolding for_each
for_each-keeps I [] body s keep h = h
for_each-keeps I (i ∷ is) body s keep h = for_each-keeps I is body (body i s) keep (keep i s h)

-- A loop whose rounds never raise the distance does not raise it.
pub for_each-nearest :
    (is : List ℕ) (body : ℕ → Search → Search) (s : Search)
    → ((i : ℕ) (s : Search) → (body i s).nearest ≤ s.nearest)
    → (for_each is body s).nearest ≤ s.nearest
unfolding for_each
for_each-nearest [] body s down = omega arith
for_each-nearest (i ∷ is) body s down =
    omega (arith, for_each-nearest is body (body i s) down, down i s)

-- The round of a number in the list brings the distance to a bound, and no later one raises it.
pub for_each-reaches :
    (is : List ℕ) (body : ℕ → Search → Search) (s : Search) (i bound : ℕ)
    → ((i : ℕ) (s : Search) → (body i s).nearest ≤ s.nearest)
    → InList i is
    → ((s : Search) → (body i s).nearest ≤ bound)
    → (for_each is body s).nearest ≤ bound
unfolding for_each InList
for_each-reaches [] body s i bound down h reach = absurd (omega (arith, h))
for_each-reaches (j ∷ is) body s i bound down (inl e) reach =
    let h : (body j s).nearest ≤ bound = subst (λ v. (body v s).nearest ≤ bound) e (reach s) in
    omega (arith, for_each-nearest is body (body j s) down, h)
for_each-reaches (j ∷ is) body s i bound down (inr h) reach =
    for_each-reaches is body (body j s) i bound down h reach
