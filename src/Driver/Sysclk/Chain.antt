-- ===== src/Driver/Sysclk/Chain.antt =====
-- The list of callbacks as a chain, which a registered callback joins at its end.
use cyancore.Common.{
  ℕ, zero, suc, ◌<◌, ◌≡◌, ◌≢◌, refl, sym, ◌∙◌, true, ◌&&◌, some, List, [], ◌∷◌, ◌++◌, ne→==,
  ==_refl, length, arith,
}
use cyancore.Status.{success}
use cyancore.Driver.Sysclk.{Clock, Callback, null, is_set, set_next, find_end, register_callback}

-- The nodes from an address to the end of the list.
abbrev pub IsChain : (ℕ → ℕ) → ℕ → List ℕ → Type 0
IsChain next p [] = p ≡ null
IsChain next p (x ∷ xs) = (p ≡ x) × (x ≢ null) × IsChain next (next x) xs

abbrev pub IsNew : ℕ → List ℕ → Type 0
IsNew n [] = Unit
IsNew n (x ∷ xs) = (n ≢ x) × IsNew n xs

abbrev pub IsDistinct : List ℕ → Type 0
IsDistinct [] = Unit
IsDistinct (x ∷ xs) = IsNew x xs × IsDistinct xs

abbrev pub last : ℕ → List ℕ → ℕ
last x [] = x
last x (y ∷ ys) = last y ys

-- The loop ends at the last node, where the new one is not in the list.
find_end-last :
    (f x n : ℕ) (xs : List ℕ) (s : Clock)
    → length xs < f
    → IsChain s.next (s.next x) xs
    → IsNew n xs
    → find_end f x n s ≡ some (some (last x xs))
unfolding find_end
find_end-last zero x n xs s b h new = elim b [ ]
find_end-last (suc f) x n [] s b h new = rw h refl
find_end-last (suc f) x n (y ∷ ys) s b (e, ny, h) (ne, new) =
    rw (e, ne→== y null ny, ne→== y n (λ q. ne (sym q)))
      (find_end-last f y n ys s (omega arith) h new)

pub last-new : (x y : ℕ) (ys : List ℕ) → IsNew x (y ∷ ys) → x ≢ last y ys
last-new x y [] (ne, new) = ne
last-new x y (z ∷ zs) (ne, new) = last-new x z zs new

pub next-other : (p q a : ℕ) (s : Clock) → a ≢ p → (set_next p q s).next a ≡ s.next a
next-other p q a s ne = rw (ne→== a p ne) refl

-- Linking the new node behind the last one.
set_next-IsChain :
    (x n : ℕ) (xs : List ℕ) (s : Clock)
    → IsDistinct (x ∷ xs)
    → IsChain s.next (s.next x) xs
    → IsNew n (x ∷ xs)
    → n ≢ null
    → s.next n ≡ null
    → IsChain (set_next (last x xs) n s).next ((set_next (last x xs) n s).next x) (xs ++ n ∷ [])
set_next-IsChain x n [] s dis h (ne, new) nn end =
    (rw (==_refl x) refl, nn, next-other x n n s ne ∙ end)
set_next-IsChain x n (y ∷ ys) s (fresh, dis) (e, ny, h) (ne, new) nn end = (
  next-other (last y ys) n x s (last-new x y ys fresh) ∙ e,
  ny,
  set_next-IsChain y n ys s dis h new nn end,
)

-- Registering a node that is not in the list succeeds and puts it at the end, where the list is
-- not empty, the node has both of its functions and no successor, and there are as many rounds as
-- nodes.
pub register_callback-IsChain :
    (f n : ℕ) (c : Callback) (xs : List ℕ) (s : Clock)
    → (is_set c.pre_config && is_set c.post_config) ≡ true
    → length xs < f
    → s.root ≢ null
    → IsChain s.next (s.next s.root) xs
    → IsDistinct (s.root ∷ xs)
    → IsNew n (s.root ∷ xs)
    → n ≢ null
    → s.next n ≡ null
    → (t : Clock) × (register_callback f c n s ≡ some (success, t))
      × IsChain t.next t.root (s.root ∷ xs ++ n ∷ [])
unfolding register_callback
register_callback-IsChain f n c xs s set b nr h dis (ne, new) nn end = (
  set_next (last s.root xs) n s,
  rw (set, ne→== s.root null nr, find_end-last f s.root n xs s b h new) refl,
  (refl, nr, set_next-IsChain s.root n xs s dis h (ne, new) nn end),
)
