-- ===== src/Driver/Sysclk/Leave.antt =====
-- A callback that is taken out of the chain.
use cyancore.Common.{
  ℕ, zero, suc, ◌<◌, ◌≡◌, ◌≢◌, refl, sym, ◌∙◌, some, List, [], ◌∷◌, ◌++◌, ne→==, ==_refl, length,
  arith,
}
use cyancore.Status.{success}
use cyancore.Driver.Sysclk.{Clock, null, set_next, find_before, deregister_callback}
use cyancore.Driver.Sysclk.Chain.{IsChain, IsNew, IsDistinct, last, last-new, next-other}

IsNew-left : (a : ℕ) (xs ys : List ℕ) → IsNew a (xs ++ ys) → IsNew a xs
IsNew-left a [] ys h = tt
IsNew-left a (x ∷ xs) ys (ne, h) = (ne, IsNew-left a xs ys h)

IsNew-right : (a : ℕ) (xs ys : List ℕ) → IsNew a (xs ++ ys) → IsNew a ys
IsNew-right a [] ys h = h
IsNew-right a (x ∷ xs) ys (ne, h) = IsNew-right a xs ys h

IsNew-middle : (n : ℕ) (xs ys : List ℕ) → IsDistinct (xs ++ n ∷ ys) → IsNew n xs
IsNew-middle n [] ys h = tt
IsNew-middle n (x ∷ xs) ys (fresh, h) =
    ((λ e. (IsNew-right x xs (n ∷ ys) fresh).0 (sym e)), IsNew-middle n xs ys h)

-- The loop ends at the node before the one that it looks for.
find_before-last :
    (f x n : ℕ) (xs ys : List ℕ) (s : Clock)
    → length xs < f
    → IsChain s.next (s.next x) (xs ++ n ∷ ys)
    → IsNew n xs
    → find_before f x n s ≡ some (some (last x xs))
unfolding find_before
find_before-last zero x n xs ys s b h new = elim b [ ]
find_before-last (suc f) x n [] ys s b (e, nn, h) new = rw (e, ne→== n null nn, ==_refl n) refl
find_before-last (suc f) x n (y ∷ xs) ys s b (e, ny, h) (ne, new) =
    rw (e, ne→== y null ny, ne→== y n (λ q. ne (sym q)))
      (find_before-last f y n xs ys s (omega arith) h new)

-- A chain without the node is left as it is.
IsChain-other :
    (p q a : ℕ) (xs : List ℕ) (s : Clock)
    → IsNew p xs
    → IsChain s.next a xs
    → IsChain (set_next p q s).next a xs
IsChain-other p q a [] s new h = h
IsChain-other p q a (x ∷ xs) s (ne, new) (e, nx, h) =
    (e, nx, rw (next-other p q x s (λ w. ne (sym w))) (IsChain-other p q (s.next x) xs s new h))

set_next-skip :
    (x n : ℕ) (xs ys : List ℕ) (s : Clock)
    → IsDistinct (x ∷ xs ++ n ∷ ys)
    → IsChain s.next (s.next x) (xs ++ n ∷ ys)
    → IsChain
        (set_next (last x xs) (s.next n) s).next
        ((set_next (last x xs) (s.next n) s).next x)
        (xs ++ ys)
set_next-skip x n [] ys s ((ne, fresh), dis) (e, nn, h) =
    rw (==_refl x) (IsChain-other x (s.next n) (s.next n) ys s fresh h)
set_next-skip x n (y ∷ xs) ys s (fresh, dis) (e, ny, h) = (
  next-other (last y xs) (s.next n) x s (last-new x y xs (IsNew-left x (y ∷ xs) (n ∷ ys) fresh))
      ∙ e,
  ny,
  set_next-skip y n xs ys s dis h,
)

-- Taking out a node behind the first one succeeds and leaves the others in their order, where no
-- node is in the list twice and there are more rounds than nodes between the two.
pub deregister_callback-IsChain :
    (f n : ℕ) (xs ys : List ℕ) (s : Clock)
    → length xs < f
    → s.root ≢ null
    → IsChain s.next (s.next s.root) (xs ++ n ∷ ys)
    → IsDistinct (s.root ∷ xs ++ n ∷ ys)
    → (t : Clock) × (deregister_callback f n s ≡ some (success, t))
      × IsChain t.next t.root (s.root ∷ xs ++ ys)
unfolding deregister_callback
deregister_callback-IsChain f n xs ys s b nr h dis = (
  set_next (last s.root xs) (s.next n) s,
  rw
      (
        ne→== s.root null nr,
        ne→== s.root n (IsNew-right s.root xs (n ∷ ys) dis.0).0,
        find_before-last f s.root n xs ys s b h (IsNew-middle n xs ys dis.1),
      )
      refl,
  (refl, nr, set_next-skip s.root n xs ys s dis h),
)
