-- ===== src/Helios/Link/Ring.antt =====
-- A ring of control blocks as the list of their addresses, from the head on.
use cyancore.Common.{
  ◌≡◌, ◌≢◌, inl, inr, Bool, true, false, ◌||◌, List, [], ◌∷◌, ◌++◌, arith, ◌==◌, if◌then◌else◌,
  Bool-cases, subst,
}
use cyancore.Helios.Kernel.{Ptr, Tcbs}
use cyancore.Helios.Link.{LinkType}
use cyancore.Helios.Link.View.{IsBetween}
use cyancore.Helios.Link.Cut.{Joined, IsCut}

abbrev pub has : Ptr → List Ptr → Bool
has a [] = false
has a (x ∷ xs) = (a == x) || has a xs

abbrev pub Distinct : List Ptr → Type 0
Distinct [] = Unit
Distinct (x ∷ xs) = (has x xs ≡ false) × Distinct xs

abbrev pub last_of : Ptr → List Ptr → Ptr
last_of a [] = a
last_of a (x ∷ xs) = last_of x xs

abbrev pub erase : Ptr → List Ptr → List Ptr
erase a [] = []
erase a (x ∷ xs) = if a == x then xs else x ∷ erase a xs

-- From `a` the links lead through `xs` to `b`, and back.
abbrev pub Chain : LinkType → Tcbs → Ptr → List Ptr → Ptr → Type 0
Chain t m a [] b = Joined t m a b
Chain t m a (x ∷ xs) b = Joined t m a x × Chain t m x xs b

pub has-last : (a : Ptr) (xs : List Ptr) → has (last_of a xs) (a ∷ xs) ≡ true
has-last a [] = ground arith
has-last a (x ∷ xs) = ground (arith, has-last x xs)

-- Between the last block and the first there is room for a new one.
pub Chain-insert :
    (t : LinkType) (m m' : Tcbs) (a : Ptr) (xs : List Ptr) (new x last : Ptr)
    → IsBetween t last new x m m'
    → last_of a xs ≡ last
    → has new (a ∷ xs) ≡ false
    → new ≢ x
    → has x xs ≡ false
    → Distinct (a ∷ xs)
    → Chain t m a xs x
    → Chain t m' a (xs ++ new ∷ []) x
Chain-insert t m m' a [] new x last v e out ne head d c = (
  (ground (arith, v.nexts a), ground (arith, v.prevs new)),
  (ground (arith, v.nexts new), ground (arith, v.prevs x)),
)
Chain-insert t m m' a (y ∷ ys) new x last v e out ne head d (j, c) = (
  (ground (arith, v.nexts a, has-last y ys), ground (arith, v.prevs y)),
  Chain-insert t m m' y ys new x last v e (ground arith) ne (ground arith) d.1 c,
)

module _ (t : LinkType) (p node n : Ptr) (m m' : Tcbs) (v : IsCut t p node n m m') where
  Joined-spare : (a b : Ptr) → a ≢ node → b ≢ node → Joined t m a b → Joined t m' a b
  Joined-spare a b na nb j =
      (ground (arith, v.nexts a, v.before), ground (arith, v.prevs b, v.after))

  Joined-bridge :
      (a b : Ptr) → a ≢ node → b ≢ node → Joined t m a node → Joined t m node b → Joined t m' a b
  Joined-bridge a b na nb j k =
      (ground (arith, v.nexts a, v.before, v.after), ground (arith, v.prevs b, v.before, v.after))

  Chain-spare :
      (a : Ptr) (xs : List Ptr) (b : Ptr)
      → a ≢ node
      → has node xs ≡ false
      → b ≢ node
      → Chain t m a xs b
      → Chain t m' a xs b
  Chain-spare a [] b na out nb c = Joined-spare a b na nb c
  Chain-spare a (x ∷ xs) b na out nb (j, c) =
      (Joined-spare a x na (ground arith) j, Chain-spare x xs b (ground arith) (ground arith) nb c)

  -- A chain that ended at the block now ends at the next one.
  pub Chain-close :
      (a : Ptr) (xs : List Ptr)
      → a ≢ node
      → has node xs ≡ false
      → n ≢ node
      → Chain t m a xs node
      → Chain t m' a xs n
  Chain-close a [] na out nn c = Joined-bridge a n na nn c v.after
  Chain-close a (x ∷ xs) na out nn (j, c) =
      (Joined-spare a x na (ground arith) j, Chain-close x xs (ground arith) (ground arith) nn c)

  Chain-drop :
      (a : Ptr) (ys : List Ptr) (b : Ptr)
      → a ≢ node
      → has node ys ≡ false
      → b ≢ node
      → Joined t m a node
      → Chain t m node ys b
      → Chain t m' a ys b
  Chain-drop a [] b na out nb j c = Joined-bridge a b na nb j c
  Chain-drop a (y ∷ ys) b na out nb j (k, c) = (
    Joined-bridge a y na (ground arith) j k,
    Chain-spare y ys b (ground arith) (ground arith) nb c,
  )

  -- A chain that went through the block now passes it by.
  pub Chain-erase :
      (a : Ptr) (xs : List Ptr) (b : Ptr)
      → a ≢ node
      → b ≢ node
      → has node xs ≡ true
      → Distinct xs
      → Chain t m a xs b
      → Chain t m' a (erase node xs) b
  Chain-erase a [] b na nb i d c = absurd (cc)
  Chain-erase a (x ∷ xs) b na nb i d (j, c) = elim (Bool-cases (node == x)) [
    | inl hit ↦
        let e : x ≡ node = ground arith in
        rw hit (
          Chain-drop a xs b na (subst (λ y. has y xs ≡ false) e d.0) nb
            (subst (λ y. Joined t m a y) e j) (subst (λ y. Chain t m y xs b) e c))
    | inr miss ↦ rw miss (
      Joined-spare a x na (ground arith) j,
      Chain-erase x xs b (ground arith) nb (ground arith) d.1 c,
    )
  ]
