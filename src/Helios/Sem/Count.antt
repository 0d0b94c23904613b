-- ===== src/Helios/Sem/Count.antt =====
-- helios_sem.c as a counter: tokens are given and taken, and none is lost or made up.
use cyancore.Common.{
  ℕ, zero, suc, ◌+◌, ◌-◌, ◌%◌, ◌^◌, ◌<◌, ◌≡◌, refl, ◌≢◌, true, false, some, arith, ◌==◌,
  if◌then◌else◌, List, [], ◌∷◌, length, ne→==,
}
use cyancore.Status.{success, error_os_sem_get}
use cyancore.Helios.Kernel.{Ptr, null, Kernel, Run, done, M, pure, ◌>>=◌}
use cyancore.Helios.Sem.{load_sem, store_sem, sem_take, sem_give}

-- The semaphore at `p` is live and holds `n` tokens.
abbrev pub SemIs : Kernel → Ptr → ℕ → Type 0
SemIs k p n = k.sem p ≡ some (record { sem_val = n; sem_init = true })

pub data SemOp : Type 0 where
  give try_take : SemOp

-- A take that does not wait.
abbrev sem_op : Ptr → SemOp → M ℕ
sem_op p give = sem_give p
sem_op p try_take = sem_take 0 p 0

-- A sequence of operations, and the statuses that it returns.
pub sem_ops : Ptr → List SemOp → M (List ℕ)
sem_ops p [] = pure []
sem_ops p (o ∷ os) = do r ← sem_op p o; rs ← sem_ops p os; pure (r ∷ rs)

-- The gives among the operations, and the takes among them that succeeded.
abbrev pub gives : List SemOp → ℕ
gives [] = 0
gives (give ∷ os) = suc (gives os)
gives (try_take ∷ os) = gives os

abbrev pub taken : List SemOp → List ℕ → ℕ
taken (try_take ∷ os) (r ∷ rs) = (if r == success then 1 else 0) + taken os rs
taken (give ∷ os) (r ∷ rs) = taken os rs
taken _ _ = 0

abbrev put : Kernel → Ptr → ℕ → Kernel
put k p n = record k {
  sem = λ q. if q == p then some (record { sem_val = n; sem_init = true }) else k.sem q;
}

put-SemIs : (k : Kernel) (p : Ptr) (n : ℕ) → SemIs (put k p n) p n
put-SemIs k p n = ground arith

module _ (k : Kernel) (p : Ptr) (ne : p ≢ null) {n : ℕ} (i : SemIs k p n) where
  load_sem-ok : load_sem p k ≡ done (record { sem_val = n; sem_init = true }) k
  unfolding load_sem
  load_sem-ok = rw (ne→== p null ne, i)

  give-suc : n + 1 < 2 ^ 32 → sem_give p k ≡ done success (put k p (n + 1))
  unfolding sem_give store_sem
  give-suc h =
      let e : (n + 1) % 2 ^ 32 ≡ n + 1 = omega arith in rw (ne→== p null ne, load_sem-ok) (rw e)

  take-empty : (rounds : ℕ) → n ≡ 0 → sem_take rounds p 0 k ≡ done error_os_sem_get k
  unfolding sem_take
  take-empty rounds e =
      let t : (n == 0) ≡ true = ground arith in rw (ne→== p null ne, load_sem-ok) (rw t)

take-some :
    (k : Kernel) (p : Ptr) (n rounds ticks : ℕ)
    → p ≢ null
    → SemIs k p (suc n)
    → sem_take rounds p ticks k ≡ done success (put k p n)
unfolding sem_take store_sem
take-some k p n rounds ticks ne i =
    let t : (suc n == 0) ≡ false = ground arith in
    let e : suc n - 1 ≡ n = omega arith in rw (ne→== p null ne, load_sem-ok k p ne i) (rw (t, e))

-- The tokens after a sequence of operations are accounted for.
abbrev pub Balanced : Ptr → ℕ → List SemOp → Run (List ℕ) → Type 0
Balanced p n os run =
    (rs : List ℕ) × (k' : Kernel) × (m : ℕ) × (run ≡ done rs k')
    × SemIs k' p m
    × (m + taken os rs ≡ n + gives os)
    × (length rs ≡ length os)

sem_ops_nil : (p : Ptr) (k : Kernel) → sem_ops p [] k ≡ done [] k
unfolding sem_ops
sem_ops_nil p k = refl

-- A first operation that returned `r`, before the rest.
Balanced-cons :
    (p : Ptr) (n m r : ℕ) (o : SemOp) (os : List SemOp) (k k₁ : Kernel)
    → sem_op p o k ≡ done r k₁
    → m + taken (o ∷ []) (r ∷ []) ≡ n + gives (o ∷ [])
    → Balanced p m os (sem_ops p os k₁)
    → Balanced p n (o ∷ os) (sem_ops p (o ∷ os) k)
unfolding sem_ops
Balanced-cons p n m r give os k k₁ run h (rs, k', m', rest, i, b, l) =
    (r ∷ rs, k', m', rw run (rw rest), i, omega arith, omega arith)
Balanced-cons p n m r try_take os k k₁ run h (rs, k', m', rest, i, b, l) =
    (r ∷ rs, k', m', rw run (rw rest), i, omega arith, omega arith)

-- After any sequence of gives and of takes that do not wait, from `n` tokens and with no overflow of
-- the 32-bit value, the tokens left and those taken are the `n` and those given. Every operation
-- returns, and the value never runs below 0.
pub sem_ops-Balanced :
    (p : Ptr) (k : Kernel) (n : ℕ) (os : List SemOp)
    → p ≢ null
    → SemIs k p n
    → n + length os < 2 ^ 32
    → Balanced p n os (sem_ops p os k)
sem_ops-Balanced p k n [] ne i h = ([], k, n, sem_ops_nil p k, i, omega arith, refl)
sem_ops-Balanced p k n (give ∷ os) ne i h =
    Balanced-cons p n (n + 1) success give os k (put k p (n + 1)) (give-suc k p ne i (omega arith))
      (omega arith)
      (sem_ops-Balanced p (put k p (n + 1)) (n + 1) os ne (put-SemIs k p (n + 1)) (omega arith))
sem_ops-Balanced p k zero (try_take ∷ os) ne i h =
    Balanced-cons p 0 0 error_os_sem_get try_take os k k (take-empty k p ne i 0 refl) refl
      (sem_ops-Balanced p k 0 os ne i (omega arith))
sem_ops-Balanced p k (suc n) (try_take ∷ os) ne i h =
    Balanced-cons p (suc n) n success try_take os k (put k p n) (take-some k p n 0 0 ne i)
      (omega arith) (sem_ops-Balanced p (put k p n) n os ne (put-SemIs k p n) (omega arith))
