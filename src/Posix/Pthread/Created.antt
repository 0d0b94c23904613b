-- ===== src/Posix/Pthread/Created.antt =====
-- What pthread_create of src/lib/libposix/src/posix_pthread.c asks of the kernel and returns.
use cyancore.Common.{ℕ, suc, ◌≡◌, ◌∷◌, Bool, true, false, some, leb, ◌==◌, if◌then◌else◌, refl}
use cyancore.Posix.Errno.{ok, minus_ebusy, minus_eagain}
use cyancore.Posix.Kernel.{Kernel, World, pthread_create, mutex_lock, mutex_unlock}
use cyancore.Posix.Pthread.{Thread, AttrAt, min_stack_size, create}

module _ (kernel : Kernel) (t : Thread) (a : AttrAt) (start arg : ℕ) (w : World) where
  -- Where the stack is large enough and the lock is taken, pthread_create makes three calls, the lock, the
  -- creation and the unlock, and returns SUCCESS where the last two succeed, -EBUSY where the
  -- unlock is refused, and -EAGAIN otherwise; the thread has the id of
  -- the kernel if the creation succeeded, and its old one otherwise.
  pub create-calls :
      leb min_stack_size a.value.stacksize ≡ true
      → (kernel w.count mutex_lock).status ≡ 0
      → let made = kernel (suc w.count) (pthread_create start arg a.value.stacksize) in
        let freed = kernel (suc (suc w.count)) mutex_unlock in
        let r = create kernel (some t) (some a) start arg w in
        (r.1.calls
          ≡ mutex_unlock ∷ pthread_create start arg a.value.stacksize ∷ mutex_lock ∷ w.calls)
        × (r.0.0 ≡ (
            if freed.status == 0
            then (if made.status == 0 then ok else minus_eagain)
            else minus_ebusy))
        × (r.0.1 ≡ (
            if made.status == 0
            then some (record { attr = a.address; fn = start; pid = made.size })
            else some (record t { attr = a.address })))
  unfolding create
  create-calls large l = rw (large, l) (refl, refl, some_if _ _ _)
    where
      some_if :
          (b : Bool) (x y : Thread) → some (if b then x else y) ≡ (if b then some x else some y)
      some_if true x y = refl
      some_if false x y = refl
