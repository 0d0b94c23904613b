-- ===== src/Posix/Mqueue/Lost.antt =====
-- What a timed function of src/lib/libposix/src/posix_mqueue.c does on a queue that was opened for the
-- one direction alone.
use cyancore.Common.{ℕ, zero, suc, List, ◌∷◌, Bool, false, some, ◌≡◌, refl, arith, ne→==}
use cyancore.Common.Int.{ℤ}
use cyancore.Posix.Errno.{ok}
use cyancore.Posix.Timespec.{Timespec, timespec_to_ticks}
use cyancore.Posix.Kernel.{
  Kernel, World, M, pure, pthread_delay_ticks, mutex_lock, mutex_unlock, super_call,
}
use cyancore.Posix.Semaphore.{timed_loop, os_delay_ticks}
use cyancore.Posix.Mqueue.{
  Section, has_flag, o_rdonly, o_nonblock, queue_write, timed, with_ticks, timedsend, acquire_lock,
  release_lock,
}

-- `n` calls that wait for a tick
abbrev pub waited : ℕ → World → World
waited zero w = w
waited (suc n) w =
    waited n (record w { count = suc w.count; calls = pthread_delay_ticks 1 ∷ w.calls })

module _ (kernel : Kernel) where
  timed_loop-waited :
      (ticks : ℕ) (w : World)
      → timed_loop kernel (pure false) false (suc ticks) w ≡ (ok, waited (suc ticks) w)
  unfolding timed_loop
  timed_loop-waited zero w = refl
  timed_loop-waited (suc ticks) w = rw (
    ne→== (suc ticks) 0 (λ e. omega (arith, e)),
    timed_loop-waited ticks (os_delay_ticks kernel 1 w).1,
  )

  abbrev pub locked : World → World
  locked w = (super_call kernel mutex_lock w).1

  abbrev pub unlocked : World → World
  unlocked w = (super_call kernel mutex_unlock w).1

  timed-loop :
      (q : Section) (attempt : M Bool) (ticks : ℕ) (w w' : World) (r : ℤ)
      → (kernel w.count mutex_lock).status ≡ 0
      → timed_loop kernel attempt (has_flag q.attr.mq_flags o_nonblock) ticks (locked w) ≡ (r, w')
      → (kernel w'.count mutex_unlock).status ≡ 0
      → timed kernel q attempt ticks w ≡ (r, unlocked w')
  unfolding timed acquire_lock release_lock
  timed-loop q attempt ticks w w' r l e u = rw (l, e, u)

  -- Where mq_timedsend is called with a time that is a positive number of ticks, on a queue that was
  -- opened without the bit of O_RDONLY and without O_NONBLOCK, and the lock is taken and released, it
  -- returns SUCCESS after it waited through all the ticks and made no other call: nothing was sent.
  pub timedsend-lost :
      (q : Section) (msg : List ℕ) (n prio : ℕ) (t : Timespec) (ticks : ℕ) (w : World)
      → has_flag q.attr.mq_flags o_rdonly ≡ false
      → has_flag q.attr.mq_flags o_nonblock ≡ false
      → timespec_to_ticks (some t) (some 0) ≡ (ok, some (suc ticks))
      → (kernel w.count mutex_lock).status ≡ 0
      → (kernel (waited (suc ticks) (locked w)).count mutex_unlock).status ≡ 0
      → timedsend kernel (some q) (some msg) (suc n) prio (some t) w
        ≡ (ok, unlocked (waited (suc ticks) (locked w)))
  unfolding timedsend with_ticks queue_write
  timedsend-lost q msg n prio t ticks w write block e l u =
      rw (e, write)
        (timed-loop q (pure false) (suc ticks) w (waited (suc ticks) (locked w)) ok l
          (rw (block) (timed_loop-waited ticks (locked w))) u)
