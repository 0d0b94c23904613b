-- ===== src/Posix/Semaphore/Timed.antt =====
-- What the timed loop of src/lib/libposix/src/posix_semaphore.c returns, for any answers of the kernel.
use cyancore.Common.{
  ℕ, zero, suc, Bool, false, some, ◌==◌, if◌then◌else◌, ◌≡◌, ◌≢◌, inl, inr, arith, ◌∷◌, ne→==,
  Bool-cases,
}
use cyancore.Posix.Errno.{ok, minus_etimedout}
use cyancore.Posix.Timespec.{Timespec, timespec_to_ticks}
use cyancore.Posix.Kernel.{Kernel, World, M, sem_wait}
use cyancore.Posix.Semaphore.{
  Sem, timed_loop, try_wait, sem_attempt, timedwait_ticks, timedwait, wait, os_delay_ticks,
}

module _ (kernel : Kernel) where
  pub timed_loop-ok :
      (attempt : M Bool) (ticks : ℕ) (w : World)
      → (timed_loop kernel attempt false (suc ticks) w).0 ≡ ok
  unfolding timed_loop
  timed_loop-ok attempt zero w = elim (Bool-cases (attempt w).0) [ inl e ↦ rw (e) | inr e ↦ rw (e) ]
  timed_loop-ok attempt (suc ticks) w = elim (Bool-cases (attempt w).0) [
    | inl e ↦ rw (e)
    | inr e ↦ rw (
      e,
      ne→== (suc ticks) 0 (λ e. omega (arith, e)),
      timed_loop-ok attempt ticks ((os_delay_ticks kernel 1 (attempt w).1).1),
    )
  ]

  -- For a semaphore with an id other than zero and a time that converts into a positive number of
  -- ticks, sem_timedwait returns SUCCESS, whatever the kernel answers to its calls.
  pub timedwait-ok :
      (sem : Sem) (t : Timespec) (ticks : ℕ) (w : World)
      → sem.id ≢ 0
      → timespec_to_ticks (some t) (some 0) ≡ (ok, some (suc ticks))
      → (timedwait kernel (some sem) (some t) w).0 ≡ ok
  unfolding timedwait timedwait_ticks
  timedwait-ok sem t ticks w ne e =
      rw (ne→== sem.id 0 ne, e, timed_loop-ok (sem_attempt kernel (some sem)) ticks w)

  -- For a semaphore with an id other than zero, sem_wait makes one call of the kernel, and returns
  -- SUCCESS where that succeeds and the time-out otherwise.
  pub wait-once :
      (sem : Sem) (w : World)
      → sem.id ≢ 0
      → wait kernel (some sem) w ≡ (
        (if (kernel w.count (sem_wait sem.id)).status == 0 then ok else minus_etimedout),
        record w { count = suc w.count; calls = sem_wait sem.id ∷ w.calls },
      )
  unfolding wait timedwait timed_loop try_wait sem_attempt
  wait-once sem w ne = rw (ne→== sem.id 0 ne)
