-- ===== src/Posix/Semaphore.antt =====
-- The semaphores of src/lib/libposix/src/posix_semaphore.c. A pointer is none where it is null; a
-- function that writes to `*sem` returns it beside its status.
pub mod Timed
use cyancore.Common.{ℕ, zero, suc, Bool, true, false, Option, none, some, ◌==◌, if◌then◌else◌}
use cyancore.Common.Int.{ℤ, pos}
use cyancore.Posix.Errno.{ok, minus_einval, minus_etimedout, is_ok}
use cyancore.Posix.Timespec.{Timespec, timespec_to_ticks}
use cyancore.Posix.Kernel.{
  Kernel, Sret, M, ◌>>=◌, ◌>>◌, pure, super_call, sem_init, sem_destroy, sem_getvalue, sem_post,
  sem_wait, pthread_delay_ticks,
}

-- `sem_t`
pub record Sem : Type 0 where
  pub id : ℕ
  pub value : ℕ

-- `posixconfigMAX_DELAY`, unless `IS_ISR()`, which is the constant `true`
abbrev pub ticks_without_time : ℕ
ticks_without_time = 0

module _ (kernel : Kernel) where
  -- `os_delay_ticks`, whose status nothing uses
  abbrev pub os_delay_ticks : ℕ → M (Unit {0})
  os_delay_ticks ticks = do r ← super_call kernel (pthread_delay_ticks ticks); pure tt

  -- The `do` loop that the timed functions share: `attempt` says whether it has succeeded. The loop
  -- ends when the ticks are used up; only a loop without any has a time-out.
  unfoldable pub timed_loop : M Bool → Bool → ℕ → M ℤ
  timed_loop attempt nonblock zero = do done ← attempt; pure (if done then ok else minus_etimedout)
  timed_loop attempt nonblock (suc ticks) =
      let rest = timed_loop attempt nonblock ticks in
      do
        done ← attempt
        if done
            then pure ok
            else if nonblock
            then pure minus_etimedout
            else (do os_delay_ticks 1; if ticks == 0 then pure ok else rest)

  -- `s_sem_wait`
  unfoldable pub try_wait : Option Sem → M ℤ
  try_wait none = pure minus_einval
  try_wait (some sem) =
      if sem.id == 0
      then pure minus_einval
      else do r ← super_call kernel (sem_wait sem.id); pure (pos r.status)

  unfoldable pub sem_attempt : Option Sem → M Bool
  unfolding try_wait
  sem_attempt sem = do r ← try_wait sem; pure (is_ok r)

  unfoldable pub destroy : Option Sem → M (ℤ × Option Sem)
  destroy none = pure (minus_einval, none)
  destroy (some sem) = if sem.id == 0 then pure (minus_einval, some sem) else do
    r ← super_call kernel (sem_destroy sem.id)
    pure (if r.status == 0 then (ok, some (record sem { id = 0 })) else (pos r.status, some sem))

  -- The second result is `*sem`, the third what is written to `*sval`, if anything is.
  unfoldable pub getvalue : Option Sem → M (ℤ × Option Sem × Option ℕ)
  getvalue none = pure (minus_einval, none, none)
  getvalue (some sem) = do
    r ← super_call kernel (sem_getvalue sem.id)
    pure (
        if r.status == 0
        then (ok, some (record sem { value = r.p }), some r.p)
        else (pos r.status, some sem, none))

  unfoldable pub init : Option Sem → ℕ → M (ℤ × Option Sem)
  init none value = pure (minus_einval, none)
  init (some sem) value =
      if sem.id == 0
      then (do
        r ← super_call kernel (sem_init value)
        pure (
            if r.status == 0
            then (ok, some (record sem { id = r.size }))
            else (pos r.status, some sem)))
      else pure (minus_einval, some sem)

  unfoldable pub post : Option Sem → M ℤ
  post none = pure minus_einval
  post (some sem) =
      if sem.id == 0
      then pure minus_einval
      else do r ← super_call kernel (sem_post sem.id); pure (pos r.status)

  unfoldable pub timedwait_ticks : Option Sem → ℤ × Option ℕ → M ℤ
  unfolding timed_loop sem_attempt
  timedwait_ticks sem (status, none) = pure minus_einval
  timedwait_ticks sem (status, some ticks) =
      if is_ok status then timed_loop (sem_attempt sem) false ticks else pure minus_einval

  unfoldable pub timedwait : Option Sem → Option Timespec → M ℤ
  unfolding timed_loop sem_attempt
  timedwait none abstime = pure minus_einval
  timedwait (some sem) none =
      if sem.id == 0
      then pure minus_einval
      else timed_loop (sem_attempt (some sem)) false ticks_without_time
  timedwait (some sem) (some t) =
      if sem.id == 0
      then pure minus_einval
      else timedwait_ticks (some sem) (timespec_to_ticks (some t) (some 0))

  unfoldable pub trywait : Option Sem → M ℤ
  trywait sem = timedwait sem none

  unfoldable pub wait : Option Sem → M ℤ
  wait sem = timedwait sem none
