-- ===== src/Helios/Mutex.antt =====
-- The recursive mutex, src/visor/services/kernel/helios/helios_mutex.c, built with
-- `HELIOS_DYNAMIC`. A caller's `mutex_ptr` variable is passed in and returned.
pub mod Recursive
use cyancore.Common.{ℕ, Bool, true, false, ◌&&◌, not, Option, none, some, ◌==◌, if◌then◌else◌}
use cyancore.Common.Int.{ℤ, pos, negsuc, ◌+ℤ◌, ◌-ℤ◌}
use cyancore.Status.{
  success, error_func_inval_arg, error_memory_low, error_os_mutex_lock, error_os_mutex_unlock,
}
use cyancore.Helios.Kernel.{
  Ptr, null, Mutex, done, fault, M, pure, ◌>>=◌, ◌>>◌, get, modify, set_resource,
}
use cyancore.Helios.Sched.{task_wait}

abbrev mutex_init_val : ℤ
mutex_init_val = pos 1

-- `==` on `int`
abbrev eq_ℤ : ℤ → ℤ → Bool
eq_ℤ (pos a) (pos b) = a == b
eq_ℤ (negsuc a) (negsuc b) = a == b
eq_ℤ _ _ = false

pub load_mutex : Ptr → M Mutex
load_mutex p k = if p == null then fault else elim (k.mutex p) [ none ↦ fault | some m ↦ done m k ]

pub store_mutex : Ptr → Option Mutex → M (Unit {0})
store_mutex p m k = done tt (record k { mutex = λ q. if q == p then m else k.mutex q })

-- `slot` is `*mutex_ptr`, `fresh` what `helios_malloc` returns, and `junk` what the new block holds
-- in the field that is not written.
pub mutex_create : Ptr → Ptr → Ptr → M (ℕ × Ptr)
mutex_create slot fresh junk =
    if not (slot == null)
    then pure (error_func_inval_arg, slot)
    else if fresh == null
    then pure (error_memory_low, fresh)
    else do
      store_mutex fresh
          (some (record { mutex_val = mutex_init_val; mutex_init = true; lock_task = junk }))
      pure (success, fresh)

-- The end of `helios_mutex_lock`, where `lock_flag` is set.
pub take_mutex : Ptr → M ℕ
take_mutex p = do
  m ← load_mutex p
  k ← get
  store_mutex p (some (record m { lock_task = k.curr_task; mutex_val = m.mutex_val -ℤ pos 1 }))
  pure success

-- `rounds` are for the loops of the scheduler, where the task has to wait.
pub mutex_lock : ℕ → Ptr → ℕ → M ℕ
mutex_lock rounds p wait_ticks = if p == null then pure error_func_inval_arg else do
  m ← load_mutex p
  k ← get
  if not m.mutex_init
      then pure error_func_inval_arg
      else if not (eq_ℤ m.mutex_val mutex_init_val) && not (m.lock_task == null)
      then (if wait_ticks == 0
          then pure error_os_mutex_lock
          else if not (m.lock_task == k.curr_task)
          then (do modify k.curr_task (set_resource p); task_wait rounds wait_ticks; pure success)
          else take_mutex p)
      else take_mutex p

pub mutex_unlock : Ptr → M ℕ
mutex_unlock p = if p == null then pure error_func_inval_arg else do
  m ← load_mutex p
  k ← get
  if not m.mutex_init
      then pure error_func_inval_arg
      else if not (m.lock_task == k.curr_task)
      then pure error_os_mutex_unlock
      else do
        let val = m.mutex_val +ℤ pos 1
        store_mutex p (
            some (record m {
              mutex_val = val;
              lock_task = if eq_ℤ val mutex_init_val then null else m.lock_task;
            }))
        pure success

-- A failed assertion leaves the mutex; otherwise the block is marked and freed.
pub mutex_delete : Ptr → M ℕ
mutex_delete p = if p == null then pure error_func_inval_arg else do
  m ← load_mutex p
  if not m.mutex_init then pure error_func_inval_arg else (do store_mutex p none; pure success)

-- The status and what is written to `*val`, if anything is.
pub mutex_get_val : Ptr → Ptr → M (ℕ × Option ℤ)
mutex_get_val p val = if p == null then pure (error_func_inval_arg, none) else do
  m ← load_mutex p
  if not m.mutex_init
      then pure (error_func_inval_arg, none)
      else if val == null
      then pure (error_func_inval_arg, none)
      else pure (success, some m.mutex_val)
