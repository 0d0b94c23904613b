-- ===== src/Helios/Sem.antt =====
-- The counting semaphore, src/visor/services/kernel/helios/helios_sem.c, built with
-- `HELIOS_DYNAMIC`. The value is a `size_t` of 32 bits.
pub mod Count
use cyancore.Common.{
  ℕ, ◌+◌, ◌-◌, ◌%◌, ◌^◌, Bool, true, false, not, Option, none, some, ◌==◌, if◌then◌else◌,
}
use cyancore.Status.{success, error_func_inval_arg, error_memory_low, error_os_sem_get}
use cyancore.Helios.Kernel.{
  Ptr, null, Sem, done, fault, M, pure, ◌>>=◌, ◌>>◌, get, modify, set_resource,
}
use cyancore.Helios.Sched.{task_wait}

pub load_sem : Ptr → M Sem
load_sem p k = if p == null then fault else elim (k.sem p) [ none ↦ fault | some s ↦ done s k ]

pub store_sem : Ptr → Option Sem → M (Unit {0})
store_sem p s k = done tt (record k { sem = λ q. if q == p then s else k.sem q })

-- `slot` is `*sem_ptr` and `fresh` what `helios_malloc` returns.
pub sem_create : Ptr → Ptr → ℕ → M (ℕ × Ptr)
sem_create slot fresh init_val =
    if not (slot == null)
    then pure (error_func_inval_arg, slot)
    else if fresh == null
    then pure (error_memory_low, fresh)
    else do
      store_sem fresh (some (record { sem_val = init_val; sem_init = true }))
      pure (success, fresh)

-- `rounds` are for the loops of the scheduler, where the task has to wait.
pub sem_take : ℕ → Ptr → ℕ → M ℕ
sem_take rounds p wait_ticks = if p == null then pure error_func_inval_arg else do
  s ← load_sem p
  k ← get
  if not s.sem_init
      then pure error_func_inval_arg
      else if s.sem_val == 0
      then (if wait_ticks == 0
          then pure error_os_sem_get
          else do modify k.curr_task (set_resource p); task_wait rounds wait_ticks; pure success)
      else do store_sem p (some (record s { sem_val = s.sem_val - 1 })); pure success

pub sem_give : Ptr → M ℕ
sem_give p = if p == null then pure error_func_inval_arg else do
  s ← load_sem p
  if not s.sem_init
      then pure error_func_inval_arg
      else do store_sem p (some (record s { sem_val = (s.sem_val + 1) % 2 ^ 32 })); pure success

-- The assertion tests `sem_ptr`, the address of the caller's variable: a null `*sem_ptr` is read
-- through.
pub sem_delete : Ptr → M ℕ
sem_delete p = do
  s ← load_sem p
  if not s.sem_init then pure error_func_inval_arg else (do store_sem p none; pure success)

-- The status and what is written to `*val`, if anything is.
pub sem_get_val : Ptr → Ptr → M (ℕ × Option ℕ)
sem_get_val p val = if p == null then pure (error_func_inval_arg, none) else do
  s ← load_sem p
  if not s.sem_init
      then pure (error_func_inval_arg, none)
      else if val == null
      then pure (error_func_inval_arg, none)
      else pure (success, some s.sem_val)
