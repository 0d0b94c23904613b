-- ===== src/Helios/Tasks/Control.antt =====
-- The calls of src/visor/services/kernel/helios/helios_tasks.c on a task that is there, `helios_run`, and
-- the clean-up of the idle task in helios_task_idle.c.
use cyancore.Common.{ℕ, false, Option, none, some, ◌==◌, if◌then◌else◌}
use cyancore.Status.{success, error_func_inval, error_func_inval_arg, error_os_invalid_op}
use cyancore.Helios.Kernel.{
  Ptr, null, exit, pause, Tcb, Algo, done, panic, M, pure, when, ◌>>=◌, ◌>>◌, get, load, modify,
  set_status,
}
use cyancore.Helios.Link.{link_ready, node_detach}
use cyancore.Helios.Sched.{has_status, send_to_pause, send_to_resume, scheduler_despatch}
use cyancore.Helios.Tasks.{get_tcb, set_task_flag, is_task_flag, NewTask, add_task, init_scheduler}

-- `helios_task_flag_set_anti_deadlock`
abbrev set_anti_deadlock : ℕ
set_anti_deadlock = 1

-- The task of an id, or the current one
found_or_current : ℕ → ℕ → M Ptr
found_or_current rounds task_id = do
  ptr ← get_tcb rounds task_id
  k ← get
  pure (if ptr == null then k.curr_task else ptr)

-- `idle_fn` is the address of `_helios_idle_task_fn`.
pub del_task : ℕ → Ptr → ℕ → M ℕ
unfolding found_or_current
del_task rounds idle_fn task_id = do
  ptr ← found_or_current rounds task_id
  c ← load ptr
  k ← get
  if c.task_func == idle_fn
      then pure error_func_inval_arg
      else if ptr == k.ready_list_head
      then pure error_os_invalid_op
      else do
        modify ptr (set_status exit)
        when (ptr == k.curr_task) (scheduler_despatch rounds)
        pure success

pub pause_task : ℕ → ℕ → M ℕ
unfolding found_or_current
pause_task rounds task_id = do
  ptr ← found_or_current rounds task_id
  send_to_pause ptr
  pure success

unfoldable pub resume_task : ℕ → ℕ → M ℕ
resume_task rounds task_id = do
  ptr ← get_tcb rounds task_id
  if ptr == null then pure error_func_inval_arg else do
    c ← load ptr
    if has_status c.task_status pause
        then pure error_os_invalid_op
        else (do send_to_resume ptr; pure success)

-- `helios_sched_algo_max` is none.
pub set_sched_algo : Option Algo → M ℕ
set_sched_algo none k = done error_func_inval_arg k
set_sched_algo (some a) k = done success (record k { selected_sched = some a })

-- The flag is cleared where `is_task_flag` says true, that is, where it is not set.
drop_flag : M (Unit {0})
drop_flag = do
  k ← get
  set ← is_task_flag k.curr_task set_anti_deadlock
  when set (do set_task_flag k.curr_task set_anti_deadlock false; pure tt)

pub anti_deadlock_enable_and_feed : ℕ → M ℕ
unfolding drop_flag
anti_deadlock_enable_and_feed task_wd_ticks = do drop_flag; pure error_func_inval

pub anti_deadlock_disable : M ℕ
unfolding drop_flag
anti_deadlock_disable = do drop_flag; pure error_func_inval

-- `helios_sched_cb_t`
pub data CbType : Type 0 where
  power_pre_sleep power_post_sleep power_sleep deadlock_notify cb_max : CbType

-- Every hook is compiled out.
pub set_callback : CbType → Ptr → ℕ
set_callback power_post_sleep cb_func = error_func_inval
set_callback power_pre_sleep cb_func = error_func_inval
set_callback power_sleep cb_func = error_func_inval
set_callback deadlock_notify cb_func = error_func_inval
set_callback cb_max cb_func = error_func_inval

pub get_curr_task_name : M Ptr
get_curr_task_name = do k ← get; c ← load k.curr_task; pure c.name

pub get_task_name : ℕ → ℕ → M Ptr
get_task_name rounds task_id = do
  ptr ← get_tcb rounds task_id
  if ptr == null then pure null else (do c ← load ptr; pure c.name)

-- `helios_run`: `idle` is what it asks for the idle task, `tcb`, `stack` and `junk` the allocations of
-- `add_task`. The despatch does not come back here on the hardware; where it does, the kernel panics.
pub run : ℕ → (tcb stack : Ptr) → Tcb → NewTask → M (Unit {0})
run rounds tcb stack junk idle = do
  add_task rounds tcb stack junk idle
  init_scheduler
  scheduler_despatch rounds
  λ _. panic

-- `__free_terminated_task`, with `helios_free` of the block
pub free_terminated_task : Ptr → M Ptr
free_terminated_task ptr = do
  c ← load ptr
  n ← load c.ready_link.next
  when (has_status n.task_status exit) (do
    node_detach ptr link_ready
    λ k. done tt (record k { tcb = λ q. if q == ptr then none else k.tcb q }))
  pure c.ready_link.next
