-- ===== src/Helios/Tasks.antt =====
-- The tasks, src/visor/services/kernel/helios/helios_tasks.c, built with `HELIOS_DYNAMIC` and without
-- `HELIOS_ANTI_DEADLOCK` and `HELIOS_POWER_SAVE_EN`, and the clean-up of the idle task of
-- helios_task_idle.c. A function with a loop takes the number of rounds that its loops may make.
pub mod Control
pub mod Frame
pub mod Halt
pub mod Lookup
use cyancore.Common.{
  ℕ, zero, suc, ◌+◌, ◌-◌, ◌/◌, ◌%◌, ◌^◌, Bool, true, false, ◌&&◌, not, Option, none, some, ltb, leb,
  ◌==◌, if◌then◌else◌,
}
use cyancore.Status.{
  success, error_func_inval, error_func_inval_arg, error_os_invalid_op, error_memory_low,
}
use cyancore.Helios.Kernel.{
  Ptr, null, TaskStatus, exit, running, ready, wait, pause, rank, Tcb, Algo, done, fault, panic, M,
  pure, skip, when, ◌>>=◌, ◌>>◌, get, load, modify, out_of_rounds, set_ready_list_head, set_status,
}
use cyancore.Helios.Link.{link_wait, link_ready, set_link, node_detach}
use cyancore.Helios.Sched.{
  has_status, send_to_pause, send_to_resume, send_back_of_task_prio, scheduler_despatch,
}

abbrev idle_task_priority : ℕ
idle_task_priority = 1

abbrev priority_max : ℕ
priority_max = 255

-- `__helios_init_scheduler`
pub init_scheduler : M (Unit {0})
init_scheduler k = done tt (record k { pre_sched = true; curr_task = k.ready_list_head })

-- `__helios_task_id_generate`
pub task_id_generate : M ℕ
task_id_generate k =
    let id = (k.task_id_gen + 1) % 2 ^ 16 in done id (record k { task_id_gen = id })

-- `__helios_get_tcb_using_task_id`, whose loop ends in front of the last task of the ring
pub find_tcb : ℕ → ℕ → Ptr → M Ptr
find_tcb zero task_id ptr = out_of_rounds
find_tcb (suc f) task_id ptr = do
  c ← load ptr
  k ← get
  if c.ready_link.next == k.ready_list_head
      then pure null
      else if c.task_id == task_id
      then pure ptr
      else find_tcb f task_id c.ready_link.next

unfoldable pub get_tcb : ℕ → ℕ → M Ptr
get_tcb rounds task_id = do k ← get; find_tcb rounds task_id k.ready_list_head

-- `__helios_set_task_flag` and `__helios_is_task_flag`, for a flag of one bit
pub set_task_flag : Ptr → ℕ → Bool → M ℕ
set_task_flag task flag en = if task == null then pure error_func_inval_arg else do
  c ← load task
  let set = c.task_flags / flag % 2 == 1
  let flags =
      if en
      then (if set then c.task_flags else c.task_flags + flag)
      else if set
      then c.task_flags - flag
      else c.task_flags
  modify task (λ c. record c { task_flags = flags })
  pure success

pub is_task_flag : Ptr → ℕ → M Bool
is_task_flag task flag =
    if task == null then pure false else do c ← load task; pure (not (c.task_flags / flag % 2 == 1))

-- The `continue` of the loop does not step on.
pub pause_all_loop : ℕ → Ptr → M (Unit {0})
pause_all_loop zero ptr = out_of_rounds
pause_all_loop (suc f) ptr = do
  k ← get
  if ptr == k.curr_task then pause_all_loop f ptr else do
    send_to_pause ptr
    c ← load ptr
    k ← get
    if c.ready_link.next == k.ready_list_head then skip else pause_all_loop f c.ready_link.next

pub pause_all_task : ℕ → M ℕ
pause_all_task rounds = do
  k ← get
  when (not (k.ready_list_head == null)) (pause_all_loop rounds k.ready_list_head)
  pure success

pub resume_all_loop : ℕ → Ptr → M (Unit {0})
resume_all_loop zero ptr = out_of_rounds
resume_all_loop (suc f) ptr = do
  c ← load ptr
  let ptr' = c.ready_link.next
  send_to_resume ptr'
  k ← get
  if ptr' == k.ready_list_head then skip else resume_all_loop f ptr'

pub resume_all_task : ℕ → M ℕ
resume_all_task rounds = do
  k ← get
  if k.ready_list_head == null
      then pure error_os_invalid_op
      else (do resume_all_loop rounds k.ready_list_head; pure success)

-- A block that `helios_malloc` returns holds whatever was there before.
put_tcb : Ptr → Tcb → M (Unit {0})
put_tcb p junk k = done tt (record k { tcb = λ q. if q == p then some junk else k.tcb q })

-- From the filled block on: the ring, the status and the id.
start_task : ℕ → Ptr → M ℕ
unfolding task_id_generate
start_task rounds ptr = do
  k ← get
  when (k.ready_list_head == null) (do
    modify ptr (set_link link_ready (record { prev = ptr; next = ptr }))
    set_ready_list_head ptr)
  send_back_of_task_prio rounds ptr
  modify ptr (set_status ready)
  id ← task_id_generate
  modify ptr (λ c. record c { task_id = id })
  pure id

-- What the caller asks for in `helios_add_task`; `slot` is `*helios_task`.
pub record NewTask : Type 0 where
  pub slot : ℕ
  pub name : Ptr
  pub task_func : Ptr
  pub args : Ptr
  pub priority : ℕ
  pub stack_len : ℕ

unfoldable pub is_valid : NewTask → Bool
is_valid t =
    t.slot == null
    && not (t.name == null)
    && not (t.task_func == null)
    && not (t.stack_len == 0)
    && leb idle_task_priority t.priority
    && ltb t.priority priority_max

-- `tcb` and `stack` are what the two calls of `helios_malloc` return, and `junk` what the block holds
-- then. The second result is `*helios_task`.
pub add_task : ℕ → (tcb stack : Ptr) → Tcb → NewTask → M (ℕ × ℕ)
unfolding is_valid put_tcb start_task
add_task rounds tcb stack junk t =
    if not (is_valid t) then pure (error_func_inval_arg, t.slot) else do
      pause_all_task rounds
      if tcb == null then (do resume_all_task rounds; pure (error_memory_low, t.slot)) else do
        put_tcb tcb junk
        modify tcb (λ c. record c { stack_ptr = stack })
        if stack == null then (do resume_all_task rounds; pure (error_memory_low, t.slot)) else do
          modify tcb (λ c. record c {
            name = t.name;
            priority = t.priority;
            task_func = t.task_func;
            args_ptr = t.args;
          })
          id ← start_task rounds tcb
          resume_all_task rounds
          pure (success, id)

pub get_args : M Ptr
get_args = do k ← get; c ← load k.curr_task; pure c.args_ptr
