-- ===== src/Helios/Sched.antt =====
-- The scheduler, src/visor/services/kernel/helios/helios_sched.c, built without
-- `HELIOS_ANTI_DEADLOCK` as the two Helios projects configure it. A function with a `while` loop
-- takes the number of rounds that its loop may make.
pub mod Wait
pub mod Hang
use cyancore.Common.{
  ℕ, zero, suc, ◌+◌, ◌-◌, ◌%◌, ◌^◌, Bool, true, false, ◌&&◌, none, some, ltb, leb, ◌==◌,
  if◌then◌else◌,
}
use cyancore.Common.Int.{ℤ, pos, ltb_ℤ}
use cyancore.Status.{success, error_func_inval_arg}
use cyancore.Helios.Kernel.{
  Ptr, null, TaskStatus, running, ready, wait, pause, rank, Mutex, Sem, Algo, round_robin,
  priority_driven, done, fault, panic, M, pure, skip, when, ◌>>=◌, ◌>>◌, get, load, modify,
  out_of_rounds, set_wait_list_head, set_ready_list_head, set_status, set_ticks, set_resource,
}
use cyancore.Helios.Link.{link_wait, link_ready, insert_before, node_detach}

abbrev pub size_max : ℕ
size_max = 2 ^ 32 - 1

abbrev pub has_status : TaskStatus → TaskStatus → Bool
has_status s t = rank s == rank t

-- The part of `send_to_wait` and `send_to_pause` behind their guard.
unfoldable pub enlist : Ptr → ℕ → TaskStatus → M (Unit {0})
enlist ptr ticks s = do
  k ← get
  (r, head) ← insert_before k.wait_list_head ptr link_wait
  set_wait_list_head head
  when (r == success) (do modify ptr (set_ticks ticks); modify ptr (set_status s))

pub send_to_wait : Ptr → ℕ → M (Unit {0})
send_to_wait ptr ticks = do
  c ← load ptr
  if has_status c.task_status wait then skip else enlist ptr ticks wait

unfoldable pub send_to_pause : Ptr → M (Unit {0})
send_to_pause ptr = do
  c ← load ptr
  if has_status c.task_status pause then skip else enlist ptr size_max pause

-- The head of the wait list steps past a block that is about to leave.
pub leave_head : Ptr → M (Unit {0})
leave_head ptr = do
  c ← load ptr
  k ← get
  when (ptr == k.wait_list_head) (do
    set_wait_list_head c.wait_link.next
    when (c.wait_link.next == ptr && c.wait_link.prev == ptr) (set_wait_list_head null))

unfoldable pub send_to_resume : Ptr → M (Unit {0})
send_to_resume ptr = do
  c ← load ptr
  if ltb (rank c.task_status) (rank wait) then skip else do
    leave_head ptr
    node_detach ptr link_wait
    modify ptr (set_ticks 0)
    modify ptr (set_status ready)

-- The loop of `send_back_of_task_prio`: the first block of lower priority, or the head again, and
-- whether no block was passed.
pub find_place : ℕ → Ptr → Ptr → Bool → M (Ptr × Bool)
find_place zero node ref least = out_of_rounds
find_place (suc f) node ref least = do
  c ← load node
  r ← load ref
  k ← get
  if leb r.priority c.priority
      then (if r.ready_link.next == k.ready_list_head
          then pure (r.ready_link.next, false)
          else find_place f node r.ready_link.next false)
      else pure (ref, least)

pub send_back_of_task_prio : ℕ → Ptr → M ℕ
send_back_of_task_prio rounds node = if node == null then pure error_func_inval_arg else do
  k ← get
  if (if k.ready_list_head == null then true else node == k.ready_list_head)
      then pure success
      else do
        (ref, least) ← find_place rounds node k.ready_list_head true
        when least (set_ready_list_head node)
        c ← load node
        if c.ready_link.next == c.ready_link.prev
            then insert_before ref node link_ready
            else (do node_detach node link_ready; insert_before ref node link_ready)
        pure success

-- `*wait_res > false`, the first word of a mutex or a semaphore read as an `int`
resource_free : Ptr → M Bool
resource_free p k = elim (k.mutex p) [
  | some m ↦ done (ltb_ℤ (pos 0) m.mutex_val) k
  | none ↦ elim (k.sem p) [
    | some s ↦ done (ltb 0 s.sem_val && ltb s.sem_val (2 ^ 31)) k
    | none ↦ fault
  ]
]

-- What one round of `wait_list_adjustment` does to a block that waits.
age : Ptr → Ptr → M (Unit {0})
unfolding resource_free
age wait_res ptr = do
  c ← load ptr
  modify ptr (set_ticks ((c.wait_res.task_delay_ticks + size_max) % 2 ^ 32))
  free ← (if wait_res == null then pure false else resource_free wait_res)
  when free (do modify ptr (set_ticks 0); modify ptr (set_resource null))
  c ← load ptr
  when (c.wait_res.task_delay_ticks == 0) (send_to_resume ptr)

-- `wait_res` is what the first block of the list waits on.
pub adjust_loop : ℕ → Ptr → Ptr → M (Unit {0})
unfolding age
adjust_loop zero wait_res ptr = out_of_rounds
adjust_loop (suc f) wait_res ptr = if ptr == null then skip else do
  c ← load ptr
  if has_status c.task_status wait
      then (do
        age wait_res ptr
        c ← load ptr
        k ← get
        if c.wait_link.next == k.wait_list_head
            then skip
            else adjust_loop f wait_res c.wait_link.next)
      else adjust_loop f wait_res ptr

pub wait_list_adjustment : ℕ → M (Unit {0})
unfolding adjust_loop
wait_list_adjustment rounds = do
  k ← get
  if k.wait_list_head == null then skip else do
    c ← load k.wait_list_head
    adjust_loop rounds c.wait_res.wait_on_resource k.wait_list_head

pub pre_sched : ℕ → M (Unit {0})
unfolding wait_list_adjustment
pre_sched rounds = do
  k ← get
  modify k.curr_task (set_status ready)
  wait_list_adjustment rounds
  k ← get
  send_back_of_task_prio rounds k.curr_task
  skip

abbrev context_switch : Ptr → M (Unit {0})
context_switch next_task = modify next_task (set_status running)

pub round_robin_fn : M (Unit {0})
round_robin_fn = do
  k ← get
  curr ← load k.curr_task
  let ptr = curr.ready_link.next
  when (ptr == k.ready_list_head) (send_to_resume ptr)
  c ← load ptr
  when (has_status c.task_status ready) (context_switch c.ready_link.next)

-- The loop of the priority algorithm, which follows the wait links.
pub pick : ℕ → Ptr → M Ptr
pick zero ptr = out_of_rounds
pick (suc f) ptr = do
  c ← load ptr
  k ← get
  if has_status c.task_status ready
      then pure ptr
      else if c.wait_link.prev == k.ready_list_head
      then (do send_to_resume c.wait_link.prev; pure c.wait_link.prev)
      else pick f c.wait_link.prev

pub priority_driven_fn : ℕ → M (Unit {0})
priority_driven_fn rounds = do
  k ← get
  head ← load k.ready_list_head
  if head.ready_link.prev == null
      then skip
      else (do ptr ← pick rounds head.ready_link.prev; context_switch ptr)

run_algo : ℕ → Algo → M (Unit {0})
unfolding round_robin_fn priority_driven_fn
run_algo rounds round_robin = round_robin_fn
run_algo rounds priority_driven = priority_driven_fn rounds

pub scheduler_despatch : ℕ → M (Unit {0})
unfolding run_algo
scheduler_despatch rounds = do
  k ← get
  if k.pre_sched then pre_sched rounds else (λ _. panic)
  elim k.selected_sched [ none ↦ (λ _. panic) | some a ↦ run_algo rounds a ]

-- `helios_task_wait` of helios_tasks.c, which ends in `helios_task_yield`
pub task_wait : ℕ → ℕ → M (Unit {0})
task_wait rounds ticks = do
  k ← get
  when (ltb 0 ticks) (send_to_wait k.curr_task ticks)
  scheduler_despatch rounds
