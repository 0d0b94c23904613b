-- ===== src/Tests/Tasks.antt =====
-- Runs of helios_tasks.c on a ring of the tasks 1, 2 and 3, and instances of its theorems.
use cyancore.Common.{ℕ, ◌≡◌, ◌≢◌, refl, true, none, some, [], ◌∷◌, arith, ◌==◌, if◌then◌else◌}
use cyancore.Status.{success}
use cyancore.Helios.Kernel.{
  Ptr, TaskStatus, running, ready, pause, exit, Tcb, Tcbs, Kernel, done, round_robin, cell,
}
use cyancore.Helios.Tasks.{add_task, get_tcb, NewTask, is_valid}
use cyancore.Helios.Tasks.Halt.{Leads, add_task-never}
use cyancore.Helios.Tasks.Lookup.{get_tcb-found}

abbrev task : ℕ → TaskStatus → Ptr → Ptr → Tcb
task id s p n = record {
  name = 0;
  priority = id;
  task_flags = 0;
  stack_ptr = 0;
  task_func = 0;
  args_ptr = 0;
  wait_res = record { wait_on_resource = 0; task_delay_ticks = 0 };
  ready_link = record { prev = p; next = n };
  wait_link = record { prev = 0; next = 0 };
  task_id = id;
  task_status = s;
}

-- The task 2 is the current one, 1 the idle task, and 3 is paused.
abbrev tasks : Tcbs
tasks q =
    if q == 1
    then some (task 1 ready 3 2)
    else if q == 2
    then some (task 2 running 1 3)
    else if q == 3
    then some (task 3 pause 2 4)
    else if q == 4
    then some (task 4 ready 3 1)
    else none

abbrev kernel : Kernel
kernel = record {
  tcb = tasks;
  mutex = λ q. none;
  sem = λ q. none;
  ready_list_head = 1;
  curr_task = 2;
  wait_list_head = 0;
  selected_sched = some round_robin;
  pre_sched = true;
  task_id_gen = 4;
}

abbrev request : NewTask
request = record { slot = 0; name = 7; task_func = 8; args = 0; priority = 3; stack_len = 64 }

ring : Leads tasks 1 1 (2 ∷ 3 ∷ 4 ∷ []) 4
unfolding cell
ring = (
  refl,
  (λ e. omega (arith, e)),
  (refl, (λ e. omega (arith, e)), (refl, (λ e. omega (arith, e)), refl)),
)

-- The last task of the ring is not found.
get_tcb-found_example : get_tcb 10 4 kernel ≡ done 0 kernel
unfolding cell
get_tcb-found_example = get_tcb-found 10 4 kernel (2 ∷ 3 ∷ 4 ∷ []) 4 ring refl (omega arith)

add_task-never_example :
    add_task 50 9 10 (task 0 exit 0 0) request kernel ≢ done (success, 5) kernel
unfolding cell is_valid
add_task-never_example =
    add_task-never 50 9 10 (task 0 exit 0 0) request kernel (2 ∷ []) (success, 5) kernel refl
      (λ e. omega (arith, e)) (refl, (λ e. omega (arith, e)), refl)
