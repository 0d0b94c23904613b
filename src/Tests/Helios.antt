-- ===== src/Tests/Helios.antt =====
-- Concrete kernels for the Helios modules: the idle task at 1 is current, and tasks 2 and 3 wait.
use cyancore.Common.{ℕ, ◌≡◌, refl, true, none, some, [], ◌∷◌, arith, ◌==◌, if◌then◌else◌}
use cyancore.Common.Int.{pos}
use cyancore.Status.{success}
use cyancore.Helios.Kernel.{
  Ptr, Link, TaskStatus, running, wait, pause, Tcb, Tcbs, Kernel, done, hang, round_robin, cell,
}
use cyancore.Helios.Sched.{send_to_wait, send_to_resume, task_wait}
use cyancore.Helios.Sched.Wait.Enlist.{IsEnlisted, send_to_wait-append}
use cyancore.Helios.Sched.Wait.Resume.{IsResumed, send_to_resume-erase}
use cyancore.Helios.Sched.Hang.{task_wait-hang}
use cyancore.Helios.Mutex.{mutex_lock, mutex_unlock}
use cyancore.Helios.Mutex.Recursive
use cyancore.Helios.Mutex.Recursive.{held, Answers, mutex_lock-spec_lock, mutex_unlock-spec_unlock}
use cyancore.Helios.Sem.Count.{give, try_take, sem_ops, Balanced, sem_ops-Balanced}

abbrev task : ℕ → TaskStatus → Link → Link → Tcb
task id s ready_ring wait_ring = record {
  name = 0;
  priority = id;
  task_flags = 0;
  stack_ptr = 0;
  task_func = 0;
  args_ptr = 0;
  wait_res = record { wait_on_resource = 0; task_delay_ticks = 5 };
  ready_link = ready_ring;
  wait_link = wait_ring;
  task_id = id;
  task_status = s;
}

abbrev between : Ptr → Ptr → Link
between p n = record { prev = p; next = n }

abbrev tasks : Tcbs
tasks q =
    if q == 1
    then some (task 1 running (between 3 2) (between 0 0))
    else if q == 2
    then some (task 2 wait (between 1 3) (between 3 3))
    else if q == 3
    then some (task 3 wait (between 2 1) (between 2 2))
    else none

abbrev kernel : Kernel
kernel = record {
  tcb = tasks;
  mutex = λ q.
      if q == 9
      then some (record { mutex_val = pos 0; mutex_init = true; lock_task = 1 })
      else none;
  sem = λ q. if q == 8 then some (record { sem_val = 1; sem_init = true }) else none;
  ready_list_head = 1;
  curr_task = 1;
  wait_list_head = 2;
  selected_sched = some round_robin;
  pre_sched = true;
  task_id_gen = 3;
}

-- The same tasks with nobody in the wait list, and with the first waiting task paused.
abbrev idle : Kernel
idle = record kernel { wait_list_head = 0 }

abbrev paused_tasks : Tcbs
paused_tasks q = if q == 2 then some (task 2 pause (between 1 3) (between 3 3)) else tasks q

abbrev paused : Kernel
paused = record kernel { tcb = paused_tasks }

send_to_wait-append_example :
    (k' : Kernel) × (send_to_wait 1 7 kernel ≡ done tt k')
    × IsEnlisted kernel (2 ∷ 3 ∷ []) 1 7 wait k'
unfolding cell
send_to_wait-append_example =
    send_to_wait-append kernel (2 ∷ 3 ∷ []) 1 7 (task 1 running (between 3 2) (between 0 0))
      (refl, (refl, (refl, tt)), ((refl, refl), ((refl, refl)))) refl refl refl

send_to_resume-erase_example :
    (k' : Kernel) × (send_to_resume 3 kernel ≡ done tt k') × IsResumed kernel (2 ∷ 3 ∷ []) 3 k'
unfolding cell
send_to_resume-erase_example =
    send_to_resume-erase kernel (2 ∷ 3 ∷ []) 3 (task 3 wait (between 2 1) (between 2 2))
      (refl, (refl, (refl, tt)), ((refl, refl), (refl, refl))) refl refl refl

task_wait-hang_example : task_wait 100 7 idle ≡ hang
unfolding cell
task_wait-hang_example =
    task_wait-hang 100 7 idle (task 1 running (between 3 2) (between 0 0)) (omega arith) refl refl
      refl refl

mutex_lock-spec_lock_example : Answers kernel 9 success (held 1 1) (mutex_lock 0 9 4 kernel)
mutex_lock-spec_lock_example =
    mutex_lock-spec_lock 0 9 4 kernel (held 1 0) (held 1 1) success (omega arith) (omega arith)
      (omega arith, refl) (λ e. absurd (omega (arith, e))) refl

mutex_unlock-spec_unlock_example : Answers kernel 9 success Recursive.free (mutex_unlock 9 kernel)
mutex_unlock-spec_unlock_example =
    mutex_unlock-spec_unlock 9 kernel (held 1 0) (omega arith) (omega arith) (omega arith, refl)

sem_ops-Balanced_example :
    Balanced 8 1
      (try_take ∷ try_take ∷ give ∷ [])
      (sem_ops 8 (try_take ∷ try_take ∷ give ∷ []) kernel)
sem_ops-Balanced_example =
    sem_ops-Balanced 8 kernel 1 (try_take ∷ try_take ∷ give ∷ []) (omega arith) refl (omega arith)
