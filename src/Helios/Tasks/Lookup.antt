-- ===== src/Helios/Tasks/Lookup.antt =====
-- `__helios_get_tcb_using_task_id` of helios_tasks.c on the ready ring, and `helios_resume_task` on the
-- task that it finds.
use cyancore.Common.{
  ℕ, zero, suc, ◌<◌, ◌≡◌, ◌≢◌, refl, inl, inr, Bool, false, none, some, List, [], ◌∷◌, length,
  arith, ◌==◌, if◌then◌else◌, Bool-cases, ne→==, ==_refl, lt→ltb,
}
use cyancore.Status.{success, error_os_invalid_op}
use cyancore.Helios.Kernel.{
  Ptr, null, TaskStatus, exit, running, ready, pause, wait, rank, Tcb, Tcbs, Kernel, done, cell,
}
use cyancore.Helios.Link.{link_ready}
use cyancore.Helios.Link.View.{next, load-ok}
use cyancore.Helios.Sched.{has_status, send_to_resume}
use cyancore.Helios.Sched.Wait.{cell_of_next}
use cyancore.Helios.Tasks.{find_tcb, get_tcb}
use cyancore.Helios.Tasks.Halt.{Leads}
use cyancore.Helios.Tasks.Control.{resume_task}

abbrev pub has_id : Tcbs → Ptr → ℕ → Bool
has_id m p task_id = elim (cell m p) [ none ↦ false | some c ↦ c.task_id == task_id ]

-- The first task of the list from `a` on that has the id, but for the last task of the list.
abbrev pub found : Tcbs → ℕ → Ptr → List Ptr → Ptr
found m task_id a [] = null
found m task_id a (x ∷ xs) = if has_id m a task_id then a else found m task_id x xs

has_id-at :
    (m : Tcbs) (p : Ptr) (task_id : ℕ) {c : Tcb}
    → cell m p ≡ some c
    → has_id m p task_id ≡ (c.task_id == task_id)
has_id-at m p task_id e = rw (has_id, e)

find_tcb-found :
    (f task_id : ℕ) (k : Kernel) (a : Ptr) (xs : List Ptr) (last : Ptr)
    → Leads k.tcb k.ready_list_head a xs last
    → next link_ready k.tcb last ≡ some k.ready_list_head
    → length xs < f
    → find_tcb f task_id a k ≡ done (found k.tcb task_id a xs) k
unfolding find_tcb
find_tcb-found zero task_id k a xs last l e lt = absurd (omega (arith, lt))
find_tcb-found (suc f) task_id k a [] last l e lt =
    let (c, at_last, n) = cell_of_next link_ready k.tcb last k.ready_list_head e in
    rw (l, load-ok k last at_last, n, ==_refl k.ready_list_head)
find_tcb-found (suc f) task_id k a (x ∷ xs) last l e lt =
    let (c, at_a, n) = cell_of_next link_ready k.tcb a x l.0 in
    elim (Bool-cases (c.task_id == task_id)) [
      | inl hit ↦ rw (
        load-ok k a at_a,
        n,
        ne→== x k.ready_list_head l.1,
        hit,
        has_id-at k.tcb a task_id at_a,
        hit,
      )
      | inr miss ↦
          rw
            (
              load-ok k a at_a,
              n,
              ne→== x k.ready_list_head l.1,
              miss,
              has_id-at k.tcb a task_id at_a,
              miss,
            )
            (find_tcb-found f task_id k x xs last l.2 e (omega (arith, lt)))
    ]

-- On a ready ring of the tasks `head ∷ xs` that fits into the rounds, the lookup of an id ends and gives
-- the first task that has the id, the last task of the ring left out, or null.
pub get_tcb-found :
    (rounds task_id : ℕ) (k : Kernel) (xs : List Ptr) (last : Ptr)
    → Leads k.tcb k.ready_list_head k.ready_list_head xs last
    → next link_ready k.tcb last ≡ some k.ready_list_head
    → length xs < rounds
    → get_tcb rounds task_id k ≡ done (found k.tcb task_id k.ready_list_head xs) k
unfolding get_tcb
get_tcb-found rounds task_id k xs last l e lt =
    find_tcb-found rounds task_id k k.ready_list_head xs last l e lt

-- On a task that the lookup finds and whose status is not `wait`, helios_resume_task leaves the state as
-- it is; its answer is error_os_invalid_op if the task is paused, and success otherwise.
pub resume_task-unchanged :
    (rounds task_id : ℕ) (k : Kernel) (p : Ptr) (c : Tcb)
    → get_tcb rounds task_id k ≡ done p k
    → p ≢ null
    → cell k.tcb p ≡ some c
    → rank c.task_status ≢ rank wait
    → resume_task rounds task_id k
      ≡ done (if has_status c.task_status pause then error_os_invalid_op else success) k
unfolding resume_task send_to_resume
resume_task-unchanged rounds task_id k p c e ne at_p other =
    elim (Bool-cases (has_status c.task_status pause)) [
      | inl paused ↦ rw (e, ne→== p null ne, load-ok k p at_p, paused)
      | inr low ↦ rw (
        e,
        ne→== p null ne,
        load-ok k p at_p,
        low,
        load-ok k p at_p,
        lt→ltb (rank c.task_status) (rank wait) (below c.task_status other low),
      )
    ]
  where
    below : (s : TaskStatus) → rank s ≢ rank wait → has_status s pause ≡ false → rank s < rank wait
    below exit o l = omega arith
    below running o l = omega arith
    below ready o l = omega arith
    below wait o l = absurd (o refl)
    below pause o l = absurd (ground arith)
