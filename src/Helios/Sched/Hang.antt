-- ===== src/Helios/Sched/Hang.antt =====
-- The loop of `__helios_sched_wait_list_adjustment` (helios_sched.c) steps on only behind a task
-- whose status is `wait`: where it meets another one it never ends.
use cyancore.Common.{
  ℕ, zero, suc, ◌<◌, ◌≡◌, refl, sym, ap, subst, ◌∙◌, ◌⊎◌, inl, inr, true, false, some, [], arith,
  ◌==◌, Bool-cases, Option-cases, lt→ltb,
}
use cyancore.Helios.Kernel.{Ptr, ready, wait, Tcb, Kernel, hang, cell, edit, set_status}
use cyancore.Helios.Link.View.{load-ok, modify-ok, cell-edit, ne_null}
use cyancore.Helios.Sched.{
  has_status, adjust_loop, wait_list_adjustment, pre_sched, scheduler_despatch, task_wait,
}
use cyancore.Helios.Sched.Wait.{WaitQueue}
use cyancore.Helios.Sched.Wait.Enlist.{IsEnlisted, send_to_wait-append}

adjust_loop-hang :
    (f : ℕ) (r p : Ptr) (k : Kernel) {c : Tcb}
    → cell k.tcb p ≡ some c
    → has_status c.task_status wait ≡ false
    → adjust_loop f r p k ≡ hang
unfolding adjust_loop
adjust_loop-hang zero r p k e h = refl
adjust_loop-hang (suc f) r p k e h =
    rw (ne_null k.tcb p e, load-ok k p e, h) (adjust_loop-hang f r p k e h)

adjustment-hang :
    (rounds : ℕ) (k : Kernel) {c : Tcb}
    → cell k.tcb k.wait_list_head ≡ some c
    → has_status c.task_status wait ≡ false
    → wait_list_adjustment rounds k ≡ hang
unfolding wait_list_adjustment
adjustment-hang rounds k e h =
    rw (ne_null k.tcb k.wait_list_head e, load-ok k k.wait_list_head e)
      (adjust_loop-hang rounds _ k.wait_list_head k e h)

-- The head of the wait list, once the current task is marked as ready.
head_ready :
    (k : Kernel) {c : Tcb}
    → cell k.tcb k.wait_list_head ≡ some c
    → (k.wait_list_head ≡ k.curr_task) ⊎ (has_status c.task_status wait ≡ false)
    → (d : Tcb) × (cell (edit k.tcb k.curr_task (set_status ready)) k.wait_list_head ≡ some d)
      × (has_status d.task_status wait ≡ false)
head_ready k {c} e (inl same) = (
  set_status ready c,
  rw (cell-edit k.tcb k.curr_task (set_status ready) k.wait_list_head) (ground arith),
  refl,
)
head_ready k {c} e (inr other) = elim (Bool-cases (k.wait_list_head == k.curr_task)) [
  | inl hit ↦ head_ready_same hit
  | inr miss ↦
      (c, rw (cell-edit k.tcb k.curr_task (set_status ready) k.wait_list_head, miss) e, other)
]
  where
    head_ready_same :
        (k.wait_list_head == k.curr_task) ≡ true
        → (d : Tcb) × (cell (edit k.tcb k.curr_task (set_status ready)) k.wait_list_head ≡ some d)
          × (has_status d.task_status wait ≡ false)
    head_ready_same hit = (
      set_status ready c,
      rw (cell-edit k.tcb k.curr_task (set_status ready) k.wait_list_head, hit, e) refl,
      refl,
    )

pre_sched-hang :
    (rounds : ℕ) (k : Kernel) (c d : Tcb)
    → cell k.tcb k.curr_task ≡ some d
    → cell k.tcb k.wait_list_head ≡ some c
    → (k.wait_list_head ≡ k.curr_task) ⊎ (has_status c.task_status wait ≡ false)
    → pre_sched rounds k ≡ hang
unfolding pre_sched
pre_sched-hang rounds k c d at_curr at_head h =
    let (g, e, o) = head_ready k at_head h in
    rw (modify-ok k k.curr_task (set_status ready) at_curr) (
      rw
        (adjustment-hang rounds (record k { tcb = edit k.tcb k.curr_task (set_status ready) }) e o))

-- If the first task of the wait list is the current one, or has another status than `wait` (it is
-- paused, say), a despatch never ends, whatever rounds its loops are given.
pub scheduler_despatch-hang :
    (rounds : ℕ) (k : Kernel) (c d : Tcb)
    → k.pre_sched ≡ true
    → cell k.tcb k.curr_task ≡ some d
    → cell k.tcb k.wait_list_head ≡ some c
    → (k.wait_list_head ≡ k.curr_task) ⊎ (has_status c.task_status wait ≡ false)
    → scheduler_despatch rounds k ≡ hang
unfolding scheduler_despatch
scheduler_despatch-hang rounds k c d hook at_curr at_head h =
    simp hook (rw (pre_sched-hang rounds k c d at_curr at_head h))

-- `helios_task_wait` with a delay, while no other task waits, never comes back: the task has put
-- itself at the head of the wait list, and the scheduler marks it as ready before it walks the list.
pub task_wait-hang :
    (rounds ticks : ℕ) (k : Kernel) (c : Tcb)
    → 0 < ticks
    → k.pre_sched ≡ true
    → WaitQueue k []
    → cell k.tcb k.curr_task ≡ some c
    → has_status c.task_status wait ≡ false
    → task_wait rounds ticks k ≡ hang
unfolding task_wait
task_wait-hang rounds ticks k c pos hook q at_curr other =
    let (k', run, i) = send_to_wait-append k [] k.curr_task ticks c q at_curr other refl in
    rw (lt→ltb 0 ticks pos, run) (hangs k' i)
  where
    hangs :
        (k' : Kernel)
        → IsEnlisted k [] k.curr_task ticks wait k'
        → scheduler_despatch rounds k' ≡ hang
    hangs k' i = elim (Option-cases (cell k'.tcb k.curr_task)) [
      | inl e ↦ absurd (ground (arith, i.state k.curr_task))
      | inr (d, e) ↦
          let curr : k'.curr_task ≡ k.curr_task = ap (λ (z : Kernel). z.curr_task) i.same in
          let head : k'.wait_list_head ≡ k'.curr_task = i.queue.0 ∙ sym curr in
          let at' = subst (λ z. cell k'.tcb z ≡ some d) (sym curr) e in
          scheduler_despatch-hang rounds k' d d (ap (λ (z : Kernel). z.pre_sched) i.same ∙ hook) at'
            (subst (λ z. cell k'.tcb z ≡ some d) (sym head) at') (inl head)
    ]
