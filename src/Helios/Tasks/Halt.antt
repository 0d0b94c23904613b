-- ===== src/Helios/Tasks/Halt.antt =====
-- `helios_pause_all_task` of helios_tasks.c, and with it `helios_add_task`, where the current task is on
-- the ready ring.
use cyancore.Common.{
  ℕ, zero, suc, ◌≡◌, ◌≢◌, refl, sym, subst, ◌∙◌, inl, inr, true, some, List, [], ◌∷◌, ◌==◌,
  Bool-cases, ne→==, ==_refl,
}
use cyancore.Helios.Kernel.{
  Ptr, null, Tcb, Tcbs, Kernel, Run, done, fault, panic, hang, and_then, M, ◌>>=◌,
}
use cyancore.Helios.Link.{link_ready}
use cyancore.Helios.Link.View.{next, load-ok}
use cyancore.Helios.Sched.{send_to_pause}
use cyancore.Helios.Sched.Wait.{cell_of_next}
use cyancore.Helios.Tasks.{pause_all_loop, pause_all_task, is_valid, NewTask, add_task}
use cyancore.Helios.Tasks.Frame.{IsFramed, Returns, Keeps, Keeps-send_to_pause}

-- The ready links lead from `a` through the blocks `xs`, none of which is the head `h`, and `b` is the
-- last of them, or `a`.
abbrev pub Leads : Tcbs → Ptr → Ptr → List Ptr → Ptr → Type 0
Leads m h a [] b = a ≡ b
Leads m h a (x ∷ xs) b = (next link_ready m a ≡ some x) × (x ≢ h) × Leads m h x xs b

Leads-framed :
    (k k' : Kernel) (a : Ptr) (xs : List Ptr)
    → IsFramed k k'
    → Leads k.tcb k.ready_list_head a xs k.curr_task
    → Leads k'.tcb k'.ready_list_head a xs k'.curr_task
Leads-framed k k' a [] f l = l ∙ sym f.curr
Leads-framed k k' a (x ∷ xs) f (n, ne, l) =
    (f.nexts a ∙ n, (λ e. ne (e ∙ f.head)), Leads-framed k k' x xs f l)

abbrev NoState : Kernel → Type 0
NoState k = ⊥

NoState-then :
    {A B : Type 0} (m : M A) (g : A → M B) (k : Kernel)
    → Keeps m
    → ((a : A) (k' : Kernel) → IsFramed k k' → Returns NoState (g a k'))
    → Returns NoState ((m >>= g) k)
unfolding Keeps
NoState-then {A = A} {B = B} m g k keeps h = by_run (m k) (keeps k)
  where
    by_run : (r : Run A) → Returns (IsFramed k) r → Returns NoState (and_then r g)
    by_run (done a k') f = h a k' f
    by_run fault f = tt
    by_run panic f = tt
    by_run hang f = tt

pause_all_loop-NoState :
    (f : ℕ) (k : Kernel) (a : Ptr) (xs : List Ptr)
    → Leads k.tcb k.ready_list_head a xs k.curr_task
    → Returns NoState (pause_all_loop f a k)
unfolding pause_all_loop
pause_all_loop-NoState zero k a xs l = tt
pause_all_loop-NoState (suc f) k a [] l =
    rw l (rw (==_refl k.curr_task) (pause_all_loop-NoState f k k.curr_task [] refl))
pause_all_loop-NoState (suc f) k a (x ∷ xs) l = elim (Bool-cases (a == k.curr_task)) [
  | inl here ↦ rw here (pause_all_loop-NoState f k a (x ∷ xs) l)
  | inr on ↦ rw on (
      NoState-then (send_to_pause a) _ k (Keeps-send_to_pause a) (λ u k' i.
        let l' = Leads-framed k k' a (x ∷ xs) i l in
        let (c, e, n) = cell_of_next link_ready k'.tcb a x l'.0 in
        rw (load-ok k' a e, n, ne→== x k'.ready_list_head l'.1)
          (pause_all_loop-NoState f k' x xs l'.2)))
]

NoState-stays :
    {A B : Type 0} (r : Run A) (g : A → M B) → Returns NoState r → Returns NoState (and_then r g)
NoState-stays (done a k) g n = absurd n
NoState-stays fault g n = tt
NoState-stays panic g n = tt
NoState-stays hang g n = tt

pause_all_task-Returns :
    (rounds : ℕ) (k : Kernel) (xs : List Ptr)
    → k.ready_list_head ≢ null
    → Leads k.tcb k.ready_list_head k.ready_list_head xs k.curr_task
    → Returns NoState (pause_all_task rounds k)
unfolding pause_all_task
pause_all_task-Returns rounds k xs ne l = rw (ne→== k.ready_list_head null ne) (
    NoState-stays (pause_all_loop rounds k.ready_list_head k) _
      (pause_all_loop-NoState rounds k k.ready_list_head xs l))

-- Where the ready links lead from the head of the ready list, which is not null, to the current task
-- before they come back to the head, helios_pause_all_task never returns, whatever rounds its loop is
-- given.
pub pause_all_task-never :
    (rounds : ℕ) (k : Kernel) (xs : List Ptr) (s : ℕ) (k' : Kernel)
    → k.ready_list_head ≢ null
    → Leads k.tcb k.ready_list_head k.ready_list_head xs k.curr_task
    → pause_all_task rounds k ≢ done s k'
pause_all_task-never rounds k xs s k' ne l e =
    subst (Returns NoState) e (pause_all_task-Returns rounds k xs ne l)

-- Where the ready links lead from the head of the ready list, which is not null, to the current
-- task before they come back to the head, helios_add_task with valid arguments never returns,
-- whatever rounds its loops are given and whatever its allocations give.
pub add_task-never :
    (rounds : ℕ) (tcb stack : Ptr) (junk : Tcb) (t : NewTask) (k : Kernel) (xs : List Ptr)
    (r : ℕ × ℕ) (k' : Kernel)
    → is_valid t ≡ true
    → k.ready_list_head ≢ null
    → Leads k.tcb k.ready_list_head k.ready_list_head xs k.curr_task
    → add_task rounds tcb stack junk t k ≢ done r k'
unfolding add_task
add_task-never rounds tcb stack junk t k xs r k' valid ne l e =
    subst (Returns NoState) e (
      rw valid
        (NoState-stays (pause_all_task rounds k) _ (pause_all_task-Returns rounds k xs ne l)))
