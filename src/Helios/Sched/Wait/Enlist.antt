-- ===== src/Helios/Sched/Wait/Enlist.antt =====
-- `_helios_sched_send_to_wait` and `_helios_sched_send_to_pause` of helios_sched.c as a push.
use cyancore.Common.{
  ℕ, ◌≡◌, refl, sym, subst, ◌≢◌, ◌∙◌, false, some, List, [], ◌∷◌, ◌++◌, arith, ◌==◌, if◌then◌else◌,
}
use cyancore.Status.{success}
use cyancore.Helios.Kernel.{
  Ptr, TaskStatus, wait, pause, Tcb, Tcbs, Kernel, done, cell, edit, set_status, set_ticks,
}
use cyancore.Helios.Link.{link_wait, link_ready, insert_before}
use cyancore.Helios.Link.View.{
  next, prev, rest, linked, linked-IsBetween, insert_before-linked, load-ok, modify-ok, edit_self,
  alone, insert_before-alone, alone-IsBetween,
}
use cyancore.Helios.Link.Cut.{Joined}
use cyancore.Helios.Link.Ring.{has, last_of, Chain, Chain-insert, has-last}
use cyancore.Helios.Sched.{has_status, enlist, send_to_wait, send_to_pause, size_max}
use cyancore.Helios.Sched.Wait.{
  WaitQueue, Chain-same, Distinct-append, Chain-last, cell_of_prev, cell_of_next, marked, status,
  ticks_left, marked-next, marked-prev, marked-status, marked-ticks, rest-status, rest-ticks,
  rest-next, rest-prev,
}

-- What a task that joined the queue `xs` finds.
pub record IsEnlisted (k : Kernel) (xs : List Ptr) (p : Ptr) (n : ℕ) (s : TaskStatus) (k' : Kernel)
    : Type 0 where
  pub queue : WaitQueue k' (xs ++ p ∷ [])
  pub same : k' ≡ record k { tcb = k'.tcb; wait_list_head = k'.wait_list_head }
  pub state : (q : Ptr) → status k'.tcb q ≡ (if q == p then some s else status k.tcb q)
  pub delay : (q : Ptr) → ticks_left k'.tcb q ≡ (if q == p then some n else ticks_left k.tcb q)
  pub ready_nexts : (q : Ptr) → next link_ready k'.tcb q ≡ next link_ready k.tcb q
  pub ready_prevs : (q : Ptr) → prev link_ready k'.tcb q ≡ prev link_ready k.tcb q

module _ (k : Kernel) (p : Ptr) (n : ℕ) (s : TaskStatus) {c : Tcb}
    (at_p : cell k.tcb p ≡ some c) where
  enlist-insert :
      (m : Tcbs) (head : Ptr) {d : Tcb}
      → insert_before k.wait_list_head p link_wait k ≡ done (success, head) (record k { tcb = m })
      → cell m p ≡ some d
      → enlist p n s k ≡ done tt (record k { tcb = marked m p n s; wait_list_head = head })
  unfolding enlist
  enlist-insert m head run at_m =
      let k₁ = record k { tcb = m; wait_list_head = head } in
      let at₁ = edit_self m p (set_ticks n) at_m in
      rw (run, modify-ok k₁ p (set_ticks n) at_m)
        (rw (modify-ok (record k₁ { tcb = edit m p (set_ticks n) }) p (set_status s) at₁))

  IsEnlisted-marked :
      (xs : List Ptr) (m : Tcbs) (head : Ptr) {d : Tcb}
      → cell m p ≡ some d
      → WaitQueue (record k { tcb = marked m p n s; wait_list_head = head }) (xs ++ p ∷ [])
      → ((q : Ptr) → rest link_wait m q ≡ rest link_wait k.tcb q)
      → IsEnlisted k xs p n s (record k { tcb = marked m p n s; wait_list_head = head })
  IsEnlisted-marked xs m head at_m queue rests = record {
    queue = queue;
    same = refl;
    state = λ q. ground (arith, marked-status m p n s at_m q, rest-status k.tcb m q (rests q));
    delay = λ q. ground (arith, marked-ticks m p n s at_m q, rest-ticks k.tcb m q (rests q));
    ready_nexts = λ q. marked-next m p n s at_m q link_ready ∙ rest-next k.tcb m q (rests q);
    ready_prevs = λ q. marked-prev m p n s at_m q link_ready ∙ rest-prev k.tcb m q (rests q);
  }

  enlist-nil :
      WaitQueue k [] → (k' : Kernel) × (enlist p n s k ≡ done tt k') × IsEnlisted k [] p n s k'
  enlist-nil q =
      let m = alone link_wait p k.tcb in
      let view = alone-IsBetween link_wait p k.tcb at_p in
      let (c₁, at₁, _) = cell_of_prev link_wait m p p (ground (arith, view.prevs p)) in
      let joined : Joined link_wait m p p =
        (ground (arith, view.nexts p), ground (arith, view.prevs p)) in
      let run =
        subst (λ h. insert_before h p link_wait k ≡ done (success, p) (record k { tcb = m }))
          (sym q) (insert_before-alone link_wait p k at_p) in
      (
        record k { tcb = marked m p n s; wait_list_head = p },
        enlist-insert m p run at₁,
        IsEnlisted-marked [] m p at₁
            (
              refl,
              (refl, tt),
              Chain-same m (marked m p n s) p [] p (λ q. marked-next m p n s at₁ q link_wait)
                  (λ q. marked-prev m p n s at₁ q link_wait) joined,
            )
            view.rests,
      )

  enlist-cons :
      (x : Ptr) (xs : List Ptr)
      → WaitQueue k (x ∷ xs)
      → has p (x ∷ xs) ≡ false
      → (k' : Kernel) × (enlist p n s k ≡ done tt k') × IsEnlisted k (x ∷ xs) p n s k'
  enlist-cons x xs (head, d, ch) out =
      let last = last_of x xs in
      let (jn, jp) = Chain-last link_wait k.tcb x xs x ch in
      let (l, at_last, _) = cell_of_next link_wait k.tcb last x jn in
      let (c₀, at_ref, ref_prev) = cell_of_prev link_wait k.tcb last x jp in
      let m = linked link_wait last p x k.tcb in
      let ne_ref : p ≢ x = ground arith in
      let run = insert_before-linked link_wait x p last k at_ref at_p at_last ref_prev ne_ref in
      let ne_last : p ≢ last = ground (arith, has-last x xs) in
      let view = linked-IsBetween link_wait last p x k.tcb at_ref at_p at_last ne_ref ne_last in
      let chain : Chain link_wait m x (xs ++ p ∷ []) x =
        Chain-insert link_wait k.tcb m x xs p x last view refl out ne_ref d.0 d ch in
      let (c₁, at₁, _) = cell_of_prev link_wait m last p (ground (arith, view.prevs p)) in
      let run' =
        subst (λ h. insert_before h p link_wait k ≡ done (success, h) (record k { tcb = m }))
          (sym head) run in
      (
        record k { tcb = marked m p n s },
        enlist-insert m k.wait_list_head run' at₁,
        IsEnlisted-marked (x ∷ xs) m k.wait_list_head at₁
            (
              head,
              Distinct-append (x ∷ xs) p d out,
              Chain-same m (marked m p n s) x (xs ++ p ∷ []) x
                  (λ q. marked-next m p n s at₁ q link_wait)
                  (λ q. marked-prev m p n s at₁ q link_wait) chain,
            )
            view.rests,
      )

  pub enlist-append :
      (xs : List Ptr)
      → WaitQueue k xs
      → has p xs ≡ false
      → (k' : Kernel) × (enlist p n s k ≡ done tt k') × IsEnlisted k xs p n s k'
  enlist-append [] q out = enlist-nil q
  enlist-append (x ∷ xs) q out = enlist-cons x xs q out

-- A task that is sent to wait joins the wait list at its end, with its status and its ticks set.
-- Every other task keeps both, and the ready ring stays as it is.
pub send_to_wait-append :
    (k : Kernel) (xs : List Ptr) (p : Ptr) (n : ℕ) (c : Tcb)
    → WaitQueue k xs
    → cell k.tcb p ≡ some c
    → has_status c.task_status wait ≡ false
    → has p xs ≡ false
    → (k' : Kernel) × (send_to_wait p n k ≡ done tt k') × IsEnlisted k xs p n wait k'
unfolding send_to_wait
send_to_wait-append k xs p n c q at_p other out =
    rw (load-ok k p at_p, other) (enlist-append k p n wait at_p xs q out)

-- The same for a task that is paused, with the greatest number of ticks.
pub send_to_pause-append :
    (k : Kernel) (xs : List Ptr) (p : Ptr) (c : Tcb)
    → WaitQueue k xs
    → cell k.tcb p ≡ some c
    → has_status c.task_status pause ≡ false
    → has p xs ≡ false
    → (k' : Kernel) × (send_to_pause p k ≡ done tt k') × IsEnlisted k xs p size_max pause k'
unfolding send_to_pause
send_to_pause-append k xs p c q at_p other out =
    rw (load-ok k p at_p, other) (enlist-append k p size_max pause at_p xs q out)
