-- ===== src/Helios/Sched/Wait/Resume.antt =====
-- `_helios_sched_send_to_resume` of helios_sched.c as a removal from the wait queue.
use cyancore.Common.{
  ◌≡◌, refl, sym, subst, ◌≢◌, ◌∙◌, true, false, some, List, [], ◌∷◌, arith, ◌==◌, if◌then◌else◌,
  ltb, inl, inr, Bool-cases, ==_refl, ne→==,
}
use cyancore.Helios.Kernel.{
  Ptr, null, ready, wait, rank, Tcb, Tcbs, Kernel, done, cell, edit, set_status, set_ticks,
}
use cyancore.Helios.Link.{LinkType, link_wait, link_ready, node_detach-spare, unlink}
use cyancore.Helios.Link.View.{next, prev, rest, load-ok, modify-ok, edit_self, ne_null}
use cyancore.Helios.Link.Cut.{Joined, IsCut, cut, cut-IsCut, unlink-cut, unlink-alone}
use cyancore.Helios.Link.Ring.{
  has, Distinct, last_of, erase, Chain, Chain-close, Chain-erase, has-last,
}
use cyancore.Helios.Sched.{send_to_resume, leave_head}
use cyancore.Helios.Sched.Wait.{
  WaitQueue, Chain-same, Chain-last, cell_of_prev, cell_of_next, marked, status, ticks_left,
  marked-next, marked-prev, marked-status, marked-ticks, rest-status, rest-ticks, rest-next,
  rest-prev,
}

-- What a task that left the queue `xs` finds.
pub record IsResumed (k : Kernel) (xs : List Ptr) (p : Ptr) (k' : Kernel) : Type 0 where
  pub queue : WaitQueue k' (erase p xs)
  pub same : k' ≡ record k { tcb = k'.tcb; wait_list_head = k'.wait_list_head }
  pub state : (q : Ptr) → status k'.tcb q ≡ (if q == p then some ready else status k.tcb q)
  pub delay : (q : Ptr) → ticks_left k'.tcb q ≡ (if q == p then some 0 else ticks_left k.tcb q)
  pub rests : (q : Ptr) → rest link_wait k'.tcb q ≡ rest link_wait (marked k.tcb p 0 ready) q
  pub unlinked : (next link_wait k'.tcb p ≡ some null) × (prev link_wait k'.tcb p ≡ some null)
  pub ready_nexts : (q : Ptr) → next link_ready k'.tcb q ≡ next link_ready k.tcb q
  pub ready_prevs : (q : Ptr) → prev link_ready k'.tcb q ≡ prev link_ready k.tcb q

Distinct-erase : (p x : Ptr) (xs : List Ptr) → Distinct (x ∷ xs) → Distinct (x ∷ erase p xs)
Distinct-erase p x xs d = (has-erase x xs d.0, go xs d.1)
  where
    has-erase : (a : Ptr) (xs : List Ptr) → has a xs ≡ false → has a (erase p xs) ≡ false
    has-erase a [] h = refl
    has-erase a (y ∷ ys) h = ground (arith, has-erase a ys)

    go : (xs : List Ptr) → Distinct xs → Distinct (erase p xs)
    go [] d = tt
    go (y ∷ ys) d = ground (arith, has-erase y ys, go ys)

-- A block inside a chain stands between two others.
Chain-neighbours :
    (t : LinkType) (m : Tcbs) (a : Ptr) (xs : List Ptr) (b p : Ptr)
    → a ≢ p
    → has p xs ≡ true
    → Chain t m a xs b
    → (u v : Ptr) × (u ≢ p) × Joined t m u p × Joined t m p v
Chain-neighbours t m a [] b p ne i c = absurd (cc)
Chain-neighbours t m a (x ∷ xs) b p ne i (j, c) = elim (Bool-cases (p == x)) [
  | inl hit ↦
      let e : x ≡ p = ground arith in
      here xs (subst (λ y. Joined t m a y) e j) (subst (λ y. Chain t m y xs b) e c)
  | inr miss ↦ Chain-neighbours t m x xs b p (ground arith) (ground arith) c
]
  where
    here :
        (ys : List Ptr)
        → Joined t m a p
        → Chain t m p ys b
        → (u v : Ptr) × (u ≢ p) × Joined t m u p × Joined t m p v
    here [] j c = (a, b, ne, j, c)
    here (y ∷ ys) j (h, c) = (a, y, ne, j, h)

link_of_neighbours :
    (m : Tcbs) (u p v : Ptr) {c : Tcb}
    → cell m p ≡ some c
    → Joined link_wait m u p
    → Joined link_wait m p v
    → c.wait_link ≡ record { prev = u; next = v }
link_of_neighbours m u p v e j h = ground arith

-- A mark is the same for blocks that differ in their wait links.
rest-edits :
    (m m' : Tcbs) (p q : Ptr)
    → rest link_wait m' q ≡ rest link_wait m q
    → rest link_wait (marked m' p 0 ready) q ≡ rest link_wait (marked m p 0 ready) q
unfolding cell
rest-edits m m' p q same = ground arith

module _ (k : Kernel) (p : Ptr) {c : Tcb} (at_p : cell k.tcb p ≡ some c)
    (waits : ltb (rank c.task_status) (rank wait) ≡ false) where
  -- Behind the change of the head, the block is cut out and marked.
  resume-cut :
      (head : Ptr) (m : Tcbs) {d : Tcb}
      → leave_head p k ≡ done tt (record k { wait_list_head = head })
      → p ≢ head
      → unlink p link_wait (record k { wait_list_head = head })
        ≡ done tt (record k { tcb = m; wait_list_head = head })
      → cell m p ≡ some d
      → send_to_resume p k ≡ done tt (record k { tcb = marked m p 0 ready; wait_list_head = head })
  unfolding send_to_resume
  resume-cut head m leave ne run at_m =
      let k₁ = record k { tcb = m; wait_list_head = head } in
      let at₁ = edit_self m p (set_ticks 0) at_m in
      rw (load-ok k p at_p, waits, leave)
        (rw (node_detach-spare (record k { wait_list_head = head }) p ne (ne_null k.tcb p at_p) run)
          (rw (modify-ok k₁ p (set_ticks 0) at_m)
            (rw (modify-ok (record k₁ { tcb = edit m p (set_ticks 0) }) p (set_status ready) at₁))))

  -- The cut and the mark give each field but the queue.
  IsResumed-marked :
      (xs : List Ptr) (u v head : Ptr) (m : Tcbs) {d : Tcb}
      → cell m p ≡ some d
      → IsCut link_wait u p v k.tcb m
      → WaitQueue (record k { tcb = marked m p 0 ready; wait_list_head = head }) (erase p xs)
      → IsResumed k xs p (record k { tcb = marked m p 0 ready; wait_list_head = head })
  IsResumed-marked xs u v head m at_m w queue = record {
    queue = queue;
    same = refl;
    state =
        λ q. ground (arith, marked-status m p 0 ready at_m q, rest-status k.tcb m q (w.rests q));
    delay = λ q. ground (arith, marked-ticks m p 0 ready at_m q, rest-ticks k.tcb m q (w.rests q));
    rests = λ q. rest-edits k.tcb m p q (w.rests q);
    unlinked = (
      marked-next m p 0 ready at_m p link_wait ∙ ground (arith, w.nexts p),
      marked-prev m p 0 ready at_m p link_wait ∙ ground (arith, w.prevs p),
    );
    ready_nexts = λ q. marked-next m p 0 ready at_m q link_ready ∙ rest-next k.tcb m q (w.rests q);
    ready_prevs = λ q. marked-prev m p 0 ready at_m q link_ready ∙ rest-prev k.tcb m q (w.rests q);
  }

  cell_of_cut :
      (u v : Ptr) (m : Tcbs) → IsCut link_wait u p v k.tcb m → (d : Tcb) × (cell m p ≡ some d)
  cell_of_cut u v m w =
      let (d, e, _) = cell_of_next link_wait m p null (ground (arith, w.nexts p)) in (d, e)

  Chain-marked :
      (m : Tcbs) {d : Tcb} (a : Ptr) (xs : List Ptr) (b : Ptr)
      → cell m p ≡ some d
      → Chain link_wait m a xs b
      → Chain link_wait (marked m p 0 ready) a xs b
  Chain-marked m a xs b at_m =
      Chain-same m (marked m p 0 ready) a xs b (λ q. marked-next m p 0 ready at_m q link_wait)
        (λ q. marked-prev m p 0 ready at_m q link_wait)

  leave_head-ne : p ≢ k.wait_list_head → leave_head p k ≡ done tt k
  unfolding leave_head
  leave_head-ne ne = rw (load-ok k p at_p, ne→== p k.wait_list_head ne)

  leave_head-first :
      p ≡ k.wait_list_head
      → (c.wait_link.next == p) ≡ false
      → leave_head p k ≡ done tt (record k { wait_list_head = c.wait_link.next })
  unfolding leave_head
  leave_head-first e ne =
      let same : (p == k.wait_list_head) ≡ true = ground arith in rw (load-ok k p at_p, same, ne)

  leave_head-only :
      p ≡ k.wait_list_head
      → c.wait_link ≡ record { prev = p; next = p }
      → leave_head p k ≡ done tt (record k { wait_list_head = null })
  unfolding leave_head
  leave_head-only e l =
      let same : (p == k.wait_list_head) ≡ true = ground arith in
      rw (load-ok k p at_p, same, l, ==_refl p)

  -- The task was alone in the queue.
  resume-only :
      p ≡ k.wait_list_head
      → Joined link_wait k.tcb p p
      → (k' : Kernel) × (send_to_resume p k ≡ done tt k') × IsResumed k (p ∷ []) p k'
  resume-only e j =
      let m = cut link_wait p p p k.tcb in
      let l = link_of_neighbours k.tcb p p p at_p j j in
      let w = cut-IsCut link_wait p p p k.tcb j j in
      let (d, at_m) = cell_of_cut p p m w in
      (
        record k { tcb = marked m p 0 ready; wait_list_head = null },
        resume-cut null m (leave_head-only e l) (ground (arith, ne_null k.tcb p at_p))
            (unlink-alone link_wait p (record k { wait_list_head = null }) at_p l) at_m,
        IsResumed-marked (p ∷ []) p p null m at_m w (rw (==_refl p)),
      )

  -- The task was the first of several.
  resume-first :
      (y : Ptr) (ys : List Ptr)
      → p ≡ k.wait_list_head
      → Distinct (p ∷ y ∷ ys)
      → Chain link_wait k.tcb p (y ∷ ys) p
      → (k' : Kernel) × (send_to_resume p k ≡ done tt k') × IsResumed k (p ∷ y ∷ ys) p k'
  resume-first y ys e d (j, ch) =
      let u = last_of y ys in
      let m = cut link_wait u p y k.tcb in
      let i = Chain-last link_wait k.tcb y ys p ch in
      let w = cut-IsCut link_wait u p y k.tcb i j in
      let l = link_of_neighbours k.tcb u p y at_p i j in
      let (f, at_u, _) = cell_of_next link_wait k.tcb u p i.0 in
      let (g, at_y, _) = cell_of_prev link_wait k.tcb p y j.1 in
      let (h, at_m) = cell_of_cut u y m w in
      let ne_y : y ≢ p = ground arith in
      let ne_u : u ≢ p = ground (arith, has-last y ys) in
      let next_y : c.wait_link.next ≡ y = ground arith in
      let leave =
        subst (λ z. leave_head p k ≡ done tt (record k { wait_list_head = z })) next_y
          (leave_head-first e (ground arith)) in
      (
        record k { tcb = marked m p 0 ready; wait_list_head = y },
        resume-cut y m leave (λ q. ne_y (sym q))
            (unlink-cut link_wait p u y (record k { wait_list_head = y }) at_p at_u at_y l ne_u)
            at_m,
        IsResumed-marked (p ∷ y ∷ ys) u y y m at_m w (
            rw (==_refl p) (
              refl,
              d.1,
              Chain-marked m y ys y at_m
                  (Chain-close link_wait u p y k.tcb m w y ys ne_y (ground arith) ne_y ch),
            )),
      )

  -- The task stood behind the first.
  resume-inner :
      (x : Ptr) (xs : List Ptr)
      → k.wait_list_head ≡ x
      → Distinct (x ∷ xs)
      → p ≢ x
      → has p xs ≡ true
      → Chain link_wait k.tcb x xs x
      → (k' : Kernel) × (send_to_resume p k ≡ done tt k') × IsResumed k (x ∷ xs) p k'
  resume-inner x xs e d ne i ch =
      let ne_x : x ≢ p = λ q. ne (sym q) in
      let (u, v, ne_u, j, h) = Chain-neighbours link_wait k.tcb x xs x p ne_x i ch in
      let m = cut link_wait u p v k.tcb in
      let w = cut-IsCut link_wait u p v k.tcb j h in
      let l = link_of_neighbours k.tcb u p v at_p j h in
      let (f, at_u, _) = cell_of_next link_wait k.tcb u p j.0 in
      let (g, at_v, _) = cell_of_prev link_wait k.tcb p v h.1 in
      let (o, at_m) = cell_of_cut u v m w in
      let ne_head : p ≢ k.wait_list_head = λ q. ne (q ∙ e) in
      (
        record k { tcb = marked m p 0 ready },
        resume-cut k.wait_list_head m (leave_head-ne ne_head) ne_head
            (unlink-cut link_wait p u v k at_p at_u at_v l ne_u) at_m,
        IsResumed-marked (x ∷ xs) u v k.wait_list_head m at_m w (
            rw (ne→== p x ne) (
              e,
              Distinct-erase p x xs d,
              Chain-marked m x (erase p xs) x at_m
                  (Chain-erase link_wait u p v k.tcb m w x xs x ne_x ne_x i d.1 ch),
            )),
      )

-- A waiting or paused task that is resumed leaves the wait list, wherever it stands in it, and is
-- ready with no ticks left and its wait links cleared. The other tasks keep their order, and but for these
-- fields of the task and the wait links every field of every block, and all else of the kernel but the
-- head of the wait list, stays as it is.
pub send_to_resume-erase :
    (k : Kernel) (xs : List Ptr) (p : Ptr) (c : Tcb)
    → WaitQueue k xs
    → cell k.tcb p ≡ some c
    → ltb (rank c.task_status) (rank wait) ≡ false
    → has p xs ≡ true
    → (k' : Kernel) × (send_to_resume p k ≡ done tt k') × IsResumed k xs p k'
send_to_resume-erase k [] p c q at_p waits i = absurd (cc)
send_to_resume-erase k (x ∷ []) p c (e, d, ch) at_p waits i =
    let s : x ≡ p = ground arith in
    subst (λ z. (k' : Kernel) × (send_to_resume p k ≡ done tt k') × IsResumed k (z ∷ []) p k')
      (sym s)
      (resume-only k p at_p waits (sym (e ∙ s)) (subst (λ z. Joined link_wait k.tcb z z) s ch))
send_to_resume-erase k (x ∷ y ∷ ys) p c (e, d, ch) at_p waits i = elim (Bool-cases (p == x)) [
  | inl hit ↦
      let s : x ≡ p = ground arith in
      subst (λ z. (k' : Kernel) × (send_to_resume p k ≡ done tt k') × IsResumed k (z ∷ y ∷ ys) p k')
        (sym s)
        (resume-first k p at_p waits y ys (sym (e ∙ s)) (subst (λ z. Distinct (z ∷ y ∷ ys)) s d)
          (subst (λ z. Chain link_wait k.tcb z (y ∷ ys) z) s ch))
  | inr miss ↦ resume-inner k p at_p waits x (y ∷ ys) e d (ground arith) (ground arith) ch
]
