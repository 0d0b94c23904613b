-- ===== src/Helios/Sched/Wait.antt =====
-- The wait list of helios_sched.c as a queue of tasks.
pub mod Enlist
pub mod Resume
use cyancore.Common.{
  ℕ, ◌≡◌, refl, sym, subst, ◌≢◌, ◌∙◌, Bool, true, false, Option, Option-cases, none, some, inl, inr,
  List, [], ◌∷◌, ◌++◌, arith, ◌==◌, if◌then◌else◌, ne→==, ==_refl,
}
use cyancore.Status.{success}
use cyancore.Helios.Kernel.{
  Ptr, null, TaskStatus, ready, wait, pause, rank, Tcb, Tcbs, Kernel, done, cell, load, edit,
  modify, set_status, set_ticks,
}
use cyancore.Helios.Link.{LinkType, link_wait, link_ready, link, insert_before}
use cyancore.Helios.Link.View.{
  next, prev, rest, linked, linked-IsBetween, insert_before-linked, load-ok, modify-ok, cell-edit,
  edit_self,
}
use cyancore.Helios.Link.Cut.{Joined}
use cyancore.Helios.Link.Ring.{has, Distinct, last_of, Chain, Chain-insert, has-last}
use cyancore.Helios.Sched.{has_status, enlist, send_to_wait, send_to_pause}

-- The wait list holds the tasks `xs`, its head first.
abbrev pub WaitQueue : Kernel → List Ptr → Type 0
WaitQueue k [] = k.wait_list_head ≡ null
WaitQueue k (x ∷ xs) = (k.wait_list_head ≡ x) × Distinct (x ∷ xs) × Chain link_wait k.tcb x xs x

-- Editing what is no wait link leaves the queue as it is.
pub Chain-same :
    (m m' : Tcbs) (a : Ptr) (xs : List Ptr) (b : Ptr)
    → ((q : Ptr) → next link_wait m' q ≡ next link_wait m q)
    → ((q : Ptr) → prev link_wait m' q ≡ prev link_wait m q)
    → Chain link_wait m a xs b
    → Chain link_wait m' a xs b
Chain-same m m' a [] b n p (j, h) = (n a ∙ j, p b ∙ h)
Chain-same m m' a (x ∷ xs) b n p ((j, h), c) = ((n a ∙ j, p x ∙ h), Chain-same m m' x xs b n p c)

pub Distinct-append :
    (xs : List Ptr) (new : Ptr) → Distinct xs → has new xs ≡ false → Distinct (xs ++ new ∷ [])
Distinct-append [] new d out = (refl, tt)
Distinct-append (x ∷ xs) new d out =
    (has-append x xs new d.0 (ground arith), Distinct-append xs new d.1 (ground arith))
  where
    has-append :
        (a : Ptr) (xs : List Ptr) (b : Ptr)
        → has a xs ≡ false
        → a ≢ b
        → has a (xs ++ b ∷ []) ≡ false
    has-append a [] b h ne = ground arith
    has-append a (x ∷ xs) b h ne = ground (arith, has-append a xs b)

pub Chain-last :
    (t : LinkType) (m : Tcbs) (a : Ptr) (xs : List Ptr) (b : Ptr)
    → Chain t m a xs b
    → Joined t m (last_of a xs) b
Chain-last t m a [] b c = c
Chain-last t m a (x ∷ xs) b (j, c) = Chain-last t m x xs b c

pub cell_of_prev :
    (t : LinkType) (m : Tcbs) (a b : Ptr)
    → prev t m b ≡ some a
    → (c : Tcb) × (cell m b ≡ some c) × ((link t c).prev ≡ a)
cell_of_prev t m a b h = elim (Option-cases (cell m b)) [
  | inl e ↦ absurd (ground arith)
  | inr (c, e) ↦ (c, e, ground arith)
]

pub cell_of_next :
    (t : LinkType) (m : Tcbs) (a b : Ptr)
    → next t m a ≡ some b
    → (c : Tcb) × (cell m a ≡ some c) × ((link t c).next ≡ b)
cell_of_next t m a b h = elim (Option-cases (cell m a)) [
  | inl e ↦ absurd (ground arith)
  | inr (c, e) ↦ (c, e, ground arith)
]

abbrev pub marked : Tcbs → Ptr → ℕ → TaskStatus → Tcbs
marked m p n s = edit (edit m p (set_ticks n)) p (set_status s)

abbrev pub status : Tcbs → Ptr → Option TaskStatus
status m p = elim (cell m p) [ none ↦ none | some c ↦ some c.task_status ]

abbrev pub ticks_left : Tcbs → Ptr → Option ℕ
ticks_left m p = elim (cell m p) [ none ↦ none | some c ↦ some c.wait_res.task_delay_ticks ]

-- Marking a block touches its status and its ticks.
module _ (m : Tcbs) (p : Ptr) (n : ℕ) (s : TaskStatus) {c : Tcb} (at_p : cell m p ≡ some c)
    (q : Ptr) where
  pub marked-next : (t : LinkType) → next t (marked m p n s) q ≡ next t m q
  unfolding cell
  marked-next link_wait = ground arith
  marked-next link_ready = ground arith

  pub marked-prev : (t : LinkType) → prev t (marked m p n s) q ≡ prev t m q
  unfolding cell
  marked-prev link_wait = ground arith
  marked-prev link_ready = ground arith

  pub marked-status : status (marked m p n s) q ≡ (if q == p then some s else status m q)
  unfolding cell
  marked-status = ground arith

  pub marked-ticks : ticks_left (marked m p n s) q ≡ (if q == p then some n else ticks_left m q)
  unfolding cell
  marked-ticks = ground arith

-- What does not depend on the wait links.
module _ (m m' : Tcbs) (q : Ptr) (same : rest link_wait m' q ≡ rest link_wait m q) where
  pub rest-status : status m' q ≡ status m q
  rest-status = ground arith

  pub rest-ticks : ticks_left m' q ≡ ticks_left m q
  rest-ticks = ground arith

  pub rest-next : next link_ready m' q ≡ next link_ready m q
  rest-next = ground arith

  pub rest-prev : prev link_ready m' q ≡ prev link_ready m q
  rest-prev = ground arith
