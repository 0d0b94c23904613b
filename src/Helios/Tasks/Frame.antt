-- ===== src/Helios/Tasks/Frame.antt =====
-- What the commands of helios_sched.c that pause a task leave as it is: the ready ring, its head and the
-- current task.
use cyancore.Common.{
  ℕ, ◌≡◌, refl, ◌∙◌, Bool, true, false, Option, none, some, ◌==◌, if◌then◌else◌, ap,
}
use cyancore.Status.{success}
use cyancore.Helios.Kernel.{
  Ptr, null, pause, Tcb, Kernel, Run, done, fault, panic, hang, M, and_then, pure, ◌>>=◌, get, cell,
  load, modify, set_wait_list_head, set_status, set_ticks, edit,
}
use cyancore.Helios.Link.{link_wait, link_ready, insert_before}
use cyancore.Helios.Link.View.{next, map_tcb, cell-edit}
use cyancore.Helios.Sched.{size_max, has_status, enlist, send_to_pause}

pub record IsFramed (k k' : Kernel) : Type 0 where
  pub nexts : (q : Ptr) → next link_ready k'.tcb q ≡ next link_ready k.tcb q
  pub head : k'.ready_list_head ≡ k.ready_list_head
  pub curr : k'.curr_task ≡ k.curr_task

pub IsFramed-refl : (k : Kernel) → IsFramed k k
IsFramed-refl k = record { nexts = λ q. refl; head = refl; curr = refl }

pub IsFramed-trans : {k k' k'' : Kernel} → IsFramed k k' → IsFramed k' k'' → IsFramed k k''
IsFramed-trans f g = record {
  nexts = λ q. g.nexts q ∙ f.nexts q;
  head = g.head ∙ f.head;
  curr = g.curr ∙ f.curr;
}

-- Where a run returns, it does so in a state with the property.
abbrev pub Returns {ℓ} : {A : Type ℓ} → (Kernel → Type 0) → Run A → Type 0
Returns p (done a k) = p k
Returns p fault = Unit
Returns p panic = Unit
Returns p hang = Unit

-- A command keeps the ring if it does so whenever it returns.
unfoldable pub Keeps {ℓ} : {A : Type ℓ} → M A → Type 0
Keeps m = (k : Kernel) → Returns (IsFramed k) (m k)

Returns-then :
    {A B : Type 0} (k : Kernel) (r : Run A) (f : A → M B)
    → Returns (IsFramed k) r
    → ((a : A) → Keeps (f a))
    → Returns (IsFramed k) (and_then r f)
unfolding Keeps
Returns-then {B = B} k (done a k') f h g = Returns-trans (f a k') h (g a k')
  where
    Returns-trans : (r : Run B) → IsFramed k k' → Returns (IsFramed k') r → Returns (IsFramed k) r
    Returns-trans (done b k'') h g = IsFramed-trans h g
    Returns-trans fault h g = tt
    Returns-trans panic h g = tt
    Returns-trans hang h g = tt
Returns-then k fault f h g = tt
Returns-then k panic f h g = tt
Returns-then k hang f h g = tt

pub Keeps-bind :
    {A B : Type 0} (m : M A) (f : A → M B) → Keeps m → ((a : A) → Keeps (f a)) → Keeps (m >>= f)
unfolding Keeps
Keeps-bind m f h g k = Returns-then k (m k) f (h k) g

pub Keeps-if : {A : Type 0} (b : Bool) (m n : M A) → Keeps m → Keeps n → Keeps (if b then m else n)
Keeps-if true m n h g = h
Keeps-if false m n h g = g

pub Keeps-pure : {A : Type 0} (a : A) → Keeps (pure a)
unfolding Keeps
Keeps-pure a k = IsFramed-refl k

pub Keeps-get : Keeps get
unfolding Keeps
Keeps-get k = IsFramed-refl k

pub Keeps-load : (p : Ptr) → Keeps (load p)
unfolding load Keeps
Keeps-load p k = by_cell (cell k.tcb p)
  where
    by_cell : (o : Option Tcb) → Returns (IsFramed k) (elim o [ none ↦ fault | some c ↦ done c k ])
    by_cell none = tt
    by_cell (some c) = IsFramed-refl k

pub Keeps-modify :
    (p : Ptr) (f : Tcb → Tcb) → ((c : Tcb) → (f c).ready_link ≡ c.ready_link) → Keeps (modify p f)
unfolding modify Keeps
Keeps-modify p f same k = by_cell (cell k.tcb p)
  where
    nexts : (q : Ptr) → next link_ready (edit k.tcb p f) q ≡ next link_ready k.tcb q
    nexts q = rw (next, cell-edit k.tcb p f q) (by_hit (q == p) (cell k.tcb q))
      where
        by_hit :
            (b : Bool) (o : Option Tcb)
            → elim (if b then map_tcb f o else o) [ none ↦ none | some c ↦ some c.ready_link.next ]
              ≡ elim o [ none ↦ none | some c ↦ some c.ready_link.next ]
        by_hit true none = refl
        by_hit true (some c) = ap (λ l. some l.next) (same c)
        by_hit false o = refl

    by_cell :
        (o : Option Tcb)
        → Returns {A = Unit {0}}
            (IsFramed k)
            (elim o [ none ↦ fault | some c ↦ done tt (record k { tcb = edit k.tcb p f }) ])
    by_cell none = tt
    by_cell (some c) = record { nexts = nexts; head = refl; curr = refl }

pub Keeps-insert_before : (ref new : Ptr) → Keeps (insert_before ref new link_wait)
unfolding insert_before
Keeps-insert_before ref new = Keeps-if (new == null) _ _ (Keeps-pure _) (
    Keeps-if (ref == null) _ _
      (Keeps-bind _ _ (Keeps-modify new _ (λ c. refl))
        (λ _. Keeps-bind _ _ (Keeps-modify new _ (λ c. refl)) (λ _. Keeps-pure _)))
      (Keeps-bind _ _ (Keeps-modify new _ (λ c. refl)) (λ _. Keeps-bind _ _ (Keeps-load ref) (λ r.
        Keeps-bind _ _ (Keeps-modify new _ (λ c. refl)) (λ _.
          Keeps-bind _ _ (Keeps-modify ref _ (λ c. refl)) (λ _.
            Keeps-bind _ _ (Keeps-load new) (λ (n : Tcb).
              Keeps-bind _ _ (Keeps-modify n.wait_link.prev _ (λ c. refl))
                (λ _. Keeps-pure _))))))))

Keeps-set_wait : (p : Ptr) → Keeps (set_wait_list_head p)
unfolding Keeps
Keeps-set_wait p k = record { nexts = λ q. refl; head = refl; curr = refl }

pub Keeps-send_to_pause : (ptr : Ptr) → Keeps (send_to_pause ptr)
unfolding send_to_pause enlist
Keeps-send_to_pause ptr = Keeps-bind _ _ (Keeps-load ptr) (λ (c : Tcb).
    Keeps-if (has_status c.task_status pause) _ _ (Keeps-pure _) (
      Keeps-bind {A = Kernel} _ _ Keeps-get (λ k₀.
        Keeps-bind _ _ (Keeps-insert_before k₀.wait_list_head ptr) (λ (r : ℕ × Ptr).
          Keeps-bind _ _ (Keeps-set_wait r.1) (λ _.
            Keeps-if (r.0 == success) _ _
              (Keeps-bind _ _ (Keeps-modify ptr (set_ticks size_max) (λ c. refl))
                (λ _. Keeps-modify ptr (set_status pause) (λ c. refl)))
              (Keeps-pure _))))))
