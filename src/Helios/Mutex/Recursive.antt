-- ===== src/Helios/Mutex/Recursive.antt =====
-- helios_mutex.c as a recursive mutex: free, or held by a task so many times.
use cyancore.Common.{
  ℕ, zero, suc, ◌≡◌, refl, sym, subst, ◌≢◌, Bool, true, false, Option, none, some, arith, ◌==◌,
  if◌then◌else◌, ne→==, ==_refl, Bool-cases, inl, inr,
}
use cyancore.Common.Int.{ℤ, pos, negsuc, ◌+ℤ◌, ◌-ℤ◌}
use cyancore.Status.{success, error_os_mutex_lock, error_os_mutex_unlock}
use cyancore.Helios.Kernel.{Ptr, null, Mutex, Kernel, Run, done}
use cyancore.Helios.Mutex.{eq_ℤ, load_mutex, store_mutex, take_mutex, mutex_lock, mutex_unlock}

-- Held by `owner`, who has locked it `again` more times after the first.
pub data Hold : Type 0 where
  free : Hold
  held : (owner : Ptr) (again : ℕ) → Hold

abbrev value : ℕ → ℤ
value zero = pos 0
value (suc n) = negsuc n

-- The mutex at `p` is live and stands for the abstract state.
abbrev pub MutexIs : Kernel → Ptr → Hold → Type 0
MutexIs k p free =
    k.mutex p ≡ some (record { mutex_val = pos 1; mutex_init = true; lock_task = null })
MutexIs k p (held o n) =
    (o ≢ null)
    × (k.mutex p ≡ some (record { mutex_val = value n; mutex_init = true; lock_task = o }))

-- What a recursive mutex answers to a lock: the owner locks it again, and another task is refused if it is
-- not to wait; `none` where it has to wait.
abbrev pub spec_lock : Ptr → ℕ → Hold → Option (ℕ × Hold)
spec_lock task ticks free = some (success, held task 0)
spec_lock task ticks (held o n) =
    if o == task
    then some (success, held o (suc n))
    else if ticks == 0
    then some (error_os_mutex_lock, held o n)
    else none

-- The task holds the mutex.
abbrev pub owns : Ptr → Hold → Bool
owns task free = false
owns task (held o n) = o == task

abbrev release : Ptr → ℕ → Hold
release o zero = free
release o (suc n) = held o n

abbrev pub spec_unlock : Ptr → Hold → ℕ × Hold
spec_unlock task free = (error_os_mutex_unlock, free)
spec_unlock task (held o n) =
    if o == task then (success, release o n) else (error_os_mutex_unlock, held o n)

-- The mutex at `p` went from one abstract state to another, and nothing else has changed.
pub record Moved (k : Kernel) (p : Ptr) (h : Hold) (k' : Kernel) : Type 0 where
  pub now : MutexIs k' p h
  pub others : (q : Ptr) → q ≢ p → k'.mutex q ≡ k.mutex q
  pub same : k' ≡ record k { mutex = k'.mutex }

-- The state in which the mutex stands for `h`.
abbrev put : Kernel → Ptr → Hold → Kernel
put k p free = record k {
  mutex = λ q.
      if q == p
      then some (record { mutex_val = pos 1; mutex_init = true; lock_task = null })
      else k.mutex q;
}
put k p (held o n) = record k {
  mutex = λ q.
      if q == p
      then some (record { mutex_val = value n; mutex_init = true; lock_task = o })
      else k.mutex q;
}

put-Moved :
    (k : Kernel) (p : Ptr) (o : Ptr) (n : ℕ) → o ≢ null → Moved k p (held o n) (put k p (held o n))
put-Moved k p o n ne = record {
  now = (ne, ground arith);
  others = λ q d. ground arith;
  same = refl;
}

put-Moved_free : (k : Kernel) (p : Ptr) → Moved k p free (put k p free)
put-Moved_free k p = record { now = ground arith; others = λ q d. ground arith; same = refl }

Moved-self : (k : Kernel) (p : Ptr) (h : Hold) → MutexIs k p h → Moved k p h k
Moved-self k p h i = record { now = i; others = λ q d. refl; same = refl }

value-ne-one : (n : ℕ) → eq_ℤ (value n) (pos 1) ≡ false
value-ne-one zero = refl
value-ne-one (suc n) = refl

value_pred : (n : ℕ) → value n -ℤ pos 1 ≡ value (suc n)
unfolding ◌-ℤ◌
value_pred zero = refl
value_pred (suc n) = ground arith

value_succ : (n : ℕ) → value (suc n) +ℤ pos 1 ≡ value n
unfolding ◌+ℤ◌
value_succ zero = refl
value_succ (suc n) = ground arith

module _ (k : Kernel) (p : Ptr) (ne : p ≢ null) where
  load_mutex-ok : {m : Mutex} → k.mutex p ≡ some m → load_mutex p k ≡ done m k
  unfolding load_mutex
  load_mutex-ok i = rw (ne→== p null ne, i)

  take-free : MutexIs k p free → take_mutex p k ≡ done success (put k p (held k.curr_task 0))
  unfolding take_mutex store_mutex ◌-ℤ◌
  take-free i = rw (load_mutex-ok i)

  take-held :
      (o : Ptr) (n : ℕ)
      → MutexIs k p (held o n)
      → take_mutex p k ≡ done success (put k p (held k.curr_task (suc n)))
  unfolding take_mutex store_mutex
  take-held o n i = rw (load_mutex-ok i.1, value_pred n)

  lock-free :
      (rounds ticks : ℕ)
      → MutexIs k p free
      → mutex_lock rounds p ticks k ≡ done success (put k p (held k.curr_task 0))
  unfolding mutex_lock
  lock-free rounds ticks i = rw (ne→== p null ne, load_mutex-ok i) (take-free i)

  lock-busy :
      (rounds o n : ℕ)
      → MutexIs k p (held o n)
      → mutex_lock rounds p 0 k ≡ done error_os_mutex_lock k
  unfolding mutex_lock
  lock-busy rounds o n i = rw (ne→== p null ne, load_mutex-ok i.1, value-ne-one n, ne→== o null i.0)

  lock-again :
      (rounds ticks n : ℕ)
      → ticks ≢ 0
      → MutexIs k p (held k.curr_task n)
      → mutex_lock rounds p ticks k ≡ done success (put k p (held k.curr_task (suc n)))
  unfolding mutex_lock
  lock-again rounds ticks n t i =
      rw (ne→== p null ne, load_mutex-ok i.1, value-ne-one n, ne→== k.curr_task null i.0)
        (rw (ne→== ticks 0 t, ==_refl k.curr_task) (take-held k.curr_task n i))

  unlock-last : MutexIs k p (held k.curr_task 0) → mutex_unlock p k ≡ done success (put k p free)
  unfolding mutex_unlock store_mutex ◌+ℤ◌
  unlock-last i = rw (ne→== p null ne, load_mutex-ok i.1, ==_refl k.curr_task)

  unlock-more :
      (n : ℕ)
      → MutexIs k p (held k.curr_task (suc n))
      → mutex_unlock p k ≡ done success (put k p (held k.curr_task n))
  unfolding mutex_unlock store_mutex
  unlock-more n i =
      rw (ne→== p null ne, load_mutex-ok i.1, ==_refl k.curr_task)
        (rw (value_succ n, value-ne-one n))

  unlock-foreign :
      {m : Mutex}
      → k.mutex p ≡ some m
      → m.mutex_init ≡ true
      → m.lock_task ≢ k.curr_task
      → mutex_unlock p k ≡ done error_os_mutex_unlock k
  unfolding mutex_unlock
  unlock-foreign {m} e live o =
      rw (ne→== p null ne, load_mutex-ok e, live, ne→== m.lock_task k.curr_task o)

-- An operation answered `r` and left the mutex in the state `h`.
abbrev pub Answers : Kernel → Ptr → ℕ → Hold → Run ℕ → Type 0
Answers k p r h run = (k' : Kernel) × (run ≡ done r k') × Moved k p h k'

abbrev Answered : Kernel → Ptr → Run ℕ → Option (ℕ × Hold) → Type 0
Answered k p run none = Unit
Answered k p run (some (r, h)) = Answers k p r h run

lock_held :
    (rounds p ticks : ℕ) (k : Kernel) (o n : ℕ)
    → p ≢ null
    → MutexIs k p (held o n)
    → (ticks ≡ 0 → (o == k.curr_task) ≡ false)
    → Answered k p (mutex_lock rounds p ticks k) (spec_lock k.curr_task ticks (held o n))
lock_held rounds p zero k o n ne i other =
    rw (other refl) (k, lock-busy k p ne rounds o n i, Moved-self k p (held o n) i)
lock_held rounds p (suc t) k o n ne i waits = elim (Bool-cases (o == k.curr_task)) [
  | inl own ↦
      let e : o ≡ k.curr_task = ground arith in
      let i' = subst (λ z. MutexIs k p (held z n)) e i in
      rw own (
        put k p (held k.curr_task (suc n)),
        lock-again k p ne rounds (suc t) n (ground arith) i',
        subst (λ z. Moved k p (held z (suc n)) (put k p (held k.curr_task (suc n)))) (sym e)
            (put-Moved k p k.curr_task (suc n) i'.0),
      )
  | inr other ↦ rw (other, ne→== (suc t) 0 (ground arith)) tt
]

lock-Answered :
    (rounds p ticks : ℕ) (k : Kernel) (h : Hold)
    → p ≢ null
    → k.curr_task ≢ null
    → MutexIs k p h
    → (ticks ≡ 0 → owns k.curr_task h ≡ false)
    → Answered k p (mutex_lock rounds p ticks k) (spec_lock k.curr_task ticks h)
lock-Answered rounds p ticks k free ne live i other = (
  put k p (held k.curr_task 0),
  lock-free k p ne rounds ticks i,
  put-Moved k p k.curr_task 0 live,
)
lock-Answered rounds p ticks k (held o n) ne live i other =
    lock_held rounds p ticks k o n ne i other

-- A mutex that is free, or held by another task, or held by the task itself and locked with wait ticks: where
-- the task need not wait, `helios_mutex_lock` gives the answer of a recursive mutex, goes to its next state
-- and changes nothing else. The owner is left out where it gives no wait ticks.
pub mutex_lock-spec_lock :
    (rounds p ticks : ℕ) (k : Kernel) (h h' : Hold) (r : ℕ)
    → p ≢ null
    → k.curr_task ≢ null
    → MutexIs k p h
    → (ticks ≡ 0 → owns k.curr_task h ≡ false)
    → spec_lock k.curr_task ticks h ≡ some (r, h')
    → Answers k p r h' (mutex_lock rounds p ticks k)
mutex_lock-spec_lock rounds p ticks k h h' r ne live i other e =
    subst (Answered k p (mutex_lock rounds p ticks k)) e
      (lock-Answered rounds p ticks k h ne live i other)

unlock_own :
    (p : Ptr) (k : Kernel) (n : ℕ)
    → p ≢ null
    → MutexIs k p (held k.curr_task n)
    → Answers k p success (release k.curr_task n) (mutex_unlock p k)
unlock_own p k zero ne i = (put k p free, unlock-last k p ne i, put-Moved_free k p)
unlock_own p k (suc n) ne i =
    (put k p (held k.curr_task n), unlock-more k p ne n i, put-Moved k p k.curr_task n i.0)

-- `helios_mutex_unlock` is the unlock of a recursive mutex: the owner gives up one lock, and frees
-- the mutex with the last one; any other task gets an error and changes nothing.
pub mutex_unlock-spec_unlock :
    (p : Ptr) (k : Kernel) (h : Hold)
    → p ≢ null
    → k.curr_task ≢ null
    → MutexIs k p h
    → Answers k p (spec_unlock k.curr_task h).0 (spec_unlock k.curr_task h).1 (mutex_unlock p k)
mutex_unlock-spec_unlock p k free ne live i =
    (k, unlock-foreign k p ne i refl (λ e. live (sym e)), Moved-self k p free i)
mutex_unlock-spec_unlock p k (held o n) ne live i = elim (Bool-cases (o == k.curr_task)) [
  | inl own ↦
      let e : o ≡ k.curr_task = ground arith in
      rw own (
        subst (λ z. Answers k p success (release z n) (mutex_unlock p k)) (sym e)
          (unlock_own p k n ne (subst (λ z. MutexIs k p (held z n)) e i)))
  | inr other ↦
      rw other (k, unlock-foreign k p ne i.1 refl (ground arith), Moved-self k p (held o n) i)
]
