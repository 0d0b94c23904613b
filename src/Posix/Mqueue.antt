-- ===== src/Posix/Mqueue.antt =====
-- The message queues of src/lib/libposix/src/posix_mqueue.c. A pointer is none where it is null; what a
-- function returns is none where it writes through a null pointer. A name is the list of its characters
-- before the terminator. `memory n` is what the buffer of the kernel holds after `n` of its calls.
pub mod Lost
pub mod Open
use cyancore.Common.{
  ℕ, zero, suc, ◌*◌, ◌/◌, ◌%◌, List, [], ◌∷◌, Bool, true, false, Option, none, some, ltb, ◌==◌,
  if◌then◌else◌,
}
use cyancore.Common.Int.{ℤ, pos}
use cyancore.Libc.Strings.Limited.{take}
use cyancore.Posix.Errno.{
  ok, minus_einval, minus_ebusy, minus_enotsup, minus_ebadf, minus_enoent, is_ok,
}
use cyancore.Posix.Timespec.{Timespec, timespec_to_ticks}
use cyancore.Posix.Kernel.{
  Kernel, World, M, ◌>>=◌, ◌>>◌, pure, super_call, mq_close, mq_send, mq_receive, mutex_init,
  mutex_destroy, mutex_lock, mutex_unlock,
}
use cyancore.Posix.Semaphore.{ticks_without_time, timed_loop}

-- The flags of fcntl.h, each of which is one bit
abbrev pub o_creat : ℕ
o_creat = 0x0002

abbrev pub o_nonblock : ℕ
o_nonblock = 0x0400

abbrev pub o_rdonly : ℕ
o_rdonly = 0x2000

abbrev pub o_wronly : ℕ
o_wronly = 0x8000

-- `flags & bit`
abbrev pub has_flag : ℕ → ℕ → Bool
has_flag flags bit = flags / bit % 2 == 1

abbrev pub name_len_max : ℕ
name_len_max = 16

-- `mq_attr_t`
pub record Attr : Type 0 where
  pub mq_flags : ℕ
  pub mq_maxmsg : ℕ
  pub mq_msgsize : ℕ
  pub mq_curmsgs : ℕ

abbrev zero_attr : Attr
zero_attr = record { mq_flags = 0; mq_maxmsg = 0; mq_msgsize = 0; mq_curmsgs = 0 }

-- `mqd_section_t`
pub record Section : Type 0 where
  pub id : ℕ
  pub mq_name : List ℕ
  pub attr : Attr
  pub kernel_buff : ℕ

-- `UTILS_strnlen`
unfoldable pub utils_strnlen : Option (List ℕ) → ℕ → ℕ
utils_strnlen none max = 0
utils_strnlen (some []) max = 0
utils_strnlen (some (c ∷ s)) zero = 0
utils_strnlen (some (c ∷ s)) (suc max) = suc (utils_strnlen (some s) max)

-- `s_find_queue_in_desc_list`, which looks at nothing
abbrev pub find_queue : Option (List ℕ) → Option Section → ℤ
find_queue name q = ok

abbrev copy_in : List ℕ → M (Unit {0})
copy_in bytes w = (tt, record w { copied_in = bytes ∷ w.copied_in })

abbrev copy_out : List ℕ → M (Unit {0})
copy_out bytes w = (tt, record w { copied_out = bytes ∷ w.copied_out })

abbrev get_count : M ℕ
get_count w = (w.count, w)

-- The ticks of an optional absolute time
unfoldable pub with_ticks : Option Timespec → (ℕ → M ℤ) → M ℤ
with_ticks none f = f ticks_without_time
with_ticks (some t) f = run (timespec_to_ticks (some t) (some 0)) f
  where
    run : ℤ × Option ℕ → (ℕ → M ℤ) → M ℤ
    run (status, none) f = pure minus_einval
    run (status, some ticks) f = if is_ok status then f ticks else pure minus_einval

module _ (kernel : Kernel) where
  unfoldable pub queue_write : Section → List ℕ → ℕ → ℕ → M ℤ
  queue_write q buff size prio =
      if has_flag q.attr.mq_flags o_rdonly
      then (do
        copy_in (take size buff)
        r ← super_call kernel (mq_send q.id size prio)
        pure (if r.status == 0 then ok else minus_ebadf))
      else pure minus_enotsup

  unfoldable pub lock_init : M ℕ
  lock_init = do r ← super_call kernel mutex_init; pure r.status

  unfoldable pub lock_deinit : M ℕ
  lock_deinit = do r ← super_call kernel mutex_destroy; pure r.status

  unfoldable pub acquire_lock : M Bool
  acquire_lock = do r ← super_call kernel mutex_lock; pure (r.status == 0)

  unfoldable pub release_lock : M Bool
  release_lock = do r ← super_call kernel mutex_unlock; pure (r.status == 0)

  -- The section is the status of `s_mq_lock_init` cast to a pointer. It is null where the check of it
  -- passes, so the first write to it, of the attributes, is through a null pointer.
  unfoldable pub open_queue : Option (List ℕ) → ℕ → Option Attr → M (Option ℤ)
  unfolding utils_strnlen lock_init acquire_lock
  open_queue none oflag attr = pure (some minus_einval)
  open_queue (some name) oflag attr =
      if ltb (utils_strnlen (some name) name_len_max) name_len_max
      then if has_flag oflag o_creat
        then (do
          p ← lock_init
          if p == 0
              then (do locked ← acquire_lock; pure (if locked then none else some minus_ebusy))
              else pure (some (pos p)))
        else pure (some minus_enoent)
      else pure (some minus_einval)

  -- The second result is `*mqdes`.
  unfoldable pub close : Option Section → M (ℤ × Option Section)
  unfolding acquire_lock release_lock lock_deinit
  close none = pure (minus_einval, none)
  close (some q) = do
    locked ← acquire_lock
    if locked
        then (do
          r ← super_call kernel (mq_close q.id)
          let err = if r.status == 0 then ok else minus_enotsup
          let q' = record q { attr = zero_attr }
          released ← release_lock
          if released then (do lock_deinit; pure (err, some q')) else pure (minus_ebusy, some q'))
        else pure (minus_ebusy, some q)

  -- `*attr`, where it is written
  unfoldable pub getattr : Option Section → ℤ × Option Attr
  getattr none = (minus_einval, none)
  getattr (some q) = (ok, some q.attr)

  -- From the lock to the end of a timed function: `attempt` tries to send or to receive.
  unfoldable pub timed : Section → M Bool → ℕ → M ℤ
  unfolding acquire_lock release_lock timed_loop
  timed q attempt ticks = do
    locked ← acquire_lock
    if locked
        then (do
          err ←
              (if is_ok (find_queue none (some q))
                then timed_loop kernel attempt (has_flag q.attr.mq_flags o_nonblock) ticks
                else pure minus_ebadf)
          released ← release_lock
          pure (if released then err else minus_ebusy))
        else pure minus_ebusy

  unfoldable pub timedsend : Option Section → Option (List ℕ) → ℕ → ℕ → Option Timespec → M ℤ
  timedsend none msg len prio abstime = pure minus_einval
  timedsend (some q) none len prio abstime = pure minus_einval
  timedsend (some q) (some msg) zero prio abstime = pure minus_einval
  timedsend (some q) (some msg) (suc n) prio abstime =
      with_ticks abstime (timed q (do r ← queue_write q msg (suc n) prio; pure (is_ok r)))

  unfoldable pub send : Option Section → Option (List ℕ) → ℕ → ℕ → M ℤ
  send q msg len prio = timedsend q msg len prio none

module _ (kernel : Kernel) (memory : ℕ → List ℕ) where
  unfoldable pub queue_read : Section → ℕ → M ℤ
  queue_read q size =
      if has_flag q.attr.mq_flags o_wronly
      then (do
        r ← super_call kernel (mq_receive q.id size)
        n ← get_count
        if r.status == 0 then (do copy_out (take size (memory n)); pure ok) else pure minus_ebadf)
      else pure minus_enotsup

  -- `msg` and `msg_prio` say whether these pointers are not null. The second result is `*msg_prio`.
  unfoldable pub timedreceive :
      Option Section → Bool → ℕ → Bool → Option Timespec → M (Option (ℤ × Option ℕ))
  timedreceive none msg len msg_prio abstime = pure (some (minus_einval, none))
  timedreceive (some q) false len msg_prio abstime = pure (some (minus_einval, none))
  timedreceive (some q) true zero msg_prio abstime = pure (some (minus_einval, none))
  timedreceive (some q) true (suc n) false abstime = pure none
  timedreceive (some q) true (suc n) true abstime = do
    r ← with_ticks abstime (timed kernel q (do r ← queue_read q (suc n); pure (is_ok r)))
    pure (some (r, some 0))

  unfoldable pub receive : Option Section → Bool → ℕ → Bool → M (Option (ℤ × Option ℕ))
  receive q msg len msg_prio = timedreceive q msg len msg_prio none

unfoldable pub unlink : Option (List ℕ) → ℤ
unlink name = ok
