-- ===== src/Posix/Pthread.antt =====
-- The threads of src/lib/libposix/src/posix_pthread.c. A pointer is none where it is null; a function that
-- writes through a pointer returns what it points to beside its status. `pthread_equal` compares padding
-- bytes as well and is left out.
pub mod Created
use cyancore.Common.{ℕ, Bool, true, false, Option, none, some, leb, ◌==◌, if◌then◌else◌}
use cyancore.Common.Int.{ℤ, pos}
use cyancore.Posix.Errno.{ok, minus_einval, minus_ebusy, minus_eagain}
use cyancore.Posix.Kernel.{
  Kernel, M, ◌>>=◌, ◌>>◌, pure, super_call, pthread_create, pthread_exit, mutex_lock, mutex_unlock,
}

abbrev pub min_stack_size : ℕ
min_stack_size = 128

-- `sched_param_t` has the one field.
pub record Attr : Type 0 where
  pub detach_state : ℤ
  pub policy : ℤ
  pub sched_param : ℤ
  pub stacksize : ℕ

abbrev zero_attr : Attr
zero_attr = record { detach_state = pos 0; policy = pos 0; sched_param = pos 0; stacksize = 0 }

-- `pthread_t`; `attr` and `fn` are addresses.
pub record Thread : Type 0 where
  pub attr : ℕ
  pub fn : ℕ
  pub pid : ℕ

-- What the caller passes as an attribute: its address and what is there.
pub record AttrAt : Type 0 where
  pub address : ℕ
  pub value : Attr

pub attr_destroy : Option Attr → ℤ × Option Attr
attr_destroy none = (minus_einval, none)
attr_destroy (some a) = (ok, some zero_attr)

pub attr_init : Option Attr → ℤ × Option Attr
attr_init none = (minus_einval, none)
attr_init (some a) = (ok, some (record zero_attr { stacksize = min_stack_size }))

-- The Boolean says whether the second pointer, which the value is written to, is not null.
pub attr_getdetachstate : Option Attr → Bool → ℤ × Option ℤ
attr_getdetachstate none out = (minus_einval, none)
attr_getdetachstate (some a) false = (minus_einval, none)
attr_getdetachstate (some a) true = (ok, some a.detach_state)

pub attr_getschedparam : Option Attr → Bool → ℤ × Option ℤ
attr_getschedparam none out = (minus_einval, none)
attr_getschedparam (some a) false = (minus_einval, none)
attr_getschedparam (some a) true = (ok, some a.sched_param)

pub attr_getstacksize : Option Attr → Bool → ℤ × Option ℕ
attr_getstacksize none out = (minus_einval, none)
attr_getstacksize (some a) false = (minus_einval, none)
attr_getstacksize (some a) true = (ok, some a.stacksize)

pub attr_setdetachstate : Option Attr → ℤ → ℤ × Option Attr
attr_setdetachstate none state = (minus_einval, none)
attr_setdetachstate (some a) state = (ok, some (record a { detach_state = state }))

pub attr_setschedparam : Option Attr → ℤ → ℤ × Option Attr
attr_setschedparam none param = (minus_einval, none)
attr_setschedparam (some a) param = (ok, some (record a { sched_param = param }))

pub attr_setschedpolicy : Option Attr → ℤ → ℤ × Option Attr
attr_setschedpolicy none policy = (minus_einval, none)
attr_setschedpolicy (some a) policy = (ok, some (record a { policy = policy }))

pub attr_setstacksize : Option Attr → ℕ → ℤ × Option Attr
attr_setstacksize none size = (minus_einval, none)
attr_setstacksize (some a) size =
    if leb min_stack_size size
    then (ok, some (record a { stacksize = size }))
    else (minus_einval, some a)

module _ (kernel : Kernel) where
  -- The second result is `*thread`.
  pub create : Option Thread → Option AttrAt → ℕ → ℕ → M (ℤ × Option Thread)
  create none attr start arg = pure (minus_einval, none)
  create (some t) none start arg = pure (minus_einval, some t)
  create (some t) (some a) start arg =
      if leb min_stack_size a.value.stacksize
      then (do
        let t₁ = record t { attr = a.address }
        l ← super_call kernel mutex_lock
        if l.status == 0
            then (do
              r ← super_call kernel (pthread_create start arg a.value.stacksize)
              let made = r.status == 0
              u ← super_call kernel mutex_unlock
              let t₂ = if made then record t₁ { fn = start; pid = r.size } else t₁
              pure (
                if u.status == 0 then (if made then ok else minus_eagain) else minus_ebusy,
                some t₂,
              ))
            else pure (minus_ebusy, some t₁))
      else pure (minus_einval, some t)

  -- `pthread_exit`, which looks at no status
  pub exit_thread : M (Unit {0})
  exit_thread = do
    super_call kernel mutex_lock
    super_call kernel pthread_exit
    super_call kernel mutex_unlock
    pure tt
