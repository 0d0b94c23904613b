-- ===== src/Posix/Kernel.antt =====
-- What the POSIX layer asks of the code below it: the supervisor calls, and the mutexes of pthread.h,
-- which this repository declares and does not implement. Each call is answered by a parameter, `kernel`,
-- from the number of calls before it; the calls are recorded, the last one first.
use cyancore.Common.{ℕ, suc, List, ◌∷◌}

pub data Call : Type 0 where
  sem_init sem_destroy sem_getvalue sem_post sem_wait : ℕ → Call
  mq_close : ℕ → Call
  mq_send : (id size prio : ℕ) → Call
  mq_receive : (id size : ℕ) → Call
  pthread_create : (fn arg stack : ℕ) → Call
  pthread_exit : Call
  pthread_delay_ticks : ℕ → Call
  mutex_init mutex_destroy mutex_lock mutex_unlock : Call

-- `sret_t`
pub record Sret : Type 0 where
  pub status : ℕ
  pub size : ℕ
  pub p : ℕ

abbrev pub Kernel : Type 0
Kernel = ℕ → Call → Sret

-- `copied_in` and `copied_out` are what was copied to and from a buffer of the kernel, the last first.
pub record World : Type 0 where
  pub count : ℕ
  pub calls : List Call
  pub copied_in : List (List ℕ)
  pub copied_out : List (List ℕ)

abbrev pub M : Type 0 → Type 0
M A = World → A × World

infixl 5 ◌>>=◌ ◌>>◌
abbrev pub ◌>>=◌ : {A B : Type 0} → M A → (A → M B) → M B
◌>>=◌ m f w = let (a, w') = m w in f a w'

abbrev pub ◌>>◌ : {A B : Type 0} → M A → M B → M B
m >> k = m >>= λ _. k

abbrev pub pure : {A : Type 0} → A → M A
pure a w = (a, w)

abbrev pub super_call : Kernel → Call → M Sret
super_call kernel c w = (kernel w.count c, record w { count = suc w.count; calls = c ∷ w.calls })
