-- ===== src/Helios/Kernel.antt =====
-- The state of the Helios kernel (src/include/visor/helios/utils/helios_sched.h) and the commands
-- that read and write it. Addresses are numbers, `HELIOS_NULL_PTR` is 0, and an access through a
-- null or dangling pointer is a fault.
use cyancore.Common.{ℕ, Bool, Option, none, some, ◌==◌, if◌then◌else◌}
use cyancore.Common.Int.{ℤ}

abbrev pub Ptr : Type 0
Ptr = ℕ

abbrev pub null : Ptr
null = 0

-- `helios_sched_task_status_t`, in the order of its values.
pub data TaskStatus : Type 0 where
  exit running ready wait pause : TaskStatus

abbrev pub rank : TaskStatus → ℕ
rank exit = 0
rank running = 1
rank ready = 2
rank wait = 3
rank pause = 4

-- `link_t`
pub record Link : Type 0 where
  pub prev : Ptr
  pub next : Ptr

-- `wres_t`
pub record WaitRes : Type 0 where
  pub wait_on_resource : Ptr
  pub task_delay_ticks : ℕ

-- `struct helios_sched_tcb`, built without `HELIOS_ANTI_DEADLOCK`
pub record Tcb : Type 0 where
  pub name : Ptr
  pub priority : ℕ
  pub task_flags : ℕ
  pub stack_ptr : Ptr
  pub task_func : Ptr
  pub args_ptr : Ptr
  pub wait_res : WaitRes
  pub ready_link : Link
  pub wait_link : Link
  pub task_id : ℕ
  pub task_status : TaskStatus

-- `helios_mutex_t`. The value counts down from 1, once for each lock that is held.
pub record Mutex : Type 0 where
  pub mutex_val : ℤ
  pub mutex_init : Bool
  pub lock_task : Ptr

abbrev pub Tcbs : Type 0
Tcbs = Ptr → Option Tcb

-- `helios_sem_t`
pub record Sem : Type 0 where
  pub sem_val : ℕ
  pub sem_init : Bool

-- `helios_sched_algo_t`
pub data Algo : Type 0 where
  round_robin priority_driven : Algo

-- `helios_sched_ctrl_t`, with the objects that its pointers reach. `pre_sched` says whether the
-- hook is `_helios_pre_sched`, the one function that is ever stored there, or null; `task_id_gen` is
-- the counter of helios_tasks.c.
pub record Kernel : Type 0 where
  pub tcb : Tcbs
  pub mutex : Ptr → Option Mutex
  pub sem : Ptr → Option Sem
  pub ready_list_head : Ptr
  pub curr_task : Ptr
  pub wait_list_head : Ptr
  pub selected_sched : Option Algo
  pub pre_sched : Bool
  pub task_id_gen : ℕ

-- How a kernel function ends: it returns, reaches a bad pointer, calls `plat_panic_handler`, or is
-- still in a loop when the rounds that it was given are used up.
pub data Run {ℓ} (A : Type ℓ) : Type ℓ where
  done : A → Kernel → Run A
  fault : Run A
  panic : Run A
  hang : Run A

abbrev pub M {ℓ} : Type ℓ → Type ℓ
M A = Kernel → Run A

abbrev pub pure {ℓ} : {A : Type ℓ} → A → M A
pure a k = done a k

abbrev pub and_then {ℓ κ} : {A : Type ℓ} {B : Type κ} → Run A → (A → M B) → Run B
and_then (done a k) f = f a k
and_then fault f = fault
and_then panic f = panic
and_then hang f = hang

infixl 5 ◌>>=◌ ◌>>◌
abbrev pub ◌>>=◌ {ℓ κ} : {A : Type ℓ} {B : Type κ} → M A → (A → M B) → M B
◌>>=◌ m f k = and_then (m k) f

abbrev pub ◌>>◌ {ℓ κ} : {A : Type ℓ} {B : Type κ} → M A → M B → M B
◌>>◌ m n k = and_then (m k) (λ _. n)

abbrev pub skip : M (Unit {0})
skip k = done tt k

abbrev pub when : Bool → M (Unit {0}) → M (Unit {0})
when b m = if b then m else skip

abbrev pub get : M Kernel
get k = done k k

-- The control block at an address, if there is one.
unfoldable pub cell : Tcbs → Ptr → Option Tcb
cell m p = if p == null then none else m p

-- `*p`
unfoldable pub load : Ptr → M Tcb
load p k = elim (cell k.tcb p) [ none ↦ fault | some c ↦ done c k ]

-- The memory after the block at `p` went through `f`.
abbrev pub edit : Tcbs → Ptr → (Tcb → Tcb) → Tcbs
edit m p f q = if q == p then elim (m q) [ none ↦ none | some c ↦ some (f c) ] else m q

-- `p->field = value`
unfoldable pub modify : Ptr → (Tcb → Tcb) → M (Unit {0})
modify p f k = elim (cell k.tcb p) [
  | none ↦ fault
  | some c ↦ done tt (record k { tcb = edit k.tcb p f })
]

-- A loop that goes on for ever returns `hang`, whatever rounds it is given.
abbrev pub out_of_rounds {ℓ} : {A : Type ℓ} → M A
out_of_rounds k = hang

abbrev pub set_wait_list_head : Ptr → M (Unit {0})
set_wait_list_head p k = done tt (record k { wait_list_head = p })

abbrev pub set_ready_list_head : Ptr → M (Unit {0})
set_ready_list_head p k = done tt (record k { ready_list_head = p })

abbrev pub set_status : TaskStatus → Tcb → Tcb
set_status s c = record c { task_status = s }

abbrev pub set_ticks : ℕ → Tcb → Tcb
set_ticks n c = record c { wait_res = record (c.wait_res) { task_delay_ticks = n } }

abbrev pub set_resource : Ptr → Tcb → Tcb
set_resource p c = record c { wait_res = record (c.wait_res) { wait_on_resource = p } }
