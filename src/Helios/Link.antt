-- ===== src/Helios/Link.antt =====
-- The two rings of control blocks: `_helios_sched_insert_before`, `_helios_sched_insert_after` and
-- `_helios_sched_node_detach` of src/visor/services/kernel/helios/helios_sched.c. The source writes
-- the bodies twice, once for each link; here the link is an argument of the accessors.
pub mod View
pub mod Cut
pub mod Ring
use cyancore.Common.{ℕ, ◌≡◌, ◌≢◌, false, ◌==◌, if◌then◌else◌, ne→==}
use cyancore.Status.{success, error_func_inval_arg}
use cyancore.Helios.Kernel.{
  Ptr, null, Link, Tcb, Kernel, done, M, pure, when, ◌>>=◌, ◌>>◌, get, load, modify,
  set_wait_list_head, set_ready_list_head,
}

-- `HELIOS_LINK_WAIT` and `HELIOS_LINK_READY`
pub data LinkType : Type 0 where
  link_wait link_ready : LinkType

abbrev pub link : LinkType → Tcb → Link
link link_wait c = c.wait_link
link link_ready c = c.ready_link

abbrev pub set_link : LinkType → Link → Tcb → Tcb
set_link link_wait l c = record c { wait_link = l }
set_link link_ready l c = record c { ready_link = l }

abbrev pub set_next : LinkType → Ptr → Tcb → Tcb
set_next t p c = set_link t (record { prev = (link t c).prev; next = p }) c

abbrev pub set_prev : LinkType → Ptr → Tcb → Tcb
set_prev t p c = set_link t (record { prev = p; next = (link t c).next }) c

-- The result is the status and the new value of `*ptr`.
unfoldable pub insert_before : Ptr → Ptr → LinkType → M (ℕ × Ptr)
insert_before ref new t =
    if new == null
    then pure (error_func_inval_arg, ref)
    else if ref == null
    then (do modify new (set_next t new); modify new (set_prev t new); pure (success, new))
    else do
      modify new (set_next t ref)
      r ← load ref
      modify new (set_prev t (link t r).prev)
      modify ref (set_prev t new)
      n ← load new
      modify (link t n).prev (set_next t new)
      pure (success, ref)

pub insert_after : Ptr → Ptr → LinkType → M (ℕ × Ptr)
insert_after ref new t =
    if new == null
    then pure (error_func_inval_arg, ref)
    else if ref == null
    then (do modify new (set_next t new); modify new (set_prev t new); pure (success, new))
    else do
      r ← load ref
      modify new (set_next t (link t r).next)
      modify new (set_prev t ref)
      n ← load new
      modify (link t n).next (set_prev t new)
      modify ref (set_next t new)
      pure (success, ref)

-- A head that is detached moves to the next block of the ready ring, whichever ring it heads.
move_head : Ptr → LinkType → M (Unit {0})
move_head node link_wait = do
  k ← get
  when (node == k.wait_list_head) (do n ← load node; set_wait_list_head n.ready_link.next)
move_head node link_ready = do
  k ← get
  when (node == k.ready_list_head) (do n ← load node; set_ready_list_head n.ready_link.next)

-- The three assignments that close the gap and clear the links of the block.
pub unlink : Ptr → LinkType → M (Unit {0})
unlink node t = do
  n ← load node
  modify (link t n).prev (set_next t (link t n).next)
  n ← load node
  modify (link t n).next (set_prev t (link t n).prev)
  modify node (set_link t (record { prev = null; next = null }))

pub node_detach : Ptr → LinkType → M ℕ
unfolding move_head
node_detach node t =
    if node == null
    then pure error_func_inval_arg
    else do move_head node t; unlink node t; pure success

-- A block that heads no list is detached by `unlink` alone.
pub node_detach-spare :
    (k : Kernel) (p : Ptr) {k' : Kernel}
    → p ≢ k.wait_list_head
    → (p == null) ≡ false
    → unlink p link_wait k ≡ done tt k'
    → node_detach p link_wait k ≡ done success k'
unfolding node_detach
node_detach-spare k p ne nn run = rw (nn, ne→== p k.wait_list_head ne, run)
