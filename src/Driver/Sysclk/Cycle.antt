-- ===== src/Driver/Sysclk/Cycle.antt =====
-- Registering the only callback again.
use cyancore.Common.{ℕ, zero, suc, ◌≡◌, ◌≢◌, refl, true, ◌&&◌, none, some, ne→==, ==_refl}
use cyancore.Status.{success}
use cyancore.Driver.{status_or}
use cyancore.Driver.Sysclk.{
  Clock, Callback, null, is_set, set_next, find_end, register_callback, status_of, execute_pre,
  execute_pre_config,
}

find_end-sole :
    (f a node : ℕ) (s : Clock) → s.next a ≡ null → find_end (suc f) a node s ≡ some (some a)
unfolding find_end
find_end-sole f a node s h = rw h refl

-- A node that is its own successor keeps the loop running.
execute_pre_self :
    (f a ret : ℕ) (callbacks : ℕ → Callback) (s : Clock)
    → a ≢ null
    → s.next a ≡ a
    → execute_pre f callbacks a ret s ≡ none
unfolding execute_pre
execute_pre_self zero a ret callbacks s ne h = refl
execute_pre_self (suc f) a ret callbacks s ne h =
    rw
      (
        h,
        ne→== a null ne,
        execute_pre_self f a (status_or ret (status_of (callbacks a).pre_config)) callbacks s ne h,
      )
      refl

set_next-same : (p q : ℕ) (s : Clock) → (set_next p q s).next p ≡ q
set_next-same p q s = rw (==_refl p) refl

execute_pre_config_self :
    (f : ℕ) (callbacks : ℕ → Callback) (s : Clock)
    → s.root ≢ null
    → s.next s.root ≡ s.root
    → execute_pre_config f callbacks s ≡ none
unfolding execute_pre_config
execute_pre_config_self f callbacks s ne h =
    rw (ne→== s.root null ne, execute_pre_self f s.root success callbacks s ne h) refl

register_callback-sole :
    (f : ℕ) (c : Callback) (s : Clock)
    → (is_set c.pre_config && is_set c.post_config) ≡ true
    → s.root ≢ null
    → s.next s.root ≡ null
    → register_callback (suc f) c s.root s ≡ some (success, set_next s.root s.root s)
unfolding register_callback
register_callback-sole f c s set ne h =
    rw (set, ne→== s.root null ne, find_end-sole f s.root s.root s h) refl

-- Where the list has one callback, which has both of its functions, registering it again succeeds,
-- and running the callbacks then does not end within any number of rounds.
pub register_callback-execute_pre_config :
    (f rounds : ℕ) (c : Callback) (callbacks : ℕ → Callback) (s : Clock)
    → (is_set c.pre_config && is_set c.post_config) ≡ true
    → s.root ≢ null
    → s.next s.root ≡ null
    → (t : Clock) × (register_callback (suc f) c s.root s ≡ some (success, t))
      × (execute_pre_config rounds callbacks t ≡ none)
register_callback-execute_pre_config f rounds c callbacks s set ne h = (
  set_next s.root s.root s,
  register_callback-sole f c s set ne h,
  execute_pre_config_self rounds callbacks (set_next s.root s.root s) ne
      (set_next-same s.root s.root s),
)
