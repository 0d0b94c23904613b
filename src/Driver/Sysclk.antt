-- ===== src/Driver/Sysclk.antt =====
-- The system clock's list of callbacks, src/driver/sysclk/sysclk.c. A node is an address, and what
-- its functions return is a parameter; a missing function is none. The lock is not modelled, and a
-- `while` loop takes rounds.
pub mod Chain
pub mod Cycle
pub mod Leave
use cyancore.Common.{
  ℕ, zero, suc, ◌+◌, Bool, true, false, ◌&&◌, not, Option, none, some, List, [], ◌∷◌, ◌==◌,
  if◌then◌else◌,
}
use cyancore.Status.{
  success, error_func_inval, error_func_inval_arg, error_list_node_exists,
  error_list_node_not_found,
}
use cyancore.Driver.{status_or}

abbrev pub null : ℕ
null = 0

-- The static `root`, and the `next` field of each node.
pub record Clock : Type 0 where
  pub root : ℕ
  pub next : ℕ → ℕ

-- The functions of a node: what they return, where they are set.
pub record Callback : Type 0 where
  pub pre_config : Option ℕ
  pub post_config : Option ℕ

abbrev pub is_set : Option ℕ → Bool
is_set none = false
is_set (some f) = true

abbrev pub set_next : ℕ → ℕ → Clock → Clock
set_next p q s = record s { next = λ a. if a == p then q else s.next a }

-- The loop that looks for the end of the list: the last node, or none where it meets `node`.
unfoldable pub find_end : ℕ → ℕ → ℕ → Clock → Option (Option ℕ)
find_end zero temp node s = none
find_end (suc f) temp node s =
    let rest = find_end f (s.next temp) node s in
    if s.next temp == null
    then some (some temp)
    else if s.next temp == node
    then some none
    else rest

unfoldable pub register_callback : ℕ → Callback → ℕ → Clock → Option (ℕ × Clock)
register_callback rounds c node s =
    if not (is_set c.pre_config && is_set c.post_config)
    then some (error_func_inval_arg, s)
    else if s.root == null
    then some (success, record s { root = node })
    else elim (find_end rounds s.root node s) [
      | none ↦ none
      | some none ↦ some (error_list_node_exists, s)
      | some (some temp) ↦ some (success, set_next temp node s)
    ]

-- The loop that looks for the node: the one before it, or none behind the end of the list.
unfoldable pub find_before : ℕ → ℕ → ℕ → Clock → Option (Option ℕ)
find_before zero prev node s = none
find_before (suc f) prev node s =
    let temp = s.next prev in
    let rest = find_before f temp node s in
    if temp == null then some none else (if temp == node then some (some prev) else rest)

unfoldable pub deregister_callback : ℕ → ℕ → Clock → Option (ℕ × Clock)
deregister_callback rounds node s =
    if s.root == null
    then some (error_func_inval_arg, s)
    else if s.root == node
    then some (success, record s { root = s.next s.root })
    else elim (find_before rounds s.root node s) [
      | none ↦ none
      | some none ↦ some (error_list_node_not_found, s)
      | some (some prev) ↦ some (success, set_next prev (s.next node) s)
    ]

-- What a run of the callbacks leaves: the status, and the nodes whose function was called.
abbrev pub Trace : Type 0
Trace = ℕ × List ℕ

abbrev pub status_of : Option ℕ → ℕ
status_of none = error_func_inval
status_of (some v) = v

abbrev pub called : ℕ → Option ℕ → List ℕ → List ℕ
called temp none calls = calls
called temp (some v) calls = temp ∷ calls

abbrev pub behind : ℕ → Option ℕ → Option Trace → Option Trace
behind temp c none = none
behind temp c (some (ret, calls)) = some (ret, called temp c calls)

-- The loop of `sysclk_execute_pre_config_clk_callback`.
unfoldable pub execute_pre : ℕ → (ℕ → Callback) → ℕ → ℕ → Clock → Option Trace
execute_pre zero callbacks temp ret s = none
execute_pre (suc f) callbacks temp ret s =
    let c = (callbacks temp).pre_config in
    let now = status_or ret (status_of c) in
    let rest = execute_pre f callbacks (s.next temp) now s in
    behind temp c (if s.next temp == null then some (now, []) else rest)

-- With no node the loop reads through the null pointer.
unfoldable pub execute_pre_config : ℕ → (ℕ → Callback) → Clock → Option (Option Trace)
execute_pre_config rounds callbacks s =
    let run = execute_pre rounds callbacks s.root success s in
    if s.root == null then some none else elim run [ none ↦ none | some t ↦ some (some t) ]

abbrev pub behind_twice : ℕ → Option (Option Trace) → Option (Option Trace)
behind_twice temp none = none
behind_twice temp (some none) = some none
behind_twice temp (some (some (ret, calls))) = some (some (ret, temp ∷ temp ∷ calls))

-- The loop of `sysclk_execute_post_config_clk_callback` calls each function twice, the first time
-- without a look whether there is one.
unfoldable pub execute_post : ℕ → (ℕ → Callback) → ℕ → ℕ → Clock → Option (Option Trace)
execute_post zero callbacks temp ret s = none
execute_post (suc f) callbacks temp ret s =
    let v = status_of (callbacks temp).post_config in
    let now = status_or (status_or ret v) v in
    let rest = execute_post f callbacks (s.next temp) now s in
    if is_set (callbacks temp).post_config
    then behind_twice temp (if s.next temp == null then some (some (now, [])) else rest)
    else some none

unfoldable pub execute_post_config : ℕ → (ℕ → Callback) → Clock → Option (Option Trace)
execute_post_config rounds callbacks s =
    let run = execute_post rounds callbacks s.root success s in
    if s.root == null then some none else run
