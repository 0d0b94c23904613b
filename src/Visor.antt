-- ===== src/Visor.antt =====
-- The visor calls, src/visor/workers/vcall/visor_call.c, and the two tables of resources that they serve,
-- src/lib/libresource/dp.c and sp.c. What a call returns is a parameter of its entry.
use cyancore.Common.{
  ℕ, ◌≡◌, ◌≢◌, Option, none, some, List, [], ◌∷◌, ◌++◌, ◌==◌, if◌then◌else◌, ==_refl, ne→==,
}
use cyancore.Status.{success, error_func_inval_arg, error_vcall_code_inval}

-- `vret_t`
pub record Vret : Type 0 where
  pub status : ℕ
  pub size : ℕ
  pub p : ℕ

-- The three arguments and `*ret` before the call
abbrev pub Callback : Type 0
Callback = ℕ → ℕ → ℕ → Vret → Vret

-- `vcall_t`; a callback that is null is none.
pub record Vcall : Type 0 where
  pub id : ℕ
  pub callback : Option Callback

-- `get_callback_from_table`: the first entry of the id counts, with or without a callback.
pub get_callback_from_table : List Vcall → ℕ → Option Callback
get_callback_from_table [] id = none
get_callback_from_table (v ∷ table) id =
    let rest = get_callback_from_table table id in if v.id == id then v.callback else rest

abbrev default_ret : Vret
default_ret = record { status = error_vcall_code_inval; size = 0; p = 0 }

pub vcall_handler : List Vcall → (id a0 a1 a2 : ℕ) → Vret
unfolding get_callback_from_table
vcall_handler table id a0 a1 a2 = elim (get_callback_from_table table id) [
  | none ↦ default_ret
  | some cb ↦ cb a0 a1 a2 default_ret
]

-- No entry of the table has the id.
abbrev pub IsAbsent : List Vcall → ℕ → Type 0
IsAbsent [] id = Unit
IsAbsent (v ∷ table) id = (v.id ≢ id) × IsAbsent table id

get_callback-first :
    (before after : List Vcall) (v : Vcall)
    → IsAbsent before v.id
    → get_callback_from_table (before ++ v ∷ after) v.id ≡ v.callback
unfolding get_callback_from_table
get_callback-first [] after v h = rw (==_refl v.id)
get_callback-first (u ∷ before) after v h =
    rw (ne→== u.id v.id h.0) (get_callback-first before after v h.1)

-- Behind entries of other ids, a call gives what the first entry of its id gives, or
-- error_vcall_code_inval where that has no callback.
pub vcall_handler-first :
    (before after : List Vcall) (v : Vcall) (a0 a1 a2 : ℕ)
    → IsAbsent before v.id
    → vcall_handler (before ++ v ∷ after) v.id a0 a1 a2
      ≡ elim v.callback [ none ↦ default_ret | some cb ↦ cb a0 a1 a2 default_ret ]
unfolding vcall_handler
vcall_handler-first before after v a0 a1 a2 h =
    rw (vcall_handler, get_callback-first before after v h)

-- `dp_init` and `sp_init`: the status and the new value of the pointer, which is none where it is null
pub dp_init : Option ℕ → Option ℕ → ℕ × Option ℕ
dp_init none dev_prop = (error_func_inval_arg, dev_prop)
dp_init (some plat) dev_prop = (success, some plat)

pub sp_init : Option ℕ → Option ℕ → ℕ × Option ℕ
sp_init none sw_prop = (error_func_inval_arg, sw_prop)
sp_init (some plat) sw_prop = (success, some plat)
