-- ===== src/Driver/Watchdog.antt =====
-- The watchdog that is attached on each core, src/driver/watchdog/watchdog.c. What the functions of a
-- driver return is a field of its model; `cpu` is what `arch_core_index` gives. The locks are not
-- modelled. A result is none where the code reads through the null pointer.
pub mod Attached
use cyancore.Common.{ℕ, Bool, true, false, Option, none, some, ◌==◌, if◌then◌else◌}
use cyancore.Status.{success, error_func_inval, error_device_inval}

-- `wdog_t`, with the functions that it has; `hush` returns nothing.
pub record Port : Type 0 where
  pub guard : Option (ℕ → Bool → ℕ → ℕ)
  pub hush : Bool

-- The statics `port` and `wdog_attached`.
pub record Watchdogs : Type 0 where
  pub port : ℕ → Option Port
  pub wdog_attached : ℕ → Bool

abbrev pub none_attached : Watchdogs
none_attached = record { port = λ c. none; wdog_attached = λ c. false }

abbrev pub update {ℓ} : {A : Type ℓ} → (ℕ → A) → ℕ → A → ℕ → A
update f i v j = if j == i then v else f j

-- A driver that is null leaves the flag of the core as it was.
unfoldable pub wdog_attach_device : ℕ → ℕ → Option Port → Watchdogs → ℕ × Watchdogs
wdog_attach_device cpu dev_status none s =
    (error_device_inval, record s { port = update s.port cpu none })
wdog_attach_device cpu dev_status (some p) s = (
  dev_status,
  record {
    port = update s.port cpu (some p);
    wdog_attached = update s.wdog_attached cpu (dev_status == success);
  },
)

unfoldable pub wdog_release_device : ℕ → Watchdogs → ℕ × Watchdogs
wdog_release_device cpu s = (
  success,
  record { port = update s.port cpu none; wdog_attached = update s.wdog_attached cpu false },
)

unfoldable pub wdog_guard : ℕ → ℕ → Bool → ℕ → Watchdogs → Option ℕ
wdog_guard cpu timeout bite cb_bark s =
    if s.wdog_attached cpu
    then elim (s.port cpu) [
      | none ↦ none
      | some p ↦ elim p.guard [
        | none ↦ some error_func_inval
        | some f ↦ some (f timeout bite cb_bark)
      ]
    ]
    else some error_func_inval

unfoldable pub wdog_hush : ℕ → Watchdogs → Option ℕ
wdog_hush cpu s =
    if s.wdog_attached cpu
    then elim (s.port cpu) [
      | none ↦ none
      | some p ↦ some (if p.hush then success else error_func_inval)
    ]
    else some error_func_inval
