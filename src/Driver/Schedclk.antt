-- ===== src/Driver/Schedclk.antt =====
-- The scheduler clock that is attached on each core, src/driver/schedclk/schedclk.c. What the clock reads is
-- a field of its model; `cpu` is what `arch_core_index` gives. The locks are not modelled. A result is
-- none where the code reads through the null pointer.
use cyancore.Common.{ℕ, Bool, true, false, Option, none, some, if◌then◌else◌}
use cyancore.Status.{success, error_device_inval, error_driver_init_failed}
use cyancore.Driver.Watchdog.{update}

-- `schedclk_t`, with what its two readings give
pub record Clock : Type 0 where
  pub read_time : ℕ
  pub read_ticks : ℕ

-- The statics `port` and `schedclk_attached`.
pub record Schedclks : Type 0 where
  pub port : ℕ → Option Clock
  pub schedclk_attached : ℕ → Bool

-- The flag is set whatever the status of the driver is, and stays as it was for a null driver.
unfoldable pub schedclk_attach_device : ℕ → ℕ → Option Clock → Schedclks → ℕ × Schedclks
schedclk_attach_device cpu dev_status none s =
    (error_device_inval, record s { port = update s.port cpu none })
schedclk_attach_device cpu dev_status (some p) s = (
  dev_status,
  record {
    port = update s.port cpu (some p);
    schedclk_attached = update s.schedclk_attached cpu true;
  },
)

unfoldable pub schedclk_release_device : ℕ → Schedclks → ℕ × Schedclks
schedclk_release_device cpu s = (
  success,
  record {
    port = update s.port cpu none;
    schedclk_attached = update s.schedclk_attached cpu false;
  },
)

-- The status, and the period and the callback that the clock is given, if it is
unfoldable pub schedclk_link_callback : ℕ → ℕ → ℕ → Schedclks → Option (ℕ × Option (ℕ × ℕ))
schedclk_link_callback cpu p cb s =
    if s.schedclk_attached cpu
    then elim (s.port cpu) [ none ↦ none | some c ↦ some (success, some (p, cb)) ]
    else some (error_driver_init_failed, none)

-- The status and what is stored
unfoldable pub get_timestamp : ℕ → Schedclks → Option (ℕ × ℕ)
get_timestamp cpu s =
    if s.schedclk_attached cpu
    then elim (s.port cpu) [ none ↦ none | some c ↦ some (success, c.read_time) ]
    else some (error_driver_init_failed, 0)

unfoldable pub get_timeticks : ℕ → Schedclks → Option (ℕ × ℕ)
get_timeticks cpu s =
    if s.schedclk_attached cpu
    then elim (s.port cpu) [ none ↦ none | some c ↦ some (success, c.read_ticks) ]
    else some (error_driver_init_failed, 0)
