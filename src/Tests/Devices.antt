-- ===== src/Tests/Devices.antt =====
-- Runs of the log in memory, the watchdog and the clock, and instances of their theorems.
use cyancore.Common.{◌/◌, ◌≤◌, ℕ, ◌+◌, ◌*◌, ◌≡◌, refl, true, some, [], ◌∷◌, arith}
use cyancore.Status.{success}
use cyancore.Driver.Console.{Membuf, membuf_read, logger_dprint}
use cyancore.Driver.Console.Dump.{log_all, logger_dprint-log_all}
use cyancore.Driver.Watchdog.{Port}
use cyancore.Libc.Time.{get_time, udelay}
use cyancore.Libc.Time.Reading.{IsReading, get_time-IsReading}
use cyancore.Libc.Time.Delay.{IsFirst, udelay-IsFirst}

abbrev empty_log : Membuf
empty_log = record { membuf = λ i. 0; pointer = 0; pread = 0 }

-- The characters 104 and 105 in a buffer of five bytes
logger_dprint-log_all_example :
    logger_dprint (membuf_read 5) 5 true true (log_all 5 (104 ∷ 105 ∷ []) empty_log)
    ≡ some (
      success,
      104 ∷ 105 ∷ 0 ∷ 0 ∷ 0 ∷ [],
      record (log_all 5 (104 ∷ 105 ∷ []) empty_log) { pread = 0 },
    )
logger_dprint-log_all_example =
    logger_dprint-log_all 3 (104 ∷ 105 ∷ []) empty_log refl refl (omega arith)
      ((λ e. omega (arith, e)), ((λ e. omega (arith, e)), tt))

abbrev dog : Port
dog = record { guard = some (λ timeout bite cb_bark. 0); hush = true }

get_time-IsReading_example : IsReading 90061420000 (get_time (0, 90061420000)).1
get_time-IsReading_example = get_time-IsReading 90061420000 (omega arith)

-- A clock that goes on by 4 at each third reading
abbrev clock : ℕ → ℕ × ℕ
clock n = (0, 7 + 4 * (n / 3))

udelay-IsFirst_example :
    (r : ℕ) × (r ≤ 33) × (udelay clock 33 10 ≡ some (clock r).0) × IsFirst clock (10 + 7) 1 r
udelay-IsFirst_example =
    udelay-IsFirst clock 10 3 (omega arith) (omega arith) (omega arith) (omega arith)
      (λ j. omega arith)
