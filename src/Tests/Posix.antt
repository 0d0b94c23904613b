-- ===== src/Tests/Posix.antt =====
-- Runs of the POSIX layer over kernels that answer in simple ways, and instances of its theorems.
use cyancore.Common.{ℕ, ◌+◌, ◌<◌, ◌≡◌, some, [], arith}
use cyancore.Common.Int.{pos, negsuc, ◌+ℤ◌, ◌-ℤ◌, ◌*ℤ◌}
use cyancore.Posix.Errno.{ok}
use cyancore.Posix.Kernel.{sem_wait, Sret, Kernel, World}
use cyancore.Posix.Timespec.{
  Timespec, timespec_compare, subtract_times, add_times, absolute_to_delta_ticks, timespec_to_ticks,
}
use cyancore.Posix.Timespec.Order.{valid, timespec_compare-sign}
use cyancore.Posix.Timespec.Difference.{time, IsTime, total, add_times-subtract_times}
use cyancore.Posix.Timespec.Ticks.{timespec_to_ticks-ticks, absolute_to_delta_ticks-ticks}
use cyancore.Posix.Semaphore.{Sem}
use cyancore.Posix.Mqueue.{Section}

abbrev answer : ℕ → Sret
answer status = record { status = status; size = 0; p = 0 }

-- Every call succeeds; every wait on a semaphore is refused.
abbrev granting : Kernel
granting n c = answer 0

abbrev refusing : Kernel
refusing n (sem_wait id) = answer 0x0202
refusing n c = answer 0

abbrev fresh : World
fresh = record { count = 0; calls = []; copied_in = []; copied_out = [] }

-- Two ticks
abbrev two_ms : Timespec
two_ms = record { tv_sec = pos 0; tv_nsec = pos 2000000 }

two_ticks : timespec_to_ticks (some two_ms) (some 0) ≡ (ok, some 2)
two_ticks = timespec_to_ticks-ticks 0 2000000 0 (omega arith) (omega arith)

abbrev sem : Sem
sem = record { id = 4; value = 0 }

abbrev write_only : Section
write_only = record {
  id = 3;
  mq_name = [];
  attr = record { mq_flags = 0x8000; mq_maxmsg = 10; mq_msgsize = 128; mq_curmsgs = 0 };
  kernel_buff = 0x2000;
}

timespec_compare-sign_example :
    timespec_compare (some (time 3 5)) (some (record { tv_sec = negsuc 1; tv_nsec = pos 7 }))
    ≡ pos 1
unfolding ◌+ℤ◌ ◌-ℤ◌ ◌*ℤ◌
timespec_compare-sign_example =
    timespec_compare-sign (time 3 5) (record { tv_sec = negsuc 1; tv_nsec = pos 7 })
      (valid (pos 3) 5 (omega arith)) (valid (negsuc 1) 7 (omega arith))

in-IsTime : (s n : ℕ) → s < 100 → n < 1000000000 → IsTime s n
in-IsTime s n h i = record { sec = omega arith; nsec = omega arith }

add_times-subtract_times_example :
    (a : ℕ) × (b : ℕ) × IsTime a b
    × (total a b + total 2 900000000 ≡ total 5 100000000)
    × ((r : Timespec) → subtract_times (time 5 100000000) (time 2 900000000) r ≡ (pos 0, time a b))
    × ((r : Timespec) → add_times (time 2 900000000) (time a b) r ≡ (pos 0, time 5 100000000))
add_times-subtract_times_example =
    add_times-subtract_times 5 100000000 2 900000000
      (in-IsTime 5 100000000 (omega arith) (omega arith))
      (in-IsTime 2 900000000 (omega arith) (omega arith)) (omega arith)

absolute_to_delta_ticks-ticks_example :
    absolute_to_delta_ticks (some (time 5 1)) (some (time 2 0)) (some 9) ≡ (ok, some 3001)
absolute_to_delta_ticks-ticks_example =
    absolute_to_delta_ticks-ticks 5 1 2 0 9 (in-IsTime 5 1 (omega arith) (omega arith))
      (in-IsTime 2 0 (omega arith) (omega arith)) (omega arith) (omega arith)
