-- ===== src/Libc/Time/Reading.antt =====
-- What `getTime` of src/lib/libc/time.c makes of a number of microseconds.
use cyancore.Common.{ℕ, ◌+◌, ◌*◌, ◌^◌, ◌≤◌, ◌<◌, arith}
use cyancore.Libc.Time.{Time, get_time}

-- The time in hundredths of a second
abbrev pub hundredths : Time → ℕ
hundredths t = (((t.dd * 24 + t.h) * 60 + t.m) * 60 + t.s) * 100 + t.cs

pub record IsReading (tstamp : ℕ) (t : Time) : Type 0 where
  pub cs : t.cs < 100
  pub s : t.s < 60
  pub m : t.m < 60
  pub h : t.h < 24
  pub from : hundredths t * 10000 ≤ tstamp
  pub to : tstamp < hundredths t * 10000 + 10000

-- Of every 64-bit number of microseconds that the clock gives with success, getTime makes the time of day
-- that it stands for, in hundredths of a second, rounded down, with each field in its range.
pub get_time-IsReading : (tstamp : ℕ) → tstamp < 2 ^ 64 → IsReading tstamp (get_time (0, tstamp)).1
unfolding get_time
get_time-IsReading t h = record {
  cs = omega arith;
  s = omega arith;
  m = omega arith;
  h = omega arith;
  from = omega arith;
  to = omega arith;
}
