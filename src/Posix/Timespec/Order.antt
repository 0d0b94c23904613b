-- ===== src/Posix/Timespec/Order.antt =====
-- The times as numbers of nanoseconds, and the order of the two.
use cyancore.Common.{ℕ, ◌<◌, ◌≡◌, some, arith, if◌then◌else◌}
use cyancore.Common.Int.{ℤ, pos, negsuc, ltb_ℤ, ◌+ℤ◌, ◌-ℤ◌, ◌*ℤ◌}
use cyancore.Posix.Timespec.{Timespec, nanoseconds_per_second, timespec_compare, minus_one}

-- A valid time: nanoseconds below a second.
pub data IsValid : Timespec → Type 0 where
  valid :
      (s : ℤ) (n : ℕ)
      → n < nanoseconds_per_second
      → IsValid (record { tv_sec = s; tv_nsec = pos n })

abbrev pub nanoseconds : Timespec → ℤ
nanoseconds x = x.tv_sec *ℤ pos nanoseconds_per_second +ℤ x.tv_nsec

abbrev pub sign : ℤ → ℤ
sign (pos n) = if ltb_ℤ (pos 0) (pos n) then pos 1 else pos 0
sign (negsuc n) = minus_one

-- On valid times UTILS_TimespecCompare gives the sign of their difference in nanoseconds.
pub timespec_compare-sign :
    (x y : Timespec)
    → IsValid x
    → IsValid y
    → timespec_compare (some x) (some y) ≡ sign (nanoseconds x -ℤ nanoseconds y)
unfolding timespec_compare ◌+ℤ◌ ◌-ℤ◌ ◌*ℤ◌
timespec_compare-sign _ _ (valid (pos s) n h) (valid (pos t) k i) = ground arith
timespec_compare-sign _ _ (valid (pos s) n h) (valid (negsuc t) k i) = ground arith
timespec_compare-sign _ _ (valid (negsuc s) n h) (valid (pos t) k i) = ground arith
timespec_compare-sign _ _ (valid (negsuc s) n h) (valid (negsuc t) k i) = ground arith
