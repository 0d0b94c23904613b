-- ===== src/Posix/Timespec.antt =====
-- The time arithmetic of src/lib/libposix/src/posix_utils.c. Seconds are an `int64_t`, nanoseconds a
-- 32-bit `long`; a null pointer is none. A result is the status and what is written to `*pxResult`.
pub mod Order
pub mod Difference
pub mod Ticks
use cyancore.Common.{
  ℕ, zero, suc, ◌+◌, ◌-◌, ◌*◌, ◌/◌, ◌%◌, ◌^◌, Bool, true, false, ◌&&◌, ◌||◌, not, Option, none,
  some, ltb, leb, ◌==◌, if◌then◌else◌,
}
use cyancore.Common.Int.{ℤ, pos, negsuc, wrap, ltb_ℤ, ◌+ℤ◌, ◌-ℤ◌, ◌*ℤ◌}
use cyancore.Nmath.{quotient, remainder}
use cyancore.Posix.Errno.{ok, minus_einval, minus_etimedout}

pub record Timespec : Type 0 where
  pub tv_sec : ℤ
  pub tv_nsec : ℤ

abbrev pub nanoseconds_per_second : ℕ
nanoseconds_per_second = 1000000000

abbrev pub nanoseconds_per_tick : ℕ
nanoseconds_per_tick = 1000000

abbrev pub tick_rate_hz : ℕ
tick_rate_hz = 1000

-- The status, and what `*pxResult` holds afterwards.
abbrev pub Result : Type 0
Result = ℤ × Timespec

abbrev pub minus_one : ℤ
minus_one = negsuc 0

-- `UTILS_TimespecCompare` of two times that are there.
unfoldable pub compare_times : Timespec → Timespec → ℤ
compare_times x y =
    if ltb_ℤ y.tv_sec x.tv_sec
    then pos 1
    else if ltb_ℤ x.tv_sec y.tv_sec
    then minus_one
    else if ltb_ℤ y.tv_nsec x.tv_nsec
    then pos 1
    else if ltb_ℤ x.tv_nsec y.tv_nsec
    then minus_one
    else pos 0

unfoldable pub timespec_compare : Option Timespec → Option Timespec → ℤ
unfolding compare_times
timespec_compare none none = pos 0
timespec_compare (some x) none = pos 1
timespec_compare none (some y) = minus_one
timespec_compare (some x) (some y) = compare_times x y

unfoldable pub validate_timespec : Option Timespec → Bool
validate_timespec none = false
validate_timespec (some x) =
    not (ltb_ℤ x.tv_nsec (pos 0)) && ltb_ℤ x.tv_nsec (pos nanoseconds_per_second)

-- Behind the test that no pointer is null; `r` is what `*pxResult` held.
unfoldable pub subtract_times : Timespec → Timespec → Timespec → Result
unfolding compare_times
subtract_times x y r =
    let c = compare_times x y in
    let sec = wrap 64 (x.tv_sec -ℤ y.tv_sec) in
    let nsec = wrap 32 (x.tv_nsec -ℤ y.tv_nsec) in
    let borrowed = wrap 32 (nsec +ℤ pos nanoseconds_per_second) in
    if ltb_ℤ c (pos 0)
    then (pos 1, r)
    else if not (ltb_ℤ (pos 0) c)
    then (pos 0, record { tv_sec = pos 0; tv_nsec = pos 0 })
    else if not (ltb_ℤ nsec (pos 0))
    then (pos 0, record { tv_sec = sec; tv_nsec = nsec })
    else (
      (if ltb_ℤ borrowed (pos 0) then minus_one else pos 0),
      record { tv_sec = wrap 64 (sec -ℤ pos 1); tv_nsec = borrowed },
    )

abbrev pub written : Result → ℤ × Option Timespec
written (status, r) = (status, some r)

unfoldable pub timespec_subtract :
    Option Timespec → Option Timespec → Option Timespec → ℤ × Option Timespec
timespec_subtract (some x) (some y) (some r) = written (subtract_times x y r)
timespec_subtract x y out = (minus_one, out)

-- The part of `UTILS_TimespecAdd` behind the same test.
unfoldable pub add_times : Timespec → Timespec → Timespec → Result
add_times x y r =
    let nsec = wrap 32 (x.tv_nsec +ℤ y.tv_nsec) in
    let carry = quotient nsec (pos nanoseconds_per_second) in
    let sec = wrap 64 (wrap 64 (x.tv_sec +ℤ y.tv_sec) +ℤ carry) in
    if ltb_ℤ nsec (pos 0) then (pos 1, record r { tv_nsec = nsec }) else (
      (if ltb_ℤ sec (pos 0) then pos 1 else pos 0),
      record { tv_sec = sec; tv_nsec = remainder nsec (pos nanoseconds_per_second) },
    )

unfoldable pub timespec_add :
    Option Timespec → Option Timespec → Option Timespec → ℤ × Option Timespec
timespec_add (some x) (some y) (some r) = written (add_times x y r)
timespec_add x y out = (minus_one, out)

-- The part of `UTILS_TimespecAddNanoseconds` behind the same test.
unfoldable pub add_nanoseconds : Timespec → ℤ → Timespec → Result
add_nanoseconds x n r =
    let total = wrap 64 (x.tv_nsec +ℤ n) in
    let sec = wrap 64 (x.tv_sec +ℤ quotient total (pos nanoseconds_per_second)) in
    if ltb_ℤ total (pos 0) then (pos 1, r) else (
      (if ltb_ℤ sec (pos 0) then pos 1 else pos 0),
      record { tv_sec = sec; tv_nsec = remainder total (pos nanoseconds_per_second) },
    )

unfoldable pub timespec_add_nanoseconds :
    Option Timespec → ℤ → Option Timespec → ℤ × Option Timespec
timespec_add_nanoseconds (some x) n (some r) = written (add_nanoseconds x n r)
timespec_add_nanoseconds x n out = (minus_one, out)

unfoldable pub nanoseconds_to_timespec : ℤ → Timespec
nanoseconds_to_timespec source =
    let sec = quotient source (pos nanoseconds_per_second) in
    let nsec = remainder source (pos nanoseconds_per_second) in
    let carry = quotient nsec (pos nanoseconds_per_second) +ℤ pos 1 in
    if ltb_ℤ nsec (pos 0)
    then record {
      tv_sec = wrap 64 (sec -ℤ carry);
      tv_nsec = wrap 32 (nsec +ℤ carry *ℤ pos nanoseconds_per_second);
    }
    else record { tv_sec = sec; tv_nsec = nsec }

-- An `int64_t` cast to the 32-bit `TickType_t`.
abbrev pub low_word : ℤ → ℕ
low_word (pos n) = n % 2 ^ 32
low_word (negsuc n) = 2 ^ 32 - 1 - n % 2 ^ 32

-- `UTILS_TimespecToTicks` of a valid time: the ticks as an `int64_t`.
unfoldable pub total_ticks : Timespec → ℤ
total_ticks x =
    let nano = quotient x.tv_nsec (pos nanoseconds_per_tick) in
    let part = remainder x.tv_nsec (pos nanoseconds_per_tick) in
    let up = if ltb_ℤ part (pos 0) || ltb_ℤ (pos 0) part then pos 1 else pos 0 in
    wrap 64 (wrap 64 (pos tick_rate_hz *ℤ x.tv_sec) +ℤ wrap 32 (nano +ℤ up))

-- The status and what `*pxResult` holds; the ticks are written in any case.
unfoldable pub to_ticks : Timespec → ℤ × ℕ
unfolding total_ticks
to_ticks x =
    let total = total_ticks x in
    (
      (if ltb_ℤ total (pos 0)
          then minus_einval
          else if ltb_ℤ (pos (2 ^ 32 - 1)) total
          then minus_einval
          else ok),
      low_word total,
    )

abbrev pub some_ticks : ℤ × ℕ → ℤ × Option ℕ
some_ticks (status, t) = (status, some t)

unfoldable pub timespec_to_ticks : Option Timespec → Option ℕ → ℤ × Option ℕ
unfolding validate_timespec
timespec_to_ticks (some x) (some t) =
    if validate_timespec (some x) then some_ticks (to_ticks x) else (minus_einval, some t)
timespec_to_ticks x out = (minus_einval, out)

-- The local variable of the difference starts as zero.
abbrev pub zero_time : Timespec
zero_time = record { tv_sec = pos 0; tv_nsec = pos 0 }

abbrev pub deadline_status : ℤ → ℤ
deadline_status (pos zero) = ok
deadline_status (pos (suc n)) = minus_etimedout
deadline_status (negsuc n) = minus_einval

unfoldable pub absolute_to_delta_ticks : Option Timespec → Option Timespec → Option ℕ → ℤ × Option ℕ
absolute_to_delta_ticks (some deadline) (some now) (some t) =
    let (status, diff) = subtract_times deadline now zero_time in
    if ltb_ℤ status (pos 0) || ltb_ℤ (pos 0) status
    then (deadline_status status, some t)
    else timespec_to_ticks (some diff) (some t)
absolute_to_delta_ticks x y out = (minus_einval, out)
