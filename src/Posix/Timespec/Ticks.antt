-- ===== src/Posix/Timespec/Ticks.antt =====
-- Times in ticks of a millisecond, and numbers of nanoseconds as times.
use cyancore.Common.{
  ℕ, suc, ◌+◌, ◌-◌, ◌*◌, ◌/◌, ◌%◌, ◌^◌, ◌<◌, ◌≡◌, refl, ap, inl, inr, ◌||◌, Option, some, arith,
  if◌then◌else◌, ltb, ◌==◌, Bool-cases, ltb→lt,
}
use cyancore.Common.Int.{ℤ, pos, negsuc, sub_ℕ, wrap, ltb_ℤ, InRange, ◌+ℤ◌, ◌-ℤ◌, ◌*ℤ◌}
use cyancore.Nmath.{quotient, remainder}
use cyancore.Posix.Errno.{ok, minus_einval, minus_etimedout}
use cyancore.Posix.Timespec.{
  Timespec, nanoseconds_per_second, nanoseconds_per_tick, total_ticks, to_ticks, timespec_to_ticks,
  nanoseconds_to_timespec, absolute_to_delta_ticks, subtract_times, compare_times, zero_time,
}
use cyancore.Posix.Timespec.Difference.{time, IsTime, total, difference_time, subtract_times_past}

-- A time in ticks, rounded up.
abbrev pub ticks : ℕ → ℕ
ticks ns = (ns + 999999) / nanoseconds_per_tick

round_up :
    (n : ℕ)
    → n < nanoseconds_per_second
    → wrap 32 (
        pos (n / nanoseconds_per_tick)
        +ℤ (if ltb_ℤ (pos (n % nanoseconds_per_tick)) (pos 0)
              || ltb_ℤ (pos 0) (pos (n % nanoseconds_per_tick))
            then pos 1
            else pos 0))
      ≡ pos ((n + 999999) / nanoseconds_per_tick)
unfolding wrap ◌+ℤ◌
round_up n h = ground arith

sec_ticks : (s : ℕ) → s < 2 ^ 50 → wrap 64 (pos 1000 *ℤ pos s) ≡ pos (1000 * s)
unfolding wrap ◌*ℤ◌
sec_ticks s h = ground arith

sum_ticks : (a b : ℕ) → a + b < 2 ^ 63 → wrap 64 (pos a +ℤ pos b) ≡ pos (a + b)
unfolding wrap ◌+ℤ◌
sum_ticks a b h = ground arith

total_ticks-time :
    (s n : ℕ)
    → s < 2 ^ 50
    → n < nanoseconds_per_second
    → total_ticks (time s n) ≡ pos (ticks (total s n))
unfolding total_ticks quotient remainder
total_ticks-time s n h i =
    rw
      (
        sec_ticks s h,
        round_up n i,
        sum_ticks (1000 * s) ((n + 999999) / nanoseconds_per_tick) (omega arith),
      )
      (ap pos (omega arith))

fits :
    (t : ℕ)
    → t < 2 ^ 32
    → ◌≡◌ {A = ℤ × Option ℕ}
        (if ltb t (2 ^ 32) then (ok, some t) else (minus_einval, some (t % 2 ^ 32)))
        (ok, some t)
fits t h = ground arith

-- UTILS_TimespecToTicks gives the time in ticks, rounded up, and refuses the times whose ticks do
-- not fit 32 bits, for valid times of less than 2^50 seconds.
pub timespec_to_ticks-ticks :
    (s n t : ℕ)
    → s < 2 ^ 50
    → n < nanoseconds_per_second
    → timespec_to_ticks (some (time s n)) (some t) ≡ (
        if ltb (ticks (total s n)) (2 ^ 32)
        then (ok, some (ticks (total s n)))
        else (minus_einval, some (ticks (total s n) % 2 ^ 32)))
unfolding timespec_to_ticks to_ticks
timespec_to_ticks-ticks s n t h i = rw (total_ticks-time s n h i) (ground arith)

ahead :
    (s n t k r : ℕ)
    → IsTime s n
    → IsTime t k
    → s < 2 ^ 50
    → total t k < total s n
    → ticks (total s n - total t k) < 2 ^ 32
    → absolute_to_delta_ticks (some (time s n)) (some (time t k)) (some r)
      ≡ (ok, some (ticks (total s n - total t k)))
unfolding absolute_to_delta_ticks
ahead s n t k r h i b lt small =
    let (a, c, d, e, run) = difference_time s n t k h i lt in
    let same : total s n - total t k ≡ total a c = omega arith in
    rw (run zero_time, timespec_to_ticks-ticks a c r (omega arith) d.nsec, same)
      (fits (ticks (total a c)) (rw (← same) small))

passed :
    (s n t k r : ℕ)
    → IsTime s n
    → IsTime t k
    → total s n < total t k
    → absolute_to_delta_ticks (some (time s n)) (some (time t k)) (some r)
      ≡ (minus_etimedout, some r)
unfolding absolute_to_delta_ticks
passed s n t k r h i lt = rw (subtract_times_past s n t k zero_time h i lt) refl

compare_now :
    (s n t k : ℕ)
    → IsTime s n
    → IsTime t k
    → total s n ≡ total t k
    → compare_times (time s n) (time t k) ≡ pos 0
unfolding compare_times
compare_now s n t k h i e = ground arith

subtract_now :
    (s n t k : ℕ)
    → IsTime s n
    → IsTime t k
    → total s n ≡ total t k
    → subtract_times (time s n) (time t k) zero_time ≡ (pos 0, zero_time)
unfolding subtract_times
subtract_now s n t k h i e = rw (compare_now s n t k h i e) refl

now :
    (s n t k r : ℕ)
    → IsTime s n
    → IsTime t k
    → total s n ≡ total t k
    → absolute_to_delta_ticks (some (time s n)) (some (time t k)) (some r) ≡ (ok, some 0)
unfolding absolute_to_delta_ticks
now s n t k r h i e =
    rw (subtract_now s n t k h i e) (timespec_to_ticks-ticks 0 0 r (omega arith) (omega arith))

-- Where both times are valid and after the epoch, the deadline below 2^50 seconds, and the time that is
-- left has less than 2^32 ticks, a deadline that has passed is a time-out, which leaves the result as it
-- was, and any other one gives the time that is left in ticks, rounded up.
pub absolute_to_delta_ticks-ticks :
    (s n t k r : ℕ)
    → IsTime s n
    → IsTime t k
    → s < 2 ^ 50
    → ticks (total s n - total t k) < 2 ^ 32
    → absolute_to_delta_ticks (some (time s n)) (some (time t k)) (some r) ≡ (
        if ltb (total s n) (total t k)
        then (minus_etimedout, some r)
        else (ok, some (ticks (total s n - total t k))))
absolute_to_delta_ticks-ticks s n t k r h i b small =
    elim (Bool-cases (ltb (total s n) (total t k))) [
      | inl lt ↦ rw lt (passed s n t k r h i (ltb→lt (total s n) (total t k) lt))
      | inr ge ↦ elim (Bool-cases (ltb (total t k) (total s n))) [
        | inl lt ↦ rw ge (ahead s n t k r h i b (ltb→lt (total t k) (total s n) lt) small)
        | inr le ↦
            let same : total s n ≡ total t k = ground arith in
            let none_left : total s n - total t k ≡ 0 = omega arith in
            rw (ge, none_left) (now s n t k r h i same)
      ]
    ]

-- The seconds of a number of nanoseconds, rounded down, and the nanoseconds that are left.
abbrev pub IsSplit : ℤ → Timespec → Type 0
IsSplit z x =
    (s : ℤ) × (m : ℕ) × (m < nanoseconds_per_second)
    × (x ≡ record { tv_sec = s; tv_nsec = pos m })
    × (s *ℤ pos nanoseconds_per_second +ℤ pos m ≡ z)

-- UTILS_NanosecondsToTimespec gives a valid time of as many nanoseconds, for every 64-bit number.
pub nanoseconds_to_timespec-IsSplit : (z : ℤ) → InRange 64 z → IsSplit z (nanoseconds_to_timespec z)
unfolding nanoseconds_to_timespec quotient remainder wrap ◌+ℤ◌ ◌-ℤ◌ ◌*ℤ◌
nanoseconds_to_timespec-IsSplit (pos n) h = (
  pos (n / nanoseconds_per_second),
  n % nanoseconds_per_second,
  omega arith,
  ground arith,
  ground arith,
)
nanoseconds_to_timespec-IsSplit (negsuc n) h =
    elim (Bool-cases (suc n % nanoseconds_per_second == 0)) [
      | inl whole ↦
          (sub_ℕ 0 (suc n / nanoseconds_per_second), 0, omega arith, ground arith, ground arith)
      | inr part ↦ (
        negsuc (suc n / nanoseconds_per_second),
        nanoseconds_per_second - suc n % nanoseconds_per_second,
        ground arith,
        ground arith,
        ground arith,
      )
    ]
