-- ===== src/Posix/Timespec/Difference.antt =====
-- Differences and sums of times after the epoch.
use cyancore.Common.{
  ℕ, ◌+◌, ◌-◌, ◌*◌, ◌/◌, ◌%◌, ◌^◌, ◌≤◌, ◌<◌, ◌≡◌, refl, ap, ◌∙◌, inl, inr, arith, leb, Bool-cases,
  leb→le,
}
use cyancore.Common.Int.{pos, negsuc, wrap, ◌+ℤ◌, ◌-ℤ◌}
use cyancore.Nmath.{quotient, remainder}
use cyancore.Posix.Timespec.{
  Timespec, minus_one, nanoseconds_per_second, compare_times, subtract_times, add_times,
}

-- A valid time after the epoch.
abbrev pub time : ℕ → ℕ → Timespec
time s n = record { tv_sec = pos s; tv_nsec = pos n }

pub record IsTime (s n : ℕ) : Type 0 where
  pub sec : s < 2 ^ 63
  pub nsec : n < nanoseconds_per_second

abbrev pub total : ℕ → ℕ → ℕ
total s n = s * nanoseconds_per_second + n

sec_diff : (s t : ℕ) → s < 2 ^ 63 → t ≤ s → wrap 64 (pos s -ℤ pos t) ≡ pos (s - t)
unfolding wrap ◌-ℤ◌
sec_diff s t h k = ground arith

nsec_diff : (n k : ℕ) → n < nanoseconds_per_second → k ≤ n → wrap 32 (pos n -ℤ pos k) ≡ pos (n - k)
unfolding wrap ◌-ℤ◌
nsec_diff n k h i = ground arith

nsec_below :
    (n k : ℕ) → n < k → k < nanoseconds_per_second → wrap 32 (pos n -ℤ pos k) ≡ negsuc (k - n - 1)
unfolding wrap ◌-ℤ◌
nsec_below n k h i = ground arith

nsec_borrow :
    (n k : ℕ)
    → n < k
    → k < nanoseconds_per_second
    → wrap 32 (negsuc (k - n - 1) +ℤ pos nanoseconds_per_second)
      ≡ pos (nanoseconds_per_second + n - k)
unfolding wrap ◌+ℤ◌
nsec_borrow n k h i = ground arith

compare_less :
    (s n t k : ℕ)
    → IsTime s n
    → IsTime t k
    → total s n < total t k
    → compare_times (time s n) (time t k) ≡ minus_one
unfolding compare_times
compare_less s n t k h i lt = ground arith

-- The earlier time first.
pub subtract_times_past :
    (s n t k : ℕ) (r : Timespec)
    → IsTime s n
    → IsTime t k
    → total s n < total t k
    → subtract_times (time s n) (time t k) r ≡ (pos 1, r)
unfolding subtract_times
subtract_times_past s n t k r h i lt = rw (compare_less s n t k h i lt) refl

compare_more :
    (s n t k : ℕ)
    → IsTime s n
    → IsTime t k
    → total t k < total s n
    → compare_times (time s n) (time t k) ≡ pos 1
unfolding compare_times
compare_more s n t k h i lt = ground arith

-- The later time first.
subtract_times_same :
    (s n t k : ℕ) (r : Timespec)
    → IsTime s n
    → IsTime t k
    → total t k < total s n
    → k ≤ n
    → subtract_times (time s n) (time t k) r ≡ (pos 0, time (s - t) (n - k))
unfolding subtract_times
subtract_times_same s n t k r h i lt le =
    rw (compare_more s n t k h i lt, sec_diff s t h.sec (omega arith), nsec_diff n k h.nsec le)
      (ground arith)

subtract_times_borrow :
    (s n t k : ℕ) (r : Timespec)
    → IsTime s n
    → IsTime t k
    → total t k < total s n
    → n < k
    → subtract_times (time s n) (time t k) r
      ≡ (pos 0, time (s - t - 1) (nanoseconds_per_second + n - k))
unfolding subtract_times
subtract_times_borrow s n t k r h i lt le =
    rw
      (
        compare_more s n t k h i lt,
        sec_diff s t h.sec (omega arith),
        nsec_below n k le i.nsec,
        nsec_borrow n k le i.nsec,
        sec_diff (s - t) 1 (omega arith) (omega arith),
      )
      (ground arith)

sum_sec :
    (s t c : ℕ) → s + t + c < 2 ^ 63 → wrap 64 (wrap 64 (pos s +ℤ pos t) +ℤ pos c) ≡ pos (s + t + c)
unfolding wrap ◌+ℤ◌
sum_sec s t c h = ground arith

sum_nsec :
    (n k : ℕ)
    → n < nanoseconds_per_second
    → k < nanoseconds_per_second
    → wrap 32 (pos n +ℤ pos k) ≡ pos (n + k)
unfolding wrap ◌+ℤ◌
sum_nsec n k h i = ground arith

-- UTILS_TimespecAdd adds the nanoseconds.
add_times-time :
    (s n t k : ℕ) (r : Timespec)
    → IsTime s n
    → IsTime t k
    → s + t + (n + k) / nanoseconds_per_second < 2 ^ 63
    → add_times (time s n) (time t k) r
      ≡ (pos 0, time (s + t + (n + k) / nanoseconds_per_second) ((n + k) % nanoseconds_per_second))
unfolding add_times quotient remainder
add_times-time s n t k r h i lt =
    rw (sum_nsec n k h.nsec i.nsec, sum_sec s t ((n + k) / nanoseconds_per_second) lt)
      (ground arith)

pub difference_time :
    (s n t k : ℕ)
    → IsTime s n
    → IsTime t k
    → total t k < total s n
    → (a : ℕ) × (b : ℕ) × IsTime a b
      × (total a b + total t k ≡ total s n)
      × ((r : Timespec) → subtract_times (time s n) (time t k) r ≡ (pos 0, time a b))
difference_time s n t k h i lt = elim (Bool-cases (leb k n)) [
  | inl le ↦ (
    s - t,
    n - k,
    ground arith,
    ground arith,
    λ r. subtract_times_same s n t k r h i lt (leb→le k n le),
  )
  | inr more ↦ (
    s - t - 1,
    nanoseconds_per_second + n - k,
    ground arith,
    ground arith,
    λ r. subtract_times_borrow s n t k r h i lt (ground arith),
  )
]

time_unique :
    (s n a b : ℕ)
    → n < nanoseconds_per_second
    → b < nanoseconds_per_second
    → total a b ≡ total s n
    → time a b ≡ time s n
time_unique s n a b h i e =
    let es : a ≡ s = omega arith in let en : b ≡ n = omega arith in rw (es, en) refl

-- For valid times after the epoch, the later one first, UTILS_TimespecSubtract succeeds with a valid
-- time, the difference in nanoseconds, and UTILS_TimespecAdd of that to the earlier time gives the
-- later one.
pub add_times-subtract_times :
    (s n t k : ℕ)
    → IsTime s n
    → IsTime t k
    → total t k < total s n
    → (a : ℕ) × (b : ℕ) × IsTime a b
      × (total a b + total t k ≡ total s n)
      × ((r : Timespec) → subtract_times (time s n) (time t k) r ≡ (pos 0, time a b))
      × ((r : Timespec) → add_times (time t k) (time a b) r ≡ (pos 0, time s n))
add_times-subtract_times s n t k h i lt =
    let (a, b, d, e, run) = difference_time s n t k h i lt in
    (
      a,
      b,
      d,
      e,
      run,
      λ r.
          add_times-time t k a b r i d (omega arith)
          ∙ ap (λ x. (pos 0, x))
              (time_unique s n (t + a + (k + b) / nanoseconds_per_second)
                ((k + b) % nanoseconds_per_second) h.nsec (omega arith) (omega arith)),
    )
