-- ===== src/Libc/Time.antt =====
-- The delays and the time of day of src/lib/libc/time.c. `clock n` is the status and the number that the
-- call `n` of `get_timestamp` gives, and `arch_wfi` only passes time. A loop takes rounds.
pub mod Delay
pub mod Reading
use cyancore.Common.{
  ℕ, zero, suc, ◌+◌, ◌*◌, ◌/◌, ◌%◌, ◌^◌, Option, none, some, ltb, leb, ◌==◌, if◌then◌else◌,
}
use cyancore.Status.{error_func_inval_arg}

-- The `do` loop of both delays, from the call `n` on: the status of the last reading
unfoldable pub delay_loop : (ℕ → ℕ × ℕ) → ℕ → ℕ → ℕ → Option ℕ
delay_loop clock zero delay n = none
delay_loop clock (suc rounds) delay n =
    let rest = delay_loop clock rounds delay (suc n) in
    let (ret, tstamp) = clock n in if leb tstamp delay then rest else some ret

-- A wait of `usec`, the first reading and the loop
unfoldable pub wait_for : (ℕ → ℕ × ℕ) → ℕ → ℕ → Option ℕ
unfolding delay_loop
wait_for clock rounds usec = delay_loop clock rounds ((usec + (clock 0).1) % 2 ^ 64) 1

unfoldable pub udelay : (ℕ → ℕ × ℕ) → ℕ → ℕ → Option ℕ
unfolding wait_for
udelay clock rounds d =
    if ltb 2000 d
    then some error_func_inval_arg
    else wait_for clock rounds (if d == 0 then 1 else d)

unfoldable pub mdelay : (ℕ → ℕ × ℕ) → ℕ → ℕ → Option ℕ
unfolding wait_for
mdelay clock rounds d =
    if ltb 10000 d
    then some error_func_inval_arg
    else wait_for clock rounds (if d == 0 then 1000 else d * 1000)

-- `time_t`
pub record Time : Type 0 where
  pub cs : ℕ
  pub s : ℕ
  pub m : ℕ
  pub h : ℕ
  pub dd : ℕ

abbrev pub zero_time : Time
zero_time = record { cs = 0; s = 0; m = 0; h = 0; dd = 0 }

-- The status and `*t`; the fields are 8 bits wide, and the days 32.
unfoldable pub get_time : ℕ × ℕ → ℕ × Time
get_time (ret, tstamp) =
    let t₁ = tstamp / 10000 in
    let t₂ = t₁ / 100 in
    let t₃ = t₂ / 60 in
    let t₄ = t₃ / 60 in
    if ret == 0
    then (
      ret,
      record {
        cs = t₁ % 100 % 2 ^ 8;
        s = t₂ % 60 % 2 ^ 8;
        m = t₃ % 60 % 2 ^ 8;
        h = t₄ % 24 % 2 ^ 8;
        dd = t₄ / 24 % 2 ^ 32;
      },
    )
    else (ret, zero_time)
