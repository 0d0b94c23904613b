-- ===== src/Hal/Uart/Rate.antt =====
-- How close the baud rate is.
use native.Mathlib.Nat.{mul-div-le, lt-mul-div-succ, le-div_iff_mul-le, div-lt_iff_lt-mul}
use cyancore.Common.{ℕ, ◌+◌, ◌-◌, ◌*◌, ◌/◌, ◌%◌, ◌^◌, ◌≤◌, ◌<◌, ◌≡◌, refl, some, ne→==, arith}
use cyancore.Hal.Uart.{baud_rate_value}

-- A quotient from 1 on that fits 16 bits, less one
quotient :
    (n d : ℕ)
    → 0 < d
    → d ≤ n
    → n < 2 ^ 16 * d
    → (0 < n / d) × (n / d < 2 ^ 16) × (d * (n / d) ≤ n) × (n < d * (n / d) + d)
quotient n d hd hn hb = (
  (le-div_iff_mul-le hd).1 (omega (arith, hn)),
  (div-lt_iff_lt-mul hd).1 hb,
  mul-div-le n d,
  omega (arith, lt-mul-div-succ n hd),
)

-- For a baud rate above zero, a clock of at least eight times it and numbers that fit 32 bits, where the
-- prescaler fits 16 bits it is computed and gives 16 * (b + 1) clock cycles a bit; this number times the
-- baud rate differs from the clock by at most eight times the baud rate.
pub baud_rate_value-bound :
    (clk x : ℕ)
    → 0 < x
    → 8 * x ≤ clk
    → x * 16 < 2 ^ 32
    → clk + x * 8 < 2 ^ 32
    → clk + x * 8 < 2 ^ 16 * (x * 16)
    → (b : ℕ) × (baud_rate_value clk x ≡ some b)
      × (b < 2 ^ 16)
      × (x * 16 * (b + 1) ≤ clk + x * 8)
      × (clk < x * 16 * (b + 1) + x * 8)
unfolding baud_rate_value
baud_rate_value-bound clk x hx h8 h16 hs hb =
    let n = clk + x * 8 in
    let d = x * 16 in
    let (q0, q16, low, high) = quotient n d (omega (arith, hx)) (omega (arith, h8)) hb in
    let q = n / d in
    let b = q - 1 in
    let e1 : x * 2 ^ 4 % 2 ^ 32 ≡ d = omega (arith, h16) in
    let e2 : (clk + x * 2 ^ 3 % 2 ^ 32) % 2 ^ 32 ≡ n = omega (arith, hs, h16) in
    let e3 : (q + (2 ^ 32 - 1)) % 2 ^ 32 % 2 ^ 16 ≡ b = omega (arith, q0, q16) in
    let e4 : b + 1 ≡ q = omega (arith, q0) in
    (
      b,
      rw (e1, ne→== d 0 (λ e. omega (arith, e, hx)), e2, e3) refl,
      omega (arith, q16),
      rw e4 low,
      rw e4 (omega (arith, high)),
    )
