-- ===== src/Hal/Uart/Waiting.antt =====
-- When the busy loops end.
use cyancore.Common.{ℕ, zero, suc, ◌+◌, ◌<◌, ◌≡◌, refl, subst, true, false, some, none, arith}
use cyancore.Status.{success}
use cyancore.Hal.{write8, test_bit}
use cyancore.Hal.Uart.{UartPort, udr_offset, wait_flag, uart_tx, uart_tx_wait_till_done}

-- With fuel for one reading more than `n`, the wait ends at the first reading in which the bit is set.
pub wait_flag-first :
    (flags : ℕ → ℕ) (k fuel n t : ℕ)
    → n < fuel
    → ((j : ℕ) → j < n → test_bit (flags (j + t)) k ≡ false)
    → test_bit (flags (n + t)) k ≡ true
    → wait_flag flags k fuel t ≡ some (n + t)
unfolding wait_flag
wait_flag-first flags k zero n t h before at_ = absurd (omega (arith, h))
wait_flag-first flags k (suc fuel) zero t h before at_ =
    let e : test_bit (flags t) k ≡ true =
      subst (λ i. test_bit (flags i) k ≡ true) (omega arith) at_ in
    rw e (ground arith)
wait_flag-first flags k (suc fuel) (suc n) t h before at_ =
    let e : test_bit (flags t) k ≡ false =
      subst (λ i. test_bit (flags i) k ≡ false) (omega arith) (before 0 (omega arith)) in
    let rest =
      wait_flag-first flags k fuel n (suc t) (omega (arith, h))
        (λ j hj.
          subst (λ i. test_bit (flags i) k ≡ false) (omega arith)
            (before (suc j) (omega (arith, hj))))
        (subst (λ i. test_bit (flags i) k ≡ true) (omega arith) at_) in
    rw (e, rest) (ground arith)

-- Where the reading `n` of the flags is the first that shows the data register empty, transmitting succeeds
-- and writes the character to the data register alone; one reading more than `n` is fuel enough.
pub uart_tx-first :
    (flags : ℕ → ℕ) (n : ℕ) (port : UartPort) (char : ℕ) (m : ℕ → ℕ)
    → ((j : ℕ) → j < n → test_bit (flags j) 5 ≡ false)
    → test_bit (flags n) 5 ≡ true
    → uart_tx flags (suc n) (some port) char m
      ≡ some (success, write8 (port.baddr + udr_offset) char m)
unfolding uart_tx
uart_tx-first flags n port char m before at_ =
    let e =
      wait_flag-first flags 5 (suc n) n 0 (omega arith)
        (λ j hj. subst (λ i. test_bit (flags i) 5 ≡ false) (omega arith) (before j hj))
        (subst (λ i. test_bit (flags i) 5 ≡ true) (omega arith) at_) in
    rw (uart_tx, e) refl

wait_flag-never :
    (flags : ℕ → ℕ) (fuel t : ℕ)
    → ((j : ℕ) → test_bit (flags j) 6 ≡ false)
    → wait_flag flags 6 fuel t ≡ none
unfolding wait_flag
wait_flag-never flags zero t never = refl
wait_flag-never flags (suc fuel) t never =
    rw (never t, wait_flag-never flags fuel (suc t) never) refl

-- Where the transmission never shows as complete, the wait for it uses up any fuel.
pub uart_tx_wait_till_done-never :
    (flags : ℕ → ℕ) (fuel : ℕ) (port : UartPort) (m : ℕ → ℕ)
    → ((j : ℕ) → test_bit (flags j) 6 ≡ false)
    → uart_tx_wait_till_done flags fuel (some port) m ≡ none
unfolding uart_tx_wait_till_done
uart_tx_wait_till_done-never flags fuel port m never =
    rw (uart_tx_wait_till_done, wait_flag-never flags fuel 0 never) refl
