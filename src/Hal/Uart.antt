-- ===== src/Hal/Uart.antt =====
-- The serial port, uart/uart.c and uart_private.h. What the calls on the platform's clock and on the
-- interrupts return are parameters, and the calls are listed, the last one first. An interrupt is its module
-- and its number. `bool` results are none where the assert fails. The busy loops read a register that
-- the hardware changes: `flags` gives its value at each reading, and the loops have fuel.
pub mod Rate
pub mod Setup
pub mod Waiting
use cyancore.Common.{
  ℕ, zero, suc, ◌+◌, ◌-◌, ◌*◌, ◌/◌, ◌%◌, ◌^◌, Bool, true, false, ◌&&◌, Option, none, some, List, [],
  ◌∷◌, ltb, ◌==◌, if◌then◌else◌,
}
use cyancore.Status.{success, error_func_inval_arg, error_inval_pointer, error_driver_data}
use cyancore.Driver.{status_or}
use cyancore.Hal.{write8, or8, clear8, test_bit}

abbrev pub ucsra_offset : ℕ
ucsra_offset = 0x0

abbrev pub ucsrb_offset : ℕ
ucsrb_offset = 0x1

abbrev pub ucsrc_offset : ℕ
ucsrc_offset = 0x2

abbrev pub ubrrl_offset : ℕ
ubrrl_offset = 0x4

abbrev pub ubrrh_offset : ℕ
ubrrh_offset = 0x5

abbrev pub udr_offset : ℕ
udr_offset = 0x6

pub data Direction : Type 0 where
  tx : Direction
  rx : Direction
  trx : Direction
  other : Direction

pub record UartPort : Type 0 where
  pub clk_id : ℕ
  pub baud : ℕ
  pub baddr : ℕ
  pub tx_irq : Option (ℕ × ℕ)
  pub rx_irq : Option (ℕ × ℕ)

pub data UartCall : Type 0 where
  clk_en : ℕ → UartCall
  clk_dis : ℕ → UartCall
  link : ℕ × ℕ → UartCall
  unlink : ℕ × ℕ → UartCall

pub record Uart : Type 0 where
  pub mmio : ℕ → ℕ
  pub calls : List UartCall

-- BAUD_RATE_VALUE of 32-bit numbers; none where it divides by zero
unfoldable pub baud_rate_value : (clk x : ℕ) → Option ℕ
baud_rate_value clk x =
    if x * 2 ^ 4 % 2 ^ 32 == 0
    then none
    else some (
        ((clk + x * 2 ^ 3 % 2 ^ 32) % 2 ^ 32 / (x * 2 ^ 4 % 2 ^ 32) + (2 ^ 32 - 1))
        % 2 ^ 32
        % 2 ^ 16)

unfoldable pub uart_tx_int_en : Option UartPort → (ℕ → ℕ) → ℕ × (ℕ → ℕ)
uart_tx_int_en none m = (error_inval_pointer, m)
uart_tx_int_en (some port) m = (success, or8 (port.baddr + ucsrb_offset) (2 ^ 6) m)

unfoldable pub uart_tx_int_dis : Option UartPort → (ℕ → ℕ) → ℕ × (ℕ → ℕ)
uart_tx_int_dis none m = (error_inval_pointer, m)
uart_tx_int_dis (some port) m = (success, clear8 (port.baddr + ucsrb_offset) (2 ^ 6) m)

unfoldable pub uart_rx_int_en : Option UartPort → (ℕ → ℕ) → ℕ × (ℕ → ℕ)
uart_rx_int_en none m = (error_inval_pointer, m)
uart_rx_int_en (some port) m = (success, or8 (port.baddr + ucsrb_offset) (2 ^ 7) m)

unfoldable pub uart_rx_int_dis : Option UartPort → (ℕ → ℕ) → ℕ × (ℕ → ℕ)
uart_rx_int_dis none m = (error_inval_pointer, m)
uart_rx_int_dis (some port) m = (success, clear8 (port.baddr + ucsrb_offset) (2 ^ 7) m)

-- `if(port->tx_irq)` and `if(port->rx_irq)` of the set-up
unfoldable pub enable_tx_irq : UartPort → Uart → Uart
enable_tx_irq port s = elim port.tx_irq [
  | none ↦ s
  | some irq ↦ record { mmio = (uart_tx_int_en (some port) s.mmio).1; calls = link irq ∷ s.calls }
]

unfoldable pub enable_rx_irq : UartPort → Uart → Uart
enable_rx_irq port s = elim port.rx_irq [
  | none ↦ s
  | some irq ↦ record { mmio = (uart_rx_int_en (some port) s.mmio).1; calls = link irq ∷ s.calls }
]

-- The switch: `en` and what it does, for the bits TXEN 3 and RXEN 4; `trx` falls through to `rx`.
unfoldable pub enable_direction : UartPort → Direction → Uart → Option (ℕ × Uart)
enable_direction port tx s = some (2 ^ 3, enable_tx_irq port s)
enable_direction port rx s = some (2 ^ 4, enable_rx_irq port s)
enable_direction port trx s = some (2 ^ 3 + 2 ^ 4, enable_rx_irq port (enable_tx_irq port s))
enable_direction port other s = none

-- What follows the switch, with the prescaler `b` and the parity `p`
unfoldable pub configure : UartPort → (en b p : ℕ) → (ℕ → ℕ) → ℕ → ℕ
configure port en b p m = write8 (port.baddr + ucsrc_offset) (p * 2 ^ 4 % 2 ^ 8 + 3 * 2) (
    write8 (port.baddr + ubrrl_offset) (b % 2 ^ 8)
      (write8 (port.baddr + ubrrh_offset) (b / 2 ^ 8) (or8 (port.baddr + ucsrb_offset) en m)))

-- `vstatus` and `clk` are what the visor call gives for the clock.
unfoldable pub uart_setup :
    (vstatus clk : ℕ) → Option UartPort → Direction → (p : ℕ) → Uart → Option (ℕ × Uart)
uart_setup vstatus clk none d p s = some (error_inval_pointer, s)
uart_setup vstatus clk (some port) d p s =
    let s1 : Uart = record {
      mmio = write8 (port.baddr + ucsra_offset) 0x00 s.mmio;
      calls = clk_en port.clk_id ∷ s.calls;
    } in
    if vstatus == success
    then elim (enable_direction port d s1) [
      | none ↦ some (error_func_inval_arg, s1)
      | some r ↦ elim (baud_rate_value clk port.baud) [
        | none ↦ none
        | some b ↦ some (success, record r.1 { mmio = configure port r.0 b p r.1.mmio })
      ]
    ]
    else some (vstatus, s1)

-- `unlinked` and `dis` are what the calls on an interrupt and on the clock return.
unfoldable pub uart_shutdown : (unlinked : ℕ × ℕ → ℕ) (dis : ℕ) → Option UartPort → Uart → ℕ × Uart
uart_shutdown unlinked dis none s = (error_inval_pointer, s)
uart_shutdown unlinked dis (some port) s =
    let r1 = disable_tx (success, s) in
    let r2 = disable_rx r1 in
    (status_or r2.0 dis, record r2.1 { calls = clk_dis port.clk_id ∷ r2.1.calls })
  where
    disable_tx : ℕ × Uart → ℕ × Uart
    disable_tx (ret, s) = elim port.tx_irq [
      | none ↦ (ret, s)
      | some irq ↦
          let t = uart_tx_int_dis (some port) s.mmio in
          (
            status_or (status_or ret t.0) (unlinked irq),
            record { mmio = t.1; calls = unlink irq ∷ s.calls },
          )
    ]

    disable_rx : ℕ × Uart → ℕ × Uart
    disable_rx (ret, s) = elim port.rx_irq [
      | none ↦ (ret, s)
      | some irq ↦
          let t = uart_rx_int_dis (some port) s.mmio in
          (
            status_or (status_or ret t.0) (unlinked irq),
            record { mmio = t.1; calls = unlink irq ∷ s.calls },
          )
    ]

unfoldable pub uart_buffer_available : Option UartPort → (ℕ → ℕ) → Option Bool
uart_buffer_available none m = none
uart_buffer_available (some port) m = some (test_bit (m (port.baddr + ucsra_offset)) 5)

unfoldable pub uart_rx_done : Option UartPort → (ℕ → ℕ) → Option Bool
uart_rx_done none m = none
uart_rx_done (some port) m = some (test_bit (m (port.baddr + ucsra_offset)) 7)

unfoldable pub uart_frame_error : Option UartPort → (ℕ → ℕ) → Option Bool
uart_frame_error none m = none
uart_frame_error (some port) m = some (
    if test_bit (m (port.baddr + ucsrc_offset)) 4
    then test_bit (m (port.baddr + ucsra_offset)) 4
    else false)

-- The number of readings before the one in which bit `k` is set, from the reading `t` on
unfoldable pub wait_flag : (flags : ℕ → ℕ) (k fuel t : ℕ) → Option ℕ
wait_flag flags k zero t = none
wait_flag flags k (suc fuel) t =
    let rest = wait_flag flags k fuel (suc t) in if test_bit (flags t) k then some t else rest

-- Both return the reading that ends the wait and the registers.
unfoldable pub uart_tx_wait_till_done :
    (flags : ℕ → ℕ) (fuel : ℕ) → Option UartPort → (ℕ → ℕ) → Option (ℕ × (ℕ → ℕ))
uart_tx_wait_till_done flags fuel none m = none
uart_tx_wait_till_done flags fuel (some port) m = elim (wait_flag flags 6 fuel 0) [
  | none ↦ none
  | some t ↦ some (t, or8 (port.baddr + ucsra_offset) (2 ^ 6) m)
]

unfoldable pub uart_tx :
    (flags : ℕ → ℕ) (fuel : ℕ) → Option UartPort → (data_ : ℕ) → (ℕ → ℕ) → Option (ℕ × (ℕ → ℕ))
uart_tx flags fuel none data_ m = some (error_inval_pointer, m)
uart_tx flags fuel (some port) data_ m = elim (wait_flag flags 5 fuel 0) [
  | none ↦ none
  | some t ↦ some (success, write8 (port.baddr + udr_offset) data_ m)
]

-- The status and the character, where one is stored
unfoldable pub uart_rx : Option UartPort → (ℕ → ℕ) → ℕ × Option ℕ
uart_rx none m = (error_inval_pointer, none)
uart_rx (some port) m =
    if test_bit (m (port.baddr + ucsrc_offset)) 4 && test_bit (m (port.baddr + ucsra_offset)) 4
    then (error_driver_data, none)
    else (success, some (m (port.baddr + udr_offset)))
