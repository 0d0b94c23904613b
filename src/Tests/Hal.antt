-- ===== src/Tests/Hal.antt =====
-- Runs of the hardware abstraction layer and instances of its theorems.
use cyancore.Common.{
  ℕ, ◌+◌, ◌-◌, ◌*◌, ◌%◌, ◌^◌, ◌≤◌, ◌<◌, ◌≡◌, ◌≢◌, refl, ap, ne→==, true, false, not, ◌||◌, some, [],
  ◌==◌, if◌then◌else◌, arith,
}
use cyancore.Status.{success, error_driver_busy}
use cyancore.Hal.{test_bit}
use cyancore.Hal.Bits.{test_bit_zero}
use cyancore.Hal.Gpio.{
  GpioPort, Gpio, gpio_pin_alloc, gpio_pin_set, gpio_pin_clear, gpio_pin_toggle, ddr_offset,
  fill_handle,
}
use cyancore.Hal.Gpio.Pins.{level, with_pin, gpio_pin-level}
use cyancore.Hal.Gpio.Owners.{System, owners, owns, keep, Reachable, start, step, pin_allocated}
use cyancore.Hal.Gpio.Exclusion.{Reachable-owners, gpio_pin_alloc-busy}
use cyancore.Hal.Adc.{AdcPort, ref_value, admux_offset, adc_read, adc_config_pin}
use cyancore.Hal.Adc.Config.{adc_read-value, adc_config_pin-admux}
use cyancore.Hal.Uart.{
  UartPort, Uart, trx, baud_rate_value, uart_setup, ucsrb_offset, ucsrc_offset, ubrrl_offset,
  ubrrh_offset,
}
use cyancore.Hal.Uart.Rate.{baud_rate_value-bound}
use cyancore.Hal.Uart.Setup.{transmits, receives, uart_setup-registers}
use cyancore.Hal.Clk.{atmega328p}
use cyancore.Hal.Spi.{SpiPort, fdiv_bits, spcr_offset, spcr_value, spi_master_setup}
use cyancore.Hal.Spi.Setup.{one_of, spi_master_setup-free}

-- Registers that hold 5, a pin of a port at address 64
abbrev fives : ℕ → ℕ
fives a = 5

abbrev pin_1 : GpioPort
pin_1 = record { pbaddr = 64; port = 2; pin = 1 }

gpio_pin-level_example :
    (((gpio_pin_set (some pin_1) fives).0 ≡ success)
      × (level pin_1 (gpio_pin_set (some pin_1) fives).1 1 ≡ with_pin 1 true (level pin_1 fives) 1)
      × ((gpio_pin_set (some pin_1) fives).1 7 ≡ 5))
    × (((gpio_pin_clear (some pin_1) fives).0 ≡ success)
        × (level pin_1 (gpio_pin_clear (some pin_1) fives).1 1
            ≡ with_pin 1 false (level pin_1 fives) 1)
        × ((gpio_pin_clear (some pin_1) fives).1 7 ≡ 5))
    × (((gpio_pin_toggle (some pin_1) fives).0 ≡ success)
        × (level pin_1 (gpio_pin_toggle (some pin_1) fives).1 1
            ≡ with_pin 1 (not (level pin_1 fives 1)) (level pin_1 fives) 1)
        × ((gpio_pin_toggle (some pin_1) fives).1 7 ≡ 5))
gpio_pin-level_example =
    gpio_pin-level pin_1 fives 1 (omega arith) (omega arith) (omega arith) 7 (λ e. omega (arith, e))

-- The module of each port is found at 64.
abbrev found : ℕ → ℕ × ℕ
found p = (success, 64)

abbrev empty : System
empty = record { held = []; gpio = record { mmio = fives; port_status = λ x. 0 } }

abbrev after_one : System
after_one = keep false empty (gpio_pin_alloc 4 found (some pin_1) 2 1 empty.gpio)

after_one-Reachable : Reachable 4 found after_one
after_one-Reachable = step (start fives) (pin_allocated empty pin_1 2 1 (omega arith))

one_owner : owners after_one.held 2 1 ≡ 1
unfolding owners owns keep gpio_pin_alloc fill_handle test_bit
one_owner = refl

Reachable-owners_example : (owners after_one.held 2 1 ≤ 1) × (after_one.gpio.port_status 2 < 256)
Reachable-owners_example = Reachable-owners 4 found after_one 2 1 after_one-Reachable (omega arith)

gpio_pin_alloc-busy_example :
    gpio_pin_alloc 4 found (some pin_1) 2 1 after_one.gpio
    ≡ some (error_driver_busy, some pin_1, after_one.gpio)
gpio_pin_alloc-busy_example =
    gpio_pin_alloc-busy 4 found after_one pin_1 2 1 after_one-Reachable (omega arith) (omega arith)
      (omega (arith, one_owner))

abbrev adc : AdcPort
adc = record { fdiv = 8; baddr = 120; adc_handler = false }

adc_read-value_example :
    ((adc_read (some adc) true fives).0 ≡ success)
    × ((adc_read (some adc) true fives).1 ≡ some (if test_bit 5 5 then 5 else 5 * 256 + 5))
    × ((adc_read (some adc) true fives).2 (120 + admux_offset) ≡ 5)
adc_read-value_example = adc_read-value adc fives (omega arith) (omega arith) (omega arith)

-- Pin 2 after pin 5 was selected, with the reference `ref_1_1`
adc_config_pin-admux_example :
    ((adc_config_pin 8 (some adc) 2 0 10 2 fives).1 (120 + admux_offset) ≡ 199)
    × ((adc_config_pin 8 (some adc) 2 0 8 2 fives).1 (120 + admux_offset) ≡ 34)
unfolding ref_value
adc_config_pin-admux_example =
    adc_config_pin-admux 8 adc 2 0 2 3 fives (omega arith) (omega arith) refl (omega arith)
      (omega arith)

baud_rate_value-bound_example :
    (b : ℕ) × (baud_rate_value 16000000 9600 ≡ some b)
    × (b < 2 ^ 16)
    × (9600 * 16 * (b + 1) ≤ 16000000 + 9600 * 8)
    × (16000000 < 9600 * 16 * (b + 1) + 9600 * 8)
baud_rate_value-bound_example =
    baud_rate_value-bound 16000000 9600 (omega arith) (omega arith) (omega arith) (omega arith)
      (omega arith)

abbrev uart : UartPort
uart = record { clk_id = 3; baud = 9600; baddr = 192; tx_irq = some (1, 20); rx_irq = some (1, 18) }

abbrev uart_state : Uart
uart_state = record { mmio = fives; calls = [] }

is_false : true ≢ false
is_false e = ground (arith, e)

uart_setup-registers_example :
    (s : Uart) × (uart_setup success 16000000 (some uart) trx 2 uart_state ≡ some (success, s))
    × (s.mmio (192 + ubrrh_offset) * 2 ^ 8 + s.mmio (192 + ubrrl_offset) ≡ 103)
    × (s.mmio (192 + ucsrc_offset) ≡ 38)
    × (test_bit (s.mmio (192 + ucsrb_offset)) 3 ≡ (transmits trx || test_bit 5 3))
    × (test_bit (s.mmio (192 + ucsrb_offset)) 4 ≡ (receives trx || test_bit 5 4))
unfolding baud_rate_value transmits
uart_setup-registers_example =
    uart_setup-registers 16000000 uart trx 2 103 uart_state (λ e. is_false (ap transmits e)) refl
      (omega arith) (omega arith) (omega arith)

-- The register is empty from the third reading on.
abbrev flags : ℕ → ℕ
flags t = if t == 2 then 32 else 0

before : (j : ℕ) → j < 2 → test_bit (flags j) 5 ≡ false
unfolding test_bit
before j h = rw (ne→== j 2 (λ e. omega (arith, e, h))) refl

abbrev spi : SpiPort
spi = record { clk_id = 2; fdiv = 16; baddr = 76; com_port = 1; com_pins = λ i. 3 - i }

spi_master_setup-free_example :
    (g : Gpio) × (spi_master_setup 4 found atmega328p
        (λ i. pin_1)
        (some spi)
        false
        true
        false
        empty.gpio
      ≡ some (success, g))
    × (test_bit (g.port_status 1) 2 ≡ (one_of spi.com_pins 4 2 || test_bit 0 2))
    × (test_bit (g.mmio (64 + ddr_offset)) 2
        ≡ (if 2 == 2 then false else one_of spi.com_pins 4 2 || test_bit 5 2))
    × (g.mmio (76 + spcr_offset) ≡ spcr_value (2 ^ 6 + 2 ^ 4) spi false true false % 2 ^ 8)
unfolding fdiv_bits atmega328p
spi_master_setup-free_example =
    spi_master_setup-free 4 found atmega328p (λ i. pin_1) spi false true false empty.gpio 2
      (omega arith) refl (omega arith) (omega arith) (λ i h. omega arith)
      (λ i j lt h e. omega (arith, lt, h, e)) (λ i h. test_bit_zero (3 - i) (omega arith)) refl
      (λ e. omega (arith, e)) refl (omega arith)
