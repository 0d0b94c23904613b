-- ===== src/Hal/Timer.antt =====
-- The timers, timer/timer.c, timer8.h and timer16.h, and the pulse width modulation over them, pwm/pwm.c.
-- `clk` has the calls on the clock of the chip, `linked` and `unlinked` are what the calls on the interrupts
-- return. The
-- sixteen-bit registers are two bytes, the low one first. The memory that pwm.c allocates is not cleared:
-- `left` is the value that it leaves in the timer's port.
pub mod Running
pub mod Compare
use Prim.Native.Nat.{bit_and, bit_or}
use cyancore.Common.{
  ℕ, zero, suc, ◌+◌, ◌-◌, ◌*◌, ◌/◌, ◌%◌, ◌^◌, Bool, true, false, ◌||◌, Option, none, some, leb, ltb,
  ◌==◌, if◌then◌else◌,
}
use cyancore.Status.{success, error_inval_pointer, error_memory_low}
use cyancore.Driver.{status_or}
use cyancore.Hal.Clk.{PlatformClk}
use cyancore.Hal.{write8, or8, clear8}

abbrev pub tccra_offset : ℕ
tccra_offset = 0x00

abbrev pub tccrb_offset : ℕ
tccrb_offset = 0x01

abbrev pub tcnt_8b_offset : ℕ
tcnt_8b_offset = 0x02

abbrev pub ocra_8b_offset : ℕ
ocra_8b_offset = 0x03

abbrev pub ocrb_8b_offset : ℕ
ocrb_8b_offset = 0x04

abbrev pub tcntl_16b_offset : ℕ
tcntl_16b_offset = 0x04

abbrev pub ocral_16b_offset : ℕ
ocral_16b_offset = 0x08

abbrev pub ocrah_16b_offset : ℕ
ocrah_16b_offset = 0x09

abbrev pub ocrbl_16b_offset : ℕ
ocrbl_16b_offset = 0x0a

abbrev pub ocrbh_16b_offset : ℕ
ocrbh_16b_offset = 0x0b

abbrev pub timsk_base : ℕ
timsk_base = 0x6e

-- `tmr_handler` is whether it is not null.
pub record TimerPort : Type 0 where
  pub port_id : ℕ
  pub clk_id : ℕ
  pub baddr : ℕ
  pub value : ℕ
  pub tmr_handler : Bool

-- Both kinds: the fields of the mode, added to the two registers, where the mode is at most `limit`
unfoldable pub config_mode : (limit high : ℕ) → TimerPort → (mode : ℕ) → (ℕ → ℕ) → ℕ → ℕ
config_mode limit high port mode m =
    let a = port.baddr + tccra_offset in
    let b = port.baddr + tccrb_offset in
    if leb mode limit
    then write8 b (bit_or (m b) (bit_and mode high * 2))
        (write8 a (bit_or (m a) (bit_and mode 0x3)) m)
    else write8 b (m b) (write8 a (m a) m)

abbrev pub timer8_config_mode : TimerPort → (mode : ℕ) → (ℕ → ℕ) → ℕ → ℕ
timer8_config_mode port mode m = config_mode 7 0x4 port mode m

abbrev pub timer16_config_mode : TimerPort → (mode : ℕ) → (ℕ → ℕ) → ℕ → ℕ
timer16_config_mode port mode m = config_mode 15 0xc port mode m

-- The prescaler, added to the register where it is at most 7
unfoldable pub timer16_config_ps : TimerPort → (ps : ℕ) → (ℕ → ℕ) → ℕ → ℕ
timer16_config_ps port ps m =
    let b = port.baddr + tccrb_offset in write8 b (if leb ps 7 then bit_or (m b) ps else m b) m

unfoldable pub timer8_config_ps : TimerPort → (ps : ℕ) → (ℕ → ℕ) → ℕ → ℕ
timer8_config_ps port ps m =
    let b = port.baddr + tccrb_offset in
    write8 (port.baddr + tcnt_8b_offset) 0 (write8 b (if leb ps 7 then bit_or (m b) ps else m b) m)

-- `(3 - id) << 1` for the unit, which is at most 3
abbrev pub output_shift : TimerPort → ℕ
output_shift port = (3 - bit_and port.port_id 0xf) * 2

unfoldable pub timer8_config_op_mode : TimerPort → (en inv : Bool) → (ℕ → ℕ) → ℕ → ℕ
timer8_config_op_mode port en inv m =
    let a = port.baddr + tccra_offset in
    if en
    then or8 a ((if inv then 3 else 2) * 2 ^ output_shift port) m
    else clear8 a (3 * 2 ^ output_shift port) m

unfoldable pub timer16_config_op_mode : TimerPort → (en inv : Bool) → (ℕ → ℕ) → ℕ → ℕ
timer16_config_op_mode port en inv m =
    write8 (port.baddr + tcntl_16b_offset + 1) 0
      (write8 (port.baddr + tcntl_16b_offset) 0 (timer8_config_op_mode port en inv m))

-- The registers A and B of the unit; the value is a byte.
unfoldable pub timer8_set : TimerPort → (value : ℕ) → (ℕ → ℕ) → ℕ → ℕ
timer8_set port value m =
    let id = bit_and port.port_id 0xf in
    if id == 0
    then write8 (port.baddr + ocra_8b_offset) value m
    else if id == 1
    then write8 (port.baddr + ocrb_8b_offset) value m
    else m

-- The value has 16 bits, and its high byte is written first.
unfoldable pub timer16_set : TimerPort → (value : ℕ) → (ℕ → ℕ) → ℕ → ℕ
timer16_set port value m =
    let id = bit_and port.port_id 0xf in
    let v = value % 2 ^ 16 in
    if id == 0
    then write8 (port.baddr + ocral_16b_offset) (v % 2 ^ 8)
        (write8 (port.baddr + ocrah_16b_offset) (v / 2 ^ 8) m)
    else if id == 1
    then write8 (port.baddr + ocrbl_16b_offset) (v % 2 ^ 8)
        (write8 (port.baddr + ocrbh_16b_offset) (v / 2 ^ 8) m)
    else m

-- The same for both kinds: the mask register of the timer and the bit of the unit
unfoldable pub timer_irq_en : TimerPort → (ℕ → ℕ) → ℕ → ℕ
timer_irq_en port m =
    or8 (timsk_base + bit_and port.port_id 0xf0 / 2 ^ 4) (2 ^ (bit_and port.port_id 0xf + 1)) m

unfoldable pub timer_irq_dis : TimerPort → (ℕ → ℕ) → ℕ → ℕ
timer_irq_dis port m =
    clear8 (timsk_base + bit_and port.port_id 0xf0 / 2 ^ 4) (2 ^ (bit_and port.port_id 0xf + 1)) m

unfoldable pub timer8_read : TimerPort → (ℕ → ℕ) → ℕ
timer8_read port m = m (port.baddr + tcnt_8b_offset)

unfoldable pub timer16_read : TimerPort → (ℕ → ℕ) → ℕ
timer16_read port m =
    m (port.baddr + tcntl_16b_offset) + m (port.baddr + tcntl_16b_offset + 1) * 2 ^ 8

-- `id == 0 || id == 0x20`
unfoldable pub is_timer8 : TimerPort → Bool
is_timer8 port = let id = bit_and port.port_id 0xf0 in id == 0 || id == 0x20

unfoldable pub timer_setup :
    (clk : PlatformClk) (linked : ℕ) → Option TimerPort → (mode ps : ℕ) → (ℕ → ℕ) → ℕ × (ℕ → ℕ)
timer_setup clk linked none mode ps m = (error_inval_pointer, m)
timer_setup clk linked (some port) mode ps m =
    let (en, m1) = clk.en port.clk_id m in
    (
      if port.tmr_handler then status_or en linked else en,
      if is_timer8 port
          then timer8_config_ps port ps (
              timer8_config_mode port mode (
                if port.tmr_handler
                then timer_irq_en port (timer8_set port (port.value % 2 ^ 8) m1)
                else m1))
          else timer16_config_ps port ps (
              timer16_config_mode port mode (
                if port.tmr_handler
                then timer_irq_en port (timer16_set port port.value m1)
                else m1)),
    )

unfoldable pub timer_shutdown :
    (clk : PlatformClk) (unlinked : ℕ) → Option TimerPort → (ℕ → ℕ) → ℕ × (ℕ → ℕ)
timer_shutdown clk unlinked none m = (error_inval_pointer, m)
timer_shutdown clk unlinked (some port) m =
    let (dis, m1) = clk.dis port.clk_id (
      timer_irq_dis port (
        if is_timer8 port
        then timer8_config_ps port 0 (timer8_config_mode port 0 m)
        else timer16_config_ps port 0 (timer16_config_mode port 0 m))) in
    (status_or (status_or success unlinked) dis, m1)

unfoldable pub timer_read : Option TimerPort → (ℕ → ℕ) → ℕ × Option ℕ
timer_read none m = (error_inval_pointer, none)
timer_read (some port) m =
    (success, some (if is_timer8 port then timer8_read port m else timer16_read port m))

unfoldable pub timer_pwm_set :
    Option TimerPort → (invert : Bool) → (value : ℕ) → (ℕ → ℕ) → ℕ × (ℕ → ℕ)
timer_pwm_set none invert value m = (error_inval_pointer, m)
timer_pwm_set (some port) invert value m = (
  success,
  if is_timer8 port
      then timer8_set port (value % 2 ^ 8) (timer8_config_op_mode port true invert m)
      else timer16_set port value (timer16_config_op_mode port true invert m),
)

-- `pwm_port_t`, less what only the allocation of the device uses
pub record PwmPort : Type 0 where
  pub port_id : ℕ
  pub clk_id : ℕ
  pub baddr : ℕ
  pub prescale : ℕ
  pub pwm_handler : Bool

unfoldable pub pwm_to_timer : (left : ℕ) → PwmPort → TimerPort
pwm_to_timer left p = record {
  port_id = p.port_id;
  clk_id = p.clk_id;
  baddr = p.baddr;
  value = left;
  tmr_handler = p.pwm_handler;
}

-- `tport` is the value that the allocated memory leaves, none where the allocation fails.
unfoldable pub pwm_setup :
    (tport : Option ℕ) (clk : PlatformClk) (linked : ℕ)
    → PwmPort
    → (mode : ℕ) → (ℕ → ℕ)
    → ℕ × (ℕ → ℕ)
pwm_setup none clk linked port mode m = (error_memory_low, m)
pwm_setup (some left) clk linked port mode m =
    timer_setup clk linked (some (pwm_to_timer left port)) mode port.prescale m

unfoldable pub pwm_set :
    (tport : Option ℕ) → PwmPort → (value : ℕ) (invert : Bool) → (ℕ → ℕ) → ℕ × (ℕ → ℕ)
pwm_set none port value invert m = (error_memory_low, m)
pwm_set (some left) port value invert m =
    timer_pwm_set (some (pwm_to_timer left port)) invert value m
