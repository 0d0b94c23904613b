-- ===== src/Hal/Timer/Running.antt =====
-- What the shutdown of a timer leaves.
use cyancore.Common.{ℕ, ◌<◌, if◌then◌else◌}
use cyancore.Hal.Timer.{
  TimerPort, timer8_config_ps, timer16_config_ps, is_timer8, timer8_config_mode,
  timer16_config_mode,
}

-- Every register holds a byte.
abbrev pub Bytes : (ℕ → ℕ) → Type 0
Bytes m = (a : ℕ) → m a < 256

-- The mode and the prescaler of a shutdown
abbrev no_mode : TimerPort → (ℕ → ℕ) → ℕ → ℕ
no_mode port m =
    if is_timer8 port
    then timer8_config_ps port 0 (timer8_config_mode port 0 m)
    else timer16_config_ps port 0 (timer16_config_mode port 0 m)
