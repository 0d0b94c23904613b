-- ===== src/Tests/Sysclk.antt =====
-- Runs of sysclk.c, and instances of its theorems.
use cyancore.Common.{◌≡◌, refl, some, [], ◌∷◌, ◌==◌, if◌then◌else◌}
use cyancore.Status.{success}
use cyancore.Driver.{bit_or}
use cyancore.Driver.Sysclk.{Clock, Callback, execute_pre_config, execute_pre}

abbrev both : Callback
both = record { pre_config = some success; post_config = some success }

-- The nodes 5 and 8.
abbrev two : Clock
two = record { root = 5; next = λ a. if a == 5 then 8 else 0 }

abbrev sole : Clock
sole = record { root = 5; next = λ a. 0 }

ran : execute_pre_config 2 (λ a. both) two ≡ some (some (success, 5 ∷ 8 ∷ []))
unfolding execute_pre_config execute_pre bit_or
ran = refl
