-- ===== src/Hal/Oscillators.antt =====
-- The oscillators and the clock of the SiFive chips: hfosc.c and the registers of pll.c in
-- src/platform/sifive/common_fe310/hal/prci, and src/driver/sysclk/sysclk_prci/sysclk_prci.c over them.
-- The registers are their fields. A function is the list of its register accesses in their order. The
-- oscillators become ready after they are turned on, so the waits for that end; the wait for the loop is for
-- its lock flag to be clear, and whether the flag stays set is a parameter. The locks are not modelled. A
-- result is none where the code divides by zero, fails an assert or waits forever.
pub mod Frequency
pub mod Running
use Prim.Native.Nat.{bit_or}
use cyancore.Common.{
  ℕ, zero, suc, ◌+◌, ◌-◌, ◌/◌, ◌%◌, ◌^◌, Bool, true, false, ◌&&◌, Option, none, some, List, [], ◌∷◌,
  ◌++◌, ltb, ◌||◌, ◌==◌, if◌then◌else◌,
}
use cyancore.Status.{
  success, error_system, error_inval_pointer, error_func_inval_arg, error_driver_data,
}
use cyancore.Driver.{status_or}
use cyancore.Hal.Prci.{PllConfig, max_pll_out, pll_config_for_nearest_freq, prci_pll_get_clk}

pub record Prci : Type 0 where
  pub hfrosc_en : Bool
  pub hfrosc_div : ℕ
  pub hfxosc_en : Bool
  pub pllsel : Bool
  pub pllrefsel : Bool
  pub pllbypass : Bool
  pub pllr : ℕ
  pub pllf : ℕ
  pub pllq : ℕ
  pub plloutdiv : ℕ
  pub plloutdivby1 : Bool

abbrev pub Write : Type 0
Write = Prci → Prci

unfoldable pub prci_hfxocs_enable : Write
prci_hfxocs_enable s = record s { hfxosc_en = true }

unfoldable pub prci_hfxocs_disable : Write
prci_hfxocs_disable s = record s { hfxosc_en = false }

unfoldable pub prci_hfosc_enable : Write
prci_hfosc_enable s = record s { hfrosc_en = true }

unfoldable pub prci_hfosc_disable : Write
prci_hfosc_disable s = record s { hfrosc_en = false }

abbrev pub iclk : ℕ
iclk = 72000000

-- `divdr`, in 32 bits
unfoldable pub divider : (clk : ℕ) → ℕ
divider clk = (iclk / clk + (2 ^ 32 - 1)) % 2 ^ 32

-- The write and the status, for a clock that is not zero
unfoldable pub prci_hfosc_set_clk : (clk : ℕ) → Write × ℕ
prci_hfosc_set_clk clk = (
  (λ s. record s { hfrosc_div = divider clk % 2 ^ 6 }),
  if divider clk % 2 ^ 6 == divider clk then success else error_system,
)

unfoldable pub prci_hfosc_get_clk : Prci → ℕ
prci_hfosc_get_clk s = iclk / (s.hfrosc_div + 1)

unfoldable pub prci_pll_select_xosc : Write
prci_pll_select_xosc s = record s { pllrefsel = true }

unfoldable pub prci_pll_select_rosc : Write
prci_pll_select_rosc s = record s { pllrefsel = false }

unfoldable pub prci_pll_select_pll : Write
prci_pll_select_pll s = record s { pllsel = true }

unfoldable pub prci_pll_deselect_pll : Write
prci_pll_deselect_pll s = record s { pllsel = false }

unfoldable pub prci_pll_bypass : Write
prci_pll_bypass s = record s { pllbypass = true }

unfoldable pub prci_pll_inline : Write
prci_pll_inline s = record s { pllbypass = false }

-- The output divider, whose bits are added, and the factors
unfoldable pub write_outdiv : PllConfig → Write
write_outdiv conf s =
    if conf.diven
    then record s { plloutdiv = bit_or s.plloutdiv (conf.n % 2 ^ 6); plloutdivby1 = false }
    else record s { plloutdivby1 = true }

unfoldable pub write_factors : PllConfig → Write
write_factors conf s = record s {
  pllr = conf.r % 2 ^ 3;
  pllf = conf.f % 2 ^ 6;
  pllq = conf.q % 2 ^ 2;
}

unfoldable pub prci_pll_write_config : PllConfig → List Write
prci_pll_write_config conf = if conf.found then write_outdiv conf ∷ write_factors conf ∷ [] else []

-- It only reads the registers; `faults` has when it does not end.
unfoldable pub prci_pll_wait_to_lock : Write
prci_pll_wait_to_lock s = s

unfoldable pub prci_pll_set_clk : PllConfig → List Write
prci_pll_set_clk conf = prci_pll_write_config conf ++ prci_pll_wait_to_lock ∷ []

-- `clock_type_t`
pub data ClockType : Type 0 where
  internal : ClockType
  external : ClockType
  pll : ClockType
  other : ClockType

unfoldable pub sysclk_set_internal : (clk : ℕ) → List Write
sysclk_set_internal clk =
    prci_hfxocs_enable
    ∷ prci_pll_bypass
    ∷ prci_hfosc_enable
    ∷ (prci_hfosc_set_clk clk).0
    ∷ prci_pll_select_rosc
    ∷ prci_pll_deselect_pll
    ∷ prci_pll_inline
    ∷ prci_hfxocs_disable
    ∷ []

unfoldable pub sysclk_set_external : List Write
sysclk_set_external =
    prci_hfosc_enable ∷ prci_hfxocs_enable ∷ prci_pll_select_xosc ∷ prci_pll_select_pll
    ∷ prci_pll_bypass ∷ prci_hfosc_disable ∷ []

unfoldable pub sysclk_set_pll : PllConfig → List Write
sysclk_set_pll conf =
    prci_hfosc_enable
    ∷ prci_hfxocs_enable
    ∷ prci_pll_bypass
    ∷ prci_pll_select_xosc
    ∷ (prci_pll_set_clk conf ++ prci_pll_select_pll ∷ prci_pll_inline ∷ prci_hfosc_disable ∷ [])

-- The same writes as the external clock, in the same order
unfoldable pub sysclk_reset_writes : List Write
unfolding sysclk_set_external
sysclk_reset_writes = sysclk_set_external

-- The state of the driver: whether `sysclk` is set up, its base clock, the configuration of the loop and
-- `clk_type`, with the registers
pub record Sysclk : Type 0 where
  pub ready : Bool
  pub base_clk : ℕ
  pub pllc : PllConfig
  pub clk_type : ClockType
  pub regs : Prci

-- The registers after a list of writes
unfoldable pub run : List Write → Prci → Prci
run [] s = s
run (w ∷ ws) s = run ws (w s)

-- The writes of `sysclk_configure_clk`; no write for another type
unfoldable pub writes_of : ClockType → (clk : ℕ) → PllConfig → List Write
writes_of internal clk conf = sysclk_set_internal clk
writes_of external clk conf = sysclk_set_internal clk ++ sysclk_set_external
writes_of pll clk conf = sysclk_set_pll conf
writes_of other clk conf = []

abbrev pub min_pll_out : ℕ
min_pll_out = 375000

-- Whether the call divides by zero, fails its assert on the frequency or waits forever. `locked`: the flag
-- PLLLOCK stays set.
unfoldable pub faults : (locked : Bool) → ClockType → (clk : ℕ) → Bool
faults locked internal clk = clk == 0
faults locked external clk = clk == 0
faults locked pll clk = ltb clk min_pll_out || ltb max_pll_out clk || locked
faults locked other clk = false

abbrev pub is_other : ClockType → Bool
is_other internal = false
is_other external = false
is_other pll = false
is_other other = true

abbrev pub is_pll : ClockType → Bool
is_pll internal = false
is_pll external = false
is_pll pll = true
is_pll other = false

-- `pre` and `post` are what the callbacks return. The driver of the loop searches its configuration.
unfoldable pub sysclk_configure_clk :
    (locked : Bool) (pre post : ℕ) → ClockType → (clk : ℕ) → Sysclk → Option (ℕ × Sysclk)
sysclk_configure_clk locked pre post type clk s =
    let conf = if is_pll type then pll_config_for_nearest_freq s.base_clk clk else s.pllc in
    if s.ready
    then (if faults locked type clk
        then none
        else some (
          status_or (if is_other type then error_func_inval_arg else pre) post,
          record s {
            pllc = conf;
            clk_type = if is_other type then s.clk_type else type;
            regs = run (writes_of type clk conf) s.regs;
          },
        ))
    else some (error_inval_pointer, s)

unfoldable pub sysclk_reset : Sysclk → ℕ × Sysclk
sysclk_reset s =
    if s.ready
    then (success, record s { clk_type = external; regs = run sysclk_reset_writes s.regs })
    else (error_driver_data, s)

unfoldable pub sysclk_disable_writes : List Write
sysclk_disable_writes =
    prci_hfosc_enable
    ∷ (prci_hfosc_set_clk 16000000).0
    ∷ prci_pll_deselect_pll
    ∷ prci_pll_inline
    ∷ []

-- The port is zeroed, so that the driver is no longer set up.
unfoldable pub sysclk_disable : Sysclk → ℕ × Sysclk
sysclk_disable s =
    if s.ready
    then (
      status_or success (prci_hfosc_set_clk 16000000).1,
      record s { ready = false; base_clk = 0; regs = run sysclk_disable_writes s.regs },
    )
    else (error_driver_data, s)

-- The status and the frequency of `sysclk_get_freq`
unfoldable pub sysclk_get_freq : Sysclk → ℕ × Option ℕ
sysclk_get_freq s =
    if s.ready
    then (elim s.clk_type [
      | internal ↦ (success, some (prci_hfosc_get_clk s.regs))
      | external ↦ (success, some s.base_clk)
      | pll ↦ prci_pll_get_clk s.base_clk s.pllc
      | other ↦ (error_func_inval_arg, some 0)
    ])
    else (error_inval_pointer, none)
