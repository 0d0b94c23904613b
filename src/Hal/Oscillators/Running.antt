-- ===== src/Hal/Oscillators/Running.antt =====
-- Whether the core has a clock while its clock is changed.
use cyancore.Common.{
  ℕ, ◌≡◌, refl, Bool, true, false, ◌&&◌, some, List, [], ◌∷◌, ◌++◌, if◌then◌else◌, arith,
}
use cyancore.Driver.{status_or}
use cyancore.Hal.Prci.{PllConfig}
use cyancore.Hal.Oscillators.{
  Prci, Write, internal, external, pll, Sysclk, prci_hfxocs_enable, prci_hfxocs_disable,
  prci_hfosc_enable, prci_hfosc_disable, prci_hfosc_set_clk, prci_pll_select_xosc,
  prci_pll_select_rosc, prci_pll_select_pll, prci_pll_deselect_pll, prci_pll_bypass,
  prci_pll_inline, prci_pll_set_clk, sysclk_set_internal, sysclk_set_external, sysclk_set_pll,
  sysclk_disable_writes, run, writes_of, faults, sysclk_configure_clk,
}

-- Whether the oscillator that is the reference of the loop is on
abbrev reference : Prci → Bool
reference s = if s.pllrefsel then s.hfxosc_en else s.hfrosc_en

-- Whether the core has a clock: the ring oscillator, where the loop is not selected; else the reference of
-- the loop, where the loop is bypassed, and the output of the loop, where it is not, which is a clock only
-- if the loop is locked.
unfoldable pub running : (lock : Bool) → Prci → Bool
running lock s =
    if s.pllsel then (if s.pllbypass then reference s else lock && reference s) else s.hfrosc_en

-- The core has its clock before and after each access.
unfoldable pub IsDriven : (lock : Bool) → List Write → Prci → Type 0
IsDriven lock [] s = running lock s ≡ true
IsDriven lock (w ∷ ws) s = (running lock s ≡ true) × IsDriven lock ws (w s)

-- The ring oscillator alone drives the core.
unfoldable pub IsInternal : Prci → Type 0
IsInternal s = (s.pllsel ≡ false) × (s.hfrosc_en ≡ true) × (s.hfxosc_en ≡ false)

-- What `running` says of the selection, the reference, the bypass and the two oscillators
abbrev runs : (lock sel ref byp x r : Bool) → Bool
runs lock sel ref byp x r =
    if sel then (if byp then (if ref then x else r) else lock && (if ref then x else r)) else r

-- Turning an oscillator on or bypassing the loop keeps the core driven.
crystal_on :
    (lock sel ref byp x r : Bool)
    → runs lock sel ref byp x r ≡ true
    → runs lock sel ref byp true r ≡ true
crystal_on lock false ref byp x r h = h
crystal_on lock true false byp x r h = h
crystal_on lock true true true x r h = refl
crystal_on true true true false x r h = refl
crystal_on false true true false x r h = h

ring_on :
    (lock sel ref byp x r : Bool)
    → runs lock sel ref byp x r ≡ true
    → runs lock sel ref byp x true ≡ true
ring_on lock false ref byp x r h = refl
ring_on lock true true byp x r h = h
ring_on lock true false true x r h = refl
ring_on true true false false x r h = refl
ring_on false true false false x r h = h

bypass_on :
    (lock sel ref byp x r : Bool)
    → runs lock sel ref byp x r ≡ true
    → runs lock sel ref true x r ≡ true
bypass_on lock false ref byp x r h = h
bypass_on lock true ref true x r h = h
bypass_on true true ref false x r h = h
bypass_on false true ref false x r h = absurd (cc)

both_on : (lock sel : Bool) → runs lock sel false true true true ≡ true
both_on lock true = refl
both_on lock false = refl

internal-IsDriven :
    (lock : Bool) (clk : ℕ) (s : Prci)
    → running lock s ≡ true
    → IsDriven lock (sysclk_set_internal clk) s
unfolding sysclk_set_internal IsDriven running prci_hfxocs_enable prci_hfxocs_disable
    prci_hfosc_enable prci_hfosc_set_clk prci_pll_select_rosc prci_pll_deselect_pll prci_pll_bypass
    prci_pll_inline
internal-IsDriven lock clk s h =
    let a = crystal_on lock s.pllsel s.pllrefsel s.pllbypass s.hfxosc_en s.hfrosc_en h in
    let b = bypass_on lock s.pllsel s.pllrefsel s.pllbypass true s.hfrosc_en a in
    let c = ring_on lock s.pllsel s.pllrefsel true true s.hfrosc_en b in
    (h, (a, (b, (c, (c, (both_on lock s.pllsel, (refl, (refl, refl))))))))

sysclk_set_internal-IsInternal : (clk : ℕ) (s : Prci) → IsInternal (run (sysclk_set_internal clk) s)
unfolding sysclk_set_internal IsInternal run prci_hfxocs_enable prci_hfxocs_disable
    prci_hfosc_enable prci_hfosc_set_clk prci_pll_select_rosc prci_pll_deselect_pll prci_pll_bypass
    prci_pll_inline
sysclk_set_internal-IsInternal clk s = (refl, refl, refl)

disable-IsDriven :
    (lock : Bool) (s : Prci) → running lock s ≡ true → IsDriven lock sysclk_disable_writes s
unfolding sysclk_disable_writes IsDriven running prci_hfosc_enable prci_hfosc_set_clk
    prci_pll_deselect_pll prci_pll_inline
disable-IsDriven lock s h =
    let x = ring_on lock s.pllsel s.pllrefsel s.pllbypass s.hfxosc_en s.hfrosc_en h in
    (h, (x, (x, (refl, refl))))

-- Setting the internal clock of a driver that is set up, to a frequency above zero: where the core has a clock
-- before, it has one before and after each access to the registers, whether the loop is locked or not, and
-- afterwards the ring oscillator alone drives it. It has one as well before and after each access that
-- disables the driver. A loop that is selected and not bypassed is a clock only if it is locked.
pub sysclk_configure_clk-IsDriven :
    (locked lock : Bool) (pre post : ℕ) (clk : ℕ) (s : Sysclk)
    → s.ready ≡ true
    → faults locked internal clk ≡ false
    → running lock s.regs ≡ true
    → ((st : ℕ) × (s' : Sysclk) × (sysclk_configure_clk locked pre post internal clk s
          ≡ some (st, s'))
        × IsDriven lock (writes_of internal clk s.pllc) s.regs
        × IsInternal s'.regs)
      × IsDriven lock sysclk_disable_writes s.regs
unfolding sysclk_configure_clk writes_of
sysclk_configure_clk-IsDriven locked lock pre post clk s ready ok h =
    let s' : Sysclk = record s {
      clk_type = internal;
      regs = run (sysclk_set_internal clk) s.regs;
    } in
    (
      (
        status_or pre post,
        s',
        rw (ready, ok) refl,
        internal-IsDriven lock clk s.regs h,
        sysclk_set_internal-IsInternal clk s.regs,
      ),
      disable-IsDriven lock s.regs h,
    )

IsDriven-append :
    (lock : Bool) (ws vs : List Write) (s : Prci)
    → IsDriven lock (ws ++ vs) s
    → IsDriven lock vs (run ws s)
unfolding IsDriven run
IsDriven-append lock [] vs s h = h
IsDriven-append lock (w ∷ ws) vs s h = IsDriven-append lock ws vs (w s) h.1

external-undriven : (s : Prci) → s.pllbypass ≡ false → ¬ IsDriven false sysclk_set_external s
unfolding sysclk_set_external IsDriven running prci_hfosc_enable prci_hfxocs_enable
    prci_pll_select_xosc prci_pll_select_pll
external-undriven s e h =
    let fifth : (if s.pllbypass then true else false) ≡ true = h.1.1.1.1.0 in
    ground (arith, fifth, e)

-- The loop is taken off its bypass before it is locked.
switch_over-undriven :
    (s : Prci)
    → ¬ IsDriven false (prci_pll_select_pll ∷ prci_pll_inline ∷ prci_hfosc_disable ∷ []) s
unfolding IsDriven running prci_pll_select_pll prci_pll_inline
switch_over-undriven s h = let third : false ≡ true = h.1.1.0 in absurd (cc)

-- Where the loop is not locked, setting the external clock and setting the loop leave the core without a clock
-- at some access, whatever the registers hold before, the frequency and the configuration of the loop.
pub writes_of-undriven :
    (clk : ℕ) (conf : PllConfig) (s : Prci)
    → (¬ IsDriven false (writes_of external clk conf) s)
      × (¬ IsDriven false (writes_of pll clk conf) s)
unfolding writes_of sysclk_set_internal sysclk_set_pll IsDriven run prci_pll_inline
    prci_hfxocs_disable
writes_of-undriven clk conf s = (
  λ h.
      external-undriven (run (sysclk_set_internal clk) s) refl
        (IsDriven-append false (sysclk_set_internal clk) sysclk_set_external s h),
  λ h. switch_over-undriven (run (prci_pll_set_clk conf) _) (
      IsDriven-append false (prci_pll_set_clk conf)
        (prci_pll_select_pll ∷ prci_pll_inline ∷ prci_hfosc_disable ∷ []) _ h.1.1.1.1),
)
