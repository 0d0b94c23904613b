-- ===== src/Hal/Oscillators/Frequency.antt =====
-- The frequency that is read after the loop is set.
use cyancore.Common.{ℕ, ◌+◌, ◌*◌, ◌/◌, ◌≤◌, ◌<◌, ◌≡◌, refl, true, false, some}
use cyancore.Status.{success}
use cyancore.Driver.{status_or}
use cyancore.Hal.Prci.{distance, max_pll_out, pll_config_for_nearest_freq}
use cyancore.Hal.Prci.Nearest.{IsCandidate, output, prci_pll_get_clk-nearest}
use cyancore.Hal.Oscillators.{
  pll, Sysclk, run, writes_of, faults, sysclk_configure_clk, sysclk_get_freq,
}

-- A driver that is set up and whose loop is set to a frequency from 375 kHz to 320 MHz, where the wait for
-- the loop ends: for every candidate of factors whose undivided frequency differs by less than 320 MHz from
-- the one that is asked for, the frequency that is read afterwards is at least as near as that of the
-- candidate, with the output divider and without.
pub sysclk_get_freq-nearest :
    (pre post clk ri fi qi ni : ℕ) (s : Sysclk)
    → s.ready ≡ true
    → faults false pll clk ≡ false
    → IsCandidate s.base_clk ri fi qi ni
    → distance clk (output s.base_clk ri fi qi) < max_pll_out
    → (st : ℕ) × (s' : Sysclk) × (c : ℕ) × (sysclk_configure_clk false pre post pll clk s
        ≡ some (st, s'))
      × (sysclk_get_freq s' ≡ (success, some c))
      × (distance clk c ≤ distance clk (output s.base_clk ri fi qi))
      × (distance clk c ≤ distance clk (output s.base_clk ri fi qi / (2 * (ni + 1))))
unfolding sysclk_configure_clk sysclk_get_freq
sysclk_get_freq-nearest pre post clk ri fi qi ni s ready ok cand near =
    let conf = pll_config_for_nearest_freq s.base_clk clk in
    let s' : Sysclk = record s {
      pllc = conf;
      clk_type = pll;
      regs = run (writes_of pll clk conf) s.regs;
    } in
    let (c, got, direct, divided) = prci_pll_get_clk-nearest s.base_clk clk ri fi qi ni cand near in
    (status_or pre post, s', c, rw (ready, ok) refl, rw ready got, direct, divided)
