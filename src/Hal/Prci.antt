-- ===== src/Hal/Prci.antt =====
-- The choice of the factors of the phase-locked loop, src/platform/sifive/common_fe310/hal/prci/pll.c and
-- prci_private.h. The four nested loops go through their numbers in order. The numbers have 32 bits; the assert on
-- the frequency that is asked for holds.
pub mod Loops
pub mod Nearest
use cyancore.Common.{
  ℕ, zero, suc, ◌+◌, ◌-◌, ◌*◌, ◌/◌, ◌%◌, ◌^◌, Bool, true, false, ◌&&◌, ◌||◌, not, Option, none,
  some, List, [], ◌∷◌, ltb, leb, ◌==◌, if◌then◌else◌,
}
use cyancore.Status.{success, error_system_clk_caliberation}

abbrev pub max_pll_out : ℕ
max_pll_out = 320000000

abbrev pub min_refr : ℕ
min_refr = 6000000

abbrev pub max_refr : ℕ
max_refr = 12000000

abbrev pub min_vco : ℕ
min_vco = 384000000

abbrev pub max_vco : ℕ
max_vco = 768000000

abbrev pub min_pllo : ℕ
min_pllo = 48000000

abbrev pub max_pllo : ℕ
max_pllo = 384000000

-- `pllc_t`
pub record PllConfig : Type 0 where
  pub found : Bool
  pub r : ℕ
  pub f : ℕ
  pub q : ℕ
  pub diven : Bool
  pub n : ℕ

abbrev pub zero_config : PllConfig
zero_config = record { found = false; r = 0; f = 0; q = 0; diven = false; n = 0 }

-- `nearest` and `*config`
pub record Search : Type 0 where
  pub nearest : ℕ
  pub config : PllConfig

-- `abs((int)(a - b))` of two numbers below 2 ^ 31
abbrev pub distance : ℕ → ℕ → ℕ
distance a b = a - b + (b - a)

-- The body of the innermost loop
unfoldable pub try_n : (clk pllout ri fi qi ni : ℕ) → Search → Search
try_n clk pllout ri fi qi ni s =
    let n = 2 * (ni + 1) in
    let diff_div = distance clk (pllout / n) in
    let diff_nodiv = distance clk pllout in
    let diven = ltb diff_div diff_nodiv in
    let diff = if diven then diff_div else diff_nodiv in
    if ltb diff s.nearest
    then record {
      nearest = diff;
      config = record { found = true; r = ri; f = fi; q = qi; diven = diven; n = ni };
    }
    else s

-- A `for` loop over the numbers in a list
unfoldable pub for_each : List ℕ → (ℕ → Search → Search) → Search → Search
for_each [] body s = s
for_each (i ∷ is) body s = for_each is body (body i s)

abbrev pub accepts : (low high v : ℕ) → Bool
accepts low high v = leb low v && leb v high

-- The numbers from `low` on
unfoldable pub count_from : (low n : ℕ) → List ℕ
count_from low zero = []
count_from low (suc n) = low ∷ count_from (low + 1) n

unfoldable pub try_q : (clk vco ri fi qi : ℕ) → Search → Search
try_q clk vco ri fi qi s =
    let pllout = vco / 2 ^ qi in
    if accepts min_pllo max_pllo pllout
    then for_each (count_from 0 64) (try_n clk pllout ri fi qi) s
    else s

unfoldable pub try_f : (clk refr ri fi : ℕ) → Search → Search
try_f clk refr ri fi s =
    let vco = refr * (2 * (fi + 1)) % 2 ^ 32 in
    if accepts min_vco max_vco vco then for_each (count_from 1 3) (try_q clk vco ri fi) s else s

unfoldable pub try_r : (base clk ri : ℕ) → Search → Search
try_r base clk ri s =
    let refr = base / (ri + 1) in
    if accepts min_refr max_refr refr then for_each (count_from 0 64) (try_f clk refr ri) s else s

unfoldable pub pll_config_for_nearest_freq : (base clk : ℕ) → PllConfig
pll_config_for_nearest_freq base clk =
    (for_each (count_from 0 8) (try_r base clk)
      (record { nearest = max_pll_out; config = zero_config })).config

-- The frequency that a configuration gives; the second result is `*clk`, where it is written.
unfoldable pub prci_pll_get_clk : (base : ℕ) → PllConfig → ℕ × Option ℕ
prci_pll_get_clk base config =
    if config.found
    then (let refr = base / (config.r + 1) in
        let vco = refr * (2 * (config.f + 1)) % 2 ^ 32 in
        let pllout = vco / 2 ^ config.q in
        (success, some (if config.diven then pllout / (2 * (config.n + 1)) else pllout)))
    else (error_system_clk_caliberation, none)
