-- ===== src/Hal/Prci/Nearest.antt =====
-- The search finds the nearest frequency among its candidates.
use cyancore.Common.{
  ℕ, ◌+◌, ◌*◌, ◌/◌, ◌%◌, ◌^◌, ◌≤◌, ◌<◌, ◌≡◌, refl, sym, ap, subst, inl, inr, true, some, ltb,
  Bool-cases, if◌then◌else◌, arith,
}
use cyancore.Status.{success}
use cyancore.Hal.Prci.{
  PllConfig, zero_config, Search, distance, accepts, try_n, try_q, try_f, try_r, for_each,
  count_from, min_refr, max_refr, min_vco, max_vco, min_pllo, max_pllo, max_pll_out,
  pll_config_for_nearest_freq, prci_pll_get_clk,
}
use cyancore.Hal.Prci.Loops.{count_from-InList, for_each-keeps, for_each-nearest, for_each-reaches}

-- The output of the loop in front of its last divider
abbrev pub output : (base ri fi qi : ℕ) → ℕ
output base ri fi qi = base / (ri + 1) * (2 * (fi + 1)) % 2 ^ 32 / 2 ^ qi

-- The frequency of a configuration
abbrev frequency : (base : ℕ) → PllConfig → ℕ
frequency base c =
    if c.diven then output base c.r c.f c.q / (2 * (c.n + 1)) else output base c.r c.f c.q

-- The distance belongs to the configuration, once there is one.
unfoldable IsHeld : (base clk : ℕ) → Search → Type 0
IsHeld base clk s =
    if s.config.found
    then distance clk (frequency base s.config) ≡ s.nearest
    else s.nearest ≡ max_pll_out

try_n-IsHeld :
    (base clk pllout ri fi qi ni : ℕ) (s : Search)
    → pllout ≡ output base ri fi qi
    → IsHeld base clk s
    → IsHeld base clk (try_n clk pllout ri fi qi ni s)
unfolding try_n IsHeld
try_n-IsHeld base clk pllout ri fi qi ni s e h =
    let dd = distance clk (pllout / (2 * (ni + 1))) in
    let dn = distance clk pllout in
    elim (Bool-cases (ltb dd dn)) [
      | inl a ↦ elim (Bool-cases (ltb dd s.nearest)) [
        | inl b ↦ rw (a, b) (ap (λ v. distance clk (v / (2 * (ni + 1)))) (sym e))
        | inr b ↦ rw (a, b) h
      ]
      | inr a ↦ elim (Bool-cases (ltb dn s.nearest)) [
        | inl b ↦ rw (a, b) (ap (distance clk) (sym e))
        | inr b ↦ rw (a, b) h
      ]
    ]

try_n-nearest :
    (clk pllout ri fi qi ni : ℕ) (s : Search)
    → ((try_n clk pllout ri fi qi ni s).nearest ≤ s.nearest)
      × ((try_n clk pllout ri fi qi ni s).nearest ≤ distance clk pllout)
      × ((try_n clk pllout ri fi qi ni s).nearest ≤ distance clk (pllout / (2 * (ni + 1))))
unfolding try_n
try_n-nearest clk pllout ri fi qi ni s =
    let dd = distance clk (pllout / (2 * (ni + 1))) in
    let dn = distance clk pllout in
    elim (Bool-cases (ltb dd dn)) [
      | inl a ↦ elim (Bool-cases (ltb dd s.nearest)) [
        | inl b ↦ rw (a, b) (ground (arith, a, b), ground (arith, a, b), omega arith)
        | inr b ↦ rw (a, b) (omega arith, ground (arith, a, b), ground (arith, a, b))
      ]
      | inr a ↦ elim (Bool-cases (ltb dn s.nearest)) [
        | inl b ↦ rw (a, b) (ground (arith, a, b), omega arith, ground (arith, a, b))
        | inr b ↦ rw (a, b) (omega arith, ground (arith, a, b), ground (arith, a, b))
      ]
    ]

-- Each round keeps what is held.
try_q-IsHeld :
    (base clk vco ri fi qi : ℕ) (s : Search)
    → vco ≡ base / (ri + 1) * (2 * (fi + 1)) % 2 ^ 32
    → IsHeld base clk s
    → IsHeld base clk (try_q clk vco ri fi qi s)
unfolding try_q
try_q-IsHeld base clk vco ri fi qi s e h =
    elim (Bool-cases (accepts min_pllo max_pllo (vco / 2 ^ qi))) [
      | inl g ↦ rw g (
          for_each-keeps (IsHeld base clk) (count_from 0 64) (try_n clk (vco / 2 ^ qi) ri fi qi) s
            (λ ni t. try_n-IsHeld base clk (vco / 2 ^ qi) ri fi qi ni t (ap (λ v. v / 2 ^ qi) e)) h)
      | inr g ↦ rw g h
    ]

try_f-IsHeld :
    (base clk refr ri fi : ℕ) (s : Search)
    → refr ≡ base / (ri + 1)
    → IsHeld base clk s
    → IsHeld base clk (try_f clk refr ri fi s)
unfolding try_f
try_f-IsHeld base clk refr ri fi s e h =
    let vco = refr * (2 * (fi + 1)) % 2 ^ 32 in
    elim (Bool-cases (accepts min_vco max_vco vco)) [
      | inl g ↦ rw g (
          for_each-keeps (IsHeld base clk) (count_from 1 3) (try_q clk vco ri fi) s
            (λ qi t. try_q-IsHeld base clk vco ri fi qi t (ap (λ v. v * (2 * (fi + 1)) % 2 ^ 32) e))
            h)
      | inr g ↦ rw g h
    ]

try_r-IsHeld :
    (base clk ri : ℕ) (s : Search) → IsHeld base clk s → IsHeld base clk (try_r base clk ri s)
unfolding try_r
try_r-IsHeld base clk ri s h =
    let refr = base / (ri + 1) in
    elim (Bool-cases (accepts min_refr max_refr refr)) [
      | inl g ↦ rw g (
          for_each-keeps (IsHeld base clk) (count_from 0 64) (try_f clk refr ri) s
            (λ fi t. try_f-IsHeld base clk refr ri fi t refl) h)
      | inr g ↦ rw g h
    ]

-- No round raises the distance.
try_q-nearest : (clk vco ri fi qi : ℕ) (s : Search) → (try_q clk vco ri fi qi s).nearest ≤ s.nearest
unfolding try_q
try_q-nearest clk vco ri fi qi s = elim (Bool-cases (accepts min_pllo max_pllo (vco / 2 ^ qi))) [
  | inl g ↦ rw g (
      for_each-nearest (count_from 0 64) (try_n clk (vco / 2 ^ qi) ri fi qi) s
        (λ ni t. (try_n-nearest clk (vco / 2 ^ qi) ri fi qi ni t).0))
  | inr g ↦ rw g (omega arith)
]

try_f-nearest : (clk refr ri fi : ℕ) (s : Search) → (try_f clk refr ri fi s).nearest ≤ s.nearest
unfolding try_f
try_f-nearest clk refr ri fi s =
    let vco = refr * (2 * (fi + 1)) % 2 ^ 32 in
    elim (Bool-cases (accepts min_vco max_vco vco)) [
      | inl g ↦
          rw g (
            for_each-nearest (count_from 1 3) (try_q clk vco ri fi) s (try_q-nearest clk vco ri fi))
      | inr g ↦ rw g (omega arith)
    ]

try_r-nearest : (base clk ri : ℕ) (s : Search) → (try_r base clk ri s).nearest ≤ s.nearest
unfolding try_r
try_r-nearest base clk ri s =
    let refr = base / (ri + 1) in
    elim (Bool-cases (accepts min_refr max_refr refr)) [
      | inl g ↦
          rw g
            (for_each-nearest (count_from 0 64) (try_f clk refr ri) s (try_f-nearest clk refr ri))
      | inr g ↦ rw g (omega arith)
    ]

-- The factors that the loops go through and that keep the frequencies in their ranges
unfoldable pub IsCandidate : (base ri fi qi ni : ℕ) → Type 0
IsCandidate base ri fi qi ni =
    (ri < 8)
    × (fi < 64)
    × (0 < qi)
    × (qi < 4)
    × (ni < 64)
    × (accepts min_refr max_refr (base / (ri + 1)) ≡ true)
    × (accepts min_vco max_vco (base / (ri + 1) * (2 * (fi + 1)) % 2 ^ 32) ≡ true)
    × (accepts min_pllo max_pllo (output base ri fi qi) ≡ true)

-- A bound that the round of a candidate reaches is reached by the whole search.
search-reaches :
    (base clk ri fi qi ni bound : ℕ) (s : Search)
    → IsCandidate base ri fi qi ni
    → ((s : Search) → (try_n clk (output base ri fi qi) ri fi qi ni s).nearest ≤ bound)
    → (for_each (count_from 0 8) (try_r base clk) s).nearest ≤ bound
unfolding try_r try_f try_q IsCandidate
search-reaches base clk ri fi qi ni bound s (hr, hf, hq0, hq, hn, gr, gf, gq) reach =
    let refr = base / (ri + 1) in
    let vco = refr * (2 * (fi + 1)) % 2 ^ 32 in
    for_each-reaches (count_from 0 8) (try_r base clk) s ri bound (try_r-nearest base clk)
      (count_from-InList 0 8 ri (omega arith) (omega (arith, hr)))
      (λ s1. rw gr (
        for_each-reaches (count_from 0 64) (try_f clk refr ri) s1 fi bound
          (try_f-nearest clk refr ri) (count_from-InList 0 64 fi (omega arith) (omega (arith, hf)))
          (λ s2. rw gf (
            for_each-reaches (count_from 1 3) (try_q clk vco ri fi) s2 qi bound
              (try_q-nearest clk vco ri fi)
              (count_from-InList 1 3 qi (omega (arith, hq0)) (omega (arith, hq)))
              (λ s3. rw gq (
                for_each-reaches (count_from 0 64) (try_n clk (vco / 2 ^ qi) ri fi qi) s3 ni bound
                  (λ i t. (try_n-nearest clk (vco / 2 ^ qi) ri fi qi i t).0)
                  (count_from-InList 0 64 ni (omega arith) (omega (arith, hn))) reach))))))

-- A search that holds its distance and is nearer than the start has found a configuration.
found-nearest :
    (base clk b1 b2 : ℕ) (s : Search)
    → IsHeld base clk s
    → s.nearest ≤ b1
    → s.nearest ≤ b2
    → b1 < max_pll_out
    → (c : ℕ) × (prci_pll_get_clk base s.config ≡ (success, some c))
      × (distance clk c ≤ b1)
      × (distance clk c ≤ b2)
unfolding prci_pll_get_clk IsHeld
found-nearest base clk b1 b2 s held h1 h2 near = elim (Bool-cases s.config.found) [
  | inl e ↦
      let is : distance clk (frequency base s.config) ≡ s.nearest =
        subst
          (λ b.
            if b
            then distance clk (frequency base s.config) ≡ s.nearest
            else s.nearest ≡ max_pll_out)
          e held in
      (
        frequency base s.config,
        rw e refl,
        subst (λ v. v ≤ b1) (sym is) h1,
        subst (λ v. v ≤ b2) (sym is) h2,
      )
  | inr e ↦
      let far : s.nearest ≡ max_pll_out =
        subst
          (λ b.
            if b
            then distance clk (frequency base s.config) ≡ s.nearest
            else s.nearest ≡ max_pll_out)
          e held in
      absurd (omega (arith, far, h1, near))
]

-- For every candidate of factors whose undivided frequency differs by less than 320 MHz from the one that is
-- asked for, the search finds a configuration, and the frequency that is read back from it is at least as
-- near as that of the candidate, with the divider and without.
pub prci_pll_get_clk-nearest :
    (base clk ri fi qi ni : ℕ)
    → IsCandidate base ri fi qi ni
    → distance clk (output base ri fi qi) < max_pll_out
    → (c : ℕ) × (prci_pll_get_clk base (pll_config_for_nearest_freq base clk) ≡ (success, some c))
      × (distance clk c ≤ distance clk (output base ri fi qi))
      × (distance clk c ≤ distance clk (output base ri fi qi / (2 * (ni + 1))))
unfolding pll_config_for_nearest_freq IsHeld
prci_pll_get_clk-nearest base clk ri fi qi ni cand near =
    let s0 : Search = record { nearest = max_pll_out; config = zero_config } in
    let s = for_each (count_from 0 8) (try_r base clk) s0 in
    let held =
      for_each-keeps (IsHeld base clk) (count_from 0 8) (try_r base clk) s0 (try_r-IsHeld base clk)
        refl in
    let direct =
      search-reaches base clk ri fi qi ni (distance clk (output base ri fi qi)) s0 cand
        (λ t. (try_n-nearest clk (output base ri fi qi) ri fi qi ni t).1) in
    let divided =
      search-reaches base clk ri fi qi ni (distance clk (output base ri fi qi / (2 * (ni + 1)))) s0
        cand (λ t. (try_n-nearest clk (output base ri fi qi) ri fi qi ni t).2) in
    found-nearest base clk (distance clk (output base ri fi qi))
      (distance clk (output base ri fi qi / (2 * (ni + 1)))) s held direct divided near
