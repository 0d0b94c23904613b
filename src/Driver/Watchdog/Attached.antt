-- ===== src/Driver/Watchdog/Attached.antt =====
-- The watchdogs through any sequence of attachments and releases on the cores.
use cyancore.Common.{
  ℕ, ◌≡◌, refl, inl, inr, Bool, true, Option, none, some, ◌==◌, if◌then◌else◌, Bool-cases, arith,
  ==_refl,
}
use cyancore.Status.{success, error_func_inval}
use cyancore.Driver.Watchdog.{
  Port, Watchdogs, none_attached, wdog_attach_device, wdog_release_device, wdog_guard, wdog_hush,
}

-- The states that the statics reach when no null driver is attached.
pub data Reachable : Watchdogs → Type 0 where
  start : Reachable none_attached
  attach :
      (s : Watchdogs) (cpu v : ℕ) (p : Port)
      → Reachable s
      → Reachable (wdog_attach_device cpu v (some p) s).1
  release : (s : Watchdogs) (cpu : ℕ) → Reachable s → Reachable (wdog_release_device cpu s).1

-- A core whose flag is set has a driver.
abbrev HasPort : Watchdogs → Type 0
HasPort s = (cpu : ℕ) → s.wdog_attached cpu ≡ true → (p : Port) × (s.port cpu ≡ some p)

Reachable-HasPort : (s : Watchdogs) → Reachable s → HasPort s
unfolding wdog_attach_device wdog_release_device
Reachable-HasPort _ start cpu = λ e. absurd (ground arith)
Reachable-HasPort _ (attach s c v p r) cpu = elim (Bool-cases (cpu == c)) [
  | inl h ↦ rw h (λ e. (p, refl))
  | inr h ↦ rw h (Reachable-HasPort s r cpu)
]
Reachable-HasPort _ (release s c r) cpu = elim (Bool-cases (cpu == c)) [
  | inl h ↦ rw h (λ e. absurd (ground arith))
  | inr h ↦ rw h (Reachable-HasPort s r cpu)
]

-- However drivers that are not null are attached and released on the cores, wdog_guard and wdog_hush
-- return a status on each core: they read through no null pointer.
pub Reachable-guard :
    (s : Watchdogs) (cpu timeout : ℕ) (bite : Bool) (cb_bark : ℕ)
    → Reachable s
    → ((v : ℕ) × (wdog_guard cpu timeout bite cb_bark s ≡ some v))
      × ((v : ℕ) × (wdog_hush cpu s ≡ some v))
unfolding wdog_guard wdog_hush
Reachable-guard s cpu timeout bite cb_bark r = elim (Bool-cases (s.wdog_attached cpu)) [
  | inr off ↦ rw off ((error_func_inval, refl), (error_func_inval, refl))
  | inl on ↦
      let (p, e) = Reachable-HasPort s r cpu on in
      rw (on, e) (by_guard p.guard, ((if p.hush then success else error_func_inval), refl))
]
  where
    by_guard :
        (g : Option (ℕ → Bool → ℕ → ℕ))
        → (v : ℕ) × (elim g [
          | none ↦ some error_func_inval
          | some f ↦ some (f timeout bite cb_bark)
        ]
            ≡ some v)
    by_guard none = (error_func_inval, refl)
    by_guard (some f) = (f timeout bite cb_bark, refl)

-- Where a null driver is attached to a core whose flag is set, the flag stays, and wdog_guard and
-- wdog_hush read through the null pointer.
pub attach_null-guard :
    (s : Watchdogs) (cpu v timeout : ℕ) (bite : Bool) (cb_bark : ℕ)
    → s.wdog_attached cpu ≡ true
    → let s' = (wdog_attach_device cpu v none s).1 in
      (wdog_guard cpu timeout bite cb_bark s' ≡ none) × (wdog_hush cpu s' ≡ none)
unfolding wdog_attach_device wdog_guard wdog_hush
attach_null-guard s cpu v timeout bite cb_bark on = rw (on, ==_refl cpu) (refl, refl)
