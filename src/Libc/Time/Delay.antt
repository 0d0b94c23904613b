-- ===== src/Libc/Time/Delay.antt =====
-- When the delays of src/lib/libc/time.c end.
use cyancore.Common.{
  ℕ, zero, suc, ◌+◌, ◌*◌, ◌%◌, ◌^◌, ◌≤◌, ◌<◌, ◌≡◌, refl, sym, inl, inr, none, some, leb, ◌==◌,
  Bool-cases, arith, leb→le, gt→leb, leb→gt, le→leb, ==_iff, subst, le→ltb, ne→==,
}
use cyancore.Libc.Time.{delay_loop, wait_for, udelay, mdelay}

abbrev pub reading : (ℕ → ℕ × ℕ) → ℕ → ℕ
reading clock n = (clock n).1

-- The reading at which the wait ends: the first one behind the deadline.
pub record IsFirst (clock : ℕ → ℕ × ℕ) (deadline from n : ℕ) : Type 0 where
  pub behind : deadline < reading clock n
  pub before : (j : ℕ) → from ≤ j → j < n → reading clock j ≤ deadline

-- With a round for each reading up to one behind the deadline the loop ends.
delay_loop-IsFirst :
    (clock : ℕ → ℕ × ℕ) (rounds deadline n : ℕ)
    → deadline < reading clock (n + rounds)
    → (r : ℕ) × (r ≤ n + rounds)
      × (delay_loop clock (suc rounds) deadline n ≡ some (clock r).0)
      × IsFirst clock deadline n r
unfolding delay_loop
delay_loop-IsFirst clock zero deadline n h =
    let far : deadline < reading clock n =
      subst (λ v. deadline < reading clock v) (right_zero n) h in
    (
      n,
      omega arith,
      rw (gt→leb (reading clock n) deadline far),
      record { behind = far; before = λ j a b. absurd (omega (arith, a, b)) },
    )
  where
    right_zero : (n : ℕ) → n + 0 ≡ n
    right_zero n = omega arith
delay_loop-IsFirst clock (suc rounds) deadline n h =
    elim (Bool-cases (leb (reading clock n) deadline)) [
      | inl wait ↦
          let le = leb→le (reading clock n) deadline wait in
          let (r, low, e, f) =
            delay_loop-IsFirst clock rounds deadline (suc n)
              (subst (λ v. deadline < reading clock v) (shift n rounds) h) in
          (
            r,
            omega (arith, low),
            rw wait e,
            record {
              behind = f.behind;
              before = λ j a b. elim (Bool-cases (j == n)) [
                | inl here ↦ subst (λ i. reading clock i ≤ deadline) (sym ((==_iff j n).0 here)) le
                | inr on ↦ f.before j (ground arith) b
              ];
            },
          )
      | inr over ↦ (
        n,
        omega arith,
        rw over,
        record {
          behind = leb→gt (reading clock n) deadline over;
          before = λ j a b. absurd (omega (arith, a, b));
        },
      )
    ]
  where
    shift : (n rounds : ℕ) → n + suc rounds ≡ suc n + rounds
    shift n rounds = omega arith

-- A clock that is higher after each `period` readings
risen :
    (clock : ℕ → ℕ × ℕ) (period k : ℕ)
    → ((j : ℕ) → reading clock j < reading clock (j + period))
    → k + reading clock 0 ≤ reading clock (k * period)
risen clock period zero up =
    subst (λ v. 0 + reading clock 0 ≤ reading clock v) (none_yet period) (omega arith)
  where
    none_yet : (period : ℕ) → 0 ≡ 0 * period
    none_yet period = omega arith
risen clock period (suc k) up =
    let step : reading clock (k * period) < reading clock (k * period + period) = up (k * period) in
    let more = subst (λ v. reading clock (k * period) < reading clock v) (one_more period k) step in
    omega (arith, more, risen clock period k up)
  where
    one_more : (period k : ℕ) → k * period + period ≡ suc k * period
    one_more period k = omega arith

-- Where the clock is higher after each `period` readings, however often it stands still between them, and the
-- sum with the first reading does not overflow, udelay of 1 to 2000 microseconds ends within `period`
-- rounds for each microsecond and one microsecond more, with the status of the first reading that is behind
-- the first one by more than the delay.
pub udelay-IsFirst :
    (clock : ℕ → ℕ × ℕ) (d period : ℕ)
    → 0 < d
    → d ≤ 2000
    → 0 < period
    → d + reading clock 0 < 2 ^ 64
    → ((j : ℕ) → reading clock j < reading clock (j + period))
    → (r : ℕ) × (r ≤ suc d * period)
      × (udelay clock (suc d * period) d ≡ some (clock r).0)
      × IsFirst clock (d + reading clock 0) 1 r
unfolding udelay wait_for
udelay-IsFirst clock d period pos_ le some_ fits up =
    let sum : (d + reading clock 0) % 2 ^ 64 ≡ d + reading clock 0 = omega (arith, fits) in
    let far = risen clock period (suc d) up in
    rw (le→ltb 2000 d le, ne→== d 0 (λ e. omega (arith, e, pos_)), sum)
      (last (suc d * period) (positive d period some_) (omega (arith, far)))
  where
    add_comm : (n : ℕ) → 1 + n ≡ suc n
    add_comm n = omega arith

    positive : (d period : ℕ) → 0 < period → 0 < suc d * period
    positive d period h = omega (arith, h)

    last :
        (n : ℕ)
        → 0 < n
        → d + reading clock 0 < reading clock n
        → (r : ℕ) × (r ≤ n)
          × (delay_loop clock n (d + reading clock 0) 1 ≡ some (clock r).0)
          × IsFirst clock (d + reading clock 0) 1 r
    last zero h far = absurd (omega (arith, h))
    last (suc n) h far =
        subst
          (λ v.
            (r : ℕ) × (r ≤ v)
            × (delay_loop clock (suc n) (d + reading clock 0) 1 ≡ some (clock r).0)
            × IsFirst clock (d + reading clock 0) 1 r)
          (add_comm n)
          (delay_loop-IsFirst clock n (d + reading clock 0) 1
            (subst (λ v. d + reading clock 0 < reading clock v) (sym (add_comm n)) far))

delay_loop-never :
    (clock : ℕ → ℕ × ℕ) (rounds delay n : ℕ)
    → ((j : ℕ) → reading clock j ≡ 0)
    → delay_loop clock rounds delay n ≡ none
unfolding delay_loop
delay_loop-never clock zero delay n stuck = refl
delay_loop-never clock (suc rounds) delay n stuck =
    rw (le→leb (reading clock n) delay (omega (arith, stuck n)))
      (delay_loop-never clock rounds delay (suc n) stuck)

-- Where every reading of the clock is zero, as it is while no clock is attached, neither udelay of up to
-- 2000 microseconds nor mdelay of up to 10000 milliseconds ends, whatever rounds the loop is given.
pub delays-never :
    (clock : ℕ → ℕ × ℕ) (rounds d e : ℕ)
    → d ≤ 2000
    → e ≤ 10000
    → ((j : ℕ) → reading clock j ≡ 0)
    → (udelay clock rounds d ≡ none) × (mdelay clock rounds e ≡ none)
unfolding udelay mdelay wait_for
delays-never clock rounds d e h i stuck = (
  rw (le→ltb 2000 d h) (delay_loop-never clock rounds _ 1 stuck),
  rw (le→ltb 10000 e i) (delay_loop-never clock rounds _ 1 stuck),
)
