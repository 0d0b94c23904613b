-- ===== src/Bakery.antt =====
-- The bakery lock, src/lib/liblocks/bakerylock.c: what the cores do, one access to the shared arrays
-- at a time. The barriers make the memory sequentially consistent.
pub mod Invariant
pub mod Moves
pub mod Exclusion
use cyancore.Common.{
  ℕ, zero, suc, ◌+◌, ◌%◌, ◌^◌, ◌≤◌, ◌<◌, ◌≡◌, ◌≢◌, ◌⊎◌, Bool, true, false, ltb, ◌==◌, if◌then◌else◌,
}

-- `bakerylock_t`
pub record Lock : Type 0 where
  pub thread_count : ℕ → ℕ  -- uint8_t
  pub protect : ℕ → Bool

abbrev pub update {ℓ} : {A : Type ℓ} → (ℕ → A) → ℕ → A → ℕ → A
update f i v j = if j == i then v else f j

abbrev pub max_of : ℕ → ℕ → ℕ
max_of a b = if ltb b a then a else b

-- Where a core stands, with the local variables that are live there.
pub data Pc : Type 0 where
  idle : Pc
  scan : (i n_max : ℕ) → Pc  -- the loop over the tickets
  drop : Pc  -- before `protect` is cleared
  wait_protect : (i : ℕ) → Pc  -- `while(key->protect[i])`
  read_zero : (i : ℕ) → Pc  -- the three reads of the second wait
  read_less : (i : ℕ) → Pc
  read_equal : (i : ℕ) → Pc
  critical : Pc

-- One access of the core `tid`, of `n` cores.
pub data Move (n tid : ℕ) (l : Lock) : Pc → Lock → Pc → Type 0 where
  announce : Move n tid l idle (record l { protect = update l.protect tid true }) (scan 0 0)
  look : {i m : ℕ} → i < n → Move n tid l (scan i m) l (scan (suc i) (max_of (l.thread_count i) m))
  publish :
      {i m : ℕ}
      → i ≡ n
      → Move n tid l
          (scan i m)
          (record l { thread_count = update l.thread_count tid ((m + 1) % 2 ^ 8) })
          drop
  unprotect : Move n tid l drop (record l { protect = update l.protect tid false }) (wait_protect 0)
  shut : {i : ℕ} → i < n → l.protect i ≡ true → Move n tid l (wait_protect i) l (wait_protect i)
  clear : {i : ℕ} → i < n → l.protect i ≡ false → Move n tid l (wait_protect i) l (read_zero i)
  gone : {i : ℕ} → l.thread_count i ≡ 0 → Move n tid l (read_zero i) l (wait_protect (suc i))
  there : {i : ℕ} → l.thread_count i ≢ 0 → Move n tid l (read_zero i) l (read_less i)
  less :
      {i : ℕ} → l.thread_count i < l.thread_count tid → Move n tid l (read_less i) l (read_zero i)
  not_less :
      {i : ℕ} → l.thread_count tid ≤ l.thread_count i → Move n tid l (read_less i) l (read_equal i)
  ahead :
      {i : ℕ}
      → l.thread_count i ≡ l.thread_count tid
      → i < tid
      → Move n tid l (read_equal i) l (read_zero i)
  behind :
      {i : ℕ}
      → (l.thread_count i ≢ l.thread_count tid) ⊎ (tid ≤ i)
      → Move n tid l (read_equal i) l (wait_protect (suc i))
  enter : {i : ℕ} → i ≡ n → Move n tid l (wait_protect i) l critical
  release : Move n tid l critical (record l { thread_count = update l.thread_count tid 0 }) idle

pub record System : Type 0 where
  pub lock : Lock
  pub pc : ℕ → Pc

abbrev pub initial : System
initial = record { lock = record { thread_count = λ i. 0; protect = λ i. false }; pc = λ i. idle }

-- No core holds the last ticket, 255, behind which the numbers wrap.
abbrev pub HasRoom : Lock → Type 0
HasRoom l = (i : ℕ) → l.thread_count i < 255

-- What `n` cores can reach, in any interleaving, while the tickets last.
pub data Reach (n : ℕ) : Lock → (ℕ → Pc) → Type 0 where
  start : Reach n initial.lock initial.pc
  next :
      {l l' : Lock} {pc : ℕ → Pc} {p' : Pc} (tid : ℕ)
      → Reach n l pc
      → tid < n
      → HasRoom l
      → Move n tid l (pc tid) l' p'
      → Reach n l' (update pc tid p')
