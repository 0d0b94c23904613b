-- ===== src/Driver/Console/Dump.antt =====
-- What `logger_dprint` prints of the log in memory.
use cyancore.Common.{
  ℕ, zero, suc, ◌+◌, ◌≤◌, ◌<◌, ◌≡◌, ◌≢◌, refl, sym, ap, ap₂, subst, ◌∙◌, true, Option, none, some,
  List, [], ◌∷◌, ◌++◌, length, arith, ◌==◌, if◌then◌else◌, ne→==, ==_refl,
}
use cyancore.Status.{success, error_generic}
use cyancore.Driver.Console.{
  Membuf, backspace, membuf_writeb, membuf_read, dprint_loop, logger_dprint,
}

-- The `n` bytes from `i` on
abbrev pub slice : (ℕ → ℕ) → ℕ → ℕ → List ℕ
slice f i zero = []
slice f i (suc n) = f i ∷ slice f (suc i) n

slice-append : (f : ℕ → ℕ) (i a b : ℕ) → slice f i (a + b) ≡ slice f i a ++ slice f (i + a) b
slice-append f i zero b =
    let e : 0 + b ≡ b = omega arith in let d : i + 0 ≡ i = omega arith in rw (e, d) refl
slice-append f i (suc a) b =
    let e : suc a + b ≡ suc (a + b) = omega arith in
    let d : i + suc a ≡ suc i + a = omega arith in
    rw (e, d) (ap (λ xs. f i ∷ xs) (slice-append f (suc i) a b))

-- Writing one character after the other
abbrev pub log_all : ℕ → List ℕ → Membuf → Membuf
log_all size [] m = m
log_all size (c ∷ cs) m = log_all size cs (membuf_writeb size c m).1

abbrev pub NoBackspace : List ℕ → Type 0
NoBackspace [] = Unit
NoBackspace (c ∷ cs) = (c ≢ backspace) × NoBackspace cs

-- The characters `cs` stand from `p` on, and the other bytes are as they were.
record IsLogged (cs : List ℕ) (p : ℕ) (m m' : Membuf) : Type 0 where
  bytes : slice m'.membuf p (length cs) ≡ cs
  below : (i : ℕ) → i < p → m'.membuf i ≡ m.membuf i
  above : (i : ℕ) → p + length cs ≤ i → m'.membuf i ≡ m.membuf i
  pread : m'.pread ≡ m.pread

abbrev put : ℕ → Membuf → Membuf
put c m = record m {
  membuf = λ i. if i == m.pointer then c else m.membuf i;
  pointer = m.pointer + 1;
}

membuf_writeb-put :
    (size c : ℕ) (m : Membuf)
    → c ≢ backspace
    → m.pointer < size
    → membuf_writeb size c m ≡ (success, put c m)
unfolding membuf_writeb
membuf_writeb-put size c m ne h =
    rw (ne→== c backspace ne, ne→== m.pointer size (λ e. omega (arith, e, h)))

log_all-IsLogged :
    (size : ℕ) (cs : List ℕ) (m : Membuf)
    → m.pointer + length cs ≤ size
    → NoBackspace cs
    → IsLogged cs m.pointer m (log_all size cs m)
log_all-IsLogged size [] m h n = record {
  bytes = refl;
  below = λ i l. refl;
  above = λ i l. refl;
  pread = refl;
}
log_all-IsLogged size (c ∷ cs) m h n =
    let t = log_all-IsLogged size cs (put c m) (omega (arith, h)) n.1 in
    subst (λ r. IsLogged (c ∷ cs) m.pointer m (log_all size cs r.1))
      (sym (membuf_writeb-put size c m n.0 (omega (arith, h))))
      (record {
        bytes = ap₂ ◌∷◌ (t.below m.pointer (omega arith) ∙ rw (==_refl m.pointer)) (
            ap (λ j. slice (log_all size cs (put c m)).membuf j (length cs)) (omega arith)
            ∙ t.bytes);
        below =
            λ i l. t.below i (omega (arith, l)) ∙ rw (ne→== i m.pointer (λ e. omega (arith, e, l)));
        above =
            λ i l. t.above i (omega (arith, l)) ∙ rw (ne→== i m.pointer (λ e. omega (arith, e, l)));
        pread = t.pread;
      })

read_last :
    (size : ℕ) (m : Membuf)
    → m.pread + 1 ≡ size
    → membuf_read size m ≡ (success, m.membuf m.pread, record m { pread = 0 })
unfolding membuf_read
read_last size m e = rw (e, ==_refl size)

read_on :
    (size : ℕ) (m : Membuf)
    → m.pread + 1 ≢ size
    → membuf_read size m ≡ (error_generic, m.membuf m.pread, record m { pread = m.pread + 1 })
unfolding membuf_read
read_on size m e = rw (ne→== (m.pread + 1) size e)

dprint_loop-on :
    (size n c : ℕ) (m m' : Membuf)
    → membuf_read size m ≡ (error_generic, c, m')
    → dprint_loop (membuf_read size) (suc n) m
      ≡ elim (dprint_loop (membuf_read size) n m') [ none ↦ none | some (cs, t) ↦ some (c ∷ cs, t) ]
unfolding dprint_loop
dprint_loop-on size n c m m' e =
    subst
      (λ (r : ℕ × ℕ × Membuf).
        if◌then◌else◌ {A = Option (List ℕ × Membuf)} (r.0 == 0) (some (r.1 ∷ [], r.2))
          (elim (dprint_loop (membuf_read size) n r.2) [
            | none ↦ none
            | some (cs, t) ↦ some (r.1 ∷ cs, t)
          ])
        ≡ elim (dprint_loop (membuf_read size) n m') [
          | none ↦ none
          | some (cs, t) ↦ some (c ∷ cs, t)
        ])
      (sym e) refl

dprint_loop-last :
    (size : ℕ) (m : Membuf)
    → m.pread + 1 ≡ size
    → dprint_loop (membuf_read size) 1 m ≡ some (m.membuf m.pread ∷ [], record m { pread = 0 })
unfolding dprint_loop
dprint_loop-last size m e = rw (read_last size m e)

dprint_loop-slice :
    (size n : ℕ) (m : Membuf)
    → m.pread + suc n ≡ size
    → dprint_loop (membuf_read size) (suc n) m
      ≡ some (slice m.membuf m.pread (suc n), record m { pread = 0 })
dprint_loop-slice size zero m e = dprint_loop-last size m e
dprint_loop-slice size (suc n) m e =
    let m₁ = record m { pread = m.pread + 1 } in
    let d : m.pread + 1 ≡ suc m.pread = omega arith in
    rw (
      dprint_loop-on size (suc n) (m.membuf m.pread) m m₁
          (read_on size m (λ z. omega (arith, z, e))),
      dprint_loop-slice size n m₁ (omega (arith, e)),
      d,
    )

slice-same : (f g : ℕ → ℕ) (i n : ℕ) → ((j : ℕ) → i ≤ j → f j ≡ g j) → slice f i n ≡ slice g i n
slice-same f g i zero h = refl
slice-same f g i (suc n) h =
    ap₂ ◌∷◌ (h i (omega arith)) (slice-same f g (suc i) n (λ j l. h j (omega (arith, l))))

logger_dprint-slice :
    (size : ℕ) (m : Membuf)
    → 0 < size
    → m.pread ≡ 0
    → logger_dprint (membuf_read size) size true true m
      ≡ some (success, slice m.membuf 0 size, record m { pread = 0 })
unfolding logger_dprint
logger_dprint-slice zero m h e = absurd (omega (arith, h))
logger_dprint-slice (suc n) m h e = rw (dprint_loop-slice (suc n) n m (omega (arith, e)), e)

log_all-slice :
    (rest : ℕ) (cs : List ℕ) (m : Membuf)
    → m.pointer ≡ 0
    → NoBackspace cs
    → slice (log_all (length cs + rest) cs m).membuf 0 (length cs + rest)
      ≡ cs ++ slice m.membuf (length cs) rest
log_all-slice rest cs m start n =
    let m' = log_all (length cs + rest) cs m in
    let t = log_all-IsLogged (length cs + rest) cs m (omega (arith, start)) n in
    let d : 0 + length cs ≡ length cs = omega arith in
    slice-append m'.membuf 0 (length cs) rest
    ∙ ap₂ ◌++◌ (subst (λ j. slice m'.membuf j (length cs) ≡ cs) start t.bytes) (
        ap (λ j. slice m'.membuf j rest) d
        ∙ slice-same m'.membuf m.membuf (length cs) rest
            (λ j l. t.above j (omega (arith, l, start))))

-- Where at least one character, and none that is a backspace, is logged from the start of a buffer
-- that has room for them, of which nothing was read, logger_dprint prints the characters, and then
-- the rest of the buffer as it was, in as many rounds as the buffer has bytes, and the reading
-- starts over.
pub logger_dprint-log_all :
    (rest : ℕ) (cs : List ℕ) (m : Membuf)
    → m.pointer ≡ 0
    → m.pread ≡ 0
    → 0 < length cs
    → NoBackspace cs
    → logger_dprint
        (membuf_read (length cs + rest))
        (length cs + rest)
        true
        true
        (log_all (length cs + rest) cs m)
      ≡ some (
        success,
        cs ++ slice m.membuf (length cs) rest,
        record (log_all (length cs + rest) cs m) { pread = 0 },
      )
logger_dprint-log_all rest cs m start unread some_ n =
    let size = length cs + rest in
    let m' = log_all size cs m in
    let t = log_all-IsLogged size cs m (omega (arith, start)) n in
    logger_dprint-slice size m' (omega (arith, some_)) (t.pread ∙ unread)
    ∙ ap (λ xs. some (success, xs, record m' { pread = 0 })) (log_all-slice rest cs m start n)
