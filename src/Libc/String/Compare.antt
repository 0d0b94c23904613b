-- ===== src/Libc/String/Compare.antt =====
-- What memcmp finds.
use cyancore.Common.{
  ℕ, zero, suc, ◌+◌, ◌<◌, ◌≡◌, ◌≢◌, sym, ap, ◌∙◌, inl, inr, true, false, arith, ◌==◌, ==_iff,
  Bool-cases,
}
use cyancore.Common.Int.{ℤ, pos, ltb_ℤ, ◌-ℤ◌}
use cyancore.Libc.String.{Memory, memcmp}

-- The regions of `n` bytes agree up to `k`, where the first is the lower one.
pub record IsBelow (i j n : ℕ) (m : Memory) : Type 0 where
  pub place : ℕ
  pub in_range : place < n
  pub same : (t : ℕ) → t < place → m (i + t) ≡ m (j + t)
  pub lower : m (i + place) < m (j + place)

suc_lt : {a b : ℕ} → a < b → suc a < suc b
suc_lt h = omega arith

same-suc :
    (i j k : ℕ) (m : Memory)
    → m i ≡ m j
    → ((t : ℕ) → t < k → m (i + 1 + t) ≡ m (j + 1 + t))
    → (t : ℕ) → t < suc k
    → m (i + t) ≡ m (j + t)
same-suc i j k m e h zero b =
    let ei : i + 0 ≡ i = omega arith in let ej : j ≡ j + 0 = omega arith in ap m ei ∙ e ∙ ap m ej
same-suc i j k m e h (suc t) b =
    let ei : i + suc t ≡ i + 1 + t = omega arith in
    let ej : j + 1 + t ≡ j + suc t = omega arith in ap m ei ∙ h t (omega arith) ∙ ap m ej

IsBelow-suc :
    (i j n : ℕ) (m : Memory) → m i ≡ m j → IsBelow (i + 1) (j + 1) n m → IsBelow i j (suc n) m
IsBelow-suc i j n m e h = record {
  place = suc h.place;
  in_range = suc_lt h.in_range;
  same = same-suc i j h.place m e h.same;
  lower =
      let ei : i + suc h.place ≡ i + 1 + h.place = omega arith in
      let ej : j + suc h.place ≡ j + 1 + h.place = omega arith in rw (ei, ej) h.lower;
}

IsBelow-zero : (i j n : ℕ) (m : Memory) → m i < m j → IsBelow i j (suc n) m
IsBelow-zero i j n m h = record {
  place = 0;
  in_range = omega arith;
  same = λ t b. elim b [ ];
  lower = let ei : i + 0 ≡ i = omega arith in let ej : j + 0 ≡ j = omega arith in rw (ei, ej) h;
}

-- What the sign of memcmp says.
pub record IsCompared (i j n : ℕ) (m : Memory) (ret : ℤ) : Type 0 where
  pub zero_same : ret ≡ pos 0 → (t : ℕ) → t < n → m (i + t) ≡ m (j + t)
  pub negative_below : ltb_ℤ ret (pos 0) ≡ true → IsBelow i j n m
  pub positive_above : ltb_ℤ (pos 0) ret ≡ true → IsBelow j i n m

IsCompared-suc :
    (i j n : ℕ) (m : Memory) (ret : ℤ)
    → m i ≡ m j
    → IsCompared (i + 1) (j + 1) n m ret
    → IsCompared i j (suc n) m ret
IsCompared-suc i j n m ret e h = record {
  zero_same = λ z. same-suc i j n m e (h.zero_same z);
  negative_below = λ s. IsBelow-suc i j n m e (h.negative_below s);
  positive_above = λ s. IsBelow-suc j i n m (sym e) (h.positive_above s);
}

-- The sign of the difference of two bytes.
zero_diff : (a b : ℕ) → pos a -ℤ pos b ≡ pos 0 → a ≡ b
unfolding ◌-ℤ◌
zero_diff a b h = ground arith

negative_diff : (a b : ℕ) → ltb_ℤ (pos a -ℤ pos b) (pos 0) ≡ true → a < b
unfolding ◌-ℤ◌
negative_diff a b h = ground arith

positive_diff : (a b : ℕ) → ltb_ℤ (pos 0) (pos a -ℤ pos b) ≡ true → b < a
unfolding ◌-ℤ◌
positive_diff a b h = ground arith

==→ne : (a b : ℕ) → (a == b) ≡ false → a ≢ b
==→ne a b h = ground arith

-- memcmp returns zero only for equal regions. A result below zero means that at the first byte
-- where the regions differ the first one is lower, a result above zero that it is higher.
pub memcmp-IsCompared : (i j n : ℕ) (m : Memory) → IsCompared i j n m (memcmp i j n m)
unfolding memcmp
memcmp-IsCompared i j zero m = record {
  zero_same = λ z t b. elim b [ ];
  negative_below = λ s. cc;
  positive_above = λ s. cc;
}
memcmp-IsCompared i j (suc n) m = elim (Bool-cases (m i == m j)) [
  | inl e ↦ rw e (
      IsCompared-suc i j n m (memcmp (i + 1) (j + 1) n m) ((==_iff (m i) (m j)).0 e)
        (memcmp-IsCompared (i + 1) (j + 1) n m))
  | inr ne ↦ rw ne record {
    zero_same = λ z. absurd (==→ne (m i) (m j) ne (zero_diff (m i) (m j) z));
    negative_below = λ s. IsBelow-zero i j n m (negative_diff (m i) (m j) s);
    positive_above = λ s. IsBelow-zero j i n m (positive_diff (m i) (m j) s);
  }
]
