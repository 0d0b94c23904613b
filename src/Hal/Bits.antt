-- ===== src/Hal/Bits.antt =====
-- How the operations on bytes act on each bit: tables over all bytes and all bits, checked by evaluation.
use cyancore.Common.{
  ℕ, zero, suc, ◌^◌, ◌<◌, ◌≡◌, refl, Bool, true, false, not, ltb, ltb→lt, ◌==◌, ==_iff,
  if◌then◌else◌, arith,
}
use cyancore.Hal.{or_byte, clear_byte, xor_byte, test_bit}

unfoldable pub all_below : ℕ → (ℕ → Bool) → Bool
all_below zero p = true
all_below (suc n) p = if p n then all_below n p else false

pub all_below_sound : (n : ℕ) (p : ℕ → Bool) → all_below n p ≡ true → (i : ℕ) → i < n → p i ≡ true
unfolding all_below
all_below_sound zero p e i h = absurd (omega arith)
all_below_sound (suc n) p e i h = ground (arith, all_below_sound n p (ground arith) i)

-- Two functions that agree on the table agree below its bounds.
pub equal_below :
    (n k : ℕ) (f g : ℕ → ℕ → ℕ)
    → all_below n (λ a. all_below k (λ b. f a b == g a b)) ≡ true
    → (a b : ℕ) → a < n
    → b < k
    → f a b ≡ g a b
equal_below n k f g e a b ha hb = (==_iff (f a b) (g a b)).0 (
    all_below_sound k (λ c. f a c == g a c)
      (all_below_sound n (λ d. all_below k (λ c. f d c == g d c)) e a ha) b hb)

unfoldable pub same : Bool → Bool → Bool
same true b = b
same false b = not b

pub same_sound : (a b : Bool) → same a b ≡ true → a ≡ b
unfolding same
same_sound true true e = refl
same_sound true false e = absurd (ground (arith, e))
same_sound false true e = absurd (ground (arith, e))
same_sound false false e = refl

-- Two tests that agree on the table of all bytes agree on a byte.
pub agree :
    (f g : ℕ → Bool) → all_below 256 (λ b. same (f b) (g b)) ≡ true → (b : ℕ) → b < 256 → f b ≡ g b
agree f g e b h = same_sound (f b) (g b) (all_below_sound 256 (λ c. same (f c) (g c)) e b h)

-- Two tests of a byte, a first and a second bit that agree on the table agree.
table :
    (f g : ℕ → ℕ → ℕ → Bool)
    → all_below 256 (λ b. all_below 8 (λ k. all_below 8 (λ j. same (f b k j) (g b k j)))) ≡ true
    → (b k j : ℕ) → b < 256
    → k < 8
    → j < 8
    → f b k j ≡ g b k j
table f g e b k j hb hk hj =
    same_sound (f b k j) (g b k j)
      (all_below_sound 8 _ (all_below_sound 8 _ (all_below_sound 256 _ e b hb) k hk) j hj)

pub test_bit-or_byte :
    (b k j : ℕ)
    → b < 256
    → k < 8
    → j < 8
    → test_bit (or_byte b (2 ^ k)) j ≡ (if j == k then true else test_bit b j)
unfolding all_below same test_bit
test_bit-or_byte =
    table (λ b k j. test_bit (or_byte b (2 ^ k)) j) (λ b k j. if j == k then true else test_bit b j)
      refl

pub test_bit-clear_byte :
    (b k j : ℕ)
    → b < 256
    → k < 8
    → j < 8
    → test_bit (clear_byte b (2 ^ k)) j ≡ (if j == k then false else test_bit b j)
unfolding all_below same test_bit
test_bit-clear_byte =
    table (λ b k j. test_bit (clear_byte b (2 ^ k)) j)
      (λ b k j. if j == k then false else test_bit b j) refl

pub test_bit-xor_byte :
    (b k j : ℕ)
    → b < 256
    → k < 8
    → j < 8
    → test_bit (xor_byte b (2 ^ k)) j ≡ (if j == k then not (test_bit b k) else test_bit b j)
unfolding all_below same test_bit
test_bit-xor_byte =
    table (λ b k j. test_bit (xor_byte b (2 ^ k)) j)
      (λ b k j. if j == k then not (test_bit b k) else test_bit b j) refl

-- A bit that is flipped twice is back.
pub xor_byte-xor_byte : (b k : ℕ) → b < 256 → k < 8 → xor_byte (xor_byte b (2 ^ k)) (2 ^ k) ≡ b
unfolding all_below
xor_byte-xor_byte b k hb hk =
    equal_below 256 8 (λ c j. xor_byte (xor_byte c (2 ^ j)) (2 ^ j)) (λ c j. c) refl b k hb hk

-- What is stored is a byte.
pub clear_byte_bound : (b k : ℕ) → b < 256 → k < 8 → clear_byte b (2 ^ k) < 256
unfolding all_below
clear_byte_bound b k hb hk = ltb→lt _ _ (
    all_below_sound 8 (λ j. ltb (clear_byte b (2 ^ j)) 256)
      (all_below_sound 256 (λ c. all_below 8 (λ j. ltb (clear_byte c (2 ^ j)) 256)) refl b hb) k hk)

pub test_bit_zero : (k : ℕ) → k < 8 → test_bit 0 k ≡ false
unfolding all_below same test_bit
test_bit_zero k h =
    table (λ b k j. test_bit 0 k) (λ b k j. false) refl 0 k 0 (omega arith) h (omega arith)

pub test_bit_ones : (k : ℕ) → k < 8 → test_bit 255 k ≡ true
unfolding all_below same test_bit
test_bit_ones k h =
    table (λ b k j. test_bit 255 k) (λ b k j. true) refl 0 k 0 (omega arith) h (omega arith)

pub or_byte_bound : (b m : ℕ) → or_byte b m < 256
or_byte_bound b m = omega arith
