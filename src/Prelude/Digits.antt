-- ===== src/Prelude/Digits.antt =====
-- The binary digits of a number, and those of the masks that set, clear and test one.
use Prim.Native.Nat.{ℕ, zero, suc, ◌-◌, ◌*◌, ◌/◌, ◌%◌, ◌^◌, ◌<◌, min, max, bit_and, bit_or}
use mathlib.Core.Path.{◌≡◌, refl, ◌∙◌}
use native.Mathlib.Omega.{arith}
use native.Mathlib.Nat.{pow-suc, mul_assoc}
use bulla.Prelude.Tests.{◌==◌, if◌then◌else◌}
use bulla.Prelude.Powers.{pow-pos, pow-le, low_mask}
use bulla.Prelude.Bits.{bit_and-halves}
use bulla.Prelude.Joins.{bit_or-halves}

unfoldable pub digit : ℕ → ℕ → ℕ
digit w zero = w % 2
digit w (suc k) = digit (w / 2) k

pub digit-bound : (w k : ℕ) → digit w k < 2
unfolding digit
digit-bound w zero = omega arith
digit-bound w (suc k) = digit-bound (w / 2) k

-- Testing one digit.
pub digit-test : (w k : ℕ) → bit_and w (2 ^ k) ≡ digit w k * 2 ^ k
unfolding digit
digit-test w zero = low_mask 1 w ∙ omega arith
digit-test w (suc k) =
    let half : 2 ^ suc k / 2 ≡ 2 ^ k = omega (arith, pow-suc 2 k) in
    let even : 2 ^ suc k % 2 ≡ 0 = omega (arith, pow-suc 2 k) in
    bit_and-halves w (2 ^ suc k)
    ∙ rw (half, even, digit-test (w / 2) k, pow-suc 2 k)
        (omega (arith, mul_assoc (digit (w / 2) k) (2 ^ k) 2))

pub digit-bit_or : (a b k : ℕ) → digit (bit_or a b) k ≡ max (digit a k) (digit b k)
unfolding digit
digit-bit_or a b zero = omega (arith, bit_or-halves a b)
digit-bit_or a b (suc k) =
    let half : bit_or a b / 2 ≡ bit_or (a / 2) (b / 2) = omega (arith, bit_or-halves a b) in
    rw half (digit-bit_or (a / 2) (b / 2) k)

pub digit-bit_and : (a b k : ℕ) → digit (bit_and a b) k ≡ min (digit a k) (digit b k)
unfolding digit
digit-bit_and a b zero = omega (arith, bit_and-halves a b)
digit-bit_and a b (suc k) =
    let half : bit_and a b / 2 ≡ bit_and (a / 2) (b / 2) = omega (arith, bit_and-halves a b) in
    rw half (digit-bit_and (a / 2) (b / 2) k)

digit-zero : (k : ℕ) → digit 0 k ≡ 0
unfolding digit
digit-zero zero = refl
digit-zero (suc k) = digit-zero k

pub digit-pow : (i k : ℕ) → digit (2 ^ i) k ≡ (if i == k then 1 else 0)
unfolding digit
digit-pow zero zero = refl
digit-pow zero (suc k) = digit-zero k ∙ ground arith
digit-pow (suc i) zero = ground (arith, pow-suc 2 i)
digit-pow (suc i) (suc k) =
    let half : 2 ^ suc i / 2 ≡ 2 ^ i = omega (arith, pow-suc 2 i) in
    rw half (digit-pow i k ∙ ground arith)

digit-ones : (n k : ℕ) → k < n → digit (2 ^ n - 1) k ≡ 1
unfolding digit
digit-ones zero k h = absurd (omega arith)
digit-ones (suc n) zero h = omega (arith, pow-suc 2 n, pow-pos n)
digit-ones (suc n) (suc k) h =
    let half : (2 ^ suc n - 1) / 2 ≡ 2 ^ n - 1 = omega (arith, pow-suc 2 n, pow-pos n) in
    rw half (digit-ones n k (omega arith))

-- All ones but one.
pub digit-hole :
    (n i k : ℕ) → i < n → k < n → digit (2 ^ n - 1 - 2 ^ i) k ≡ (if i == k then 0 else 1)
unfolding digit
digit-hole zero i k p q = absurd (omega arith)
digit-hole (suc n) zero zero p q = omega (arith, pow-suc 2 n, pow-pos n)
digit-hole (suc n) zero (suc k) p q =
    let half : (2 ^ suc n - 1 - 2 ^ 0) / 2 ≡ 2 ^ n - 1 = omega (arith, pow-suc 2 n, pow-pos n) in
    rw half (digit-ones n k (omega arith) ∙ ground arith)
digit-hole (suc n) (suc i) zero p q =
    ground (arith, pow-suc 2 n, pow-suc 2 i, pow-le (suc i) n (omega arith), pow-pos i)
digit-hole (suc n) (suc i) (suc k) p q =
    let half : (2 ^ suc n - 1 - 2 ^ suc i) / 2 ≡ 2 ^ n - 1 - 2 ^ i =
      omega (arith, pow-suc 2 n, pow-suc 2 i, pow-le (suc i) n (omega arith), pow-pos i) in
    rw half (digit-hole n i k (omega arith) (omega arith) ∙ ground arith)
