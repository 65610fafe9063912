-- ===== src/Prelude/Powers.antt =====
-- Powers of two: the test for one, and the mask that rounds down to a multiple of one.
use Prim.Native.Nat.{ℕ, zero, suc, ◌+◌, ◌-◌, ◌*◌, ◌/◌, ◌%◌, ◌^◌, ◌≤◌, ◌<◌, bit_and}
use mathlib.Core.Path.{◌≡◌, refl, sym, ap, ◌∙◌}
use mathlib.Core.Logic.{inl, inr}
use mathlib.Core.Bool.{true}
use native.Mathlib.Omega.{arith}
use native.Mathlib.Nat.{
  zero-add, suc-add, pow-suc, pow-succ', div-div-eq-div-mul, div-add-mod', mul_assoc,
  mul-add-mod_self_right, mod-eq_of_lt, mod-lt, mod-one,
}
use bulla.Prelude.Tests.{leb, leb→le, ◌==◌, Bool-cases}
use bulla.Prelude.Words.{is_power_of_two}
use bulla.Prelude.Bits.{bit_and-halves, bit_and_self, bit_and_comm, bit_and-zero_left}

exponent_below : (b n : ℕ) → n ≤ b → 0 < n → bit_and n (n - 1) ≡ 0 → (k : ℕ) × (n ≡ 2 ^ k)
exponent_below zero n h pos e = absurd (omega arith)
exponent_below (suc b) n h pos e = elim (Bool-cases (n % 2 == 0)) [
  | inl even ↦
      let half_pred : (n - 1) / 2 ≡ n / 2 - 1 = ground arith in
      let clear : bit_and (n / 2) (n / 2 - 1) ≡ 0 =
        rw (← half_pred) (omega (arith, bit_and-halves n (n - 1))) in
      let (k, p) = exponent_below b (n / 2) (omega arith) (ground arith) clear in
      (suc k, ground (arith, pow-suc 2 k))
  | inr odd ↦
      let same : (n - 1) / 2 ≡ n / 2 = ground arith in
      (0, ground (arith, bit_and-halves n (n - 1), ap (bit_and (n / 2)) same, bit_and_self (n / 2)))
]

pub exponent : (n : ℕ) → is_power_of_two n ≡ true → (k : ℕ) × (n ≡ 2 ^ k)
exponent n h = exponent_below n n (omega arith) (ground arith) (ground arith)

pub pow-pos : (k : ℕ) → 0 < 2 ^ k
pow-pos zero = omega arith
pow-pos (suc k) = omega (arith, pow-suc 2 k, pow-pos k)

pub pow-le : (k w : ℕ) → k ≤ w → 2 ^ k ≤ 2 ^ w
pow-le zero w h = pow-pos w
pow-le (suc k) zero h = absurd (omega arith)
pow-le (suc k) (suc w) h = omega (arith, pow-suc 2 k, pow-suc 2 w, pow-le k w (omega arith))

-- All ones in `w` bits.
mask_all : (w x : ℕ) → x < 2 ^ w → bit_and x (2 ^ w - 1) ≡ x
mask_all zero zero h = refl
mask_all zero (suc x) h = absurd (omega arith)
mask_all (suc w) x h =
    let half : (2 ^ suc w - 1) / 2 ≡ 2 ^ w - 1 = omega (arith, pow-suc 2 w, pow-pos w) in
    let ih = mask_all w (x / 2) (omega (arith, pow-suc 2 w)) in
    bit_and-halves x (2 ^ suc w - 1) ∙ rw half (omega (arith, pow-suc 2 w, pow-pos w))

-- The mask rounds down to a multiple of 2ᵏ.
pub mask_lem : (k w x : ℕ) → k ≤ w → x < 2 ^ w → bit_and x (2 ^ w - 2 ^ k) ≡ x / 2 ^ k * 2 ^ k
mask_lem zero w x h lt = mask_all w x lt ∙ omega arith
mask_lem (suc k) zero x h lt = absurd (omega arith)
mask_lem (suc k) (suc w) x h lt =
    let half : (2 ^ suc w - 2 ^ suc k) / 2 ≡ 2 ^ w - 2 ^ k =
      omega (arith, pow-suc 2 w, pow-suc 2 k) in
    let ih = mask_lem k w (x / 2) (omega arith) (omega (arith, pow-suc 2 w)) in
    let even : (2 ^ suc w - 2 ^ suc k) % 2 ≡ 0 = omega (arith, pow-suc 2 w, pow-suc 2 k) in
    let quotient : x / 2 / 2 ^ k ≡ x / 2 ^ suc k =
      div-div-eq-div-mul x 2 (2 ^ k) ∙ ap (λ d. x / d) (sym (pow-succ' 2 k)) in
    bit_and-halves x (2 ^ suc w - 2 ^ suc k)
    ∙ rw (half, ih, even, quotient, pow-suc 2 k) (omega arith)

pub pow-add : (n k : ℕ) → 2 ^ (n + k) ≡ 2 ^ n * 2 ^ k
pow-add zero k = rw zero-add (omega arith)
pow-add (suc n) k = rw (suc-add, pow-suc 2 n, pow-suc 2 (n + k), pow-add n k) (omega arith)

-- A power of two that fits `w` bits has at most `w` as its exponent.
pub exponent_le : (k w : ℕ) → 2 ^ k < 2 ^ w → k ≤ w
exponent_le k w h = elim (Bool-cases (leb k w)) [
  | inl le ↦ leb→le k w le
  | inr gt ↦ absurd (omega (arith, pow-le w k (ground arith)))
]

-- A remainder by an even number, halved.
mod-halves : (x m : ℕ) → 0 < m → x % (m * 2) ≡ x / 2 % m * 2 + x % 2
mod-halves x m h =
    let r = x / 2 % m in
    let whole : x ≡ x / 2 / m * (m * 2) + (r * 2 + x % 2) =
      omega (arith, div-add-mod' (x / 2) m, mul_assoc (x / 2 / m) m 2) in
    ap (λ t. t % (m * 2)) whole
    ∙ mul-add-mod_self_right (x / 2 / m) (m * 2) (r * 2 + x % 2)
    ∙ mod-eq_of_lt (omega (arith, mod-lt (x / 2) h))

-- The mask of the low `w` bits is the remainder by 2ʷ.
pub low_mask : (w x : ℕ) → bit_and x (2 ^ w - 1) ≡ x % 2 ^ w
low_mask zero x = bit_and_comm x 0 ∙ bit_and-zero_left x ∙ sym (mod-one x)
low_mask (suc w) x =
    let half : (2 ^ suc w - 1) / 2 ≡ 2 ^ w - 1 = omega (arith, pow-suc 2 w, pow-pos w) in
    let odd : (2 ^ suc w - 1) % 2 ≡ 1 = omega (arith, pow-suc 2 w, pow-pos w) in
    bit_and-halves x (2 ^ suc w - 1)
    ∙ rw (half, odd, low_mask w (x / 2), pow-suc 2 w, mod-halves x (2 ^ w) (pow-pos w))
        (omega arith)
