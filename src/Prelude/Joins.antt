-- ===== src/Prelude/Joins.antt =====
-- A number put together from two ranges of binary digits, by `bit_or` or by remainders.
use Prim.Native.Nat.{
  ℕ, zero, suc, ◌+◌, ◌*◌, ◌/◌, ◌%◌, ◌^◌, ◌≤◌, ◌<◌, max, bit_or, digits, bit_or-bitwise,
}
use mathlib.Core.Path.{◌≡◌, refl, sym, ap, ◌∙◌}
use native.Mathlib.Omega.{arith}
use native.Mathlib.Nat.{
  pow-suc, div-add-mod', mul_assoc, mul_comm, add-mul, suc-mul, mul-le-mul_right,
  mul-add-mod_self_right, mod-eq_of_lt, mod-lt,
}

abbrev disj : ℕ → ℕ → ℕ → ℕ
disj fuel a b = digits (λ b. b) max fuel a b

disj_enough : (m n a b : ℕ) → a ≤ m → a ≤ n → disj m a b ≡ disj n a b
disj_enough zero zero a b p q = refl
disj_enough zero (suc n) zero b p q = refl
disj_enough zero (suc n) (suc a) b p q = absurd (omega arith)
disj_enough (suc m) zero zero b p q = refl
disj_enough (suc m) zero (suc a) b p q = absurd (omega arith)
disj_enough (suc m) (suc n) zero b p q = refl
disj_enough (suc m) (suc n) (suc a) b p q =
    omega (arith, disj_enough m n (suc a / 2) (b / 2) (omega arith) (omega arith))

bit_or-zero_left : (b : ℕ) → bit_or 0 b ≡ b
bit_or-zero_left b = bit_or-bitwise 0 b

pub bit_or-halves : (a b : ℕ) → bit_or a b ≡ bit_or (a / 2) (b / 2) * 2 + max (a % 2) (b % 2)
bit_or-halves zero b = omega (arith, bit_or-zero_left b, bit_or-zero_left (b / 2))
bit_or-halves (suc a) b = omega (
  arith,
  bit_or-bitwise (suc a) b,
  bit_or-bitwise (suc a / 2) (b / 2),
  disj_enough a (suc a / 2) (suc a / 2) (b / 2) (omega arith) (omega arith),
)

-- Where the digits do not meet, `bit_or` is the sum.
pub bit_or-disjoint : (k a b : ℕ) → a < 2 ^ k → bit_or a (b * 2 ^ k) ≡ a + b * 2 ^ k
bit_or-disjoint zero a b h =
    let nil : a ≡ 0 = omega arith in rw nil (bit_or-zero_left (b * 2 ^ 0) ∙ omega arith)
bit_or-disjoint (suc k) a b h =
    let twice : b * 2 ^ suc k ≡ b * 2 ^ k * 2 =
      ap (λ t. b * t) (pow-suc 2 k) ∙ sym (mul_assoc b (2 ^ k) 2) in
    let half : b * 2 ^ suc k / 2 ≡ b * 2 ^ k = omega (arith, twice) in
    let ih = bit_or-disjoint k (a / 2) b (omega (arith, pow-suc 2 k)) in
    bit_or-halves a (b * 2 ^ suc k) ∙ rw (half, ih) (omega (arith, twice))

-- The digits below `m * n` are those below `m` and the next ones below `n`.
pub mod-join : (x m n : ℕ) → 0 < m → 0 < n → x % (m * n) ≡ x % m + x / m % n * m
mod-join x m n p q =
    let r = x % m in
    let s = x / m % n in
    let lower : x / m * m + r ≡ x = div-add-mod' x m in
    let upper : (x / m / n * n + s) * m ≡ x / m * m = ap (λ t. t * m) (div-add-mod' (x / m) n) in
    let parts : (x / m / n * n + s) * m ≡ x / m / n * (m * n) + s * m =
      add-mul (x / m / n * n) s m
      ∙ ap (λ t. t + s * m) (mul_assoc (x / m / n) n m ∙ ap (λ t. x / m / n * t) (mul_comm n m)) in
    let whole : x ≡ x / m / n * (m * n) + (s * m + r) = omega (arith, lower, upper, parts) in
    let room : s * m + r < m * n = omega (
      arith,
      mod-lt x p,
      suc-mul s m,
      mul-le-mul_right {m = suc s} {n = n} m (mod-lt (x / m) q),
      mul_comm n m,
    ) in
    ap (λ t. t % (m * n)) whole
    ∙ mul-add-mod_self_right (x / m / n) (m * n) (s * m + r)
    ∙ mod-eq_of_lt room
    ∙ omega arith
