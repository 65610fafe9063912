-- ===== src/Prelude/Bits.antt =====
-- Laws of `bit_and` at every width, from its binary digits, and `Rights::contains`-style masks.
use Prim.Native.Nat.{ℕ, zero, suc, ◌+◌, ◌*◌, ◌/◌, ◌%◌, ◌≤◌, min, bit_and, digits, bit_and-bitwise}
use mathlib.Core.Path.{◌≡◌, refl, sym, ap, ◌∙◌}
use native.Mathlib.Omega.{arith}

abbrev conj : ℕ → ℕ → ℕ → ℕ
conj fuel a b = digits (λ _. zero) min fuel a b

-- Any fuel that reaches the first operand gives the same digits.
conj_enough : (m n a b : ℕ) → a ≤ m → a ≤ n → conj m a b ≡ conj n a b
conj_enough zero zero a b p q = refl
conj_enough zero (suc n) zero b p q = refl
conj_enough zero (suc n) (suc a) b p q = absurd (omega arith)
conj_enough (suc m) zero zero b p q = refl
conj_enough (suc m) zero (suc a) b p q = absurd (omega arith)
conj_enough (suc m) (suc n) zero b p q = refl
conj_enough (suc m) (suc n) (suc a) b p q =
    omega (arith, conj_enough m n (suc a / 2) (b / 2) (omega arith) (omega arith))

pub bit_and-zero_left : (b : ℕ) → bit_and 0 b ≡ 0
bit_and-zero_left b = bit_and-bitwise 0 b

-- The lowest digit of a conjunction, and the rest.
pub bit_and-halves : (a b : ℕ) → bit_and a b ≡ bit_and (a / 2) (b / 2) * 2 + min (a % 2) (b % 2)
bit_and-halves zero b = omega (arith, bit_and-zero_left b, bit_and-zero_left (b / 2))
bit_and-halves (suc a) b = omega (
  arith,
  bit_and-bitwise (suc a) b,
  bit_and-bitwise (suc a / 2) (b / 2),
  conj_enough a (suc a / 2) (suc a / 2) (b / 2) (omega arith) (omega arith),
)

bit_and-half : (a b : ℕ) → bit_and a b / 2 ≡ bit_and (a / 2) (b / 2)
bit_and-half a b = omega (arith, bit_and-halves a b)

bit_and-parity : (a b : ℕ) → bit_and a b % 2 ≡ min (a % 2) (b % 2)
bit_and-parity a b = omega (arith, bit_and-halves a b)

comm_below : (n a b : ℕ) → a ≤ n → b ≤ n → bit_and a b ≡ bit_and b a
comm_below zero zero zero p q = refl
comm_below zero zero (suc b) p q = absurd (omega arith)
comm_below zero (suc a) b p q = absurd (omega arith)
comm_below (suc n) a b p q = omega (
  arith,
  bit_and-halves a b,
  bit_and-halves b a,
  comm_below n (a / 2) (b / 2) (omega arith) (omega arith),
)

pub bit_and_comm : (a b : ℕ) → bit_and a b ≡ bit_and b a
bit_and_comm a b = comm_below (a + b) a b (omega arith) (omega arith)

assoc_below : (n a b c : ℕ) → a ≤ n → bit_and (bit_and a b) c ≡ bit_and a (bit_and b c)
assoc_below zero zero b c p =
    rw (bit_and-zero_left b, bit_and-zero_left c, bit_and-zero_left (bit_and b c))
assoc_below zero (suc a) b c p = absurd (omega arith)
assoc_below (suc n) a b c p =
    rw
      (
        bit_and-halves (bit_and a b) c,
        bit_and-halves a (bit_and b c),
        bit_and-half a b,
        bit_and-half b c,
        bit_and-parity a b,
        bit_and-parity b c,
      )
      (omega (arith, assoc_below n (a / 2) (b / 2) (c / 2) (omega arith)))

pub bit_and_assoc : (a b c : ℕ) → bit_and (bit_and a b) c ≡ bit_and a (bit_and b c)
bit_and_assoc a b c = assoc_below a a b c (omega arith)

-- A mask of a mask is a mask.
pub bit_and_trans : (a b c : ℕ) → bit_and a b ≡ b → bit_and b c ≡ c → bit_and a c ≡ c
bit_and_trans a b c p q =
    ap (bit_and a) (sym q) ∙ sym (bit_and_assoc a b c) ∙ ap (λ t. bit_and t c) p ∙ q

-- Bits that are clear in a value are clear in each mask of it.
pub bit_and-clear : (a b u : ℕ) → bit_and a b ≡ b → bit_and a u ≡ 0 → bit_and b u ≡ 0
bit_and-clear a b u p q =
    ap (λ t. bit_and t u) (sym p ∙ bit_and_comm a b)
    ∙ bit_and_assoc b a u
    ∙ ap (bit_and b) q
    ∙ bit_and_comm b 0
    ∙ bit_and-zero_left b

self_below : (n a : ℕ) → a ≤ n → bit_and a a ≡ a
self_below zero zero p = refl
self_below zero (suc a) p = absurd (omega arith)
self_below (suc n) a p = omega (arith, bit_and-halves a a, self_below n (a / 2) (omega arith))

pub bit_and_self : (a : ℕ) → bit_and a a ≡ a
bit_and_self a = self_below a a (omega arith)
