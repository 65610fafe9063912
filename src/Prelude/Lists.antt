-- ===== src/Prelude/Lists.antt =====
-- Lists measured by native numbers.
use Prim.Native.Nat.{ℕ, suc, ◌+◌}
use mathlib.Core.Path.{◌≡◌, refl, ap}
use mathlib.Core.Logic.{inl, inr}
use mathlib.Core.Option.{Option, none, some}
use mathlib.Core.List.{List, [], ◌∷◌, ◌++◌}
use native.Mathlib.Omega.{arith}
use bulla.Prelude.Tests.{◌==◌, if◌then◌else◌, Option-cases}

module _ {ℓ} {A : Type ℓ} where
  abbrev pub length : List A → ℕ
  length [] = 0
  length (x ∷ xs) = suc (length xs)

  pub length-append : (xs ys : List A) → length (xs ++ ys) ≡ length xs + length ys
  length-append [] ys = omega arith
  length-append (x ∷ xs) ys = omega (arith, length-append xs ys)

  -- `pop_back`: the elements before the last, and the last.
  unfoldable pub pop_back : List A → Option (List A × A)
  pop_back [] = none
  pop_back (x ∷ xs) = elim (pop_back xs) [ none ↦ some ([], x) | some (ys, y) ↦ some (x ∷ ys, y) ]

-- How often a number stands in a list.
unfoldable pub count : ℕ → List ℕ → ℕ
count n [] = 0
count n (x ∷ xs) = (if x == n then 1 else 0) + count n xs

pub count-append : (n : ℕ) (xs ys : List ℕ) → count n (xs ++ ys) ≡ count n xs + count n ys
unfolding count
count-append n [] ys = omega arith
count-append n (x ∷ xs) ys = omega (arith, count-append n xs ys)

pub pop_back-none {ℓ} : {A : Type ℓ} (xs : List A) → pop_back xs ≡ none → xs ≡ []
unfolding pop_back
pop_back-none [] h = refl
pop_back-none (x ∷ xs) h = elim (Option-cases (pop_back xs)) [
  | inl last ↦ ground arith
  | inr (e, more) ↦ ground arith
]

pub count-pop_back :
    (n y : ℕ) (xs ys : List ℕ)
    → pop_back xs ≡ some (ys, y)
    → count n xs ≡ count n ys + (if y == n then 1 else 0)
unfolding count pop_back
count-pop_back n y [] ys h = cc
count-pop_back n y (x ∷ xs) ys h = elim (Option-cases (pop_back xs)) [
  | inl last ↦ let nil : xs ≡ [] = pop_back-none xs last in ground (arith, ap (count n) nil)
  | inr (e, more) ↦ ground (arith, count-pop_back n e.1 xs e.0)
]

pub pop_back-append {ℓ} :
    {A : Type ℓ} (xs ys : List A) (y : A) → pop_back xs ≡ some (ys, y) → xs ≡ ys ++ (y ∷ [])
unfolding pop_back
pop_back-append [] ys y h = absurd (ground (arith, h))
pop_back-append (x ∷ xs) ys y h = elim (Option-cases (pop_back xs)) [
  | inl e ↦
      let ends : ys ≡ [] = ground (arith, h, e) in
      let same : y ≡ x = ground (arith, h, e) in
      rw (ends, same) (ap (λ t. x ∷ t) (pop_back-none xs e))
  | inr ((zs, z), e) ↦
      let begins : ys ≡ x ∷ zs = ground (arith, h, e) in
      let same : y ≡ z = ground (arith, h, e) in
      rw (begins, same) (ap (λ t. x ∷ t) (pop_back-append xs zs z e))
]
