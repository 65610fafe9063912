-- ===== src/Prelude/Arrays.antt =====
-- Arrays `[T; N]` as lists of their length: a read, a write, and what a read sees after a write. An
-- index out of range has no result.
use Prim.Native.Nat.{ℕ, zero, suc, ◌≤◌, ◌<◌}
use mathlib.Core.Path.{◌≡◌, refl, ap, ◌∙◌}
use mathlib.Core.Option.{Option, none, some}
use mathlib.Core.List.{List, [], ◌∷◌, ◌++◌}
use native.Mathlib.Omega.{arith}
use bulla.Prelude.Tests.{◌==◌, if◌then◌else◌}
use bulla.Prelude.Lists.{length}

module _ {ℓ} {A : Type ℓ} where
  unfoldable pub get_elem? : List A → ℕ → Option A
  get_elem? [] i = none
  get_elem? (x ∷ xs) zero = some x
  get_elem? (x ∷ xs) (suc i) = get_elem? xs i

  -- `values[i] = v`
  unfoldable pub set_elem? : ℕ → A → List A → Option (List A)
  set_elem? i v [] = none
  set_elem? zero v (x ∷ xs) = some (v ∷ xs)
  set_elem? (suc i) v (x ∷ xs) = elim (set_elem? i v xs) [ none ↦ none | some ys ↦ some (x ∷ ys) ]

  -- `[v; N]`
  unfoldable pub repeat : ℕ → A → List A
  repeat zero v = []
  repeat (suc n) v = v ∷ repeat n v

  pub length-repeat : (n : ℕ) (v : A) → length (repeat n v) ≡ n
  unfolding repeat
  length-repeat zero v = refl
  length-repeat (suc n) v = ap suc (length-repeat n v)

  at_zero :
      (v x : A) (xs : List A) (j : ℕ)
      → get_elem? (v ∷ xs) j ≡ (if 0 == j then some v else get_elem? (x ∷ xs) j)
  unfolding get_elem?
  at_zero v x xs zero = refl
  at_zero v x xs (suc j) = ground arith

  at_suc :
      (i : ℕ) (v x : A) (xs ys : List A)
      → ((j : ℕ) → get_elem? ys j ≡ (if i == j then some v else get_elem? xs j))
      → (j : ℕ) → get_elem? (x ∷ ys) j ≡ (if suc i == j then some v else get_elem? (x ∷ xs) j)
  unfolding get_elem?
  at_suc i v x xs ys at zero = ground arith
  at_suc i v x xs ys at (suc j) = at j ∙ ground arith

  -- A write inside the array gives an array of the same length, in which only that index differs.
  pub set_elem?-some :
      (i : ℕ) (v : A) (xs : List A)
      → i < length xs
      → (ys : List A) × (set_elem? i v xs ≡ some ys)
        × (length ys ≡ length xs)
        × ((j : ℕ) → get_elem? ys j ≡ (if i == j then some v else get_elem? xs j))
  unfolding set_elem? get_elem?
  set_elem?-some i v [] h = absurd (omega arith)
  set_elem?-some zero v (x ∷ xs) h = (v ∷ xs, refl, refl, at_zero v x xs)
  set_elem?-some (suc i) v (x ∷ xs) h =
      let (ys, eq, len, at) = set_elem?-some i v xs (omega arith) in
      (x ∷ ys, rw eq refl, omega (arith, len), at_suc i v x xs ys at)

  pub get_elem?-some : (xs : List A) (i : ℕ) → i < length xs → (x : A) × (get_elem? xs i ≡ some x)
  unfolding get_elem?
  get_elem?-some [] i h = absurd (omega arith)
  get_elem?-some (x ∷ xs) zero h = (x, refl)
  get_elem?-some (x ∷ xs) (suc i) h = get_elem?-some xs i (omega arith)

  pub get_elem?-append :
      (xs : List A) (v : A) (i : ℕ)
      → get_elem? (xs ++ (v ∷ [])) i ≡ (if i == length xs then some v else get_elem? xs i)
  unfolding get_elem?
  get_elem?-append [] v zero = refl
  get_elem?-append [] v (suc i) = ground arith
  get_elem?-append (x ∷ xs) v zero = ground arith
  get_elem?-append (x ∷ xs) v (suc i) = get_elem?-append xs v i ∙ ground arith

  pub get_elem?-none : (xs : List A) (i : ℕ) → length xs ≤ i → get_elem? xs i ≡ none
  unfolding get_elem?
  get_elem?-none [] i h = refl
  get_elem?-none (x ∷ xs) zero h = absurd (omega arith)
  get_elem?-none (x ∷ xs) (suc i) h = get_elem?-none xs i (omega arith)

  pub set_elem?-none : (xs : List A) (i : ℕ) (v : A) → length xs ≤ i → set_elem? i v xs ≡ none
  unfolding set_elem?
  set_elem?-none [] i v h = refl
  set_elem?-none (x ∷ xs) zero v h = absurd (omega arith)
  set_elem?-none (x ∷ xs) (suc i) v h = rw (set_elem?-none xs i v (omega arith)) refl
