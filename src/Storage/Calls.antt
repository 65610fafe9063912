-- ===== src/Storage/Calls.antt =====
-- A fixed-capacity vector answers any calls as the list of its elements (kernel/src/storage.rs).
use bulla.Prelude.{ℕ, refl, Option, none, some, List, arith, Result, ok_or, ◌≡◌, [], ◌∷◌}
use bulla.Prelude.Arrays.{get_elem?, length-repeat}
use bulla.Storage.{
  StorageError, FixedVec, out_of_bounds, new_vec, vec_get, vec_set, vec_push, vec_pop,
}
use bulla.Storage.Vectors.{
  Holds, list_push, list_pop, list_set, vec_get-Holds, vec_set-Holds, vec_push-Holds, vec_pop-Holds,
}

pub data Call {ℓ} (T : Type ℓ) : Type ℓ where
  pushes : T → Call T
  pops : Call T
  gets : ℕ → Call T
  sets : ℕ → T → Call T

-- An answer: what a push, a set, a pop or a get returned.
pub data Answer {ℓ} (T : Type ℓ) : Type ℓ where
  done : Result StorageError (Unit {0}) → Answer T
  element : Result StorageError T → Answer T

abbrev answer {ℓ} : {A : Type ℓ} → A → Option (List A) → Option (List A)
answer a none = none
answer a (some rest) = some (a ∷ rest)

module _ {ℓ} {T : Type ℓ} where
  -- The answers to a sequence of calls of the vector, none if one of them panicked.
  unfoldable pub vec_run : FixedVec T → List (Call T) → Option (List (Answer T))
  unfolding vec_push vec_pop vec_get vec_set
  vec_run v [] = some []
  vec_run v (pushes x ∷ cs) = elim (vec_push v x) [
    | none ↦ none
    | some (u, a) ↦ answer (done a) (vec_run u cs)
  ]
  vec_run v (pops ∷ cs) = elim (vec_pop v) [
    | none ↦ none
    | some (u, a) ↦ answer (element a) (vec_run u cs)
  ]
  vec_run v (gets i ∷ cs) = elim (vec_get v i) [
    | none ↦ none
    | some a ↦ answer (element a) (vec_run v cs)
  ]
  vec_run v (sets i x ∷ cs) = elim (vec_set v i x) [
    | none ↦ none
    | some (u, a) ↦ answer (done a) (vec_run u cs)
  ]

  -- The answers of a list of at most `n` elements to the same calls.
  unfoldable pub list_run : ℕ → List T → List (Call T) → List (Answer T)
  unfolding list_push list_pop list_set
  list_run n xs [] = []
  list_run n xs (pushes x ∷ cs) = let next = list_push n xs x in done next.1 ∷ list_run n next.0 cs
  list_run n xs (pops ∷ cs) = let next = list_pop xs in element next.1 ∷ list_run n next.0 cs
  list_run n xs (gets i ∷ cs) = element (ok_or (get_elem? xs i) out_of_bounds) ∷ list_run n xs cs
  list_run n xs (sets i x ∷ cs) = let next = list_set xs i x in done next.1 ∷ list_run n next.0 cs

  Holds-vec_run :
      (n : ℕ) (cs : List (Call T)) (v : FixedVec T) (xs : List T)
      → Holds n v xs
      → vec_run v cs ≡ some (list_run n xs cs)
  unfolding vec_run list_run
  Holds-vec_run n [] v xs w = refl
  Holds-vec_run n (pushes x ∷ cs) v xs w =
      let (u, ran, next) = vec_push-Holds n v xs x w in
      rw (vec_run, ran, Holds-vec_run n cs u _ next) refl
  Holds-vec_run n (pops ∷ cs) v xs w =
      let (u, ran, next) = vec_pop-Holds n v xs w in
      rw (vec_run, ran, Holds-vec_run n cs u _ next) refl
  Holds-vec_run n (gets i ∷ cs) v xs w =
      rw (vec_run, vec_get-Holds n v xs i w, Holds-vec_run n cs v xs w) refl
  Holds-vec_run n (sets i x ∷ cs) v xs w =
      let (u, ran, next) = vec_set-Holds n v xs i x w in
      rw (vec_run, ran, Holds-vec_run n cs u _ next) refl

  new_vec-Holds : (d : T) (n : ℕ) → Holds n (new_vec d n) []
  unfolding new_vec
  new_vec-Holds d n = record {
    capacity = length-repeat n d;
    fits = omega arith;
    same = refl;
    at = λ i h. absurd (omega arith);
  }

  -- From a new vector of any capacity, any sequence of pushes, pops, reads and writes runs without
  -- a panic and is answered as by the list of the elements, which is full at the capacity.
  pub vec_run-list :
      (default : T) (n : ℕ) (cs : List (Call T))
      → vec_run (new_vec default n) cs ≡ some (list_run n [] cs)
  vec_run-list default n cs = Holds-vec_run n cs (new_vec default n) [] (new_vec-Holds default n)
