-- ===== src/Storage/Fifo.antt =====
-- A ring buffer answers any calls as a bounded first-in first-out queue (kernel/src/storage.rs).
use bulla.Prelude.{ℕ, refl, Option, none, some, List, Result, ok, err, ◌≡◌, [], ◌∷◌}
use bulla.Storage.{StorageError, RingBuffer, new_ring, ring_push, ring_pop}
use bulla.Storage.Ring.{
  Holds, queue_push, queue_pop, new_ring-Holds, ring_push-Holds, ring_pop-Holds,
}

pub data Call {ℓ} (T : Type ℓ) : Type ℓ where
  pushes : T → Call T
  pops : Call T

abbrev answer {ℓ} : {A : Type ℓ} → A → Option (List A) → Option (List A)
answer a none = none
answer a (some rest) = some (a ∷ rest)

module _ {ℓ} {T : Type ℓ} where
  abbrev placed : Result StorageError (Unit {0}) → Result StorageError (Option T)
  placed (ok _) = ok none
  placed (err e) = err e

  abbrev taken : Result StorageError T → Result StorageError (Option T)
  taken (ok x) = ok (some x)
  taken (err e) = err e

  -- The answers to a sequence of calls of the ring buffer, none if one of them panicked.
  unfoldable pub ring_run :
      RingBuffer T → List (Call T) → Option (List (Result StorageError (Option T)))
  unfolding ring_push ring_pop
  ring_run r [] = some []
  ring_run r (pushes v ∷ cs) = elim (ring_push r v) [
    | none ↦ none
    | some (s, a) ↦ answer (placed a) (ring_run s cs)
  ]
  ring_run r (pops ∷ cs) = elim (ring_pop r) [
    | none ↦ none
    | some (s, a) ↦ answer (taken a) (ring_run s cs)
  ]

  -- The answers of the queue to the same calls.
  unfoldable pub queue_run : ℕ → List T → List (Call T) → List (Result StorageError (Option T))
  unfolding queue_push queue_pop
  queue_run n xs [] = []
  queue_run n xs (pushes v ∷ cs) =
      let next = queue_push n xs v in (placed next.1) ∷ queue_run n next.0 cs
  queue_run n xs (pops ∷ cs) = let next = queue_pop xs in (taken next.1) ∷ queue_run n next.0 cs

  Holds-ring_run :
      (n : ℕ) (cs : List (Call T)) (r : RingBuffer T) (xs : List T)
      → Holds n r xs
      → ring_run r cs ≡ some (queue_run n xs cs)
  unfolding ring_run queue_run
  Holds-ring_run n [] r xs w = refl
  Holds-ring_run n (pushes v ∷ cs) r xs w =
      let (s, ran, next) = ring_push-Holds n r xs v w in
      rw (ring_run, ran, Holds-ring_run n cs s _ next) refl
  Holds-ring_run n (pops ∷ cs) r xs w =
      let (s, ran, next) = ring_pop-Holds n r xs w in
      rw (ring_run, ran, Holds-ring_run n cs s _ next) refl

  -- From a new ring buffer of any capacity, zero included, any sequence of pushes and pops runs
  -- without a panic and is answered as by a first-in first-out queue that is full at the capacity.
  pub ring_run-queue :
      (default : T) (n : ℕ) (cs : List (Call T))
      → ring_run (new_ring default n) cs ≡ some (queue_run n [] cs)
  ring_run-queue default n cs =
      Holds-ring_run n cs (new_ring default n) [] (new_ring-Holds default n)
