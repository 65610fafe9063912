-- ===== src/Storage/Ring.antt =====
-- The array of a ring buffer holds a bounded first-in first-out queue (kernel/src/storage.rs).
use bulla.Prelude.{
  ℕ, suc, refl, sym, ap, false, some, List, arith, ltb, ltb→lt, ==_iff, ==_refl, Bool-cases, Result,
  ok, err, inl, inr, ◌+◌, ◌-◌, ◌%◌, ◌≤◌, ◌<◌, ◌≡◌, ◌∙◌, [], ◌∷◌, ◌++◌, ◌==◌, if◌then◌else◌,
}
use bulla.Prelude.Lists.{length, length-append}
use bulla.Prelude.Arrays.{get_elem?, set_elem?, set_elem?-some, get_elem?-append, length-repeat}
use bulla.Storage.{StorageError, RingBuffer, full, empty, new_ring, ring_push, ring_pop}
use native.Mathlib.Nat.{mod-lt, mod-eq_of_lt, mod-add-mod, mod-eq-sub-mod}

module _ {ℓ} {T : Type ℓ} where
  -- The queue that a ring buffer of capacity `n` stands for.
  unfoldable pub queue_push : ℕ → List T → T → List T × Result StorageError (Unit {0})
  queue_push n xs v = if length xs == n then (xs, err full) else (xs ++ (v ∷ []), ok tt)

  unfoldable pub queue_pop : List T → List T × Result StorageError T
  queue_pop [] = ([], err empty)
  queue_pop (x ∷ xs) = (xs, ok x)

  -- The array holds the queue from the head on, around the end of the array.
  pub record Holds (n : ℕ) (r : RingBuffer T) (xs : List T) : Type ℓ where
    capacity : length r.values ≡ n
    fits : r.len ≤ n
    head : 0 < n → r.head < n
    same : length xs ≡ r.len
    at : (i : ℕ) → i < r.len → get_elem? r.values ((r.head + i) % n) ≡ get_elem? xs i

  pub new_ring-Holds : (d : T) (n : ℕ) → Holds n (new_ring d n) []
  unfolding new_ring
  new_ring-Holds d n = record {
    capacity = length-repeat n d;
    fits = omega arith;
    head = λ h. h;
    same = refl;
    at = λ i h. absurd (omega arith);
  }

place : (n h i : ℕ) → h < n → i < n → (h + i) % n ≡ (if ltb (h + i) n then h + i else h + i - n)
place n h i p q = elim (Bool-cases (ltb (h + i) n)) [
  | inl e ↦ mod-eq_of_lt (ltb→lt (h + i) n e) ∙ rw e refl
  | inr e ↦
      let over : n ≤ h + i = ground (arith, e) in
      mod-eq-sub-mod over ∙ mod-eq_of_lt (omega (arith, over)) ∙ rw e refl
]

-- Two places of one lap are different.
lap : (n h i j : ℕ) → h < n → i < j → j < n → ((h + j) % n == (h + i) % n) ≡ false
lap n h i j p q r = elim (Bool-cases ((h + j) % n == (h + i) % n)) [
  | inl e ↦ absurd (
      ground (
        arith,
        (==_iff ((h + j) % n) ((h + i) % n)).0 e,
        place n h i p (omega (arith, q, r)),
        place n h j p r,
      ))
  | inr e ↦ e
]

pub different : (a b : ℕ) → a < b → (a == b) ≡ false
different a b h = ground (arith, (==_iff a b).0)

pub different_zero : (b : ℕ) → 0 < b → (b == 0) ≡ false
different_zero b h = ground (arith, (==_iff b 0).0)

module _ {ℓ} {T : Type ℓ} where
  ring_push-room :
      (n : ℕ) (r : RingBuffer T) (v : T) (ys : List T)
      → length r.values ≡ n
      → r.len < n
      → set_elem? ((r.head + r.len) % n) v r.values ≡ some ys
      → ring_push r v ≡ some (record r { values = ys; len = r.len + 1 }, ok tt)
  unfolding ring_push
  ring_push-room n r v ys c room written =
      rw (ring_push, c, different r.len n room, different_zero n (omega (arith, room)), written)
        refl

  ring_push-at :
      (n : ℕ) (r : RingBuffer T) (xs : List T) (v : T) (ys : List T)
      → Holds n r xs
      → r.len < n
      → ((j : ℕ)
          → get_elem? ys j ≡ (if (r.head + r.len) % n == j then some v else get_elem? r.values j))
      → (i : ℕ) → i < r.len + 1
      → get_elem? ys ((r.head + i) % n) ≡ get_elem? (xs ++ (v ∷ [])) i
  ring_push-at n r xs v ys w room at i h = at ((r.head + i) % n) ∙ elim (Bool-cases (i == r.len)) [
    | inl e ↦
        rw ((==_iff i r.len).0 e, ==_refl ((r.head + r.len) % n))
          (sym (get_elem?-append xs v r.len ∙ rw (w.same, ==_refl r.len) refl))
    | inr e ↦
        let inside : i < r.len = ground (arith, h, e, (==_iff i r.len).1) in
        rw (lap n r.head i r.len (w.head (omega arith)) inside room)
          (w.at i inside ∙ sym (get_elem?-append xs v i ∙ rw (w.same, e) refl))
  ]

  -- A push gives the answer of the queue, which is full exactly at the capacity.
  pub ring_push-Holds :
      (n : ℕ) (r : RingBuffer T) (xs : List T) (v : T)
      → Holds n r xs
      → (s : RingBuffer T) × (ring_push r v ≡ some (s, (queue_push n xs v).1))
        × Holds n s (queue_push n xs v).0
  unfolding ring_push queue_push
  ring_push-Holds n r xs v w = elim (Bool-cases (length xs == n)) [
    | inl e ↦ (
      r,
      ground (arith, e, w.same, w.capacity, (==_iff (length xs) n).0, ==_refl n),
      rw (queue_push, e) w,
    )
    | inr e ↦
        let room : r.len < n = ground (arith, e, w.same, w.fits, (==_iff (length xs) n).1) in
        let k = (r.head + r.len) % n in
        let before : r.len < n → 0 < n = λ h. omega arith in
        let (ys, written, len, at) =
          set_elem?-some k v r.values
            (omega (arith, w.capacity, mod-lt (r.head + r.len) (before room))) in
        (
          record r { values = ys; len = r.len + 1 },
          ring_push-room n r v ys w.capacity room written ∙ rw (queue_push, e) refl,
          rw (queue_push, e)
              (record {
                capacity = len ∙ w.capacity;
                fits = omega (arith, room);
                head = w.head;
                same = length-append xs (v ∷ []) ∙ omega (arith, w.same);
                at = λ i h. ring_push-at n r xs v ys w room at i h;
              }),
        )
  ]

  pub ring_pop-Holds :
      (n : ℕ) (r : RingBuffer T) (xs : List T)
      → Holds n r xs
      → (s : RingBuffer T) × (ring_pop r ≡ some (s, (queue_pop xs).1)) × Holds n s (queue_pop xs).0
  unfolding ring_pop queue_pop get_elem?
  ring_pop-Holds n r [] w = (r, ground (arith, w.same, ==_refl r.len), w)
  ring_pop-Holds n r (x ∷ xs) w =
      let first : get_elem? r.values r.head ≡ some x =
        ap (get_elem? r.values) (
          sym (mod-eq_of_lt (w.head (omega (arith, w.fits, w.same))))
          ∙ ap (λ t. t % n) (omega arith))
        ∙ w.at 0 (omega (arith, w.same)) in
      (
        record r { head = (r.head + 1) % n; len = r.len - 1 },
        rw
            (
              ring_pop,
              w.capacity,
              different_zero r.len (omega (arith, w.same)),
              different_zero n (omega (arith, w.same, w.fits)),
              first,
            )
            refl,
        record {
          capacity = w.capacity;
          fits = omega (arith, w.fits);
          head = λ h. mod-lt (r.head + 1) h;
          same = omega (arith, w.same);
          at = λ i h.
              ap (get_elem? r.values) (mod-add-mod (r.head + 1) n i ∙ ap (λ t. t % n) (omega arith))
              ∙ w.at (suc i) (omega arith);
        },
      )
