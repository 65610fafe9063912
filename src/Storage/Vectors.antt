-- ===== src/Storage/Vectors.antt =====
-- A fixed-capacity vector behaves as the list of its elements, and never indexes outside its array
-- (kernel/src/storage.rs).
use bulla.Prelude.{
  ℕ, refl, sym, ap, none, some, List, arith, leb, leb→le, ==_iff, ==_refl, Bool-cases, Option-cases,
  Result, ok, err, ok_or, inl, inr, ◌+◌, ◌-◌, ◌≤◌, ◌<◌, ◌≡◌, ◌∙◌, [], ◌∷◌, ◌++◌, ◌==◌,
  if◌then◌else◌,
}
use bulla.Prelude.Lists.{length, length-append, pop_back, pop_back-none, pop_back-append}
use bulla.Prelude.Arrays.{
  get_elem?, set_elem?, set_elem?-some, get_elem?-some, get_elem?-append, get_elem?-none,
  set_elem?-none,
}
use bulla.Storage.Ring.{different, different_zero}
use bulla.Storage.{
  StorageError, FixedVec, full, empty, out_of_bounds, vec_get, vec_set, vec_push, vec_pop,
}

module _ {ℓ} {T : Type ℓ} where
  -- The methods on the list of the elements.
  unfoldable pub list_push : ℕ → List T → T → List T × Result StorageError (Unit {0})
  list_push n xs v = if length xs == n then (xs, err full) else (xs ++ (v ∷ []), ok tt)

  unfoldable pub list_pop : List T → List T × Result StorageError T
  list_pop xs = elim (pop_back xs) [ none ↦ (xs, err empty) | some (ys, y) ↦ (ys, ok y) ]

  unfoldable pub list_set : List T → ℕ → T → List T × Result StorageError (Unit {0})
  list_set xs i v = elim (set_elem? i v xs) [
    | none ↦ (xs, err out_of_bounds)
    | some ys ↦ (ys, ok tt)
  ]

  pub record Holds (n : ℕ) (v : FixedVec T) (xs : List T) : Type ℓ where
    pub capacity : length v.values ≡ n
    pub fits : v.len ≤ n
    pub same : length xs ≡ v.len
    pub at : (i : ℕ) → i < v.len → get_elem? v.values i ≡ get_elem? xs i

  pub vec_get-Holds :
      (n : ℕ) (v : FixedVec T) (xs : List T) (i : ℕ)
      → Holds n v xs
      → vec_get v i ≡ some (ok_or (get_elem? xs i) out_of_bounds)
  unfolding vec_get
  vec_get-Holds n v xs i w = elim (Bool-cases (leb v.len i)) [
    | inl e ↦ rw (vec_get, e, get_elem?-none xs i (omega (arith, w.same, leb→le v.len i e))) refl
    | inr e ↦
        let inside : i < v.len = ground (arith, e) in
        let (x, found) = get_elem?-some xs i (omega (arith, inside, w.same)) in
        rw (vec_get, e, w.at i inside, found) refl
  ]

  pub vec_push-Holds :
      (n : ℕ) (v : FixedVec T) (xs : List T) (x : T)
      → Holds n v xs
      → (u : FixedVec T) × (vec_push v x ≡ some (u, (list_push n xs x).1))
        × Holds n u (list_push n xs x).0
  unfolding vec_push list_push
  vec_push-Holds n v xs x w = elim (Bool-cases (v.len == n)) [
    | inl e ↦ (v, rw (vec_push, w.capacity, list_push, w.same, e) refl, rw (list_push, w.same, e) w)
    | inr e ↦
        let room : v.len < n = ground (arith, e, w.fits, (==_iff v.len n).1) in
        let (ys, written, len, at) =
          set_elem?-some v.len x v.values (omega (arith, room, w.capacity)) in
        (
          record { values = ys; len = v.len + 1 },
          rw (vec_push, w.capacity, list_push, w.same, e, written) refl,
          rw (list_push, w.same, e)
              (record {
                capacity = len ∙ w.capacity;
                fits = omega (arith, room);
                same = length-append xs (x ∷ []) ∙ omega (arith, w.same);
                at = λ i h. at i ∙ elim (Bool-cases (v.len == i)) [
                  | inl q ↦
                      let here : i ≡ v.len = sym ((==_iff v.len i).0 q) in
                      rw (here, ==_refl v.len)
                        (sym (get_elem?-append xs x v.len ∙ rw (w.same, ==_refl v.len) refl))
                  | inr q ↦
                      let inside : i < v.len = ground (arith, h, q, (==_iff v.len i).1) in
                      rw q (
                        w.at i inside
                        ∙ sym
                            (get_elem?-append xs x i ∙ rw (w.same, different i v.len inside) refl))
                ];
              }),
        )
  ]

  pub vec_pop-Holds :
      (n : ℕ) (v : FixedVec T) (xs : List T)
      → Holds n v xs
      → (u : FixedVec T) × (vec_pop v ≡ some (u, (list_pop xs).1)) × Holds n u (list_pop xs).0
  unfolding vec_pop list_pop
  vec_pop-Holds n v xs w = elim (Option-cases (pop_back xs)) [
    | inl e ↦
        let none_left : v.len ≡ 0 = sym w.same ∙ ap length (pop_back-none xs e) in
        (v, rw (vec_pop, list_pop, e, none_left) refl, rw (list_pop, e) w)
    | inr ((ys, y), e) ↦
        let split = pop_back-append xs ys y e in
        let one_more : v.len ≡ length ys + 1 =
          sym w.same ∙ ap length split ∙ length-append ys (y ∷ []) in
        let last : get_elem? v.values (v.len - 1) ≡ some y =
          w.at (v.len - 1) (omega (arith, one_more))
          ∙ rw split (
              get_elem?-append ys y (v.len - 1)
              ∙ rw ((==_iff (v.len - 1) (length ys)).1 (omega (arith, one_more))) refl) in
        (
          record v { len = v.len - 1 },
          rw (vec_pop, list_pop, e, different_zero v.len (omega (arith, one_more)), last) refl,
          rw (list_pop, e)
              (record {
                capacity = w.capacity;
                fits = omega (arith, w.fits);
                same = omega (arith, one_more);
                at = λ i h.
                    w.at i (omega arith)
                    ∙ rw split (
                        get_elem?-append ys y i
                        ∙ rw (different i (length ys) (omega (arith, h, one_more))) refl);
              }),
        )
  ]

  pub vec_set-Holds :
      (n : ℕ) (v : FixedVec T) (xs : List T) (k : ℕ) (x : T)
      → Holds n v xs
      → (u : FixedVec T) × (vec_set v k x ≡ some (u, (list_set xs k x).1))
        × Holds n u (list_set xs k x).0
  unfolding vec_set list_set
  vec_set-Holds n v xs k x w = elim (Bool-cases (leb v.len k)) [
    | inl e ↦
        let outside = set_elem?-none xs k x (omega (arith, w.same, leb→le v.len k e)) in
        (v, rw (vec_set, list_set, e, outside) refl, rw (list_set, outside) w)
    | inr e ↦
        let inside : k < v.len = ground (arith, e) in
        let (zs, set, len, now) = set_elem?-some k x xs (omega (arith, inside, w.same)) in
        let (ys, written, kept, at) =
          set_elem?-some k x v.values (omega (arith, inside, w.fits, w.capacity)) in
        (
          record v { values = ys },
          rw (vec_set, list_set, e, set, written) refl,
          rw (list_set, set)
              (record {
                capacity = kept ∙ w.capacity;
                fits = w.fits;
                same = len ∙ w.same;
                at = λ i h. at i ∙ rw (w.at i h) (sym (now i));
              }),
        )
  ]
