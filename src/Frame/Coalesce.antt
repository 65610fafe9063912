-- ===== src/Frame/Coalesce.antt =====
-- Coalescing joins adjacent free runs and covers the same bytes (kernel/src/frame.rs).
use bulla.Prelude.{
  ℕ, suc, ap, some, List, arith, ==_iff, Bool-cases, Option-cases, inl, inr, ◌+◌, ◌*◌, ◌≤◌, ◌≡◌, [],
  ◌∷◌, ◌==◌,
}
use bulla.Prelude.Map.{Map, get, insert, nat_key}
use bulla.Prelude.Ordered.{
  IsOrdered, insert-IsOrdered, last_entry, last_entry_found, KeysAbove, get_below,
}
use bulla.Prelude.Sums.{sum_map, sum_map-insert}
use bulla.Frame.{FrameAllocator, page_bytes, coalesce_step, coalesce_into, coalesce}
use bulla.Frame.Cover.{
  hit, free_cover, IsRun, FreeRuns, IsSound, hit_base, free_absent, free_cover-insert,
  insert-FreeRuns, cover, allocated_cover,
}

-- The entries still to be handled are runs of whole pages.
abbrev Entries : List (ℕ × ℕ) → Type 0
Entries [] = Unit
Entries ((base, pages) ∷ rest) = IsRun base pages × Entries rest

-- A map of runs that covers what `done` and the entries cover.
pub record Joined (done : Map ℕ ℕ) (rest : List (ℕ × ℕ)) (result : Map ℕ ℕ) : Type 0 where
  pub ordered : IsOrdered result
  pub runs : FreeRuns result
  pub covers : (a : ℕ) → free_cover a result ≡ free_cover a done + free_cover a rest

module _ (done : Map ℕ ℕ) (base pages : ℕ) (o : IsOrdered done) (runs : FreeRuns done)
    (r : IsRun base pages) (apart : free_cover base done ≡ 0) where
  behind : Joined done ((base, pages) ∷ []) (insert base pages done)
  unfolding sum_map
  behind = record {
    ordered = insert-IsOrdered base pages done o;
    runs = insert-FreeRuns base pages done r runs;
    covers = λ a.
        omega (arith, free_cover-insert a base pages done o (free_absent base done runs apart));
  }

  grown :
      (b p : ℕ)
      → get b done ≡ some p
      → b + p * page_bytes ≡ base
      → Joined done ((base, pages) ∷ []) (insert b (p + pages) done)
  unfolding sum_map
  grown b p found adjacent =
      let old = runs b p found in
      record {
        ordered = insert-IsOrdered b (p + pages) done o;
        runs =
            insert-FreeRuns b (p + pages) done
              (record {
                nonempty = omega (arith, old.nonempty);
                aligned = old.aligned;
                fits = omega (arith, r.fits);
              })
              runs;
        covers = λ a. ground (arith, sum_map-insert (hit a) b (p + pages) done o);
      }

  coalesce_step-Joined : Joined done ((base, pages) ∷ []) (coalesce_step done base pages)
  unfolding coalesce_step
  coalesce_step-Joined = elim (Option-cases (last_entry done)) [
    | inl none_before ↦ rw (none_before, coalesce_step) behind
    | inr (e, last) ↦
        let found = last_entry_found 0 done e.0 e.1 o last in
        let old = runs e.0 e.1 found in
        elim (Bool-cases (e.0 + e.1 * page_bytes == base)) [
          | inl adjacent ↦
              let next : coalesce_step done base pages ≡ insert e.0 (e.1 + pages) done =
                ground (arith, old.fits, r.fits) in
              rw next (grown e.0 e.1 found ((==_iff _ _).0 adjacent))
          | inr gap ↦
              let next : coalesce_step done base pages ≡ insert base pages done =
                ground (arith, old.fits) in
              rw next behind
        ]
  ]

pub coalesce_into-Joined :
    (done : Map ℕ ℕ) (rest : List (ℕ × ℕ))
    → IsOrdered done
    → FreeRuns done
    → Entries rest
    → ((a : ℕ) → free_cover a done + free_cover a rest ≤ 1)
    → Joined done rest (coalesce_into done rest)
unfolding coalesce_into sum_map
coalesce_into-Joined done [] o runs es once = record {
  ordered = o;
  runs = runs;
  covers = λ a. omega arith;
}
coalesce_into-Joined done ((base, pages) ∷ rest) o runs (r, es) once =
    let apart : free_cover base done ≡ 0 =
      omega (arith, once base, hit_base base pages r.nonempty) in
    let step = coalesce_step-Joined done base pages o runs r apart in
    let last =
      coalesce_into-Joined (coalesce_step done base pages) rest step.ordered step.runs es
        (λ a. omega (arith, once a, step.covers a)) in
    record {
      ordered = last.ordered;
      runs = last.runs;
      covers = λ a. omega (arith, last.covers a, step.covers a);
    }

Entries-of : (b : ℕ) (m : Map ℕ ℕ) → KeysAbove b m → FreeRuns m → Entries m
unfolding get
Entries-of b [] a runs = tt
Entries-of b ((k, pages) ∷ m) a runs = (
  runs k pages (ground arith),
  Entries-of (suc k) m a.1 (λ j n g. runs j n (ground (arith, get_below (suc k) j m a.1))),
)

-- Coalescing keeps an allocator whose runs lie apart as it is, but for the joins: the same bytes
-- are covered, each as often.
pub coalesce-IsSound : (f : FrameAllocator) → IsSound f → IsSound (coalesce f)
unfolding coalesce sum_map get
coalesce-IsSound f v =
    let j =
      coalesce_into-Joined [] f.free tt (λ k n g. cc)
        (Entries-of 0 f.free v.free_ordered v.free_runs) (λ a. omega (arith, v.disjoint a)) in
    record {
      free_ordered = j.ordered;
      allocated_ordered = v.allocated_ordered;
      free_runs = j.runs;
      allocated_runs = v.allocated_runs;
      disjoint = λ a. omega (arith, v.disjoint a, j.covers a);
    }

free_cover-coalesce :
    (f : FrameAllocator) (a : ℕ) → IsSound f → free_cover a (coalesce f).free ≡ free_cover a f.free
unfolding coalesce sum_map get
free_cover-coalesce f a v =
    let j =
      coalesce_into-Joined [] f.free tt (λ k n g. cc)
        (Entries-of 0 f.free v.free_ordered v.free_runs) (λ b. omega (arith, v.disjoint b)) in
    omega (arith, j.covers a)

-- So is the whole allocator.
pub cover-coalesce : (f : FrameAllocator) (a : ℕ) → IsSound f → cover a (coalesce f) ≡ cover a f
unfolding coalesce sum_map
cover-coalesce f a v = ap (λ t. t + allocated_cover a f.allocated) (free_cover-coalesce f a v)
