-- ===== src/Frame/Cover.antt =====
-- Which bytes the runs of the allocator cover, and the invariant (kernel/src/frame.rs).
use bulla.Prelude.{
  ℕ, ap, none, some, arith, ltb, leb, ==_iff, Bool-cases, Option-cases, u64_mod, inl, inr, ◌+◌, ◌*◌,
  ◌%◌, ◌≤◌, ◌<◌, ◌≡◌, ◌&&◌, ◌==◌, if◌then◌else◌,
}
use bulla.Prelude.Map.{Map, get, insert, remove, get-insert, get-remove, nat_key}
use bulla.Prelude.Ordered.{IsOrdered}
use bulla.Prelude.Sums.{sum_map, sum_map-insert, sum_map-remove, weight_le}
use bulla.Frame.{FrameRun, FrameAllocator, page_bytes}

-- How often a byte lies in a run: once or not at all.
abbrev pub hit : ℕ → ℕ → ℕ → ℕ
hit a base pages = if leb base a && ltb a (base + pages * page_bytes) then 1 else 0

-- How many of the free runs, and of the allocated ones, hold a byte.
abbrev pub free_cover : ℕ → Map ℕ ℕ → ℕ
free_cover a = sum_map (hit a)

abbrev pub run_hit : ℕ → ℕ → FrameRun → ℕ
run_hit a _ run = hit a run.base run.pages

abbrev pub allocated_cover : ℕ → Map ℕ FrameRun → ℕ
allocated_cover a = sum_map (run_hit a)

-- How many runs of the allocator hold a byte.
abbrev pub cover : ℕ → FrameAllocator → ℕ
cover a f = free_cover a f.free + allocated_cover a f.allocated

-- A run of whole pages, not empty, below 2⁶⁴.
pub record IsRun (base pages : ℕ) : Type 0 where
  pub nonempty : 0 < pages
  pub aligned : base % page_bytes ≡ 0
  pub fits : base + pages * page_bytes < u64_mod

abbrev pub FreeRuns : Map ℕ ℕ → Type 0
FreeRuns m = (k pages : ℕ) → get k m ≡ some pages → IsRun k pages

abbrev pub AllocatedRuns : Map ℕ FrameRun → Type 0
AllocatedRuns m = (k : ℕ) (run : FrameRun) → get k m ≡ some run → (run.base ≡ k) × IsRun k run.pages

pub record IsSound (f : FrameAllocator) : Type 0 where
  pub free_ordered : IsOrdered f.free
  pub allocated_ordered : IsOrdered f.allocated
  pub free_runs : FreeRuns f.free
  pub allocated_runs : AllocatedRuns f.allocated
  pub disjoint : (a : ℕ) → cover a f ≤ 1

-- A run holds its own first byte.
pub hit_base : (base pages : ℕ) → 0 < pages → hit base base pages ≡ 1
hit_base base pages h = ground arith

-- A stored run is counted.
pub free_counted :
    (a k pages : ℕ) (m : Map ℕ ℕ) → get k m ≡ some pages → hit a k pages ≤ free_cover a m
free_counted a k pages m g = ground (arith, weight_le (hit a) k m)

pub allocated_counted :
    (a k : ℕ) (run : FrameRun) (m : Map ℕ FrameRun)
    → get k m ≡ some run
    → run_hit a k run ≤ allocated_cover a m
allocated_counted a k run m g = ground (arith, weight_le (run_hit a) k m)

-- Where no byte is covered, no run starts.
pub free_absent : (k : ℕ) (m : Map ℕ ℕ) → FreeRuns m → free_cover k m ≡ 0 → get k m ≡ none
free_absent k m runs e = elim (Option-cases (get k m)) [
  | inl missing ↦ missing
  | inr (pages, found) ↦ absurd (
      omega (arith, free_counted k k pages m found, hit_base k pages (runs k pages found).nonempty))
]

pub allocated_absent :
    (k : ℕ) (m : Map ℕ FrameRun) → AllocatedRuns m → allocated_cover k m ≡ 0 → get k m ≡ none
allocated_absent k m runs e = elim (Option-cases (get k m)) [
  | inl missing ↦ missing
  | inr (run, found) ↦
      let (here, is_run) = runs k run found in
      absurd (
        omega (
          arith,
          allocated_counted k k run m found,
          hit_base k run.pages is_run.nonempty,
          ap (λ b. hit k b run.pages) here,
        ))
]

-- A run set at an absent key adds its bytes, and a stored run that is removed takes its bytes away.
pub free_cover-insert :
    (a k pages : ℕ) (m : Map ℕ ℕ)
    → IsOrdered m
    → get k m ≡ none
    → free_cover a (insert k pages m) ≡ free_cover a m + hit a k pages
free_cover-insert a k pages m o g = ground (arith, sum_map-insert (hit a) k pages m o)

pub free_cover-remove :
    (a k pages : ℕ) (m : Map ℕ ℕ)
    → IsOrdered m
    → get k m ≡ some pages
    → free_cover a (remove k m) + hit a k pages ≡ free_cover a m
free_cover-remove a k pages m o g = ground (arith, sum_map-remove (hit a) k m o)

pub allocated_cover-insert :
    (a k : ℕ) (run : FrameRun) (m : Map ℕ FrameRun)
    → IsOrdered m
    → get k m ≡ none
    → allocated_cover a (insert k run m) ≡ allocated_cover a m + run_hit a k run
allocated_cover-insert a k run m o g = ground (arith, sum_map-insert (run_hit a) k run m o)

pub allocated_cover-remove :
    (a k : ℕ) (run : FrameRun) (m : Map ℕ FrameRun)
    → IsOrdered m
    → get k m ≡ some run
    → allocated_cover a (remove k m) + run_hit a k run ≡ allocated_cover a m
allocated_cover-remove a k run m o g = ground (arith, sum_map-remove (run_hit a) k m o)

-- A stored run replaced by one over the same bytes.
pub allocated_cover-replace :
    (a k : ℕ) (old new : FrameRun) (m : Map ℕ FrameRun)
    → IsOrdered m
    → get k m ≡ some old
    → new.base ≡ old.base
    → new.pages ≡ old.pages
    → allocated_cover a (insert k new m) ≡ allocated_cover a m
allocated_cover-replace a k old new m o g e p = ground (arith, sum_map-insert (run_hit a) k new m o)

-- Runs set and removed keep the stored runs whole pages.
pub insert-FreeRuns :
    (k pages : ℕ) (m : Map ℕ ℕ) → IsRun k pages → FreeRuns m → FreeRuns (insert k pages m)
insert-FreeRuns k pages m r runs j n g = elim (Bool-cases (k == j)) [
  | inl same ↦
      let e : pages ≡ n = ground (arith, get-insert k j pages m) in
      rw (← (==_iff k j).0 same, ← e) r
  | inr other ↦ runs j n (ground (arith, get-insert k j pages m))
]

pub remove-FreeRuns : (k : ℕ) (m : Map ℕ ℕ) → FreeRuns m → FreeRuns (remove k m)
remove-FreeRuns k m runs j n g = runs j n (ground (arith, get-remove k j m))

pub insert-AllocatedRuns :
    (k : ℕ) (run : FrameRun) (m : Map ℕ FrameRun)
    → run.base ≡ k
    → IsRun k run.pages
    → AllocatedRuns m
    → AllocatedRuns (insert k run m)
insert-AllocatedRuns k run m b r runs j n g = elim (Bool-cases (k == j)) [
  | inl same ↦
      let e : run ≡ n = ground (arith, get-insert k j run m) in
      let kj : k ≡ j = (==_iff k j).0 same in rw (← kj, ← e) (b, r)
  | inr other ↦ runs j n (ground (arith, get-insert k j run m))
]

pub remove-AllocatedRuns :
    (k : ℕ) (m : Map ℕ FrameRun) → AllocatedRuns m → AllocatedRuns (remove k m)
remove-AllocatedRuns k m runs j n g = runs j n (ground (arith, get-remove k j m))
