-- ===== src/Examples/Frames.antt =====
-- A region of eight frames from which runs are handed out and returned (kernel/src/frame.rs).
use bulla.Prelude.{ℕ, refl, false, arith, ltb, leb, Bool-cases, inl, inr, ◌+◌, ◌*◌, ◌≤◌, ◌≡◌, ◌&&◌}
use bulla.Prelude.Map.{get, insert, remove, nat_key}
use bulla.Prelude.Sums.{sum_map}
use bulla.Prelude.Ordered.{last_entry}
use bulla.Frame.{
  FrameAllocator, FrameRun, new_allocator, add_region, allocate, validate_run, meets_free, coalesce,
  coalesce_into, coalesce_step, first_fit, fit, cut, validate, lend, release,
}
use bulla.Frame.Cover.{cover, hit, free_cover, IsSound}
use bulla.Frame.Kept.{Kept}
use bulla.Frame.Conservation.{
  start, next, take, give, free_run, do_call, reaches-Kept, cover-add_region, allocate_fresh,
}

abbrev region : FrameAllocator
region = (add_region new_allocator 4096 8).0

new_allocator-IsSound : IsSound new_allocator
unfolding get sum_map
new_allocator-IsSound = record {
  free_ordered = tt;
  allocated_ordered = tt;
  free_runs = λ k n g. cc;
  allocated_runs = λ k r g. cc;
  disjoint = λ a. omega arith;
}

room : (a : ℕ) → cover a new_allocator + hit a 4096 8 ≤ 1
unfolding sum_map
room a = elim (Bool-cases (leb 4096 a && ltb a 36864)) [
  | inl inside ↦ rw inside (omega arith)
  | inr outside ↦ rw outside (omega arith)
]

cover-add_region_example :
    IsSound region × ((a : ℕ) → cover a region ≡ cover a new_allocator + hit a 4096 8)
unfolding add_region validate_run meets_free
cover-add_region_example =
    cover-add_region new_allocator region 4096 8 new_allocator-IsSound room refl

abbrev first_run : FrameRun
first_run = record { base = 8192; pages = 2; generation = 0; zeroed = false }

abbrev taken : FrameAllocator
taken = (do_call (take 2 2) region).0

abbrev shared : FrameAllocator
shared = (do_call (give first_run 5) taken).0

-- The region after one run is taken and lent, and its return is refused.
reaches-Kept_example : Kept region (do_call (free_run first_run) shared).0
unfolding add_region validate_run meets_free coalesce coalesce_into coalesce_step allocate first_fit
    fit cut lend validate release insert remove get last_entry
reaches-Kept_example =
    reaches-Kept region (do_call (free_run first_run) shared).0
      (cover-add_region new_allocator region 4096 8 new_allocator-IsSound room refl).0
      (next (next (next start (take 2 2) (λ e. cc)) (give first_run 5) (λ e. cc))
        (free_run first_run) (λ e. cc))

allocate_fresh_example :
    (first_run.pages ≡ 2)
    × ((q : ℕ) × (first_run.base ≡ q * (2 * 4096)))
    × ((a : ℕ) → hit a first_run.base first_run.pages ≤ free_cover a region.free)
unfolding add_region validate_run meets_free coalesce coalesce_into coalesce_step allocate first_fit
    fit cut insert remove get last_entry
allocate_fresh_example =
    allocate_fresh region taken 2 2 first_run
      (cover-add_region new_allocator region 4096 8 new_allocator-IsSound room refl).0 refl
