-- ===== src/Frame/Allocation.antt =====
-- What an allocation takes out of the free runs (kernel/src/frame.rs).

use bulla.Prelude.{
  ℕ, some, arith, Bool-cases, add64, mul64, inl, inr, ◌+◌, ◌-◌, ◌*◌, ◌≤◌, ◌<◌, ◌≡◌, ◌==◌,
  if◌then◌else◌,
}
use bulla.Prelude.Map.{Map, get, insert, remove, nat_key}
use bulla.Prelude.Ordered.{IsOrdered, insert-IsOrdered, remove-IsOrdered}
use bulla.Frame.{Choice, page_bytes, cut}
use bulla.Frame.Cover.{
  hit, free_cover, IsRun, FreeRuns, hit_base, free_absent, free_cover-insert, free_cover-remove,
  insert-FreeRuns, remove-FreeRuns,
}
use bulla.Frame.Fit.{Chosen}

-- Free runs that are whole pages and lie apart.
pub record IsFree (free : Map ℕ ℕ) : Type 0 where
  pub ordered : IsOrdered free
  pub runs : FreeRuns free
  pub once : (a : ℕ) → free_cover a free ≤ 1

module _ (free : Map ℕ ℕ) (v : IsFree free) where
  -- A run put at a byte that nothing covers.
  put-IsFree :
      (base pages : ℕ)
      → IsRun base pages
      → free_cover base free ≡ 0
      → IsOrdered (insert base pages free)
        × FreeRuns (insert base pages free)
        × ((a : ℕ) → free_cover a (insert base pages free) ≡ free_cover a free + hit a base pages)
  put-IsFree base pages r e = (
    insert-IsOrdered base pages free v.ordered,
    insert-FreeRuns base pages free r v.runs,
    λ a. free_cover-insert a base pages free v.ordered (free_absent base free v.runs e),
  )

  remove_run :
      (base pages : ℕ)
      → get base free ≡ some pages
      → IsFree (remove base free)
        × ((a : ℕ) → free_cover a (remove base free) + hit a base pages ≡ free_cover a free)
  remove_run base pages g = (
    record {
      ordered = remove-IsOrdered base free v.ordered;
      runs = remove-FreeRuns base free v.runs;
      once = λ a. omega (arith, v.once a, free_cover-remove a base pages free v.ordered g);
    },
    λ a. free_cover-remove a base pages free v.ordered g,
  )

-- The free runs after a cut: they cover what they did, less the pages taken.
pub record Cut (free : Map ℕ ℕ) (base pages : ℕ) (rest : Map ℕ ℕ) : Type 0 where
  pub ordered : IsOrdered rest
  pub runs : FreeRuns rest
  pub taken : (a : ℕ) → free_cover a rest + hit a base pages ≡ free_cover a free

-- The part of the run before the aligned base.
module _ (free : Map ℕ ℕ) (v : IsFree free) (pages alignment : ℕ) (c : Choice)
    (h : Chosen free pages alignment c) (pos : 0 < pages) where
  abbrev before : Map ℕ ℕ
  before = if c.prefix == 0 then remove c.base free else insert c.base c.prefix (remove c.base free)

  before-Cut : Cut free c.aligned (c.available - c.prefix) before
  before-Cut =
      let (w, without) = remove_run free v c.base c.available h.stored in
      let run = v.runs c.base c.available h.stored in
      elim (Bool-cases (c.prefix == 0)) [
        | inl at_base ↦ rw at_base (record {
          ordered = w.ordered;
          runs = w.runs;
          taken = λ a. ground (arith, without a, h.offset);
        })
        | inr behind ↦
            let prefix_run : IsRun c.base c.prefix = record {
              nonempty = ground arith;
              aligned = run.aligned;
              fits = omega (arith, run.fits, h.room);
            } in
            let clear : free_cover c.base (remove c.base free) ≡ 0 =
              omega
                (arith, without c.base, hit_base c.base c.available run.nonempty, v.once c.base) in
            let (o, r, put) = put-IsFree (remove c.base free) w c.base c.prefix prefix_run clear in
            rw behind (record {
              ordered = o;
              runs = r;
              taken = λ a. ground (arith, without a, put a, h.offset, h.room);
            })
      ]

  pub cut-Cut : Cut free c.aligned pages (cut free c pages)
  unfolding cut
  cut-Cut =
      let b = before-Cut in
      let run = v.runs c.base c.available h.stored in
      let suffix = c.available - c.prefix - pages in
      let start = c.aligned + pages * page_bytes in
      let no_wrap : add64 c.aligned (mul64 pages page_bytes) ≡ start =
        omega (arith, h.offset, h.room, run.fits) in
      elim (Bool-cases (suffix == 0)) [
        | inl all ↦ rw all (record {
          ordered = b.ordered;
          runs = b.runs;
          taken = λ a. ground (arith, b.taken a, h.room);
        })
        | inr more ↦
            let suffix_run : IsRun start suffix = record {
              nonempty = ground arith;
              aligned = omega (arith, run.aligned, h.offset);
              fits = omega (arith, run.fits, h.room, h.offset);
            } in
            let clear : free_cover start before ≡ 0 =
              ground (arith, b.taken start, v.once start, h.room) in
            let once : (a : ℕ) → free_cover a before ≤ 1 =
              λ a. omega (arith, b.taken a, v.once a) in
            let (o, r, put) =
              put-IsFree before (record { ordered = b.ordered; runs = b.runs; once = once }) start
                suffix suffix_run clear in
            rw (more, no_wrap)
              (record {
                ordered = o;
                runs = r;
                taken = λ a. ground (arith, b.taken a, put a, h.room);
              })
      ]
