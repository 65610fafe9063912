-- ===== src/Frame/Kept.antt =====
-- How the invariant is restored when one allocated run is put back or replaced
-- (kernel/src/frame.rs).

use bulla.Prelude.{ℕ, refl, ap, some, arith, ok, ◌+◌, ◌≡◌, ◌∙◌}
use bulla.Prelude.Map.{Map, get, insert, nat_key}
use bulla.Prelude.Ordered.{IsOrdered, insert-IsOrdered}
use bulla.Frame.{FrameRun, FrameAllocator, validate}
use bulla.Frame.Cover.{
  hit, free_cover, allocated_cover, cover, IsRun, FreeRuns, AllocatedRuns, IsSound, hit_base,
  allocated_absent, allocated_cover-insert, allocated_cover-replace, insert-AllocatedRuns,
}
use bulla.Frame.Allocation.{IsFree}

-- The state after a call: it is sound, and every byte is covered as often as before.
pub record Kept (f f' : FrameAllocator) : Type 0 where
  pub sound : IsSound f'
  pub covers : (a : ℕ) → cover a f' ≡ cover a f

pub free_part : (f : FrameAllocator) → IsSound f → IsFree f.free
free_part f v = record {
  ordered = v.free_ordered;
  runs = v.free_runs;
  once = λ a. omega (arith, v.disjoint a);
}

-- A run put at a byte that no allocated run holds.
pub put_allocated :
    (run : FrameRun) (m : Map ℕ FrameRun)
    → IsOrdered m
    → AllocatedRuns m
    → IsRun run.base run.pages
    → allocated_cover run.base m ≡ 0
    → IsOrdered (insert run.base run m)
      × AllocatedRuns (insert run.base run m)
      × ((a : ℕ)
          → allocated_cover a (insert run.base run m)
            ≡ allocated_cover a m + hit a run.base run.pages)
put_allocated run m o runs r e = (
  insert-IsOrdered run.base run m o,
  insert-AllocatedRuns run.base run m refl r runs,
  λ a. allocated_cover-insert a run.base run m o (allocated_absent run.base m runs e),
)

-- One run is put back where the free runs and the other allocated ones leave room for it.
pub settle :
    (f f' : FrameAllocator) (run : FrameRun) (rest : Map ℕ FrameRun)
    → IsSound f
    → IsOrdered f'.free
    → FreeRuns f'.free
    → IsOrdered rest
    → AllocatedRuns rest
    → IsRun run.base run.pages
    → ((a : ℕ)
        → free_cover a f'.free + allocated_cover a rest + hit a run.base run.pages ≡ cover a f)
    → f'.allocated ≡ insert run.base run rest
    → Kept f f'
settle f f' run rest v fo fr o runs r covers e =
    let clear : allocated_cover run.base rest ≡ 0 =
      omega (arith, covers run.base, hit_base run.base run.pages r.nonempty, v.disjoint run.base) in
    let (o', runs', put) = put_allocated run rest o runs r clear in
    let covers' : (a : ℕ) → cover a f' ≡ cover a f =
      λ a. omega (arith, ap (allocated_cover a) e, covers a, put a) in
    record {
      sound = record {
        free_ordered = fo;
        allocated_ordered = rw e o';
        free_runs = fr;
        allocated_runs = rw e runs';
        disjoint = λ a. omega (arith, covers' a, v.disjoint a);
      };
      covers = covers';
    }

-- A run that validates is stored, at its own base and length.
pub record Valid (f : FrameAllocator) (run : FrameRun) : Type 0 where
  pub live : FrameRun
  pub stored : get run.base f.allocated ≡ some live
  pub at_base : live.base ≡ run.base
  pub same_pages : live.pages ≡ run.pages
  pub same_generation : live.generation ≡ run.generation
  pub is_run : IsRun run.base run.pages
  pub answer : validate f run ≡ ok live

pub validate-Valid :
    (f : FrameAllocator) (run live : FrameRun) → IsSound f → validate f run ≡ ok live → Valid f run
unfolding validate
validate-Valid f run live v h =
    let found : get run.base f.allocated ≡ some live = ground arith in
    let (here, is_run) = v.allocated_runs run.base live found in
    let same : live.pages ≡ run.pages = ground arith in
    record {
      live = live;
      stored = found;
      at_base = here;
      same_pages = same;
      same_generation = ground arith;
      is_run = rw same at is_run;
      answer = h;
    }

-- A stored run replaced by one over the same bytes.
pub replace-Kept :
    (f f' : FrameAllocator) (old new : FrameRun) (k : ℕ)
    → IsSound f
    → get k f.allocated ≡ some old
    → new.base ≡ old.base
    → new.pages ≡ old.pages
    → f'.free ≡ f.free
    → f'.allocated ≡ insert k new f.allocated
    → Kept f f'
replace-Kept f f' old new k v g e p ef ea =
    let (here, is_run) = v.allocated_runs k old g in
    let covers : (a : ℕ) → cover a f' ≡ cover a f = λ a.
      rw (ef, ea)
        (ap (λ t. free_cover a f.free + t)
          (allocated_cover-replace a k old new f.allocated v.allocated_ordered g e p)) in
    record {
      sound = record {
        free_ordered = rw ef v.free_ordered;
        allocated_ordered = rw ea (insert-IsOrdered k new f.allocated v.allocated_ordered);
        free_runs = rw ef v.free_runs;
        allocated_runs =
            rw ea
              (insert-AllocatedRuns k new f.allocated (e ∙ here) (rw p is_run) v.allocated_runs);
        disjoint = λ a. omega (arith, covers a, v.disjoint a);
      };
      covers = covers;
    }
