-- ===== src/Frame/Calls.antt =====
-- Each call of the allocator that succeeds keeps the bytes covered (kernel/src/frame.rs).

use bulla.Prelude.{
  ℕ, refl, ap, true, some, arith, Option-cases, ok, Result-cases, u64_mod, is_power_of_two, inl,
  inr, ◌+◌, ◌*◌, ◌<◌, ◌≡◌, ◌∙◌,
}
use bulla.Prelude.Map.{insert, remove, nat_key}
use bulla.Prelude.Ordered.{insert-IsOrdered, remove-IsOrdered}
use bulla.Frame.{
  FrameRun, FrameAllocator, Choice, page_bytes, cut, coalesce, first_fit, allocate, mark_zeroed,
  lend, reclaim, release, validate,
}
use bulla.Frame.Cover.{
  hit, free_cover, allocated_cover, IsRun, IsSound, hit_base, free_absent, free_cover-insert,
  allocated_cover-remove, insert-FreeRuns, remove-AllocatedRuns,
}
use bulla.Frame.Fit.{Chosen, first_fit-Chosen}
use bulla.Frame.Coalesce.{coalesce-IsSound, cover-coalesce}
use bulla.Frame.Allocation.{cut-Cut}
use bulla.Frame.Kept.{Kept, free_part, settle, validate-Valid, replace-Kept}

-- What a successful allocation chose and wrote.
pub record Allocates (f f' : FrameAllocator) (pages alignment_pages : ℕ) (run : FrameRun)
    : Type 0 where
  pub chosen : Choice
  pub fits : Chosen f.free pages (alignment_pages * page_bytes) chosen
  pub positive : 0 < pages
  pub at_choice : run.base ≡ chosen.aligned
  pub of_pages : run.pages ≡ pages
  pub free_after : f'.free ≡ cut f.free chosen pages
  pub allocated_after : f'.allocated ≡ insert run.base run f.allocated

pub allocate-Allocates :
    (f f' : FrameAllocator) (pages alignment_pages : ℕ) (run : FrameRun)
    → IsSound f
    → allocate f pages alignment_pages ≡ (f', ok run)
    → Allocates f f' pages alignment_pages run
unfolding allocate
allocate-Allocates f f' pages alignment_pages run v h =
    elim (Option-cases (first_fit pages (alignment_pages * page_bytes) f.free)) [
      | inl no_fit ↦ absurd (ground arith)
      | inr (c, found) ↦
          let power : is_power_of_two alignment_pages ≡ true = ground arith in
          let small : alignment_pages * page_bytes < u64_mod = ground arith in
          record {
            chosen = c;
            fits =
                first_fit-Chosen pages alignment_pages (alignment_pages * page_bytes) refl power
                  small 0 f.free c v.free_ordered v.free_runs found;
            positive = ground arith;
            at_choice = ground arith;
            of_pages = ground arith;
            free_after = ground arith;
            allocated_after = ground arith;
          }
    ]

pub allocate-Kept :
    (f f' : FrameAllocator) (pages alignment_pages : ℕ) (run : FrameRun)
    → IsSound f
    → Allocates f f' pages alignment_pages run
    → Kept f f'
allocate-Kept f f' pages alignment_pages run v h =
    let c = h.chosen in
    let part = free_part f v in
    let taken = cut-Cut f.free part pages (alignment_pages * page_bytes) c h.fits h.positive in
    let whole = v.free_runs c.base c.available h.fits.stored in
    let is_run : IsRun run.base run.pages = record {
      nonempty = omega (arith, h.positive, h.of_pages);
      aligned = omega (arith, whole.aligned, h.at_choice, h.fits.offset);
      fits = omega (arith, whole.fits, h.at_choice, h.of_pages, h.fits.offset, h.fits.room);
    } in
    settle f f' run f.allocated v (rw h.free_after taken.ordered) (rw h.free_after taken.runs)
      v.allocated_ordered v.allocated_runs is_run
      (λ a. omega (
        arith,
        taken.taken a,
        ap (free_cover a) h.free_after,
        ap (λ b. hit a b run.pages) h.at_choice,
        ap (hit a c.aligned) h.of_pages,
      ))
      h.allocated_after

pub lend-Kept :
    (f f' : FrameAllocator) (run lent : FrameRun) (borrower : ℕ)
    → IsSound f
    → lend f run borrower ≡ (f', ok lent)
    → Kept f f'
unfolding lend
lend-Kept f f' run lent borrower v h = elim (Result-cases (validate f run)) [
  | inl (live, e) ↦
      let d = validate-Valid f run live v e in
      let same : d.live ≡ live = cc (d.answer, e) in
      replace-Kept f f' live (record live { generation = live.generation + 1 }) run.base v
        (d.stored ∙ ap some same) refl refl (ground arith) (ground arith)
  | inr (x, e) ↦ absurd (ground arith)
]

pub reclaim-Kept :
    (f f' : FrameAllocator) (run back : FrameRun) (borrower : ℕ)
    → IsSound f
    → reclaim f run borrower ≡ (f', ok back)
    → Kept f f'
unfolding reclaim
reclaim-Kept f f' run back borrower v h = elim (Result-cases (validate f run)) [
  | inl (live, e) ↦
      let d = validate-Valid f run live v e in
      let same : d.live ≡ live = cc (d.answer, e) in
      replace-Kept f f' live (record live { generation = live.generation + 1 }) run.base v
        (d.stored ∙ ap some same) refl refl (ground arith) (ground arith)
  | inr (x, e) ↦ absurd (ground arith)
]

pub mark_zeroed-Kept :
    (f f' : FrameAllocator) (run zeroed : FrameRun)
    → IsSound f
    → mark_zeroed f run ≡ (f', ok zeroed)
    → Kept f f'
unfolding mark_zeroed
mark_zeroed-Kept f f' run zeroed v h = elim (Result-cases (validate f run)) [
  | inl (live, e) ↦
      let d = validate-Valid f run live v e in
      let same : d.live ≡ live = cc (d.answer, e) in
      replace-Kept f f' live (record live { zeroed = true }) run.base v (d.stored ∙ ap some same)
        refl refl (ground arith) (ground arith)
  | inr (x, e) ↦ absurd (ground arith)
]

pub release-Kept :
    (f f' : FrameAllocator) (run : FrameRun) → IsSound f → release f run ≡ (f', ok tt) → Kept f f'
unfolding release
release-Kept f f' run v h = elim (Result-cases (validate f run)) [
  | inl (live, e) ↦
      let d = validate-Valid f run live v e in
      let same : d.live ≡ live = cc (d.answer, e) in
      let rest = remove run.base f.allocated in
      let g : FrameAllocator = record f {
        allocated = rest;
        generations = insert run.base (run.generation + 1) f.generations;
        free = insert run.base run.pages f.free;
      } in
      let out : (a : ℕ)
          → allocated_cover a rest + hit a run.base run.pages ≡ allocated_cover a f.allocated =
        λ a. omega (
          arith,
          allocated_cover-remove a run.base d.live f.allocated v.allocated_ordered d.stored,
          ap (λ b. hit a b d.live.pages) d.at_base,
          ap (hit a run.base) d.same_pages,
        ) in
      let clear : free_cover run.base f.free ≡ 0 =
        omega (
          arith,
          v.disjoint run.base,
          out run.base,
          hit_base run.base run.pages d.is_run.nonempty,
        ) in
      let put : (a : ℕ) → free_cover a g.free ≡ free_cover a f.free + hit a run.base run.pages =
        λ a.
          free_cover-insert a run.base run.pages f.free v.free_ordered
            (free_absent run.base f.free v.free_runs clear) in
      let sound : IsSound g = record {
        free_ordered = insert-IsOrdered run.base run.pages f.free v.free_ordered;
        allocated_ordered = remove-IsOrdered run.base f.allocated v.allocated_ordered;
        free_runs = insert-FreeRuns run.base run.pages f.free d.is_run v.free_runs;
        allocated_runs = remove-AllocatedRuns run.base f.allocated v.allocated_runs;
        disjoint = λ a. omega (arith, v.disjoint a, out a, put a);
      } in
      let after_it : f' ≡ coalesce g = ground arith in
      rw after_it (record {
        sound = coalesce-IsSound g sound;
        covers = λ a. cover-coalesce g a sound ∙ omega (arith, out a, put a);
      })
  | inr (x, e) ↦ absurd (ground arith)
]
