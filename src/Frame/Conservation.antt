-- ===== src/Frame/Conservation.antt =====
-- What the calls of the frame allocator keep, whatever their order (kernel/src/frame.rs).
use bulla.Prelude.{
  ℕ, refl, ap, Option, none, some, arith, Result, ok, err, ◌+◌, ◌*◌, ◌≤◌, ◌≡◌, ◌∙◌, ◌≢◌,
}
use bulla.Prelude.Map.{insert, nat_key}
use bulla.Prelude.Ordered.{insert-IsOrdered}
use bulla.Frame.{
  FrameRun, FrameAllocator, FrameError, page_bytes, allocate, mark_zeroed, lend, reclaim,
  split_allocated, join_allocated, release, add_region, coalesce, validate_run, generation_overflow,
}
use bulla.Frame.Cover.{
  hit, free_cover, cover, IsRun, IsSound, hit_base, free_absent, free_cover-insert, insert-FreeRuns,
  free_counted,
}
use bulla.Frame.Coalesce.{coalesce-IsSound, cover-coalesce}
use bulla.Frame.Kept.{Kept}
use bulla.Frame.Calls.{
  allocate-Allocates, allocate-Kept, lend-Kept, reclaim-Kept, mark_zeroed-Kept, release-Kept,
}
use bulla.Frame.Halves.{split_allocated-Kept, join_allocated-Kept}

-- A call of the allocator that hands runs around.
pub data FrameCall : Type 0 where
  take : ℕ → ℕ → FrameCall
  zero_out : FrameRun → FrameCall
  give : FrameRun → ℕ → FrameCall
  take_back : FrameRun → ℕ → FrameCall
  halve : FrameRun → ℕ → FrameCall
  unite : FrameRun → FrameRun → FrameCall
  free_run : FrameRun → FrameCall

-- The state after a call, and the error it ended in, if any.
abbrev pub refusal {ℓ} :
    {A : Type ℓ} → FrameAllocator × Result FrameError A → FrameAllocator × Option FrameError
refusal (f, ok a) = (f, none)
refusal (f, err e) = (f, some e)

abbrev pub do_call : FrameCall → FrameAllocator → FrameAllocator × Option FrameError
do_call (take pages alignment_pages) f = refusal (allocate f pages alignment_pages)
do_call (zero_out run) f = refusal (mark_zeroed f run)
do_call (give run borrower) f = refusal (lend f run borrower)
do_call (take_back run borrower) f = refusal (reclaim f run borrower)
do_call (halve run left_pages) f = refusal (split_allocated f run left_pages)
do_call (unite left right) f = refusal (join_allocated f left right)
do_call (free_run run) f = refusal (release f run)

-- Reached by calls none of which ran out of generations.
pub data Reaches (f : FrameAllocator) : FrameAllocator → Type 0 where
  start : Reaches f f
  next :
      {g : FrameAllocator}
      → Reaches f g
      → (c : FrameCall) → (do_call c g).1 ≢ some generation_overflow
      → Reaches f (do_call c g).0

same-Kept : (f f' : FrameAllocator) → IsSound f → f' ≡ f → Kept f f'
same-Kept f f' v e = rw e (record { sound = v; covers = λ a. refl })

-- What holds of the state of both outcomes holds of the state of the call.
by_outcome {ℓ} :
    {A : Type ℓ} (f : FrameAllocator) (p : FrameAllocator × Result FrameError A)
    → IsSound f
    → ((f' : FrameAllocator) (a : A) → p ≡ (f', ok a) → Kept f f')
    → ((e : FrameError) → p.1 ≡ err e → e ≢ generation_overflow → p.0 ≡ f)
    → (refusal p).1 ≢ some generation_overflow
    → Kept f (refusal p).0
by_outcome f (f', ok a) v good bad n = good f' a refl
by_outcome f (f', err e) v good bad n = same-Kept f f' v (bad e refl (λ q. n (ap some q)))

do_call-Kept :
    (c : FrameCall) (f : FrameAllocator)
    → IsSound f
    → (do_call c f).1 ≢ some generation_overflow
    → Kept f (do_call c f).0
unfolding allocate mark_zeroed lend reclaim split_allocated join_allocated release
do_call-Kept (take pages alignment_pages) f v n =
    by_outcome f (allocate f pages alignment_pages) v
      (λ f' run h.
        allocate-Kept f f' pages alignment_pages run v
          (allocate-Allocates f f' pages alignment_pages run v h))
      (λ e h q. ground arith) n
do_call-Kept (zero_out run) f v n =
    by_outcome f (mark_zeroed f run) v (λ f' r. mark_zeroed-Kept f f' run r v)
      (λ e h q. ground arith) n
do_call-Kept (give run borrower) f v n =
    by_outcome f (lend f run borrower) v (λ f' r. λ h. lend-Kept f f' run r borrower v h)
      (λ e h q. ground arith) n
do_call-Kept (take_back run borrower) f v n =
    by_outcome f (reclaim f run borrower) v (λ f' r h. reclaim-Kept f f' run r borrower v h)
      (λ e h q. ground arith) n
do_call-Kept (halve run left_pages) f v n =
    by_outcome f (split_allocated f run left_pages) v
      (λ f' r h. split_allocated-Kept f f' run left_pages r v h) (λ e h q. ground arith) n
do_call-Kept (unite left right) f v n =
    by_outcome f (join_allocated f left right) v
      (λ f' r h. join_allocated-Kept f f' left right r v h) (λ e h q. ground arith) n
do_call-Kept (free_run run) f v n =
    by_outcome f (release f run) v (λ f' r h. release-Kept f f' run v h) (λ e h q. ground arith) n

-- Whatever calls allocate, zero, lend, reclaim, split, join and release runs, in any order and
-- whether they are granted or refused, if none of them ends in GenerationOverflow: from an
-- allocator whose runs are whole pages and lie apart, the runs still are and do, and each byte is
-- covered by as many runs, free or allocated, as before. No frame is lost and none is held twice.
pub reaches-Kept : (f g : FrameAllocator) → IsSound f → Reaches f g → Kept f g
reaches-Kept f _ v start = same-Kept f f v refl
reaches-Kept f _ v (next {g} r c n) =
    let before = reaches-Kept f g v r in
    let after = do_call-Kept c g before.sound n in
    record { sound = after.sound; covers = λ a. after.covers a ∙ before.covers a }

-- What a successful call of `add_region` does.
record Adds (f f' : FrameAllocator) (base pages : ℕ) : Type 0 where
  is_run : IsRun base pages
  after : f' ≡ coalesce (record f { free = insert base pages f.free })

add_region-Adds :
    (f f' : FrameAllocator) (base pages : ℕ)
    → add_region f base pages ≡ (f', ok tt)
    → Adds f f' base pages
unfolding add_region validate_run
add_region-Adds f f' base pages h = record {
  is_run = record { nonempty = ground arith; aligned = ground arith; fits = ground arith };
  after = ground arith;
}

-- A region that is added where no run lies leaves an allocator whose runs are whole pages and lie
-- apart, in which the region's bytes are covered once more, and no other byte.
pub cover-add_region :
    (f f' : FrameAllocator) (base pages : ℕ)
    → IsSound f
    → ((a : ℕ) → cover a f + hit a base pages ≤ 1)
    → add_region f base pages ≡ (f', ok tt)
    → IsSound f' × ((a : ℕ) → cover a f' ≡ cover a f + hit a base pages)
cover-add_region f f' base pages v room h =
    let d = add_region-Adds f f' base pages h in
    let g : FrameAllocator = record f { free = insert base pages f.free } in
    let clear : free_cover base f.free ≡ 0 =
      omega (arith, room base, hit_base base pages d.is_run.nonempty) in
    let put : (a : ℕ) → free_cover a g.free ≡ free_cover a f.free + hit a base pages = λ a.
      free_cover-insert a base pages f.free v.free_ordered
        (free_absent base f.free v.free_runs clear) in
    let sound : IsSound g = record {
      free_ordered = insert-IsOrdered base pages f.free v.free_ordered;
      allocated_ordered = v.allocated_ordered;
      free_runs = insert-FreeRuns base pages f.free d.is_run v.free_runs;
      allocated_runs = v.allocated_runs;
      disjoint = λ a. omega (arith, room a, put a);
    } in
    rw d.after (coalesce-IsSound g sound, λ a. cover-coalesce g a sound ∙ omega (arith, put a))

-- A granted allocation has the pages asked for, starts at a multiple of the alignment, and holds
-- only bytes that were free.
pub allocate_fresh :
    (f f' : FrameAllocator) (pages alignment_pages : ℕ) (run : FrameRun)
    → IsSound f
    → allocate f pages alignment_pages ≡ (f', ok run)
    → (run.pages ≡ pages)
      × ((q : ℕ) × (run.base ≡ q * (alignment_pages * page_bytes)))
      × ((a : ℕ) → hit a run.base run.pages ≤ free_cover a f.free)
allocate_fresh f f' pages alignment_pages run v h =
    let d = allocate-Allocates f f' pages alignment_pages run v h in
    let c = d.chosen in
    let (q, e) = d.fits.multiple in
    (
      d.of_pages,
      (q, d.at_choice ∙ e),
      λ a. ground (
        arith,
        free_counted a c.base c.available f.free d.fits.stored,
        d.at_choice,
        d.of_pages,
        d.fits.offset,
        d.fits.room,
      ),
    )
