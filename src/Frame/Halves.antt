-- ===== src/Frame/Halves.antt =====
-- Splitting and joining allocated runs keep the bytes covered (kernel/src/frame.rs).

use bulla.Prelude.{
  ℕ, sym, ap, some, arith, ok, Result-cases, add64, mul64, inl, inr, ◌+◌, ◌-◌, ◌*◌, ◌<◌, ◌≡◌, ◌∙◌,
}
use bulla.Prelude.Map.{get, insert, remove, get-remove, nat_key}
use bulla.Prelude.Ordered.{remove-IsOrdered}
use bulla.Frame.{
  FrameRun, FrameAllocator, page_bytes, split_allocated, join_allocated, validate, join,
}
use bulla.Frame.Cover.{
  hit, free_cover, allocated_cover, run_hit, IsRun, IsSound, hit_base, allocated_cover-remove,
  remove-AllocatedRuns,
}
use bulla.Frame.Kept.{Kept, put_allocated, settle, validate-Valid}

pub split_allocated-Kept :
    (f f' : FrameAllocator) (run : FrameRun) (left_pages : ℕ) (halves : FrameRun × FrameRun)
    → IsSound f
    → split_allocated f run left_pages ≡ (f', ok halves)
    → Kept f f'
unfolding split_allocated
split_allocated-Kept f f' run left_pages halves v h = elim (Result-cases (validate f run)) [
  | inl (live, e) ↦
      let d = validate-Valid f run live v e in
      let same : d.live ≡ live = cc (d.answer, e) in
      let base_eq : live.base ≡ run.base = ap (λ (r : FrameRun). r.base) (sym same) ∙ d.at_base in
      let pages_eq : live.pages ≡ run.pages =
        ap (λ (r : FrameRun). r.pages) (sym same) ∙ d.same_pages in
      let inside : (0 < left_pages) × (left_pages < run.pages) = ground arith in
      let left : FrameRun = record live { pages = left_pages } in
      let right : FrameRun = record live {
        base = live.base + left_pages * page_bytes;
        pages = live.pages - left_pages;
      } in
      let no_wrap : add64 live.base (mul64 left_pages page_bytes) ≡ right.base =
        omega (arith, d.is_run.fits) in
      let rest = remove run.base f.allocated in
      let out : (a : ℕ)
          → allocated_cover a rest + hit a live.base live.pages ≡ allocated_cover a f.allocated =
        λ a. omega (
          arith,
          allocated_cover-remove a run.base d.live f.allocated v.allocated_ordered d.stored,
          ap (run_hit a run.base) same,
        ) in
      let left_run : IsRun left.base left.pages = record {
        nonempty = inside.0;
        aligned = omega (arith, d.is_run.aligned);
        fits = omega (arith, d.is_run.fits);
      } in
      let right_run : IsRun right.base right.pages = record {
        nonempty = omega arith;
        aligned = omega (arith, d.is_run.aligned);
        fits = omega (arith, d.is_run.fits);
      } in
      let clear : allocated_cover left.base rest ≡ 0 =
        omega (
          arith,
          v.disjoint left.base,
          out left.base,
          hit_base live.base live.pages (omega arith),
        ) in
      let (o, runs, put) =
        put_allocated left rest (remove-IsOrdered run.base f.allocated v.allocated_ordered)
          (remove-AllocatedRuns run.base f.allocated v.allocated_runs) left_run clear in
      let free_same : f'.free ≡ f.free = ground arith in
      settle f f' right (insert left.base left rest) v (rw free_same v.free_ordered)
        (rw free_same v.free_runs) o runs right_run
        (λ a. ground (arith, out a, put a, ap (free_cover a) free_same)) (ground (arith, no_wrap))
  | inr (x, e) ↦ absurd (ground arith)
]

-- What a successful join read and wrote.
record Joins (f f' : FrameAllocator) (l r joined : FrameRun) : Type 0 where
  adjacent : add64 l.base (mul64 l.pages page_bytes) ≡ r.base
  joined_is : joined ≡ record l { pages = l.pages + r.pages }
  free_same : f'.free ≡ f.free

join-Joins :
    (f f' : FrameAllocator) (left right l r joined : FrameRun)
    → validate f left ≡ ok l
    → validate f right ≡ ok r
    → join_allocated f left right ≡ (f', ok joined)
    → Joins f f' l r joined
      × (f'.allocated
          ≡ insert joined.base joined (remove right.base (remove left.base f.allocated)))
unfolding join_allocated join
join-Joins f f' left right l r joined e e' h = (
  record { adjacent = ground arith; joined_is = ground arith; free_same = ground arith },
  ground arith,
)

pub join_allocated-Kept :
    (f f' : FrameAllocator) (left right joined : FrameRun)
    → IsSound f
    → join_allocated f left right ≡ (f', ok joined)
    → Kept f f'
unfolding join_allocated
join_allocated-Kept f f' left right joined v h = elim (Result-cases (validate f left)) [
  | inl (l, e) ↦ elim (Result-cases (validate f right)) [
    | inl (r, e') ↦
        let d = validate-Valid f left l v e in
        let d' = validate-Valid f right r v e' in
        let same : d.live ≡ l = cc (d.answer, e) in
        let same' : d'.live ≡ r = cc (d'.answer, e') in
        let lb : l.base ≡ left.base = ap (λ (x : FrameRun). x.base) (sym same) ∙ d.at_base in
        let lp : l.pages ≡ left.pages = ap (λ (x : FrameRun). x.pages) (sym same) ∙ d.same_pages in
        let rb : r.base ≡ right.base = ap (λ (x : FrameRun). x.base) (sym same') ∙ d'.at_base in
        let rp : r.pages ≡ right.pages =
          ap (λ (x : FrameRun). x.pages) (sym same') ∙ d'.same_pages in
        let (w, written) = join-Joins f f' left right l r joined e e' h in
        let adjacent : l.base + l.pages * page_bytes ≡ r.base =
          omega (arith, w.adjacent, d.is_run.fits, lb, lp) in
        let others = remove left.base f.allocated in
        let rest = remove right.base others in
        let apart : (left.base ≡ right.base) → ⊥ =
          λ q. omega (arith, adjacent, q, lb, rb, lp, d.is_run.nonempty) in
        let still : get right.base others ≡ some d'.live =
          ground (arith, get-remove left.base right.base f.allocated, d'.stored, apart) in
        let o = remove-IsOrdered left.base f.allocated v.allocated_ordered in
        let first : (a : ℕ)
            → allocated_cover a others + hit a l.base l.pages ≡ allocated_cover a f.allocated =
          λ a. omega (
            arith,
            allocated_cover-remove a left.base d.live f.allocated v.allocated_ordered d.stored,
            ap (run_hit a left.base) same,
          ) in
        let second : (a : ℕ)
            → allocated_cover a rest + hit a r.base r.pages ≡ allocated_cover a others =
          λ a. omega (
            arith,
            allocated_cover-remove a right.base d'.live others o still,
            ap (run_hit a right.base) same',
          ) in
        let whole : (a : ℕ)
            → hit a joined.base joined.pages ≡ hit a l.base l.pages + hit a r.base r.pages =
          λ a. rw w.joined_is (ground (arith, adjacent)) in
        settle f f' joined rest v (rw w.free_same v.free_ordered) (rw w.free_same v.free_runs)
          (remove-IsOrdered right.base others o)
          (remove-AllocatedRuns right.base others
            (remove-AllocatedRuns left.base f.allocated v.allocated_runs))
          (rw w.joined_is (record {
            nonempty = omega (arith, d.is_run.nonempty, lp);
            aligned = omega (arith, d.is_run.aligned, lb);
            fits = omega (arith, d'.is_run.fits, adjacent, rb, rp);
          }))
          (λ a. omega (arith, whole a, first a, second a, ap (free_cover a) w.free_same)) written
    | inr (x, e') ↦ absurd (ground arith)
  ]
  | inr (x, e) ↦ absurd (ground arith)
]
