-- ===== src/Frame.antt =====
-- kernel/src/frame.rs: the physical frame allocator.
pub mod Cover
pub mod Kept
pub mod Calls
pub mod Halves
pub mod Conservation
pub mod Allocation
pub mod Fit
pub mod Coalesce
use bulla.Prelude.{
  ℕ, bit_and, Bool, true, false, not, Option, none, some, List, ltb, leb, Result, ok, err,
  refuse_if, ok_or, attempt, u64_mod, checked_add, checked_mul, add64, mul64, is_power_of_two,
  saturating_add, saturating_mul, ◌-◌, ◌/◌, ◌%◌, ◌&&◌, ◌||◌, [], ◌∷◌, ◌==◌, if◌then◌else◌, ◌>>=◌,
  ◌>>◌,
}
use bulla.Prelude.Map.{Map, get, insert, remove, nat_key}
use bulla.Prelude.Ordered.{last_entry}

pub record FrameRun : Type 0 where
  pub base : ℕ
  pub pages : ℕ
  pub generation : ℕ
  pub zeroed : Bool

pub data FrameError : Type 0 where
  empty misaligned range_overflow overlap out_of_memory unknown_run stale_generation : FrameError
  non_adjacent generation_overflow already_lent not_lent foreign_borrower : FrameError

pub record FrameAllocator : Type 0 where
  pub free : Map ℕ ℕ
  pub allocated : Map ℕ FrameRun
  pub generations : Map ℕ ℕ
  pub loans : Map ℕ ℕ

abbrev pub new_allocator : FrameAllocator
new_allocator = record { free = []; allocated = []; generations = []; loans = [] }

abbrev pub page_bytes : ℕ
page_bytes = 4096

abbrev pub has {ℓ} : {V : Type ℓ} → ℕ → Map ℕ V → Bool
has k m = elim (get k m) [ none ↦ false | some _ ↦ true ]

unfoldable pub validate_run : ℕ → ℕ → Result FrameError (Unit {0})
validate_run base pages = do
  refuse_if (pages == 0) empty
  refuse_if (not (base % page_bytes == 0)) misaligned
  bytes ← ok_or (checked_mul pages page_bytes) range_overflow
  _ ← ok_or (checked_add base bytes) range_overflow
  ok tt

-- One round of the loop of `coalesce`: an entry is joined to the last one, or set behind it.
unfoldable pub coalesce_step : Map ℕ ℕ → ℕ → ℕ → Map ℕ ℕ
coalesce_step done base pages = elim (last_entry done) [
  | none ↦ insert base pages done
  | some (previous_base, previous_pages) ↦
      if add64 previous_base (mul64 previous_pages page_bytes) == base
      then insert previous_base (add64 previous_pages pages) done
      else insert base pages done
]

unfoldable pub coalesce_into : Map ℕ ℕ → List (ℕ × ℕ) → Map ℕ ℕ
coalesce_into done [] = done
coalesce_into done ((base, pages) ∷ rest) = coalesce_into (coalesce_step done base pages) rest

unfoldable pub coalesce : FrameAllocator → FrameAllocator
coalesce f = record f { free = coalesce_into [] f.free }

unfoldable pub meets_free : ℕ → ℕ → Map ℕ ℕ → Bool
meets_free base end [] = false
meets_free base end ((other_base, other_pages) ∷ rest) =
    let other_end = saturating_add other_base (saturating_mul other_pages page_bytes) in
    (ltb base other_end && ltb other_base end) || meets_free base end rest

unfoldable pub add_region : FrameAllocator → ℕ → ℕ → FrameAllocator × Result FrameError (Unit {0})
add_region f base pages = attempt (validate_run base pages) f λ _.
    attempt (ok_or (checked_mul pages page_bytes) range_overflow) f λ bytes.
      attempt (ok_or (checked_add base bytes) range_overflow) f λ end.
        attempt (refuse_if (meets_free base end f.free) overlap) f
          λ _. (coalesce (record f { free = insert base pages f.free }), ok tt)

-- What `find_map` computes of one free run: the aligned base and the pages before it.
unfoldable pub fit : ℕ → ℕ → ℕ → ℕ → Option (ℕ × ℕ)
fit pages alignment base available = elim (checked_add base (alignment - 1)) [
  | none ↦ none
  | some top ↦
      let aligned = bit_and top (u64_mod - 1 - (alignment - 1)) in
      if ltb aligned base
      then none
      else let prefix = (aligned - base) / page_bytes in
        elim (checked_add prefix pages) [
          | none ↦ none
          | some needed ↦ if leb needed available then some (aligned, prefix) else none
        ]
]

pub record Choice : Type 0 where
  pub base : ℕ
  pub available : ℕ
  pub aligned : ℕ
  pub prefix : ℕ

unfoldable pub first_fit : ℕ → ℕ → Map ℕ ℕ → Option Choice
first_fit pages alignment [] = none
first_fit pages alignment ((base, available) ∷ rest) =
    let others = first_fit pages alignment rest in
    elim (fit pages alignment base available) [
      | none ↦ others
      | some (aligned, prefix) ↦
          some (record { base = base; available = available; aligned = aligned; prefix = prefix })
    ]

-- The free runs once the chosen pages are cut out of their run.
unfoldable pub cut : Map ℕ ℕ → Choice → ℕ → Map ℕ ℕ
cut free c pages =
    let without = remove c.base free in
    let before = if c.prefix == 0 then without else insert c.base c.prefix without in
    let suffix = c.available - c.prefix - pages in
    if suffix == 0 then before else insert (add64 c.aligned (mul64 pages page_bytes)) suffix before

abbrev pub generation_of : FrameAllocator → ℕ → ℕ
generation_of f base = elim (get base f.generations) [ none ↦ 0 | some g ↦ g ]

unfoldable pub allocate : FrameAllocator → ℕ → ℕ → FrameAllocator × Result FrameError FrameRun
allocate f pages alignment_pages =
    attempt
      (refuse_if (pages == 0 || alignment_pages == 0 || not (is_power_of_two alignment_pages))
        empty)
      f
      λ _. attempt (ok_or (checked_mul alignment_pages page_bytes) range_overflow) f λ alignment.
        attempt (ok_or (first_fit pages alignment f.free) out_of_memory) f λ c.
          let run : FrameRun = record {
            base = c.aligned;
            pages = pages;
            generation = generation_of f c.aligned;
            zeroed = false;
          } in
          (
            record f { free = cut f.free c pages; allocated = insert c.aligned run f.allocated },
            ok run,
          )

unfoldable pub validate : FrameAllocator → FrameRun → Result FrameError FrameRun
validate f run = do
  live ← ok_or (get run.base f.allocated) unknown_run
  refuse_if (not (live.generation == run.generation)) stale_generation
  refuse_if (not (live.pages == run.pages)) unknown_run
  ok live

unfoldable pub mark_zeroed : FrameAllocator → FrameRun → FrameAllocator × Result FrameError FrameRun
mark_zeroed f run = attempt (validate f run) f λ live.
    let zeroed : FrameRun = record live { zeroed = true } in
    (record f { allocated = insert run.base zeroed f.allocated }, ok zeroed)

unfoldable pub lend : FrameAllocator → FrameRun → ℕ → FrameAllocator × Result FrameError FrameRun
lend f run borrower = attempt (validate f run) f λ live.
    attempt (refuse_if (has run.base f.loans) already_lent) f λ _.
      attempt (ok_or (checked_add live.generation 1) generation_overflow) f λ generation.
        let lent : FrameRun = record live { generation = generation } in
        (
          record f {
            allocated = insert run.base lent f.allocated;
            generations = insert run.base generation f.generations;
            loans = insert run.base borrower f.loans;
          },
          ok lent,
        )

abbrev pub lent_to : FrameAllocator → ℕ → ℕ → Result FrameError (Unit {0})
lent_to f base borrower = elim (get base f.loans) [
  | none ↦ err not_lent
  | some owner ↦ refuse_if (not (owner == borrower)) foreign_borrower
]

unfoldable pub reclaim : FrameAllocator → FrameRun → ℕ → FrameAllocator × Result FrameError FrameRun
reclaim f run borrower = attempt (validate f run) f λ live.
    attempt (lent_to f run.base borrower) f λ _.
      attempt (ok_or (checked_add live.generation 1) generation_overflow) f λ generation.
        let reclaimed : FrameRun = record live { generation = generation } in
        (
          record f {
            allocated = insert run.base reclaimed f.allocated;
            generations = insert run.base generation f.generations;
            loans = remove run.base f.loans;
          },
          ok reclaimed,
        )

unfoldable pub split : FrameRun → ℕ → Result FrameError (FrameRun × FrameRun)
split run left_pages = do
  refuse_if (left_pages == 0 || leb run.pages left_pages) empty
  ok (
    record run { pages = left_pages },
    record run {
      base = add64 run.base (mul64 left_pages page_bytes);
      pages = run.pages - left_pages;
    },
  )

unfoldable pub split_allocated :
    FrameAllocator → FrameRun → ℕ → FrameAllocator × Result FrameError (FrameRun × FrameRun)
unfolding split
split_allocated f run left_pages = attempt (validate f run) f λ live.
    attempt (refuse_if (has run.base f.loans) already_lent) f λ _.
      attempt (split live left_pages) f λ halves.
        let left = halves.0 in
        let right = halves.1 in
        (
          record f {
            allocated =
                insert right.base right (insert left.base left (remove run.base f.allocated));
            generations =
                if has right.base f.generations
                then f.generations
                else insert right.base right.generation f.generations;
          },
          ok (left, right),
        )

abbrev same_flag : Bool → Bool → Bool
same_flag true b = b
same_flag false b = not b

unfoldable pub join : FrameRun → FrameRun → Result FrameError FrameRun
join left right = do
  refuse_if (not (left.generation == right.generation)) non_adjacent
  refuse_if (not (same_flag left.zeroed right.zeroed)) non_adjacent
  refuse_if (not (add64 left.base (mul64 left.pages page_bytes) == right.base)) non_adjacent
  pages ← ok_or (checked_add left.pages right.pages) range_overflow
  ok (record left { pages = pages })

unfoldable pub join_allocated :
    FrameAllocator → FrameRun → FrameRun → FrameAllocator × Result FrameError FrameRun
unfolding join
join_allocated f left right = attempt (validate f left) f λ left_live.
    attempt (validate f right) f λ right_live.
      attempt (refuse_if (has left.base f.loans || has right.base f.loans) already_lent) f λ _.
        attempt (join left_live right_live) f λ joined. (
          record f {
            allocated =
                insert joined.base joined (remove right.base (remove left.base f.allocated));
          },
          ok joined,
        )

-- The run leaves the allocated ones before its generation is counted, as in the source.
unfoldable pub release : FrameAllocator → FrameRun → FrameAllocator × Result FrameError (Unit {0})
release f run = attempt (validate f run) f λ _.
    attempt (refuse_if (has run.base f.loans) already_lent) f λ _.
      let f' : FrameAllocator = record f { allocated = remove run.base f.allocated } in
      attempt (ok_or (checked_add run.generation 1) generation_overflow) f' λ next. (
        coalesce (record f' {
          generations = insert run.base next f.generations;
          free = insert run.base run.pages f.free;
        }),
        ok tt,
      )

unfoldable pub free_pages : Map ℕ ℕ → ℕ
free_pages [] = 0
free_pages ((base, pages) ∷ rest) = add64 pages (free_pages rest)
