-- ===== src/Atomic.antt =====
-- kernel/src/atomic.rs: orderings, widths and the operations of one atomic cell.
pub mod Agreement
pub mod Cells
pub mod Model
pub mod Moves
pub mod Reads
pub mod Trace
use bulla.Prelude.{
  ℕ, bit_and, bit_or, bit_xor, Bool, true, false, not, Result, ok, refuse_if, attempt, u32_mod,
  u64_mod, add64, ◌+◌, ◌-◌, ◌%◌, ◌&&◌, ◌||◌, ◌==◌, if◌then◌else◌, ◌>>=◌, ◌>>◌,
}
use bulla.Capability.{Capability, CapabilityKind, kind_eq, contains, contains_range, read, write}

pub data AtomicOrdering : Type 0 where
  relaxed acquire release acq_rel seq_cst : AtomicOrdering

pub data AtomicWidth : Type 0 where
  bool u32 u64 usize : AtomicWidth

unfoldable pub bytes : AtomicWidth → ℕ
bytes bool = 1
bytes u32 = 4
bytes u64 = 8
bytes usize = 8

unfoldable pub mask : AtomicWidth → ℕ
mask bool = 1
mask u32 = u32_mod - 1
mask u64 = u64_mod - 1
mask usize = u64_mod - 1

pub data AtomicError : Type 0 where
  wrong_capability missing_rights misaligned out_of_range illegal_load_ordering : AtomicError
  illegal_store_ordering illegal_failure_ordering failure_stronger_than_success : AtomicError
  unknown_cell duplicate_cell illegal_fence_ordering event_overflow : AtomicError

pub record CompareExchange : Type 0 where
  pub previous : ℕ
  pub exchanged : Bool

pub record AtomicCell : Type 0 where
  pub width : AtomicWidth
  pub address : ℕ
  pub value : ℕ
  pub modification_order : ℕ

-- `matches!(ordering, Release | AcqRel)`, illegal for loads and for failed exchanges.
abbrev pub is_releasing : AtomicOrdering → Bool
is_releasing release = true
is_releasing acq_rel = true
is_releasing _ = false

-- `matches!(ordering, Acquire | AcqRel)`, illegal for stores.
abbrev pub is_acquiring : AtomicOrdering → Bool
is_acquiring acquire = true
is_acquiring acq_rel = true
is_acquiring _ = false

abbrev is_backing : CapabilityKind → Bool
is_backing kind =
    kind_eq kind CapabilityKind.phys_region
    || kind_eq kind CapabilityKind.virt_region
    || kind_eq kind CapabilityKind.cpu_local

unfoldable pub create : Capability → AtomicWidth → ℕ → ℕ → Result AtomicError AtomicCell
create backing width address initial = do
  refuse_if (not (is_backing backing.kind)) wrong_capability
  refuse_if (not (contains backing.rights (bit_or read write))) missing_rights
  refuse_if (not (address % bytes width == 0)) misaligned
  refuse_if (not (contains_range backing address (bytes width))) out_of_range
  ok (record {
    width = width;
    address = address;
    value = bit_and initial (mask width);
    modification_order = 0;
  })

-- The private `write`.
unfoldable pub write_cell : AtomicCell → ℕ → AtomicCell
write_cell c value = record c {
  value = bit_and value (mask c.width);
  modification_order = add64 c.modification_order 1;
}

unfoldable pub load : AtomicCell → AtomicOrdering → Result AtomicError ℕ
load c ordering = do refuse_if (is_releasing ordering) illegal_load_ordering; ok c.value

unfoldable pub store : AtomicCell → ℕ → AtomicOrdering → AtomicCell × Result AtomicError (Unit {0})
store c value ordering =
    attempt (refuse_if (is_acquiring ordering) illegal_store_ordering) c
      λ _. (write_cell c value, ok tt)

unfoldable pub swap : AtomicCell → ℕ → AtomicOrdering → AtomicCell × Result AtomicError ℕ
swap c value _ = (write_cell c value, ok c.value)

-- The failure orderings that the success ordering permits.
abbrev is_permitted : AtomicOrdering → AtomicOrdering → Bool
is_permitted _ relaxed = true
is_permitted acquire acquire = true
is_permitted acq_rel acquire = true
is_permitted seq_cst acquire = true
is_permitted seq_cst seq_cst = true
is_permitted _ _ = false

unfoldable pub validate_compare_exchange :
    AtomicOrdering → AtomicOrdering → Result AtomicError (Unit {0})
validate_compare_exchange success failure = do
  refuse_if (is_releasing failure) illegal_failure_ordering
  refuse_if (not (is_permitted success failure)) failure_stronger_than_success

unfoldable pub compare_exchange :
    AtomicCell
    → ℕ
    → ℕ
    → AtomicOrdering
    → AtomicOrdering
    → AtomicCell × Result AtomicError CompareExchange
compare_exchange c current new success failure =
    attempt (validate_compare_exchange success failure) c λ _.
      let exchanged = c.value == bit_and current (mask c.width) in
      (
        if exchanged then write_cell c new else c,
        ok (record { previous = c.value; exchanged = exchanged }),
      )

unfoldable pub compare_exchange_weak :
    AtomicCell
    → ℕ
    → ℕ
    → AtomicOrdering
    → AtomicOrdering
    → Bool
    → AtomicCell × Result AtomicError CompareExchange
compare_exchange_weak c current new success failure spurious_failure =
    attempt (validate_compare_exchange success failure) c λ _.
      if spurious_failure && (c.value == bit_and current (mask c.width))
      then (c, ok (record { previous = c.value; exchanged = false }))
      else compare_exchange c current new success failure

unfoldable pub fetch_add : AtomicCell → ℕ → AtomicOrdering → AtomicCell × Result AtomicError ℕ
fetch_add c value _ = (write_cell c (add64 c.value value), ok c.value)

-- `wrapping_sub` on `u64`
unfoldable pub fetch_sub : AtomicCell → ℕ → AtomicOrdering → AtomicCell × Result AtomicError ℕ
fetch_sub c value _ = (write_cell c ((c.value + u64_mod - value) % u64_mod), ok c.value)

unfoldable pub fetch_and : AtomicCell → ℕ → AtomicOrdering → AtomicCell × Result AtomicError ℕ
fetch_and c value _ = (write_cell c (bit_and c.value value), ok c.value)

unfoldable pub fetch_or : AtomicCell → ℕ → AtomicOrdering → AtomicCell × Result AtomicError ℕ
fetch_or c value _ = (write_cell c (bit_or c.value value), ok c.value)

unfoldable pub fetch_xor : AtomicCell → ℕ → AtomicOrdering → AtomicCell × Result AtomicError ℕ
fetch_xor c value _ = (write_cell c (bit_xor c.value value), ok c.value)
