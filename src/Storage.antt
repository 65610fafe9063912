-- ===== src/Storage.antt =====
-- kernel/src/storage.rs: fixed-capacity vectors, maps, bitmaps and ring buffers. A method that
-- indexes its array outside returns none, where the source panics.
pub mod Bits
pub mod Calls
pub mod Fifo
pub mod Ring
pub mod Tables
pub mod Vectors
use bulla.Prelude.Lists.{length}
use bulla.Prelude.{
  ℕ, Option, none, some, List, leb, Result, ok, err, ◌+◌, ◌-◌, ◌%◌, ◌||◌, ◌==◌, if◌then◌else◌,
}
use bulla.Prelude.Arrays.{get_elem?, set_elem?, repeat}

pub data StorageError : Type 0 where
  out_of_bounds full empty duplicate_key missing_key : StorageError

-- A method's new state and result, unless it panics.
abbrev pub Ran {ℓ κ} : Type ℓ → Type κ → Type (ℓ ⊔ κ)
Ran S A = Option (S × Result StorageError A)

abbrev pub index_then {ℓ κ} : {A : Type ℓ} {B : Type κ} → Option A → (A → Option B) → Option B
index_then none k = none
index_then (some a) k = k a

module _ {ℓ} (T : Type ℓ) where
  -- `FixedVec<T, N>` and `RingBuffer<T, N>`; the capacity `N` is the length of `values`.
  pub record FixedVec : Type ℓ where
    pub values : List T
    pub len : ℕ

  pub record RingBuffer : Type ℓ where
    pub values : List T
    pub head : ℕ
    pub len : ℕ

module _ {ℓ} {T : Type ℓ} where
  unfoldable pub new_vec : T → ℕ → FixedVec T
  new_vec default n = record { values = repeat n default; len = 0 }

  unfoldable pub vec_get : FixedVec T → ℕ → Option (Result StorageError T)
  vec_get v index =
      if leb v.len index
      then some (err out_of_bounds)
      else index_then (get_elem? v.values index) (λ x. some (ok x))

  unfoldable pub vec_set : FixedVec T → ℕ → T → Ran (FixedVec T) (Unit {0})
  vec_set v index value =
      if leb v.len index
      then some (v, err out_of_bounds)
      else index_then (set_elem? index value v.values)
          (λ values. some (record v { values = values }, ok tt))

  unfoldable pub vec_push : FixedVec T → T → Ran (FixedVec T) (Unit {0})
  vec_push v value =
      if v.len == length v.values
      then some (v, err full)
      else index_then (set_elem? v.len value v.values)
          (λ values. some (record { values = values; len = v.len + 1 }, ok tt))

  unfoldable pub vec_pop : FixedVec T → Ran (FixedVec T) T
  vec_pop v =
      if v.len == 0
      then some (v, err empty)
      else index_then (get_elem? v.values (v.len - 1))
          (λ x. some (record v { len = v.len - 1 }, ok x))

  unfoldable pub new_ring : T → ℕ → RingBuffer T
  new_ring default n = record { values = repeat n default; head = 0; len = 0 }

  unfoldable pub ring_push : RingBuffer T → T → Ran (RingBuffer T) (Unit {0})
  ring_push r value =
      let n = length r.values in
      if r.len == n || n == 0
      then some (r, err full)
      else index_then (set_elem? ((r.head + r.len) % n) value r.values)
          (λ values. some (record r { values = values; len = r.len + 1 }, ok tt))

  unfoldable pub ring_pop : RingBuffer T → Ran (RingBuffer T) T
  ring_pop r =
      let n = length r.values in
      if r.len == 0 || n == 0
      then some (r, err empty)
      else index_then (get_elem? r.values r.head)
          (λ x. some (record r { head = (r.head + 1) % n; len = r.len - 1 }, ok x))
