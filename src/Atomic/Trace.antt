-- ===== src/Atomic/Trace.antt =====
-- The trace of the memory model: the last write to a cell, the number of writes, and the calls that
-- make it (kernel/src/atomic.rs).
use bulla.Prelude.{
  ℕ, refl, ap, Bool, Option, none, some, List, arith, Bool-cases, Option-cases, inl, inr, ◌+◌, ◌≡◌,
  ◌&&◌, [], ◌∷◌, ◌++◌, if◌then◌else◌,
}
use bulla.Prelude.Map.{nat_key}
use bulla.Atomic.{AtomicOrdering}
use bulla.Atomic.Model.{
  FenceKind, AtomicEvent, AtomicMemoryModel, register, store, load, fence, change_last, fetch_add,
  has_id, is_some,
}

unfoldable pub writes_to : ℕ → AtomicEvent → Bool
writes_to k e = has_id e.cell k && is_some e.modification_order

-- The last event of the trace that wrote the cell.
unfoldable pub last_write : List AtomicEvent → ℕ → Option AtomicEvent
last_write [] k = none
last_write (e ∷ es) k = elim (last_write es k) [
  | some w ↦ some w
  | none ↦ if writes_to k e then some e else none
]

unfoldable pub write_count : List AtomicEvent → ℕ → ℕ
write_count [] k = 0
write_count (e ∷ es) k = (if writes_to k e then 1 else 0) + write_count es k

pub last_write-append :
    (es : List AtomicEvent) (e : AtomicEvent) (k : ℕ)
    → last_write (es ++ (e ∷ [])) k ≡ (if writes_to k e then some e else last_write es k)
unfolding last_write
last_write-append [] e k = refl
last_write-append (d ∷ es) e k =
    let ih = last_write-append es e k in
    elim (Bool-cases (writes_to k e)) [
      | inl h ↦ rw (ih, h) refl
      | inr h ↦
          rw (ih, h)
            (elim (Option-cases (last_write es k)) [ inl n ↦ rw n refl | inr (w, n) ↦ rw n refl ])
    ]

pub write_count-append :
    (es : List AtomicEvent) (e : AtomicEvent) (k : ℕ)
    → write_count (es ++ (e ∷ [])) k ≡ write_count es k + (if writes_to k e then 1 else 0)
unfolding write_count
write_count-append [] e k = omega arith
write_count-append (d ∷ es) e k = omega (arith, write_count-append es e k)

pub change_last-append :
    {A : Type 0} (f : A → A) (xs : List A) (x : A)
    → change_last f (xs ++ (x ∷ [])) ≡ xs ++ (f x ∷ [])
unfolding change_last
change_last-append f [] x = refl
change_last-append f (y ∷ []) x = refl
change_last-append f (y ∷ z ∷ xs) x = ap (λ t. y ∷ t) (change_last-append f (z ∷ xs) x)

-- The calls of the model.
pub data Call : Type 0 where
  stored : ℕ → ℕ → ℕ → AtomicOrdering → Call
  loaded : ℕ → ℕ → AtomicOrdering → Call
  added : ℕ → ℕ → ℕ → AtomicOrdering → Call
  fenced : ℕ → FenceKind → AtomicOrdering → Call

-- The model after a call, whether it succeeded or not.
unfoldable pub after : AtomicMemoryModel → Call → AtomicMemoryModel
after m (stored cpu k v o) = (store m cpu k v o).0
after m (loaded cpu k o) = (load m cpu k o).0
after m (added cpu k v o) = (fetch_add m cpu k v o).0
after m (fenced cpu kind o) = (fence m cpu kind o).0

unfoldable pub run : AtomicMemoryModel → List Call → AtomicMemoryModel
run m [] = m
run m (c ∷ cs) = run (after m c) cs

-- The cells registered before the first event, with their initial values.
unfoldable pub registered : AtomicMemoryModel → List (ℕ × ℕ) → AtomicMemoryModel
registered m [] = m
registered m ((k, v) ∷ ks) = registered (register m k v).0 ks
