-- ===== src/Memory/Layout.antt =====
-- The invariant of an address space: its mappings lie apart, in order, and fit the address width
-- (kernel/src/memory.rs).
use bulla.Prelude.{
  ℕ, refl, ap, false, some, arith, ltb, Bool-cases, u64_mod, inl, inr, ◌+◌, ◌*◌, ◌%◌, ◌≤◌, ◌<◌, ◌≡◌,
  ◌≢◌, ◌⊎◌, [], ◌∷◌, ◌==◌,
}
use bulla.Prelude.Map.{Map, get, insert, remove, nat_key}
use bulla.Memory.{Mapping, bytes_of, overlaps}

abbrev pub size_of : Mapping → ℕ
size_of m = bytes_of m.page_size * m.pages

abbrev pub end_of : Mapping → ℕ
end_of m = m.virtual_base + size_of m

pub record IsSane (m : Mapping) : Type 0 where
  pub nonempty : 0 < size_of m
  pub virtual_fits : end_of m < u64_mod
  pub physical_fits : m.physical_base + size_of m < u64_mod
  pub aligned : m.virtual_base % bytes_of m.page_size ≡ 0
  pub frame_aligned : m.physical_base % bytes_of m.page_size ≡ 0
  pub permitted : m.permissions ≢ 0

-- The mappings from an address on: each is stored at its base, and starts where the one before it
-- ends or later.
abbrev pub Layout : ℕ → Map ℕ Mapping → Type 0
Layout b [] = Unit
Layout b ((k, m) ∷ rest) = (b ≤ k) × (m.virtual_base ≡ k) × IsSane m × Layout (end_of m) rest

pub Layout-weaken : (b c : ℕ) (ms : Map ℕ Mapping) → c ≤ b → Layout b ms → Layout c ms
Layout-weaken b c [] h a = tt
Layout-weaken b c ((k, m) ∷ rest) h a = (omega arith, a.1, a.2, a.3)

-- A range that overlaps nothing lies behind or before the first mapping, and off the others.
pub overlaps-apart :
    (base end k : ℕ) (m : Mapping) (rest : Map ℕ Mapping)
    → IsSane m
    → overlaps base end ((k, m) ∷ rest) ≡ false
    → ((end_of m ≤ base) ⊎ (end ≤ m.virtual_base)) × (overlaps base end rest ≡ false)
unfolding overlaps
overlaps-apart base end k m rest s o = (ground arith, ground arith)

pub insert-Layout :
    (b : ℕ) (n : Mapping) (ms : Map ℕ Mapping)
    → IsSane n
    → b ≤ n.virtual_base
    → Layout b ms
    → overlaps n.virtual_base (end_of n) ms ≡ false
    → Layout b (insert n.virtual_base n ms)
unfolding insert
insert-Layout b n [] s h a o = (h, refl, s, tt)
insert-Layout b n ((k, m) ∷ rest) s h (low, key, sane, next) o =
    let (apart, free) = overlaps-apart n.virtual_base (end_of n) k m rest sane o in
    elim (Bool-cases (k == n.virtual_base)) [
      | inl same ↦ absurd (ground arith)
      | inr other ↦ elim (Bool-cases (ltb n.virtual_base k)) [
        | inl before ↦ rw (other, before) (h, refl, s, (ground arith, key, sane, next))
        | inr behind ↦
            rw (other, behind)
              (low, key, sane, insert-Layout (end_of m) n rest s (ground arith) next free)
      ]
    ]

pub remove-Layout : (b k : ℕ) (ms : Map ℕ Mapping) → Layout b ms → Layout b (remove k ms)
unfolding remove
remove-Layout b k [] a = tt
remove-Layout b k ((j, m) ∷ rest) (low, key, sane, next) = elim (Bool-cases (j == k)) [
  | inl same ↦
      rw same (Layout-weaken (end_of m) b _ (omega arith) (remove-Layout (end_of m) k rest next))
  | inr other ↦ rw other (low, key, sane, remove-Layout (end_of m) k rest next)
]

-- A stored mapping is stored at its base, and is sane.
pub get-Layout :
    (b k : ℕ) (m : Mapping) (ms : Map ℕ Mapping)
    → Layout b ms
    → get k ms ≡ some m
    → (b ≤ k) × (m.virtual_base ≡ k) × IsSane m
unfolding get
get-Layout b k m [] a g = cc
get-Layout b k m ((j, n) ∷ rest) (low, key, sane, next) g = elim (Bool-cases (j == k)) [
  | inl same ↦ let e : n ≡ m = ground arith in (ground arith, ground arith, rw e at sane)
  | inr other ↦
      let (above, key', sane') = get-Layout (end_of n) k m rest next (rw other at g) in
      (omega arith, key', sane')
]

-- A mapping replaced by one over the same range.
pub replace-Layout :
    (b k : ℕ) (old new : Mapping) (ms : Map ℕ Mapping)
    → Layout b ms
    → get k ms ≡ some old
    → new.virtual_base ≡ old.virtual_base
    → size_of new ≡ size_of old
    → IsSane new
    → Layout b (insert k new ms)
unfolding insert get
replace-Layout b k old new [] a g e f s = cc
replace-Layout b k old new ((j, m) ∷ rest) (low, key, sane, next) g e f s =
    elim (Bool-cases (j == k)) [
      | inl same ↦
          let m-eq : m ≡ old = ground arith in
          let ends : end_of new ≡ end_of m =
            omega (arith, ap size_of m-eq, ap (λ (x : Mapping). x.virtual_base) m-eq) in
          rw same (ground arith, ground arith, s, rw ends next)
      | inr other ↦ elim (Bool-cases (ltb k j)) [
        | inl before ↦
            let (above, _, _) = get-Layout (end_of m) k old rest next (rw other at g) in
            absurd (ground arith)
        | inr behind ↦
            rw (other, behind)
              (low, key, sane, replace-Layout (end_of m) k old new rest next (rw other at g) e f s)
      ]
    ]
