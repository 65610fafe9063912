-- ===== src/Memory/Translation.antt =====
-- What an address translates to (kernel/src/memory.rs).
use bulla.Prelude.{
  ℕ, refl, true, false, some, arith, ltb, leb, Bool-cases, ok, err, inl, inr, ◌+◌, ◌-◌, ◌≤◌, ◌<◌,
  ◌≡◌, ◌↔◌, ◌&&◌, [], ◌∷◌, ◌==◌,
}
use bulla.Prelude.Map.{Map, get, nat_key}
use bulla.Memory.{
  AddressSpace, Mapping, PagePermissions, is_canonical_x86_64, translate, translate_in, not_mapped,
}
use bulla.Memory.Layout.{end_of, Layout, get-Layout}
use bulla.Memory.Calls.{IsSound}

-- The mapping stored at `k` holds the address.
pub record Holds (ms : Map ℕ Mapping) (address k : ℕ) (m : Mapping) : Type 0 where
  pub stored : get k ms ≡ some m
  pub low : k ≤ address
  pub high : address < end_of m

-- The physical address and the permissions that a mapping gives.
abbrev pub image : Mapping → ℕ → ℕ × PagePermissions
image m address = (m.physical_base + (address - m.virtual_base), m.permissions)

pub translate_in-hit :
    (b : ℕ) (ms : Map ℕ Mapping) (address k : ℕ) (m : Mapping)
    → Layout b ms
    → Holds ms address k m
    → translate_in ms address ≡ ok (image m address)
unfolding translate_in get
translate_in-hit b [] address k m a h = absurd (ground arith)
translate_in-hit b ((j, n) ∷ rest) address k m (low, key, sane, next) h =
    elim (Bool-cases (j == k)) [
      | inl same ↦ let e : n ≡ m = ground arith in ground arith
      | inr other ↦
          let there : get k rest ≡ some m = ground arith in
          let (above, _, _) = get-Layout (end_of n) k m rest next there in
          let ih =
            translate_in-hit (end_of n) rest address k m next
              (record { stored = there; low = h.low; high = h.high }) in
          ground arith
    ]

-- Either some mapping holds the address, and its image is the result, or none does.
pub data Lookup (ms : Map ℕ Mapping) (address : ℕ) : Type 0 where
  hit :
      (k : ℕ) (m : Mapping)
      → Holds ms address k m
      → translate_in ms address ≡ ok (image m address)
      → Lookup ms address
  miss :
      ((k : ℕ) (m : Mapping) → ¬ (Holds ms address k m))
      → translate_in ms address ≡ err not_mapped
      → Lookup ms address

pub lookup_total : (b : ℕ) (ms : Map ℕ Mapping) (address : ℕ) → Layout b ms → Lookup ms address
unfolding translate_in get
lookup_total b [] address a = miss (λ k m h. cc (h.stored)) refl
lookup_total b ((j, n) ∷ rest) address (low, key, sane, next) =
    elim (Bool-cases (leb n.virtual_base address && ltb address (end_of n))) [
      | inl inside ↦
          let h : Holds ((j, n) ∷ rest) address j n = record {
            stored = ground arith;
            low = ground arith;
            high = ground arith;
          } in
          hit j n h (translate_in-hit b ((j, n) ∷ rest) address j n (low, key, sane, next) h)
      | inr outside ↦ elim (lookup_total (end_of n) rest address next) [
        | hit k m h e ↦
            let (above, _, _) = get-Layout (end_of n) k m rest next h.stored in
            let h' : Holds ((j, n) ∷ rest) address k m = record {
              stored = ground (arith, h.stored);
              low = h.low;
              high = h.high;
            } in
            hit k m h' (translate_in-hit b ((j, n) ∷ rest) address k m (low, key, sane, next) h')
        | miss none_holds e ↦
            miss
              (λ k m h. elim (Bool-cases (j == k)) [
                | inl same ↦
                    let e : n ≡ m = ground (arith, h.stored) in ground (arith, h.low, h.high)
                | inr other ↦
                    none_holds k m
                      (record { stored = ground (arith, h.stored); low = h.low; high = h.high })
              ])
              (ground arith)
      ]
    ]

-- A live space translates a canonical address exactly as the one mapping that holds it says, and no
-- other address.
pub translate_iff :
    (s : AddressSpace) (address : ℕ) (r : ℕ × PagePermissions)
    → IsSound s
    → (translate s address ≡ ok r) ↔ (
        (s.destroyed ≡ false)
        × (is_canonical_x86_64 address ≡ true)
        × ((k : ℕ) × (m : Mapping) × Holds s.mappings address k m × (r ≡ image m address)))
unfolding translate
translate_iff s address r v = (
  λ h. elim (lookup_total 0 s.mappings address v.laid_out) [
    | hit k m holds e ↦ (ground arith, ground arith, (k, m, holds, ground arith))
    | miss none_holds e ↦ absurd (ground arith)
  ],
  λ (live, canonical, (k, m, holds, e)).
      let there = translate_in-hit 0 s.mappings address k m v.laid_out holds in ground arith,
)
