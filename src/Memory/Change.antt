-- ===== src/Memory/Change.antt =====
-- How mapping and unmapping change translation (kernel/src/memory.rs).
use bulla.Prelude.{
  ℕ, sym, ap, true, false, arith, ltb, leb, Bool-cases, ok, Result-cases, inl, inr, ◌+◌, ◌-◌, ◌*◌,
  ◌≤◌, ◌<◌, ◌≡◌, ◌∙◌, ◌↔◌, ◌⊎◌, ◌&&◌, [], ◌∷◌, ◌==◌, if◌then◌else◌,
}
use mathlib.Core.Path.{subst}
use bulla.Prelude.Map.{Map, get, insert, get-insert, nat_key}
use bulla.Capability.{Capability}
use bulla.Memory.{
  AddressSpace, Mapping, PageSize, PagePermissions, overlaps, check_map, map_pages,
  is_canonical_x86_64, translate, translate_in, bytes_of,
}
use bulla.Memory.Layout.{end_of, Layout, get-Layout, overlaps-apart}
use bulla.Memory.Calls.{IsSound, maps, check_map-Checked, after, after-IsSound}
use bulla.Memory.Translation.{Holds, hit, miss, lookup_total, translate_in-hit}

-- Where no mapping meets a range, none holds an address of it.
overlaps-Holds :
    (b base end : ℕ) (ms : Map ℕ Mapping) (address k : ℕ) (m : Mapping)
    → Layout b ms
    → overlaps base end ms ≡ false
    → Holds ms address k m
    → (address < base) ⊎ (end ≤ address)
unfolding get
overlaps-Holds b base end [] address k m a o h = cc (h.stored)
overlaps-Holds b base end ((j, n) ∷ rest) address k m (low, key, sane, next) o h =
    let (apart, free) = overlaps-apart base end j n rest sane o in
    elim (Bool-cases (j == k)) [
      | inl same ↦ let e : n ≡ m = ground (arith, h.stored) in ground (arith, h.low, h.high)
      | inr other ↦
          overlaps-Holds (end_of n) base end rest address k m next free
            (record { stored = ground (arith, h.stored); low = h.low; high = h.high })
    ]

-- Translation depends on which mapping holds the address and on nothing else.
same_lookup :
    (ms ns : Map ℕ Mapping) (address : ℕ)
    → Layout 0 ms
    → Layout 0 ns
    → ((k : ℕ) (m : Mapping) → Holds ms address k m ↔ Holds ns address k m)
    → translate_in ms address ≡ translate_in ns address
same_lookup ms ns address a c h = elim (lookup_total 0 ms address a) [
  | hit k m holds e ↦ e ∙ sym (translate_in-hit 0 ns address k m c ((h k m).0 holds))
  | miss none_ms e ↦ elim (lookup_total 0 ns address c) [
    | hit k m holds _ ↦ absurd (none_ms k m ((h k m).1 holds))
    | miss _ e' ↦ e ∙ sym e'
  ]
]

-- What a successful `map` checked and wrote.
record Mapped (s s' : AddressSpace) (frames : Capability) (base : ℕ) (permissions : PagePermissions)
    (m : Mapping) : Type 0 where
  live : s.destroyed ≡ false
  live' : s'.destroyed ≡ false
  at_base : m.virtual_base ≡ base
  at_frames : m.physical_base ≡ frames.base
  with_permissions : m.permissions ≡ permissions
  free : overlaps base (end_of m) s.mappings ≡ false
  written : s'.mappings ≡ insert base m s.mappings
  sound : IsSound s'

map_pages-Mapped :
    (s s' : AddressSpace) (space frames : Capability) (base : ℕ) (z : PageSize) (pages : ℕ)
    (permissions : PagePermissions) (m : Mapping)
    → IsSound s
    → map_pages s space frames base z pages permissions ≡ (s', ok m)
    → Mapped s s' frames base permissions m
unfolding map_pages after
map_pages-Mapped s s' space frames base z pages permissions m v h =
    elim (Result-cases (check_map s space frames base z pages permissions)) [
      | inl (end, h') ↦
          let c = check_map-Checked s space frames base z pages permissions end h' in
          let free : overlaps base (base + bytes_of z * pages) s.mappings ≡ false =
            rw c.ends at c.free in
          record {
            live = c.live;
            live' = ground (arith, c.live);
            at_base = ground arith;
            at_frames = ground arith;
            with_permissions = ground arith;
            free = ground (arith, free);
            written = ground arith;
            sound =
                subst IsSound (ap (λ p. p.0) h)
                  (after-IsSound s (maps space frames base z pages permissions) v);
          }
      | inr (x, h') ↦ absurd (ground arith)
    ]

-- Off the new range, the same mappings hold an address as before.
Mapped-Holds :
    (s s' : AddressSpace) (frames : Capability) (base : ℕ) (permissions : PagePermissions)
    (n : Mapping) (address k : ℕ) (m : Mapping)
    → IsSound s
    → Mapped s s' frames base permissions n
    → (leb base address && ltb address (end_of n)) ≡ false
    → Holds s'.mappings address k m ↔ Holds s.mappings address k m
Mapped-Holds s s' frames base permissions n address k m v c out = (
  λ h. record {
    stored = ground (arith, c.written, h.stored, h.low, h.high, get-insert base k n s.mappings);
    low = h.low;
    high = h.high;
  },
  λ h. elim (Bool-cases (base == k)) [
    | inl same ↦
        let (_, there, sane) = get-Layout 0 k m s.mappings v.laid_out h.stored in
        let at : Holds s.mappings base k m = record {
          stored = h.stored;
          low = ground arith;
          high = ground (arith, sane.nonempty);
        } in
        let (_, _, sane') =
          get-Layout 0 base n s'.mappings c.sound.laid_out
            (rw c.written (ground (arith, get-insert base base n s.mappings))) in
        absurd (
          ground (
            arith,
            sane'.nonempty,
            c.at_base,
            overlaps-Holds 0 base (end_of n) s.mappings base k m v.laid_out c.free at,
          ))
    | inr other ↦ record {
      stored = rw c.written (ground (arith, h.stored, get-insert base k n s.mappings));
      low = h.low;
      high = h.high;
    }
  ],
)

-- A new mapping translates the canonical addresses of its range to the frames it was given, and
-- leaves the translation of every other address as it was.
pub translate-map_pages :
    (s s' : AddressSpace) (space frames : Capability) (base : ℕ) (z : PageSize) (pages : ℕ)
    (permissions : PagePermissions) (m : Mapping) (address : ℕ)
    → IsSound s
    → map_pages s space frames base z pages permissions ≡ (s', ok m)
    → is_canonical_x86_64 address ≡ true
    → translate s' address ≡ (
        if leb base address && ltb address (end_of m)
        then ok (frames.base + (address - base), permissions)
        else translate s address)
unfolding translate
translate-map_pages s s' space frames base z pages permissions m address v h canonical =
    let c = map_pages-Mapped s s' space frames base z pages permissions m v h in
    elim (Bool-cases (leb base address && ltb address (end_of m))) [
      | inl inside ↦
          let holds : Holds s'.mappings address base m = record {
            stored = rw c.written (ground (arith, get-insert base base m s.mappings));
            low = ground arith;
            high = ground arith;
          } in
          let there = translate_in-hit 0 s'.mappings address base m c.sound.laid_out holds in
          rw inside (ground (arith, c.live', c.at_base, c.at_frames, c.with_permissions))
      | inr outside ↦
          let same =
            same_lookup s'.mappings s.mappings address c.sound.laid_out v.laid_out
              (λ k n. Mapped-Holds s s' frames base permissions m address k n v c outside) in
          rw outside (ground (arith, c.live, c.live'))
    ]
