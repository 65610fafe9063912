-- ===== src/Memory/Calls.antt =====
-- Any sequence of calls on one address space (kernel/src/memory.rs).
use bulla.Prelude.{
  ℕ, refl, true, false, some, List, arith, Option-cases, ok, Result-cases, inl, inr, ◌+◌, ◌*◌, ◌≤◌,
  ◌<◌, ◌≡◌, ◌≢◌, [], ◌∷◌,
}
use bulla.Prelude.Map.{get, insert, get-insert, get-remove, nat_key}
use bulla.Capability.{Capability, contains_range}
use bulla.Capability.Handles.{contains_range→InRange}
use bulla.Memory.{
  AddressSpace, Mapping, PageSize, PagePermissions, bytes_of, new_space, overlaps, check_map,
  map_pages, unmap, protect, activate, deactivate, destroy, is_canonical_x86_64, size_4k, size_2m,
  size_1g,
}
use bulla.Memory.Layout.{IsSane, Layout, insert-Layout, remove-Layout, replace-Layout, get-Layout}

abbrev pub mapping_of : Capability → ℕ → PageSize → ℕ → PagePermissions → ℕ → Mapping
mapping_of frames base page_size pages permissions epoch = record {
  virtual_base = base;
  physical_base = frames.base;
  page_size = page_size;
  pages = pages;
  permissions = permissions;
  epoch = epoch;
}

bytes_of-pos : (z : PageSize) → 0 < bytes_of z
unfolding bytes_of
bytes_of-pos size_4k = omega arith
bytes_of-pos size_2m = omega arith
bytes_of-pos size_1g = omega arith

mul-pos : (a b : ℕ) → 0 < a → 0 < b → 0 < a * b
mul-pos a b h k = grind arith

-- What a request that passes the checks satisfies.
pub record Checked (s : AddressSpace) (frames : Capability) (base : ℕ) (z : PageSize) (pages : ℕ)
    (permissions : PagePermissions) (end : ℕ) : Type 0 where
  pub live : s.destroyed ≡ false
  pub canonical : is_canonical_x86_64 base ≡ true
  pub sane : (epoch : ℕ) → IsSane (mapping_of frames base z pages permissions epoch)
  pub ends : end ≡ base + bytes_of z * pages
  pub free : overlaps base end s.mappings ≡ false

pub check_map-Checked :
    (s : AddressSpace) (space frames : Capability) (base : ℕ) (z : PageSize) (pages : ℕ)
    (permissions : PagePermissions) (end : ℕ)
    → check_map s space frames base z pages permissions ≡ ok end
    → Checked s frames base z pages permissions end
unfolding check_map
check_map-Checked s space frames base z pages permissions end h =
    let some_pages : 0 < pages = ground arith in
    let within : contains_range frames frames.base (bytes_of z * pages) ≡ true = ground arith in
    record {
      live = ground arith;
      canonical = ground arith;
      sane = λ epoch. record {
        nonempty = mul-pos (bytes_of z) pages (bytes_of-pos z) some_pages;
        virtual_fits = ground arith;
        physical_fits =
            (contains_range→InRange frames frames.base (bytes_of z * pages) within).request_fits;
        aligned = ground arith;
        frame_aligned = ground arith;
        permitted = ground arith;
      };
      ends = ground arith;
      free = ground arith;
    }

pub record IsSound (s : AddressSpace) : Type 0 where
  pub laid_out : Layout 0 s.mappings
  pub dated : (k : ℕ) (m : Mapping) → get k s.mappings ≡ some m → m.epoch ≤ s.epoch

pub data Call : Type 0 where
  maps : Capability → Capability → ℕ → PageSize → ℕ → PagePermissions → Call
  unmaps : ℕ → Call
  protects : Capability → ℕ → PagePermissions → Call
  activates deactivates : Capability → ℕ → Call
  destroys : Capability → Call

unfoldable pub after : AddressSpace → Call → AddressSpace
after s (maps space frames base z pages permissions) =
    (map_pages s space frames base z pages permissions).0
after s (unmaps base) = (unmap s base).0
after s (protects space base permissions) = (protect s space base permissions).0
after s (activates space cpu) = (activate s space cpu).0
after s (deactivates space cpu) = (deactivate s space cpu).0
after s (destroys space) = (destroy s space).0

unfoldable pub run : AddressSpace → List Call → AddressSpace
run s [] = s
run s (c ∷ cs) = run (after s c) cs

map_pages-IsSound :
    (s : AddressSpace) (space frames : Capability) (base : ℕ) (z : PageSize) (pages : ℕ)
    (permissions : PagePermissions)
    → IsSound s
    → IsSound (map_pages s space frames base z pages permissions).0
unfolding map_pages
map_pages-IsSound s space frames base z pages permissions v =
    elim (Result-cases (check_map s space frames base z pages permissions)) [
      | inl (end, h) ↦
          let c = check_map-Checked s space frames base z pages permissions end h in
          let new = mapping_of frames base z pages permissions (s.epoch + 1) in
          let laid : Layout 0 (insert base new s.mappings) =
            insert-Layout 0 new s.mappings (c.sane (s.epoch + 1)) (omega arith) v.laid_out
              (rw c.ends at c.free) in
          record {
            laid_out = ground arith;
            dated = λ k m g. ground (arith, get-insert base k new s.mappings, v.dated k m);
          }
      | inr (e, h) ↦ record {
        laid_out = ground arith;
        dated = λ k m g. ground (arith, v.dated k m);
      }
    ]

unmap-IsSound : (s : AddressSpace) (base : ℕ) → IsSound s → IsSound (unmap s base).0
unfolding unmap
unmap-IsSound s base v = record {
  laid_out = ground (arith, remove-Layout 0 base s.mappings v.laid_out);
  dated = λ k m g. ground (arith, get-remove base k s.mappings, v.dated k m);
}

protect-IsSound :
    (s : AddressSpace) (space : Capability) (base : ℕ) (permissions : PagePermissions)
    → IsSound s
    → IsSound (protect s space base permissions).0
unfolding protect
protect-IsSound s space base permissions v = elim (Option-cases (get base s.mappings)) [
  | inl missing ↦ record { laid_out = ground arith; dated = λ k m g. ground (arith, v.dated k m) }
  | inr (old, found) ↦
      let new : Mapping = record old { permissions = permissions; epoch = s.epoch + 1 } in
      let (_, _, sane) = get-Layout 0 base old s.mappings v.laid_out found in
      let laid : permissions ≢ 0 → Layout 0 (insert base new s.mappings) = λ p.
        replace-Layout 0 base old new s.mappings v.laid_out found refl refl (record {
          nonempty = sane.nonempty;
          virtual_fits = sane.virtual_fits;
          physical_fits = sane.physical_fits;
          aligned = sane.aligned;
          frame_aligned = sane.frame_aligned;
          permitted = p;
        }) in
      record {
        laid_out = ground (arith, laid);
        dated = λ k m g. ground (arith, get-insert base k new s.mappings, v.dated k m);
      }
]

pub after-IsSound : (s : AddressSpace) (c : Call) → IsSound s → IsSound (after s c)
unfolding after activate deactivate destroy
after-IsSound s (maps space frames base z pages permissions) v =
    map_pages-IsSound s space frames base z pages permissions v
after-IsSound s (unmaps base) v = unmap-IsSound s base v
after-IsSound s (protects space base permissions) v = protect-IsSound s space base permissions v
after-IsSound s _ v = record {
  laid_out = ground arith;
  dated = λ k m g. ground (arith, v.dated k m);
}

run-keeps : (s : AddressSpace) (cs : List Call) → IsSound s → IsSound (run s cs)
unfolding run
run-keeps s [] v = v
run-keeps s (c ∷ cs) v = run-keeps (after s c) cs (after-IsSound s c v)

-- After any calls on a new address space, the mappings are stored at their bases, lie apart, are not
-- empty, fit the address width on both sides, are aligned to their page size on both sides, have
-- permissions, and carry an epoch that is not later than the space's.
pub run-IsSound_space : (cs : List Call) → IsSound (run new_space cs)
unfolding get
run-IsSound_space cs = run-keeps new_space cs (record { laid_out = tt; dated = λ k m g. cc })
