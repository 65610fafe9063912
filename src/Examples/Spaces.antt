-- ===== src/Examples/Spaces.antt =====
-- An address space with one page for user code (kernel/src/memory.rs).
use bulla.Prelude.{
  ℕ, refl, true, false, arith, ltb, leb, ok, ◌+◌, ◌-◌, ◌<◌, ◌≡◌, ◌↔◌, ◌&&◌, [], ◌∷◌, if◌then◌else◌,
}
use bulla.Prelude.Map.{get, insert, nat_key}
use bulla.Capability.{Capability, CapabilityKind, contains_range}
use bulla.Memory.{
  AddressSpace, Mapping, PageSize, bytes_of, new_space, is_canonical_x86_64, overlaps, check_map,
  map_pages, translate, translate_in, page_write,
}
use bulla.Memory.Layout.{end_of}
use bulla.Memory.Calls.{Call, IsSound, maps, run, after, run-IsSound_space}
use bulla.Memory.Translation.{Holds, image, translate_iff}
use bulla.Memory.Change.{translate-map_pages}
use bulla.Memory.User.{
  UserMemory, validate_user_range, user_addresses, copy_from_user, copy_to_user,
}
use bulla.Memory.Copies.{Reachable, copy_from_user-copy_to_user}
use bulla.Memory.Writes.{Copied, copy_to_user_iff}

abbrev space_handle : Capability
space_handle = record {
  kind = CapabilityKind.address_space;
  slot = 1;
  owner = 1;
  rights = 8;
  generation = 0;
  base = 0;
  len = 0;
}

abbrev frames_handle : Capability
frames_handle = record {
  kind = CapabilityKind.frame;
  slot = 2;
  owner = 1;
  rights = 1;
  generation = 0;
  base = 8192;
  len = 8192;
}

-- One page at 4096, readable and writable by user code.
abbrev one_map : Call
one_map = maps space_handle frames_handle 4096 PageSize.size_4k 1 11

abbrev space : AddressSpace
space = run new_space (one_map ∷ [])

abbrev second_page : Mapping
second_page = record {
  virtual_base = 16384;
  physical_base = 8192;
  page_size = PageSize.size_4k;
  pages = 1;
  permissions = 11;
  epoch = 2;
}

run-IsSound_space_example : IsSound (run new_space (one_map ∷ one_map ∷ []))
run-IsSound_space_example = run-IsSound_space (one_map ∷ one_map ∷ [])

translate_iff_example : (translate space 4100 ≡ ok (8196, 11)) ↔ (
    (space.destroyed ≡ false)
    × (is_canonical_x86_64 4100 ≡ true)
    × ((k : ℕ) × (m : Mapping) × Holds space.mappings 4100 k m × ((8196, 11) ≡ image m 4100)))
translate_iff_example = translate_iff space 4100 (8196, 11) (run-IsSound_space (one_map ∷ []))

abbrev wider : AddressSpace
wider = (map_pages space space_handle frames_handle 16384 PageSize.size_4k 1 11).0

translate-map_pages_example : translate wider 16390 ≡ (
    if leb 16384 16390 && ltb 16390 (end_of second_page)
    then ok (frames_handle.base + (16390 - 16384), 11)
    else translate space 16390)
unfolding run after check_map map_pages overlaps contains_range is_canonical_x86_64 bytes_of insert
    get
translate-map_pages_example =
    translate-map_pages space wider space_handle frames_handle 16384 PageSize.size_4k 1 11
      second_page 16390 (run-IsSound_space (one_map ∷ [])) refl refl

copy_to_user_iff_example :
    (((copy_to_user space [] 4096 (5 ∷ 6 ∷ [])).1 ≡ ok tt)
      ↔ ((i : ℕ) → i < 2 → Reachable space 4096 page_write i))
    × Copied space 4096 (5 ∷ 6 ∷ []) [] (copy_to_user space [] 4096 (5 ∷ 6 ∷ []))
copy_to_user_iff_example = copy_to_user_iff space [] 4096 (5 ∷ 6 ∷ [])

abbrev written : UserMemory
written = (copy_to_user space [] 4096 (5 ∷ 6 ∷ [])).0

copy_from_user-copy_to_user_example : copy_from_user space written 4096 2 ≡ ok (5 ∷ 6 ∷ [])
unfolding run after check_map map_pages overlaps contains_range is_canonical_x86_64 bytes_of insert
    get copy_to_user validate_user_range user_addresses translate translate_in
copy_from_user-copy_to_user_example =
    copy_from_user-copy_to_user space [] written 4096 (5 ∷ 6 ∷ []) (8192 ∷ 8193 ∷ []) refl refl
      (((λ e. omega (arith, e)), tt), (tt, tt))
