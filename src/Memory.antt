-- ===== src/Memory.antt =====
-- kernel/src/memory.rs: address spaces, user memory and the temporary mapping window.
pub mod Layout
pub mod Calls
pub mod Translation
pub mod Change
pub mod Copies
pub mod User
pub mod Window
pub mod Writes
use bulla.Prelude.{
  ℕ, bit_and, Bool, true, false, not, List, ltb, leb, Result, ok, err, refuse_if, ok_or, attempt,
  u64_mod, checked_add, checked_mul, saturating_add, saturating_mul, ◌+◌, ◌-◌, ◌*◌, ◌/◌, ◌%◌, ◌^◌,
  ◌&&◌, ◌||◌, [], ◌∷◌, ◌==◌, if◌then◌else◌, ◌>>=◌, ◌>>◌,
}
use bulla.Prelude.Lists.{length}
use bulla.Prelude.Map.{Map, get, insert, remove, nat_key}
use bulla.Prelude.NatSet.{NatSet, member, add, delete}
use bulla.Capability.{
  Capability, CapabilityKind, Rights, kind_eq, contains, contains_range, read, map_right,
}

pub data PageSize : Type 0 where
  size_4k size_2m size_1g : PageSize

unfoldable pub bytes_of : PageSize → ℕ
bytes_of size_4k = 4096
bytes_of size_2m = 2 * 1024 * 1024
bytes_of size_1g = 1024 * 1024 * 1024

-- `PagePermissions(u8)`
abbrev pub PagePermissions : Type 0
PagePermissions = ℕ

abbrev pub page_read : PagePermissions
page_read = 1

abbrev pub page_write : PagePermissions
page_write = 2

abbrev pub page_user : PagePermissions
page_user = 8

abbrev pub permits : PagePermissions → PagePermissions → Bool
permits p q = bit_and p q == q

pub record Mapping : Type 0 where
  pub virtual_base : ℕ
  pub physical_base : ℕ
  pub page_size : PageSize
  pub pages : ℕ
  pub permissions : PagePermissions
  pub epoch : ℕ

pub data MapError : Type 0 where
  wrong_address_space_capability wrong_frame_capability missing_rights non_canonical : MapError
  misaligned range_overflow out_of_range overlap not_mapped epoch_overflow : MapError
  empty_permissions active destroyed_space user_fault window_full stale_generation : MapError
  wrong_window_capability : MapError

pub record AddressSpace : Type 0 where
  pub mappings : Map ℕ Mapping
  pub epoch : ℕ
  pub active_cpus : NatSet
  pub destroyed : Bool

abbrev pub new_space : AddressSpace
new_space = record { mappings = []; epoch = 0; active_cpus = []; destroyed = false }

unfoldable pub is_canonical_x86_64 : ℕ → Bool
is_canonical_x86_64 address =
    let upper = address / 2 ^ 48 in
    let sign = address / 2 ^ 47 % 2 in (sign == 0 && upper == 0) || (sign == 1 && upper == 0xffff)

-- Whether a mapping present meets the range from `base` up to `end`.
unfoldable pub overlaps : ℕ → ℕ → Map ℕ Mapping → Bool
overlaps base end [] = false
overlaps base end ((k, m) ∷ rest) =
    let mapping_end =
      saturating_add m.virtual_base (saturating_mul (bytes_of m.page_size) m.pages) in
    (ltb base mapping_end && ltb m.virtual_base end) || overlaps base end rest

abbrev is_frame : CapabilityKind → Bool
is_frame kind = kind_eq kind CapabilityKind.frame || kind_eq kind CapabilityKind.phys_region

-- The checks of `map`, in order; the result is the end of the range.
unfoldable pub check_map :
    AddressSpace → Capability → Capability → ℕ → PageSize → ℕ → PagePermissions → Result MapError ℕ
check_map s space frames virtual_base page_size pages permissions = do
  refuse_if s.destroyed destroyed_space
  refuse_if (not (kind_eq space.kind CapabilityKind.address_space)) wrong_address_space_capability
  refuse_if (not (is_frame frames.kind)) wrong_frame_capability
  refuse_if (not (contains space.rights map_right) || not (contains frames.rights read))
      missing_rights
  refuse_if (not (is_canonical_x86_64 virtual_base)) non_canonical
  refuse_if (pages == 0 || permissions == 0) empty_permissions
  bytes ← ok_or (checked_mul (bytes_of page_size) pages) range_overflow
  refuse_if
      (not (virtual_base % bytes_of page_size == 0) || not (frames.base % bytes_of page_size == 0))
      misaligned
  refuse_if (not (contains_range frames frames.base bytes)) out_of_range
  end ← ok_or (checked_add virtual_base bytes) range_overflow
  refuse_if (overlaps virtual_base end s.mappings) overlap
  ok end

unfoldable pub map_pages :
    AddressSpace
    → Capability
    → Capability
    → ℕ
    → PageSize
    → ℕ
    → PagePermissions
    → AddressSpace × Result MapError Mapping
map_pages s space frames virtual_base page_size pages permissions =
    attempt (check_map s space frames virtual_base page_size pages permissions) s λ _.
      attempt (ok_or (checked_add s.epoch 1) epoch_overflow) s λ epoch.
        let m : Mapping = record {
          virtual_base = virtual_base;
          physical_base = frames.base;
          page_size = page_size;
          pages = pages;
          permissions = permissions;
          epoch = epoch;
        } in
        (record s { epoch = epoch; mappings = insert virtual_base m s.mappings }, ok m)

-- The mapping is removed before the epoch is counted, as in the source.
unfoldable pub unmap : AddressSpace → ℕ → AddressSpace × Result MapError Mapping
unmap s virtual_base = attempt (refuse_if s.destroyed destroyed_space) s λ _.
    attempt (ok_or (get virtual_base s.mappings) not_mapped) s λ m.
      let s' : AddressSpace = record s { mappings = remove virtual_base s.mappings } in
      attempt (ok_or (checked_add s.epoch 1) epoch_overflow) s'
        λ epoch. (record s' { epoch = epoch }, ok m)

-- The epoch is counted before the mapping is looked up, as in the source.
unfoldable pub protect :
    AddressSpace → Capability → ℕ → PagePermissions → AddressSpace × Result MapError Mapping
protect s space virtual_base permissions = attempt (refuse_if s.destroyed destroyed_space) s λ _.
    attempt
      (refuse_if (not (kind_eq space.kind CapabilityKind.address_space))
        wrong_address_space_capability)
      s
      λ _. attempt (refuse_if (not (contains space.rights map_right)) missing_rights) s λ _.
        attempt (refuse_if (permissions == 0) empty_permissions) s λ _.
          attempt (ok_or (checked_add s.epoch 1) epoch_overflow) s λ epoch.
            let s' : AddressSpace = record s { epoch = epoch } in
            attempt (ok_or (get virtual_base s.mappings) not_mapped) s' λ m.
              let m' : Mapping = record m { permissions = permissions; epoch = epoch } in
              (record s' { mappings = insert virtual_base m' s.mappings }, ok m')

-- The loop of `translate`: the first mapping that holds the address.
unfoldable pub translate_in : Map ℕ Mapping → ℕ → Result MapError (ℕ × PagePermissions)
translate_in [] address = err not_mapped
translate_in ((k, m) ∷ rest) address =
    let others = translate_in rest address in
    do
      bytes ← ok_or (checked_mul (bytes_of m.page_size) m.pages) range_overflow
      end ← ok_or (checked_add m.virtual_base bytes) range_overflow
      if leb m.virtual_base address && ltb address end
          then ok ((m.physical_base + (address - m.virtual_base)) % u64_mod, m.permissions)
          else others

unfoldable pub translate : AddressSpace → ℕ → Result MapError (ℕ × PagePermissions)
translate s address = do
  refuse_if s.destroyed destroyed_space
  refuse_if (not (is_canonical_x86_64 address)) non_canonical
  translate_in s.mappings address

unfoldable pub require_space : Capability → Result MapError (Unit {0})
require_space space = do
  refuse_if (not (kind_eq space.kind CapabilityKind.address_space)) wrong_address_space_capability
  refuse_if (not (contains space.rights map_right)) missing_rights

unfoldable pub activate : AddressSpace → Capability → ℕ → AddressSpace × Result MapError (Unit {0})
unfolding require_space
activate s space cpu = attempt (require_space space) s λ _.
    attempt (refuse_if s.destroyed destroyed_space) s
      λ _. (record s { active_cpus = add cpu s.active_cpus }, ok tt)

unfoldable pub deactivate :
    AddressSpace → Capability → ℕ → AddressSpace × Result MapError (Unit {0})
unfolding require_space
deactivate s space cpu = attempt (require_space space) s λ _.
    attempt (refuse_if (not (member cpu s.active_cpus)) not_mapped) s
      λ _. (record s { active_cpus = delete cpu s.active_cpus }, ok tt)

abbrev is_nil {ℓ} : {A : Type ℓ} → List A → Bool
is_nil [] = true
is_nil (_ ∷ _) = false

unfoldable pub destroy : AddressSpace → Capability → AddressSpace × Result MapError (Unit {0})
unfolding require_space
destroy s space = attempt (require_space space) s λ _.
    attempt (refuse_if (not (is_nil s.active_cpus) || not (is_nil s.mappings)) active) s
      λ _. (record s { destroyed = true }, ok tt)
