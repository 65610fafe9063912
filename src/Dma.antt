-- ===== src/Dma.antt =====
-- kernel/src/dma.rs: pinned memory, its ownership, and the domains of the IOMMU.
pub mod Slots
pub mod Domains
use bulla.Prelude.{
  ℕ, bit_or, Bool, true, false, not, Option, none, some, List, ltb, Result, ok, err, refuse_if,
  ok_or, attempt, checked_add, ◌||◌, [], ◌∷◌, ◌==◌, ◌>>=◌, ◌>>◌,
}
use bulla.Prelude.Map.{Map, get, insert, remove, nat_key}
use bulla.Capability.{
  Capability, CapabilityKind, Rights, kind_eq, contains, contains_range, read, write, map_right,
}

pub data DmaDirection : Type 0 where
  to_device from_device bidirectional : DmaDirection

pub data DmaOwnership : Type 0 where
  cpu_owned device_owned : DmaOwnership

abbrev pub ownership_eq : DmaOwnership → DmaOwnership → Bool
ownership_eq cpu_owned cpu_owned = true
ownership_eq device_owned device_owned = true
ownership_eq _ _ = false

pub record DmaMapping : Type 0 where
  pub device : ℕ
  pub domain : ℕ
  pub base : ℕ
  pub len : ℕ
  pub direction : DmaDirection
  pub generation : ℕ
  pub ownership : DmaOwnership

pub record DmaPin : Type 0 where
  pub slot : ℕ
  pub device : ℕ
  pub domain : ℕ
  pub base : ℕ
  pub len : ℕ
  pub direction : DmaDirection

pub data DmaError : Type 0 where
  wrong_capability missing_rights out_of_range duplicate_mapping unknown_mapping : DmaError
  stale_generation foreign_device foreign_domain generation_overflow zero_length : DmaError
  wrong_ownership duplicate_domain unknown_domain domain_capability iommu_required : DmaError
  already_mapped not_mapped segment_overflow : DmaError

pub data IommuMode : Type 0 where
  absent_identity present : IommuMode

pub record IommuDomain : Type 0 where
  pub id : ℕ
  pub device : ℕ
  pub aperture_base : ℕ
  pub aperture_len : ℕ
  pub mode : IommuMode

pub record DmaSegment : Type 0 where
  pub device_address : ℕ
  pub len : ℕ

pub record DmaState : Type 0 where
  pub mappings : Map ℕ DmaMapping
  pub generations : Map ℕ ℕ
  pub domains : Map ℕ IommuDomain
  pub segments : Map ℕ (List DmaSegment)

abbrev pub new_dma : DmaState
new_dma = record { mappings = []; generations = []; domains = []; segments = [] }

abbrev pub is_known {ℓ} : {V : Type ℓ} → ℕ → Map ℕ V → Bool
is_known k m = elim (get k m) [ none ↦ false | some _ ↦ true ]

abbrev is_pinnable : CapabilityKind → Bool
is_pinnable kind =
    kind_eq kind CapabilityKind.dma
    || kind_eq kind CapabilityKind.frame
    || kind_eq kind CapabilityKind.phys_region

-- `Rights::READ.union(Rights::WRITE)`
abbrev read_write : Rights
read_write = bit_or read write

abbrev pub generation_at : DmaState → ℕ → ℕ
generation_at s slot = elim (get slot s.generations) [ none ↦ 0 | some g ↦ g ]

abbrev pub pinned : DmaState → DmaPin → DmaMapping
pinned s request = record {
  device = request.device;
  domain = request.domain;
  base = request.base;
  len = request.len;
  direction = request.direction;
  generation = generation_at s request.slot;
  ownership = cpu_owned;
}

unfoldable pub pin : DmaState → Capability → DmaPin → DmaState × Result DmaError DmaMapping
pin s region request = attempt (refuse_if (not (is_pinnable region.kind)) wrong_capability) s λ _.
    attempt (refuse_if (not (contains region.rights read_write)) missing_rights) s λ _.
      attempt (refuse_if (request.len == 0) zero_length) s λ _.
        attempt (refuse_if (not (contains_range region request.base request.len)) out_of_range) s
          λ _. attempt (refuse_if (is_known request.slot s.mappings) duplicate_mapping) s λ _.
            let m = pinned s request in
            (record s { mappings = insert request.slot m s.mappings }, ok m)

abbrev fits : ℕ → ℕ → Bool
fits base len = elim (checked_add base len) [ none ↦ false | some _ ↦ true ]

-- The insertion comes before the test, as in the source.
unfoldable pub register_domain : DmaState → IommuDomain → DmaState × Result DmaError (Unit {0})
register_domain s d =
    attempt
      (refuse_if (d.aperture_len == 0 || not (fits d.aperture_base d.aperture_len))
        segment_overflow)
      s
      λ _. (
        record s { domains = insert d.id d s.domains },
        refuse_if (is_known d.id s.domains) duplicate_domain,
      )

-- The two arms of `match domain.mode`.
unfoldable pub check_mode :
    IommuMode → IommuDomain → DmaMapping → Option Capability → ℕ → Result DmaError (Unit {0})
check_mode absent_identity d m none device_address =
    refuse_if (not (device_address == m.base)) iommu_required
check_mode absent_identity d m (some c) device_address = err iommu_required
check_mode present d m none device_address = err domain_capability
check_mode present d m (some c) device_address = do
  refuse_if
      (not (kind_eq c.kind CapabilityKind.iommu_domain)
        || not (contains c.rights map_right)
        || not (c.slot == d.id))
      domain_capability
  end ← ok_or (checked_add device_address m.len) segment_overflow
  aperture_end ← ok_or (checked_add d.aperture_base d.aperture_len) segment_overflow
  refuse_if (ltb device_address d.aperture_base || ltb aperture_end end) out_of_range

-- Domain, device, base and length are those of the caller's mapping, as in the source; of the live
-- one only the generation is compared.
unfoldable pub check_domain :
    DmaState → ℕ → DmaMapping → Option Capability → ℕ → Result DmaError (Unit {0})
check_domain s slot m c device_address = do
  live ← ok_or (get slot s.mappings) unknown_mapping
  refuse_if (not (live.generation == m.generation)) stale_generation
  refuse_if (is_known slot s.segments) already_mapped
  d ← ok_or (get m.domain s.domains) unknown_domain
  refuse_if (not (d.device == m.device)) foreign_device
  check_mode d.mode d m c device_address

unfoldable pub map_domain :
    DmaState → ℕ → DmaMapping → Option Capability → ℕ → DmaState × Result DmaError (List DmaSegment)
map_domain s slot m c device_address = attempt (check_domain s slot m c device_address) s λ _.
    let segments : List DmaSegment = record { device_address = device_address; len = m.len } ∷ [] in
    (record s { segments = insert slot segments s.segments }, ok segments)

-- The live mapping of this slot, if it has the generation and the owner wanted.
unfoldable pub live_owned : DmaState → ℕ → DmaMapping → DmaOwnership → Result DmaError DmaMapping
live_owned s slot m owner = do
  live ← ok_or (get slot s.mappings) unknown_mapping
  refuse_if (not (live.generation == m.generation)) stale_generation
  refuse_if (not (ownership_eq live.ownership owner)) wrong_ownership
  ok live

unfoldable pub unmap_domain :
    DmaState → ℕ → DmaMapping → DmaState × Result DmaError (List DmaSegment)
unfolding live_owned
unmap_domain s slot m = attempt (live_owned s slot m cpu_owned) s λ _.
    attempt (ok_or (get slot s.segments) not_mapped) s
      λ segments. (record s { segments = remove slot s.segments }, ok segments)

unfoldable pub validate : DmaState → ℕ → DmaMapping → ℕ → ℕ → Result DmaError (Unit {0})
validate s slot m device domain = do
  live ← ok_or (get slot s.mappings) unknown_mapping
  refuse_if (not (live.generation == m.generation)) stale_generation
  refuse_if (not (live.device == device) || not (m.device == device)) foreign_device
  refuse_if (not (live.domain == domain) || not (m.domain == domain)) foreign_domain

unfoldable pub unpin : DmaState → ℕ → DmaMapping → DmaState × Result DmaError (Unit {0})
unfolding live_owned
unpin s slot m = attempt (live_owned s slot m cpu_owned) s λ live.
    attempt (refuse_if (is_known slot s.segments) already_mapped) s λ _.
      attempt (ok_or (checked_add live.generation 1) generation_overflow) s λ next. (
        record s {
          mappings = remove slot s.mappings;
          generations = insert slot next s.generations;
        },
        ok tt,
      )

unfoldable pub transition_ownership :
    DmaState → ℕ → DmaMapping → DmaOwnership → DmaOwnership → DmaState × Result DmaError DmaMapping
unfolding live_owned
transition_ownership s slot m expected next = attempt (live_owned s slot m expected) s λ live.
    attempt (refuse_if (not (ownership_eq m.ownership expected)) wrong_ownership) s λ _.
      let live' : DmaMapping = record live { ownership = next } in
      (record s { mappings = insert slot live' s.mappings }, ok live')

unfoldable pub sync_for_device : DmaState → ℕ → DmaMapping → DmaState × Result DmaError DmaMapping
unfolding transition_ownership
sync_for_device s slot m = transition_ownership s slot m cpu_owned device_owned

unfoldable pub sync_for_cpu : DmaState → ℕ → DmaMapping → DmaState × Result DmaError DmaMapping
unfolding transition_ownership
sync_for_cpu s slot m = transition_ownership s slot m device_owned cpu_owned
