-- ===== src/Examples/Dmas.antt =====
-- A pinned page, its translation and its release (kernel/src/dma.rs).
use bulla.Prelude.{refl, true, false, some, List, ok, is_ok, ◌≡◌, ◌↔◌, [], ◌∷◌, if◌then◌else◌}
use bulla.Prelude.Map.{insert, get, nat_key}
use bulla.Capability.{Capability, CapabilityKind, contains_range}
use bulla.Dma.{
  DmaSegment, DmaMapping, DmaPin, DmaState, DmaDirection, IommuDomain, bidirectional, cpu_owned,
  present, new_dma, pin, unpin, validate, live_owned, map_domain, is_known,
}
use bulla.Dma.Slots.{Call, pins, registers, maps_domain, unpins, run, after, unpinned_refused}
use bulla.Dma.Domains.{MayMap, map_domain_iff, segments_backed}

abbrev frame : Capability
frame = record {
  kind = CapabilityKind.frame;
  slot = 2;
  owner = 1;
  rights = 3;
  generation = 0;
  base = 4096;
  len = 4096;
}

abbrev request : DmaPin
request = record {
  slot = 5;
  device = 9;
  domain = 4;
  base = 4096;
  len = 512;
  direction = bidirectional;
}

abbrev mapping : DmaMapping
mapping = record {
  device = 9;
  domain = 4;
  base = 4096;
  len = 512;
  direction = bidirectional;
  generation = 0;
  ownership = cpu_owned;
}

abbrev domain : IommuDomain
domain = record { id = 4; device = 9; aperture_base = 65536; aperture_len = 65536; mode = present }

abbrev domain_handle : Capability
domain_handle = record {
  kind = CapabilityKind.iommu_domain;
  slot = 4;
  owner = 1;
  rights = 8;
  generation = 0;
  base = 0;
  len = 1;
}

abbrev pinned_page : DmaState
pinned_page = run new_dma (pins frame request ∷ registers domain ∷ [])

abbrev released : DmaState
released = (unpin pinned_page 5 mapping).0

-- The slot is pinned again after its release.
unpinned_refused_example :
    (is_ok (validate (run released (pins frame request ∷ [])) 5 mapping 9 4) ≡ false)
    × (is_ok (live_owned (run released (pins frame request ∷ [])) 5 mapping cpu_owned) ≡ false)
unfolding run after pin unpin contains_range get bulla.Dma.register_domain bulla.Prelude.Map.insert
unpinned_refused_example =
    unpinned_refused pinned_page 5 mapping released (pins frame request ∷ []) 9 4 cpu_owned refl

map_domain_iff_example :
    let r = map_domain pinned_page 5 mapping (some domain_handle) 65536 in
    let made : List DmaSegment = record { device_address = 65536; len = 512 } ∷ [] in
    ((is_ok r.1 ≡ true) ↔ MayMap pinned_page 5 mapping (some domain_handle) 65536)
    × (r ≡ (
        if is_ok r.1
        then (record pinned_page { segments = insert 5 made pinned_page.segments }, ok made)
        else (pinned_page, r.1)))
map_domain_iff_example = map_domain_iff pinned_page 5 mapping (some domain_handle) 65536

abbrev mapped : List Call
mapped =
    pins frame request
    ∷ registers domain
    ∷ maps_domain 5 mapping (some domain_handle) 65536
    ∷ unpins 5 mapping
    ∷ []

segments_backed_example : is_known 5 (run new_dma mapped).mappings ≡ true
unfolding run after pin unpin contains_range get map_domain bulla.Dma.check_domain
    bulla.Dma.check_mode bulla.Dma.register_domain bulla.Prelude.Map.insert
segments_backed_example = segments_backed mapped 5 refl
