-- ===== src/Dma/Domains.antt =====
-- Translations of the IOMMU: when one is made, and that each has a live mapping
-- (kernel/src/dma.rs).
use bulla.Prelude.{
  ℕ, refl, true, Option, none, some, List, arith, ==_iff, Option-cases, ok, is_ok, Result-cases,
  u64_mod, inl, inr, ◌+◌, ◌≤◌, ◌<◌, ◌≡◌, ◌↔◌, [], ◌∷◌, if◌then◌else◌,
}
use bulla.Prelude.Map.{insert, get, get-insert, get-remove, nat_key}
use bulla.Capability.{Capability, CapabilityKind, kind_eq, contains, map_right}
use bulla.Dma.{
  DmaSegment, DmaMapping, DmaPin, DmaOwnership, IommuMode, IommuDomain, DmaState, absent_identity,
  present, cpu_owned, device_owned, pinned, pin, register_domain, check_mode, check_domain,
  is_known, new_dma, map_domain, live_owned, unmap_domain, unpin, transition_ownership,
  sync_for_device, sync_for_cpu,
}
use bulla.Dma.Slots.{
  Call, after, run, pins, registers, maps_domain, unmaps_domain, unpins, syncs_for_device,
  syncs_for_cpu,
}

-- The device address lies in the domain's aperture, or is the identity where there is no IOMMU.
unfoldable pub Reaches : IommuMode → IommuDomain → DmaMapping → Option Capability → ℕ → Type 0
Reaches absent_identity d m none a = a ≡ m.base
Reaches absent_identity d m (some c) a = ⊥
Reaches present d m none a = ⊥
Reaches present d m (some c) a =
    (kind_eq c.kind CapabilityKind.iommu_domain ≡ true)
    × (contains c.rights map_right ≡ true)
    × (c.slot ≡ d.id)
    × (d.aperture_base ≤ a)
    × (a + m.len ≤ d.aperture_base + d.aperture_len)
    × (d.aperture_base + d.aperture_len < u64_mod)

check_mode-Reaches :
    (i : IommuMode) (d : IommuDomain) (m : DmaMapping) (c : Option Capability) (a : ℕ)
    → (is_ok (check_mode i d m c a) ≡ true) ↔ Reaches i d m c a
unfolding check_mode Reaches
check_mode-Reaches absent_identity d m none a =
    (λ t. ground (arith, t, (==_iff a m.base).0), λ t. ground (arith, t, (==_iff a m.base).1))
check_mode-Reaches absent_identity d m (some c) a = (λ t. ground (arith, t), λ t. absurd t)
check_mode-Reaches present d m none a = (λ t. ground (arith, t), λ t. absurd t)
check_mode-Reaches present d m (some c) a =
    (λ t. ground (arith, t, (==_iff c.slot d.id).0), λ t. ground (arith, t, (==_iff c.slot d.id).1))

-- A slot with device segments has a live mapping.
unfoldable pub IsBacked : DmaState → Type 0
IsBacked s = (k : ℕ) → is_known k s.segments ≡ true → is_known k s.mappings ≡ true

map_domain-IsBacked :
    (s : DmaState) (slot : ℕ) (m : DmaMapping) (c : Option Capability) (a : ℕ)
    → IsBacked s
    → IsBacked (map_domain s slot m c a).0
unfolding map_domain check_domain IsBacked
map_domain-IsBacked s slot m c a w k t = ground (
  arith,
  t,
  w k,
  (==_iff slot k).0,
  get-insert slot k (record { device_address = a; len = m.len } ∷ []) s.segments,
)

unpin-IsBacked :
    (s : DmaState) (slot : ℕ) (m : DmaMapping) → IsBacked s → IsBacked (unpin s slot m).0
unfolding unpin live_owned IsBacked
unpin-IsBacked s slot m w k t =
    ground (arith, t, w k, (==_iff slot k).0, get-remove slot k s.mappings)

unmap_domain-IsBacked :
    (s : DmaState) (slot : ℕ) (m : DmaMapping) → IsBacked s → IsBacked (unmap_domain s slot m).0
unfolding unmap_domain live_owned IsBacked
unmap_domain-IsBacked s slot m w k t = ground (arith, t, w k, get-remove slot k s.segments)

pin-IsBacked :
    (s : DmaState) (region : Capability) (request : DmaPin)
    → IsBacked s
    → IsBacked (pin s region request).0
unfolding pin IsBacked
pin-IsBacked s region request w k t =
    ground (arith, t, w k, get-insert request.slot k (pinned s request) s.mappings)

transition-IsBacked :
    (s : DmaState) (slot : ℕ) (m : DmaMapping) (a b : DmaOwnership)
    → IsBacked s
    → IsBacked (transition_ownership s slot m a b).0
unfolding transition_ownership live_owned IsBacked
transition-IsBacked s slot m a b w k t = elim (Option-cases (get slot s.mappings)) [
  | inl h ↦ ground (arith, h, t, w k)
  | inr (live, h) ↦
      ground (arith, h, t, w k, get-insert slot k (record live { ownership = b }) s.mappings)
]

register_domain-IsBacked :
    (s : DmaState) (d : IommuDomain) → IsBacked s → IsBacked (register_domain s d).0
unfolding register_domain IsBacked
register_domain-IsBacked s d w k t = ground (arith, t, w k)

after-IsBacked : (s : DmaState) (c : Call) → IsBacked s → IsBacked (after s c)
unfolding after sync_for_device sync_for_cpu
after-IsBacked s (pins region request) = pin-IsBacked s region request
after-IsBacked s (registers d) = register_domain-IsBacked s d
after-IsBacked s (maps_domain slot m c a) = map_domain-IsBacked s slot m c a
after-IsBacked s (unmaps_domain slot m) = unmap_domain-IsBacked s slot m
after-IsBacked s (unpins slot m) = unpin-IsBacked s slot m
after-IsBacked s (syncs_for_device slot m) = transition-IsBacked s slot m cpu_owned device_owned
after-IsBacked s (syncs_for_cpu slot m) = transition-IsBacked s slot m device_owned cpu_owned

run-IsBacked : (cs : List Call) (s : DmaState) → IsBacked s → IsBacked (run s cs)
unfolding run
run-IsBacked [] s w = w
run-IsBacked (c ∷ cs) s w = run-IsBacked cs (after s c) (after-IsBacked s c w)

-- After any calls of the DMA interface from the empty state, whether they succeeded or not, a slot
-- with segments in the IOMMU has a live mapping: no device translation outlives its pin.
pub segments_backed :
    (cs : List Call) (k : ℕ)
    → is_known k (run new_dma cs).segments ≡ true
    → is_known k (run new_dma cs).mappings ≡ true
unfolding IsBacked get
segments_backed cs k = run-IsBacked cs new_dma (λ j t. t) k

-- What a translation asks for: a live mapping of the caller's generation without segments, and a
-- registered domain of the device that reaches the device address.
unfoldable pub MayMap : DmaState → ℕ → DmaMapping → Option Capability → ℕ → Type 0
MayMap s slot m c a =
    (live : DmaMapping) × (d : IommuDomain) × (get slot s.mappings ≡ some live)
    × (live.generation ≡ m.generation)
    × (get slot s.segments ≡ none)
    × (get m.domain s.domains ≡ some d)
    × (d.device ≡ m.device)
    × Reaches d.mode d m c a

check_domain-MayMap :
    (s : DmaState) (slot : ℕ) (m : DmaMapping) (c : Option Capability) (a : ℕ)
    → is_ok (check_domain s slot m c a) ≡ true
    → MayMap s slot m c a
unfolding check_domain MayMap
check_domain-MayMap s slot m c a t = elim (Option-cases (get slot s.mappings)) [
  | inl h ↦ absurd (ground (arith, h, t))
  | inr (live, h) ↦ elim (Option-cases (get m.domain s.domains)) [
    | inl g ↦ absurd (ground (arith, h, g, t))
    | inr (d, g) ↦ (
      live,
      d,
      h,
      ground (arith, h, g, t, (==_iff live.generation m.generation).0),
      ground (arith, h, g, t),
      g,
      ground (arith, h, g, t, (==_iff d.device m.device).0),
      (check_mode-Reaches d.mode d m c a).0 (ground (arith, h, g, t)),
    )
  ]
]

MayMap-check_domain :
    (s : DmaState) (slot : ℕ) (m : DmaMapping) (c : Option Capability) (a : ℕ)
    → MayMap s slot m c a
    → is_ok (check_domain s slot m c a) ≡ true
unfolding check_domain MayMap
MayMap-check_domain s slot m c a (live, d, h, e, n, g, f, r) =
    let t = (check_mode-Reaches d.mode d m c a).1 r in
    ground
      (arith, h, g, n, t, (==_iff live.generation m.generation).1 e, (==_iff d.device m.device).1 f)

-- A mapping is accepted by the IOMMU exactly when its slot holds a live mapping of the same
-- generation that has no segments yet and the named domain is registered for the named device and
-- reaches the address: with an IOMMU present, under a capability of that domain with the map right
-- and with the whole range inside the aperture; without one, under no capability and at the
-- physical base itself. An accepted mapping is entered: the one segment at the device address, of
-- the mapping's length, becomes the slot's, is returned, and nothing else changes. A refused one
-- changes nothing.
pub map_domain_iff :
    (s : DmaState) (slot : ℕ) (m : DmaMapping) (c : Option Capability) (a : ℕ)
    → let r = map_domain s slot m c a in
      let made : List DmaSegment = record { device_address = a; len = m.len } ∷ [] in
      ((is_ok r.1 ≡ true) ↔ MayMap s slot m c a)
      × (r ≡ (
          if is_ok r.1
          then (record s { segments = insert slot made s.segments }, ok made)
          else (s, r.1)))
unfolding map_domain
map_domain_iff s slot m c a = (
  (
    λ t. check_domain-MayMap s slot m c a (ground (arith, t)),
    λ y. let t = MayMap-check_domain s slot m c a y in ground (arith, t),
  ),
  elim (Result-cases (check_domain s slot m c a)) [
    | inl (_, e) ↦ rw (map_domain, e) refl
    | inr (_, e) ↦ rw (map_domain, e) refl
  ],
)
