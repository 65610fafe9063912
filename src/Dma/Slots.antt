-- ===== src/Dma/Slots.antt =====
-- The life of a pinned slot over any calls (kernel/src/dma.rs).
use bulla.Prelude.{
  ℕ, false, Option, some, List, arith, ==_iff, ==_refl, Bool-cases, Option-cases, ok, is_ok, inl,
  inr, ◌+◌, ◌≤◌, ◌≡◌, [], ◌∷◌, ◌==◌,
}
use bulla.Prelude.Map.{get, get-insert, get-remove, nat_key}
use bulla.Capability.{Capability}
use bulla.Dma.{
  DmaMapping, DmaPin, DmaOwnership, IommuDomain, DmaState, cpu_owned, device_owned, generation_at,
  pin, register_domain, map_domain, live_owned, unmap_domain, validate, unpin, transition_ownership,
  sync_for_device, sync_for_cpu, pinned,
}

pub data Call : Type 0 where
  pins : Capability → DmaPin → Call
  registers : IommuDomain → Call
  maps_domain : ℕ → DmaMapping → Option Capability → ℕ → Call
  unmaps_domain unpins syncs_for_device syncs_for_cpu : ℕ → DmaMapping → Call

-- The state after a call, whether it succeeded or not.
unfoldable pub after : DmaState → Call → DmaState
after s (pins region request) = (pin s region request).0
after s (registers d) = (register_domain s d).0
after s (maps_domain slot m c address) = (map_domain s slot m c address).0
after s (unmaps_domain slot m) = (unmap_domain s slot m).0
after s (unpins slot m) = (unpin s slot m).0
after s (syncs_for_device slot m) = (sync_for_device s slot m).0
after s (syncs_for_cpu slot m) = (sync_for_cpu s slot m).0

unfoldable pub run : DmaState → List Call → DmaState
run s [] = s
run s (c ∷ cs) = run (after s c) cs

-- The slot's next mapping, or the one it has, is of generation `g` at least.
record Past (slot g : ℕ) (s : DmaState) : Type 0 where
  next : g ≤ generation_at s slot
  live : (m : DmaMapping) → get slot s.mappings ≡ some m → g ≤ m.generation

unpin-Past :
    (slot g : ℕ) (s : DmaState) (k : ℕ) (m : DmaMapping)
    → Past slot g s
    → g ≤ generation_at (unpin s k m).0 slot
unfolding unpin live_owned
unpin-Past slot g s k m p = elim (Option-cases (get k s.mappings)) [
  | inl h ↦ ground (arith, h, p.next)
  | inr (live, h) ↦ elim (Bool-cases (k == slot)) [
    | inl e ↦ ground (
      arith,
      h,
      e,
      p.next,
      p.live live,
      (==_iff k slot).0,
      get-insert k slot (1 + live.generation) s.generations,
    )
    | inr e ↦ ground (arith, h, e, p.next, get-insert k slot (1 + live.generation) s.generations)
  ]
]

transition-Past :
    (slot g : ℕ) (s : DmaState) (k : ℕ) (m : DmaMapping) (a b : DmaOwnership)
    → Past slot g s
    → (n : DmaMapping) → get slot (transition_ownership s k m a b).0.mappings ≡ some n
    → g ≤ n.generation
unfolding transition_ownership live_owned
transition-Past slot g s k m a b p n t = elim (Option-cases (get k s.mappings)) [
  | inl h ↦ ground (arith, h, p.live n)
  | inr (live, h) ↦ ground (
    arith,
    h,
    p.live n,
    p.live live,
    (==_iff k slot).0,
    get-insert k slot (record live { ownership = b }) s.mappings,
  )
]

after-Past : (slot g : ℕ) (s : DmaState) (c : Call) → Past slot g s → Past slot g (after s c)
unfolding after pin register_domain map_domain unmap_domain unpin sync_for_device sync_for_cpu
after-Past slot g s (pins region request) p = record {
  next = ground (arith, p.next);
  live = λ m h. ground (
    arith,
    p.live m,
    p.next,
    (==_iff request.slot slot).0,
    get-insert request.slot slot (pinned s request) s.mappings,
  );
}
after-Past slot g s (registers d) p = record {
  next = ground (arith, p.next);
  live = λ m h. ground (arith, p.live m);
}
after-Past slot g s (maps_domain k m c address) p = record {
  next = ground (arith, p.next);
  live = λ n h. ground (arith, p.live n);
}
after-Past slot g s (unmaps_domain k m) p = record {
  next = ground (arith, p.next);
  live = λ n h. ground (arith, p.live n);
}
after-Past slot g s (unpins k m) p = record {
  next = unpin-Past slot g s k m p;
  live = λ n h. ground (arith, p.live n, get-remove k slot s.mappings);
}
after-Past slot g s (syncs_for_device k m) p = record {
  next = ground (arith, p.next);
  live = transition-Past slot g s k m cpu_owned device_owned p;
}
after-Past slot g s (syncs_for_cpu k m) p = record {
  next = ground (arith, p.next);
  live = transition-Past slot g s k m device_owned cpu_owned p;
}

run-Past : (slot g : ℕ) (cs : List Call) (s : DmaState) → Past slot g s → Past slot g (run s cs)
unfolding run
run-Past slot g [] s p = p
run-Past slot g (c ∷ cs) s p = run-Past slot g cs (after s c) (after-Past slot g s c p)

unpin-next :
    (s : DmaState) (slot : ℕ) (m : DmaMapping) (s' : DmaState)
    → unpin s slot m ≡ (s', ok tt)
    → Past slot (1 + m.generation) s'
unfolding unpin live_owned
unpin-next s slot m s' t = elim (Option-cases (get slot s.mappings)) [
  | inl h ↦ absurd (ground (arith, h, t))
  | inr (live, h) ↦ record {
    next =
        ground
          (arith, h, t, get-insert slot slot (1 + live.generation) s.generations, ==_refl slot);
    live = λ n u. ground (arith, h, t, u, get-remove slot slot s.mappings, ==_refl slot);
  }
]

Past-live_owned :
    (slot : ℕ) (s : DmaState) (m : DmaMapping) (owner : DmaOwnership)
    → Past slot (1 + m.generation) s
    → is_ok (live_owned s slot m owner) ≡ false
unfolding live_owned
Past-live_owned slot s m owner p = elim (Option-cases (get slot s.mappings)) [
  | inl h ↦ ground (arith, h)
  | inr (live, h) ↦ ground (arith, h, p.live live, (==_iff live.generation m.generation).0)
]

Past-validate :
    (slot : ℕ) (s : DmaState) (m : DmaMapping) (device domain : ℕ)
    → Past slot (1 + m.generation) s
    → is_ok (validate s slot m device domain) ≡ false
unfolding validate
Past-validate slot s m device domain p = elim (Option-cases (get slot s.mappings)) [
  | inl h ↦ ground (arith, h)
  | inr (live, h) ↦ ground (arith, h, p.live live, (==_iff live.generation m.generation).0)
]

-- Once a mapping was unpinned, whatever calls of the DMA interface follow, pins of the same slot
-- included, the old mapping value is refused by validation and by the lookup that every unpin,
-- unmap and ownership transfer makes first.
pub unpinned_refused :
    (s : DmaState) (slot : ℕ) (m : DmaMapping) (s' : DmaState) (cs : List Call) (device domain : ℕ)
    (owner : DmaOwnership)
    → unpin s slot m ≡ (s', ok tt)
    → (is_ok (validate (run s' cs) slot m device domain) ≡ false)
      × (is_ok (live_owned (run s' cs) slot m owner) ≡ false)
unpinned_refused s slot m s' cs device domain owner t =
    let p = run-Past slot (1 + m.generation) cs s' (unpin-next s slot m s' t) in
    (Past-validate slot (run s' cs) m device domain p, Past-live_owned slot (run s' cs) m owner p)
