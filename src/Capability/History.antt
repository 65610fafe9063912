-- ===== src/Capability/History.antt =====
-- The life of a ledger's record over any calls: what it may become (kernel/src/capability.rs).
use bulla.Prelude.{
  ℕ, bit_and, refl, ap, true, false, some, List, arith, Bool-cases, Result-cases, inl, inr, ◌≤◌,
  ◌≡◌, ◌∙◌, [], ◌∷◌,
}
use bulla.Prelude.Map.{get, insert, get-insert}
use bulla.Prelude.Bits.{bit_and_self, bit_and_trans}
use bulla.Capability.Handles.{record_of}
use bulla.Capability.{
  Capability, CapabilityKind, CapabilityLedger, SlotKey, OwnerId, Rights, Record, slot_key,
  slot_eq_iff, mint_root, transfer, release,
}
use bulla.Capability.Calls.{
  Call, mints, transfers, releases, call, run, moved, given_up, transfer-Moved, release-written,
  as_call-fst, as_unit_call-fst, transfer-err, release-err,
}

-- A record's generation never falls, and what is dead stays dead.
pub record Successor (r s : Record) : Type 0 where
  pub no_younger : r.generation ≤ s.generation
  pub same_base : s.base ≡ r.base
  pub same_len : s.len ≡ r.len
  pub attenuated : bit_and r.rights s.rights ≡ s.rights
  pub dead_stays : r.live ≡ false → s ≡ r

Successor-refl : (r : Record) → Successor r r
Successor-refl r = record {
  no_younger = omega arith;
  same_base = refl;
  same_len = refl;
  attenuated = bit_and_self r.rights;
  dead_stays = λ _. refl;
}

Successor-trans : (r s t : Record) → Successor r s → Successor s t → Successor r t
Successor-trans r s t p q = record {
  no_younger = omega arith;
  same_base = q.same_base ∙ p.same_base;
  same_len = q.same_len ∙ p.same_len;
  attenuated = bit_and_trans r.rights s.rights t.rights p.attenuated q.attenuated;
  dead_stays = λ dead.
      let e : s ≡ r = p.dead_stays dead in q.dead_stays (ap (λ (x : Record). x.live) e ∙ dead) ∙ e;
}

-- What the ledger holds at `k` after it held `r`.
abbrev pub After : CapabilityLedger → SlotKey → Record → Type 0
After l k r = (s : Record) × (get k l.records ≡ some s) × Successor r s

module _ (l : CapabilityLedger) (k : SlotKey) (r : Record) (here : get k l.records ≡ some r) where
  -- A write of a successor at one key keeps the history at every key.
  write-After :
      (j : SlotKey) (old new : Record) (l' : CapabilityLedger)
      → get j l.records ≡ some old
      → Successor old new
      → l'.records ≡ insert j new l.records
      → After l' k r
  write-After j old new l' was next e = elim (Bool-cases (slot_key.eq j k)) [
    | inl same ↦
        let j-eq : j ≡ k = (slot_eq_iff j k).0 same in
        let old-eq : old ≡ r = cc in
        (new, ground (arith, get-insert j k new l.records), rw old-eq at next)
    | inr other ↦ (r, ground (arith, get-insert j k new l.records), Successor-refl r)
  ]

  mint-After :
      (kind : CapabilityKind) (slot : ℕ) (owner : OwnerId) (rights : Rights) (base len : ℕ)
      → get k (mint_root l kind slot owner rights base len).0.records ≡ some r
  unfolding mint_root
  mint-After kind slot owner rights base len =
      let fresh : Record = record {
        owner = owner;
        rights = rights;
        generation = 0;
        base = base;
        len = len;
        live = true;
      } in
      ground (arith, slot_eq_iff (kind, slot) k, get-insert (kind, slot) k fresh l.records)

moved-Successor :
    (c : Capability) (owner : OwnerId) (rights : Rights)
    → bit_and c.rights rights ≡ rights
    → Successor (record_of c) (moved c owner rights)
moved-Successor c owner rights h = record {
  no_younger = omega arith;
  same_base = refl;
  same_len = refl;
  attenuated = h;
  dead_stays = λ dead. cc;
}

given_up-Successor : (c : Capability) → Successor (record_of c) (given_up c)
given_up-Successor c = record {
  no_younger = omega arith;
  same_base = refl;
  same_len = refl;
  attenuated = bit_and_self c.rights;
  dead_stays = λ dead. cc;
}

module _ (l : CapabilityLedger) (k : SlotKey) (r : Record) (here : get k l.records ≡ some r) where
  transfer-After :
      (c : Capability) (owner : OwnerId) (rights : Rights) → After (transfer l c owner rights).0 k r
  transfer-After c owner rights = elim (Result-cases (transfer l c owner rights).1) [
    | inl (d, h) ↦
        let m = transfer-Moved l c owner rights d h in
        write-After l k r here (c.kind, c.slot) (record_of c) (moved c owner rights) _ m.current
          (moved-Successor c owner rights m.masked) (ap (λ p. p.0.records) m.written)
    | inr (e, h) ↦ (r, rw (transfer-err l c owner rights e h) here, Successor-refl r)
  ]

  release-After : (c : Capability) → After (release l c).0 k r
  release-After c = elim (Result-cases (release l c).1) [
    | inl (d, h) ↦
        let m = release-written l c h in
        write-After l k r here (c.kind, c.slot) (record_of c) (given_up c) _ m.0
          (given_up-Successor c) (ap (λ p. p.0.records) m.1)
    | inr (e, h) ↦ (r, rw (release-err l c e h) here, Successor-refl r)
  ]

  call-After : (c : Call) → After (call l c).0 k r
  unfolding call
  call-After (mints kind slot owner rights base len) =
      rw (as_call-fst (mint_root l kind slot owner rights base len))
        (r, mint-After l k r here kind slot owner rights base len, Successor-refl r)
  call-After (transfers c owner rights) =
      rw (as_call-fst (transfer l c owner rights)) (transfer-After c owner rights)
  call-After (releases c) = rw (as_unit_call-fst (release l c)) (release-After c)

pub run-After :
    (l : CapabilityLedger) (cs : List Call) (k : SlotKey) (r : Record)
    → get k l.records ≡ some r
    → After (run l cs) k r
unfolding run
run-After l [] k r here = (r, here, Successor-refl r)
run-After l (c ∷ cs) k r here =
    let (s, there, p) = call-After l k r here c in
    let (t, last, q) = run-After (call l c).0 cs k s there in (t, last, Successor-trans r s t p q)
