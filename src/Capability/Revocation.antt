-- ===== src/Capability/Revocation.antt =====
-- What holds of a handle after any later calls on its ledger (kernel/src/capability.rs).
use bulla.Prelude.{
  ℕ, bit_and, refl, sym, ap, true, some, List, arith, Bool-cases, ok, err, Result-cases, u64_mod,
  inl, inr, ◌+◌, ◌≤◌, ◌<◌, ◌≡◌, ◌∙◌, ◌≢◌, [], ◌∷◌,
}
use bulla.Prelude.Map.{get, insert, get-insert}
use bulla.Prelude.Bits.{bit_and-clear}
use bulla.Capability.Handles.{record_of, validate_iff}
use bulla.Capability.Calls.{
  Call, mints, transfers, releases, call, run, moved, given_up, transfer-Moved, release-written,
  as_call-fst, as_unit_call-fst, transfer-err, release-err,
}
use bulla.Capability.History.{Successor, run-After}
use bulla.Capability.{
  Capability, CapabilityKind, CapabilityLedger, SlotKey, OwnerId, Rights, Record, slot_key,
  slot_eq_iff, contains, validate, mint_root, transfer, release, released, not_all_rights,
  empty_ledger,
}

same_key : (k : SlotKey) (r : Record) (m : List (SlotKey × Record)) → get k (insert k r m) ≡ some r
same_key k r m = ground (arith, slot_eq_iff k k, get-insert k k r m)

-- A handle that was transferred never validates again, whatever calls follow on its ledger.
pub transfer-spends :
    (l l' : CapabilityLedger) (c d : Capability) (owner : OwnerId) (rights : Rights)
    (cs : List Call) (p : OwnerId) (required : Rights) (base len : ℕ)
    → transfer l c owner rights ≡ (l', ok d)
    → validate (run l' cs) c p required base len ≢ ok tt
transfer-spends l l' c d owner rights cs p required base len h v =
    let m = transfer-Moved l c owner rights d (ap (λ q. q.1) h) in
    let there : get (c.kind, c.slot) l'.records ≡ some (moved c owner rights) =
      rw (ap (λ q. q.0.records) (sym h ∙ m.written)) (same_key _ _ _) in
    let (s, last, q) = run-After l' cs (c.kind, c.slot) (moved c owner rights) there in
    let now = ((validate_iff (run l' cs) c p required base len).0 v).current in
    let e : s ≡ record_of c = cc in
    let same : s.generation ≡ c.generation = ap (λ (x : Record). x.generation) e in
    absurd (omega (arith, q.no_younger))

-- A slot that was released stays so: whatever calls follow, every handle to it, of any generation,
-- is refused as released.
pub release-revokes :
    (l l' : CapabilityLedger) (c d : Capability) (cs : List Call) (p : OwnerId) (required : Rights)
    (base len : ℕ)
    → release l c ≡ (l', ok tt)
    → d.kind ≡ c.kind
    → d.slot ≡ c.slot
    → validate (run l' cs) d p required base len ≡ err released
unfolding validate
release-revokes l l' c d cs p required base len h e f =
    let m = release-written l c (ap (λ q. q.1) h) in
    let there : get (c.kind, c.slot) l'.records ≡ some (given_up c) =
      rw (ap (λ q. q.0.records) (sym h ∙ m.1)) (same_key _ _ _) in
    let (s, last, q) = run-After l' cs (c.kind, c.slot) (given_up c) there in
    ground (arith, q.dead_stays refl)

-- Rights only shrink: a handle that validates after any calls names, of an earlier valid handle to
-- the same slot, the same range, no fewer generations, and none but the earlier handle's rights.
pub run-attenuates :
    (l : CapabilityLedger) (c d : Capability) (cs : List Call) (o p : OwnerId) (q r : Rights)
    (b n b' n' : ℕ)
    → d.kind ≡ c.kind
    → d.slot ≡ c.slot
    → validate l c o q b n ≡ ok tt
    → validate (run l cs) d p r b' n' ≡ ok tt
    → (contains c.rights d.rights ≡ true)
      × (d.base ≡ c.base)
      × (d.len ≡ c.len)
      × (c.generation ≤ d.generation)
run-attenuates l c d cs o p q r b n b' n' e f v w =
    let here = ((validate_iff l c o q b n).0 v).current in
    let now = ((validate_iff (run l cs) d p r b' n').0 w).current in
    let (s, last, t) = run-After l cs (c.kind, c.slot) (record_of c) here in
    let same : s ≡ record_of d = cc in
    let t' : Successor (record_of c) (record_of d) = rw same at t in
    (ground (arith, t'.attenuated), t'.same_base, t'.same_len, t'.no_younger)

-- Every record has a range that fits 64 bits, known rights only, and a generation that fits.
pub record IsSound (r : Record) : Type 0 where
  pub fits : r.base + r.len < u64_mod
  pub known : bit_and r.rights not_all_rights ≡ 0
  pub counted : r.generation < u64_mod

abbrev pub IsWellFormed : CapabilityLedger → Type 0
IsWellFormed l = (k : SlotKey) (r : Record) → get k l.records ≡ some r → IsSound r

module _ (l : CapabilityLedger) (wf : IsWellFormed l) where
  write-IsWellFormed :
      (j : SlotKey) (new : Record) (l' : CapabilityLedger)
      → IsSound new
      → l'.records ≡ insert j new l.records
      → IsWellFormed l'
  write-IsWellFormed j new l' sound e k r h = elim (Bool-cases (slot_key.eq j k)) [
    | inl same ↦ let eq : new ≡ r = ground (arith, get-insert j k new l.records) in rw eq at sound
    | inr other ↦ wf k r (ground (arith, get-insert j k new l.records))
  ]

  mint_root-IsWellFormed :
      (kind : CapabilityKind) (slot : ℕ) (owner : OwnerId) (rights : Rights) (base len : ℕ)
      → IsWellFormed (mint_root l kind slot owner rights base len).0
  unfolding mint_root
  mint_root-IsWellFormed kind slot owner rights base len k r h =
      let new : Record = record {
        owner = owner;
        rights = rights;
        generation = 0;
        base = base;
        len = len;
        live = true;
      } in
      ground (arith, wf k r, slot_eq_iff (kind, slot) k, get-insert (kind, slot) k new l.records)

  transfer-IsWellFormed :
      (c : Capability) (owner : OwnerId) (rights : Rights)
      → IsWellFormed (transfer l c owner rights).0
  transfer-IsWellFormed c owner rights = elim (Result-cases (transfer l c owner rights).1) [
    | inl (d, h) ↦
        let m = transfer-Moved l c owner rights d h in
        let old = wf (c.kind, c.slot) (record_of c) m.current in
        write-IsWellFormed (c.kind, c.slot) (moved c owner rights) _
          (record {
            fits = old.fits;
            known = bit_and-clear c.rights rights not_all_rights m.masked old.known;
            counted = m.room;
          })
          (ap (λ p. p.0.records) m.written)
    | inr (e, h) ↦ rw (transfer-err l c owner rights e h) wf
  ]

  release-IsWellFormed : (c : Capability) → IsWellFormed (release l c).0
  release-IsWellFormed c = elim (Result-cases (release l c).1) [
    | inl (d, h) ↦
        let m = release-written l c h in
        let old = wf (c.kind, c.slot) (record_of c) m.0 in
        write-IsWellFormed (c.kind, c.slot) (given_up c) _
          (record { fits = old.fits; known = old.known; counted = m.2 }) (ap (λ p. p.0.records) m.1)
    | inr (e, h) ↦ rw (release-err l c e h) wf
  ]

  call-IsWellFormed : (c : Call) → IsWellFormed (call l c).0
  unfolding call
  call-IsWellFormed (mints kind slot owner rights base len) =
      rw (as_call-fst (mint_root l kind slot owner rights base len))
        (mint_root-IsWellFormed kind slot owner rights base len)
  call-IsWellFormed (transfers c owner rights) =
      rw (as_call-fst (transfer l c owner rights)) (transfer-IsWellFormed c owner rights)
  call-IsWellFormed (releases c) = rw (as_unit_call-fst (release l c)) (release-IsWellFormed c)

run-keeps : (l : CapabilityLedger) (cs : List Call) → IsWellFormed l → IsWellFormed (run l cs)
unfolding run
run-keeps l [] wf = wf
run-keeps l (c ∷ cs) wf = run-keeps (call l c).0 cs (call-IsWellFormed l wf c)

empty-IsWellFormed : IsWellFormed empty_ledger
unfolding get
empty-IsWellFormed k r h = cc

-- After any calls on a new ledger, every record's range fits 64 bits, its rights are among the
-- seven that exist, and its generation fits 64 bits.
pub run-IsWellFormed : (cs : List Call) → IsWellFormed (run empty_ledger cs)
run-IsWellFormed cs = run-keeps empty_ledger cs empty-IsWellFormed
