-- ===== src/Capability/Calls.antt =====
-- The calls that change a ledger, in sequence, and what each reads and writes
-- (kernel/src/capability.rs).
use bulla.Prelude.{
  ℕ, bit_and, refl, false, Option, none, some, List, arith, Result, ok, err, u64_mod, ◌+◌, ◌<◌, ◌≡◌,
  [], ◌∷◌,
}
use bulla.Prelude.Map.{insert}
use bulla.Capability.Handles.{record_of}
use bulla.Capability.{
  Capability, CapabilityKind, CapabilityLedger, CapabilityError, OwnerId, Rights, Record, slot_key,
  capability, find, mint_root, transfer, release,
}

-- The three calls that change a ledger.
pub data Call : Type 0 where
  mints : CapabilityKind → ℕ → OwnerId → Rights → ℕ → ℕ → Call
  transfers : Capability → OwnerId → Rights → Call
  releases : Capability → Call

abbrev pub as_call {ℓ κ} :
    {A : Type ℓ} {S : Type κ} → S × Result CapabilityError A → S × Result CapabilityError (Option A)
as_call (l, ok a) = (l, ok (some a))
as_call (l, err e) = (l, err e)

abbrev pub as_unit_call :
    CapabilityLedger × Result CapabilityError (Unit {0})
    → CapabilityLedger × Result CapabilityError (Option Capability)
as_unit_call (l, ok _) = (l, ok none)
as_unit_call (l, err e) = (l, err e)

unfoldable pub call :
    CapabilityLedger → Call → CapabilityLedger × Result CapabilityError (Option Capability)
call l (mints kind slot owner rights base len) =
    as_call (mint_root l kind slot owner rights base len)
call l (transfers c owner rights) = as_call (transfer l c owner rights)
call l (releases c) = as_unit_call (release l c)

unfoldable pub run : CapabilityLedger → List Call → CapabilityLedger
run l [] = l
run l (c ∷ cs) = run (call l c).0 cs

-- A refused call leaves the ledger as it was.
pub call-err :
    (l : CapabilityLedger) (c : Call) (e : CapabilityError)
    → (call l c).1 ≡ err e
    → (call l c).0 ≡ l
unfolding call mint_root transfer release
call-err l (mints kind slot owner rights base len) e h = ground arith
call-err l (transfers c owner rights) e h = ground arith
call-err l (releases c) e h = ground arith

-- The record after a transfer, and after a release.
abbrev pub moved : Capability → OwnerId → Rights → Record
moved c owner rights = record (record_of c) {
  owner = owner;
  rights = rights;
  generation = c.generation + 1;
}

abbrev pub given_up : Capability → Record
given_up c = record (record_of c) { generation = c.generation + 1; live = false }

-- What a successful transfer read and wrote.
pub record Moved (l : CapabilityLedger) (c : Capability) (owner : OwnerId) (rights : Rights)
    : Type 0 where
  pub current : find l c ≡ some (record_of c)
  pub room : c.generation + 1 < u64_mod
  pub masked : bit_and c.rights rights ≡ rights
  pub written : transfer l c owner rights ≡ (
    record { records = insert (c.kind, c.slot) (moved c owner rights) l.records },
    ok (capability c.kind c.slot (moved c owner rights)),
  )

pub transfer-Moved :
    (l : CapabilityLedger) (c : Capability) (owner : OwnerId) (rights : Rights) (d : Capability)
    → (transfer l c owner rights).1 ≡ ok d
    → Moved l c owner rights
unfolding transfer
transfer-Moved l c owner rights d h = record {
  current = ground arith;
  room = ground arith;
  masked = ground arith;
  written = ground arith;
}

pub release-written :
    (l : CapabilityLedger) (c : Capability)
    → (release l c).1 ≡ ok tt
    → (find l c ≡ some (record_of c))
      × (release l c ≡ (record { records = insert (c.kind, c.slot) (given_up c) l.records }, ok tt))
      × (c.generation + 1 < u64_mod)
unfolding release
release-written l c h = ground arith

pub as_call-fst {ℓ κ} :
    {A : Type ℓ} {S : Type κ} (p : S × Result CapabilityError A) → (as_call p).0 ≡ p.0
as_call-fst (l, ok a) = refl
as_call-fst (l, err e) = refl

pub as_unit_call-fst :
    (p : CapabilityLedger × Result CapabilityError (Unit {0})) → (as_unit_call p).0 ≡ p.0
as_unit_call-fst (l, ok a) = refl
as_unit_call-fst (l, err e) = refl

pub transfer-err :
    (l : CapabilityLedger) (c : Capability) (owner : OwnerId) (rights : Rights)
    (e : CapabilityError)
    → (transfer l c owner rights).1 ≡ err e
    → (transfer l c owner rights).0 ≡ l
unfolding transfer
transfer-err l c owner rights e h = ground arith

pub release-err :
    (l : CapabilityLedger) (c : Capability) (e : CapabilityError)
    → (release l c).1 ≡ err e
    → (release l c).0 ≡ l
unfolding release
release-err l c e h = ground arith
