-- ===== src/Examples/Ledger.antt =====
-- The capability ledger on one handle (kernel/src/capability.rs).
use bulla.Prelude.{refl, true, ok, err, ◌≤◌, ◌≡◌, ◌≢◌, ◌↔◌, [], ◌∷◌}
use bulla.Prelude.Map.{get, insert}
use bulla.Capability.{
  Capability, CapabilityKind, CapabilityLedger, empty_ledger, contains, contains_range, mint_root,
  validate, transfer, release, released,
}
use bulla.Capability.Handles.{Authorises, validate_iff}
use bulla.Capability.Calls.{Call, mints, transfers, releases, call, run}
use bulla.Capability.Revocation.{transfer-spends, release-revokes, run-attenuates}
use bulla.Action.{AuthorizedAction, mmio_read}

-- A device register page of owner 7, to read and write.
abbrev page : Capability
page = record {
  kind = CapabilityKind.mmio;
  slot = 1;
  owner = 7;
  rights = 3;
  generation = 0;
  base = 4096;
  len = 4096;
}

-- The same page, for owner 9 to read.
abbrev lent_page : Capability
lent_page = record page { owner = 9; rights = 1; generation = 1 }

abbrev minting : Call
minting = mints CapabilityKind.mmio 1 7 3 4096 4096

abbrev ledger : CapabilityLedger
ledger = run empty_ledger (minting ∷ [])

abbrev after_transfer : CapabilityLedger
after_transfer = (transfer ledger page 9 1).0

abbrev after_release : CapabilityLedger
after_release = (release ledger page).0

transfer-spends_example :
    validate (run after_transfer (releases lent_page ∷ [])) page 7 1 4096 8 ≢ ok tt
unfolding run call mint_root transfer insert get
transfer-spends_example =
    transfer-spends ledger after_transfer page lent_page 9 1 (releases lent_page ∷ []) 7 1 4096 8
      refl

release-revokes_example :
    validate (run after_release (minting ∷ [])) lent_page 9 1 4096 8 ≡ err released
unfolding run call mint_root release insert get
release-revokes_example =
    release-revokes ledger after_release page lent_page (minting ∷ []) 9 1 4096 8 refl refl refl

run-attenuates_example :
    (contains page.rights lent_page.rights ≡ true)
    × (lent_page.base ≡ page.base)
    × (lent_page.len ≡ page.len)
    × (page.generation ≤ lent_page.generation)
unfolding run call mint_root transfer validate contains_range insert get
run-attenuates_example =
    run-attenuates ledger page lent_page (transfers page 9 1 ∷ []) 7 9 1 1 4096 8 4096 8 refl refl
      refl refl

validate_iff_example : (validate ledger page 7 1 4096 8 ≡ ok tt) ↔ Authorises ledger page 7 1 4096 8
validate_iff_example = validate_iff ledger page 7 1 4096 8

abbrev passed : AuthorizedAction
passed = record { action = mmio_read 4100 4; capability_slot = 1; capability_generation = 0 }

abbrev named : AuthorizedAction
named = record {
  action = mmio_read 4100 4;
  capability_slot = page.slot;
  capability_generation = page.generation;
}
