-- ===== src/Action/Authority.antt =====
-- The executor's last check passes what a live handle grants (kernel/src/event.rs).
use bulla.Prelude.{ok, ◌≡◌, ◌↔◌}
use bulla.Capability.{Capability, CapabilityLedger, OwnerId}
use bulla.Action.{Action, AuthorizedAction, authorize}
use bulla.Action.Grants.{Grants, Backed}

module _ (l : CapabilityLedger) (owner : OwnerId) (c : Capability) (action : Action)
    (a : AuthorizedAction) where
  abbrev Passes : Type 0
  Passes = (authorize l owner c action ≡ ok a) ↔ (
      Backed l owner c action
      × (a ≡ record {
        action = action;
        capability_slot = c.slot;
        capability_generation = c.generation;
      }))
