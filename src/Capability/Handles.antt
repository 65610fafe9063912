-- ===== src/Capability/Handles.antt =====
-- What a validated handle is, and what a transfer may pass on (kernel/src/capability.rs).
use bulla.Prelude.{ℕ, bit_and, true, some, arith, ok, u64_mod, ◌+◌, ◌≤◌, ◌<◌, ◌≡◌, ◌↔◌}
use bulla.Capability.{
  Capability, CapabilityLedger, OwnerId, Rights, Record, find, contains_range, validate, slot_key,
}

-- The record that a live handle names.
abbrev pub record_of : Capability → Record
record_of c = record {
  owner = c.owner;
  rights = c.rights;
  generation = c.generation;
  base = c.base;
  len = c.len;
  live = true;
}

-- The request lies within the handle, with no overflow on either side.
pub record InRange (c : Capability) (base len : ℕ) : Type 0 where
  pub cap_fits : c.base + c.len < u64_mod
  pub request_fits : base + len < u64_mod
  pub low : c.base ≤ base
  pub high : base + len ≤ c.base + c.len

pub contains_range→InRange :
    (c : Capability) (base len : ℕ) → contains_range c base len ≡ true → InRange c base len
unfolding contains_range
contains_range→InRange c base len h = ground arith

pub InRange→contains_range :
    (c : Capability) (base len : ℕ) → InRange c base len → contains_range c base len ≡ true
unfolding contains_range
InRange→contains_range c base len h = ground arith

-- The ledger holds exactly this handle, live, and the request is within its authority.
pub record Authorises (l : CapabilityLedger) (c : Capability) (owner : OwnerId) (required : Rights)
    (base len : ℕ) : Type 0 where
  pub current : find l c ≡ some (record_of c)
  pub owned : c.owner ≡ owner
  pub permitted : bit_and c.rights required ≡ required
  pub in_range : InRange c base len

module _ (l : CapabilityLedger) (c : Capability) (owner : OwnerId) (required : Rights)
    (base len : ℕ) where
  validate→Authorises :
      validate l c owner required base len ≡ ok tt → Authorises l c owner required base len
  unfolding validate
  validate→Authorises h = record {
    current = ground arith;
    owned = ground arith;
    permitted = ground arith;
    in_range = contains_range→InRange c base len (ground arith);
  }

  Authorises→validate :
      Authorises l c owner required base len → validate l c owner required base len ≡ ok tt
  unfolding validate
  Authorises→validate h = ground (arith, InRange→contains_range c base len h.in_range)

  -- Validation succeeds exactly when the ledger holds this very handle, live, for this owner, with
  -- the required rights, over the requested range.
  pub validate_iff :
      (validate l c owner required base len ≡ ok tt) ↔ Authorises l c owner required base len
  validate_iff = (validate→Authorises, Authorises→validate)

-- Two handles to one slot that both validate are the same handle.
pub validate_unique :
    (l : CapabilityLedger) (c d : Capability) (o p : OwnerId) (q r : Rights) (b n b' n' : ℕ)
    → c.kind ≡ d.kind
    → c.slot ≡ d.slot
    → validate l c o q b n ≡ ok tt
    → validate l d p r b' n' ≡ ok tt
    → c ≡ d
validate_unique l c d o p q r b n b' n' e f h k =
    ground
      (arith, ((validate_iff l c o q b n).0 h).current, ((validate_iff l d p r b' n').0 k).current)
