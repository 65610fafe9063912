-- ===== src/Capability.antt =====
-- kernel/src/capability.rs: rights, capabilities, and the ledger that mints, validates, transfers
-- and releases them.
mod Kind
pub mod Calls
pub mod Handles
pub mod History
pub mod Revocation
pub use Kind.*
use bulla.Prelude.{
  ℕ, bit_and, Bool, true, false, not, Option, none, some, leb, Result, ok, err, refuse_if, ok_or,
  attempt, u32_mod, checked_add, ◌-◌, ◌&&◌, ◌||◌, [], ◌==◌, ◌>>=◌, ◌>>◌,
}
use bulla.Prelude.Map.{Map, get, insert}
use Kind.{CapabilityKind, SlotKey, slot_key}

-- `Rights(u32)`; `!bits` is the complement in 32 bits.
abbrev pub Rights : Type 0
Rights = ℕ

abbrev pub read : Rights
read = 1

abbrev pub write : Rights
write = 2

abbrev pub map_right : Rights
map_right = 8

abbrev pub route_right : Rights
route_right = 16

abbrev pub control : Rights
control = 32

abbrev pub all_rights : Rights
all_rights = 127

abbrev pub not_all_rights : Rights
not_all_rights = u32_mod - 1 - all_rights

abbrev pub contains : Rights → Rights → Bool
contains rights required = bit_and rights required == required

pub record Capability : Type 0 where
  pub kind : CapabilityKind
  pub slot : ℕ
  pub owner : OwnerId
  pub rights : Rights
  pub generation : ℕ
  pub base : ℕ
  pub len : ℕ

unfoldable pub contains_range : Capability → ℕ → ℕ → Bool
contains_range c base len = elim (checked_add c.base c.len) [
  | none ↦ false
  | some cap_end ↦ elim (checked_add base len) [
    | none ↦ false
    | some end ↦ leb c.base base && leb end cap_end
  ]
]

pub record Record : Type 0 where
  pub owner : OwnerId
  pub rights : Rights
  pub generation : ℕ
  pub base : ℕ
  pub len : ℕ
  pub live : Bool

pub data CapabilityError : Type 0 where
  duplicate_slot unknown_slot released wrong_kind foreign_owner stale_generation : CapabilityError
  missing_rights rights_escalation range_overflow out_of_range generation_overflow : CapabilityError

pub record CapabilityLedger : Type 0 where
  pub records : Map SlotKey Record

abbrev pub empty_ledger : CapabilityLedger
empty_ledger = record { records = [] }

abbrev pub find : CapabilityLedger → Capability → Option Record
find l c = get (c.kind, c.slot) l.records

-- `Self::capability`: the handle that names a record.
abbrev pub capability : CapabilityKind → ℕ → Record → Capability
capability kind slot r = record {
  kind = kind;
  slot = slot;
  owner = r.owner;
  rights = r.rights;
  generation = r.generation;
  base = r.base;
  len = r.len;
}

unfoldable pub mint_root :
    CapabilityLedger
    → CapabilityKind
    → ℕ
    → OwnerId
    → Rights
    → ℕ
    → ℕ
    → CapabilityLedger × Result CapabilityError Capability
mint_root l kind slot owner rights base len =
    attempt (refuse_if (not (bit_and rights not_all_rights == 0)) rights_escalation) l λ _.
      attempt (ok_or (checked_add base len) range_overflow) l λ _.
        elim (get (kind, slot) l.records) [
          | some _ ↦ (l, err duplicate_slot)
          | none ↦
              let r : Record = record {
                owner = owner;
                rights = rights;
                generation = 0;
                base = base;
                len = len;
                live = true;
              } in
              (record l { records = insert (kind, slot) r l.records }, ok (capability kind slot r))
        ]

unfoldable pub validate :
    CapabilityLedger → Capability → OwnerId → Rights → ℕ → ℕ → Result CapabilityError (Unit {0})
unfolding contains_range
validate l c owner required base len = do
  r ← ok_or (find l c) unknown_slot
  refuse_if (not r.live) released
  refuse_if (not (r.generation == c.generation)) stale_generation
  refuse_if (not (r.owner == owner) || not (c.owner == owner)) foreign_owner
  refuse_if (not (r.rights == c.rights) || not (contains r.rights required)) missing_rights
  refuse_if (not (r.base == c.base) || not (r.len == c.len)) out_of_range
  refuse_if (not (contains_range c base len)) out_of_range
  ok tt

unfoldable pub validate_record : Record → Capability → Result CapabilityError (Unit {0})
validate_record r c = do
  refuse_if (not r.live) released
  refuse_if (not (r.owner == c.owner)) foreign_owner
  refuse_if (not (r.generation == c.generation)) stale_generation
  refuse_if (not (r.rights == c.rights) || not (r.base == c.base) || not (r.len == c.len))
      out_of_range

unfoldable pub transfer :
    CapabilityLedger
    → Capability
    → OwnerId
    → Rights
    → CapabilityLedger × Result CapabilityError Capability
unfolding validate_record
transfer l c new_owner new_rights = attempt (ok_or (find l c) unknown_slot) l λ r.
    attempt (validate_record r c) l λ _.
      attempt (refuse_if (not (contains r.rights new_rights)) rights_escalation) l λ _.
        attempt (ok_or (checked_add r.generation 1) generation_overflow) l λ next.
          let r' : Record = record r {
            generation = next;
            owner = new_owner;
            rights = new_rights;
          } in
          (
            record l { records = insert (c.kind, c.slot) r' l.records },
            ok (capability c.kind c.slot r'),
          )

unfoldable pub release :
    CapabilityLedger → Capability → CapabilityLedger × Result CapabilityError (Unit {0})
unfolding validate_record
release l c = attempt (ok_or (find l c) unknown_slot) l λ r. attempt (validate_record r c) l λ _.
    attempt (ok_or (checked_add r.generation 1) generation_overflow) l λ next.
      let r' : Record = record r { generation = next; live = false } in
      (record l { records = insert (c.kind, c.slot) r' l.records }, ok tt)
