-- ===== src/Capability/Kind.antt =====
-- `CapabilityKind` of kernel/src/capability.rs, and the keys of the ledger.
use bulla.Prelude.{
  ℕ, refl, Bool, true, arith, ltb, ==_iff, ==_refl, ◌≡◌, ◌↔◌, ◌&&◌, ◌||◌, ◌==◌, if◌then◌else◌,
}
use bulla.Prelude.Map.{Key}

abbrev pub OwnerId : Type 0
OwnerId = ℕ

pub data CapabilityKind : Type 0 where
  boot_info cpu cpu_set cpu_local phys_region frame virt_region address_space : CapabilityKind
  mmio io_port irq irq_state trap_frame user_context dma iommu_domain : CapabilityKind
  clock entropy power : CapabilityKind

-- The discriminant, by which the derived `Ord` and `Eq` compare.
abbrev pub discriminant : CapabilityKind → ℕ
discriminant boot_info = 0
discriminant cpu = 1
discriminant cpu_set = 2
discriminant cpu_local = 3
discriminant phys_region = 4
discriminant frame = 5
discriminant virt_region = 6
discriminant address_space = 7
discriminant mmio = 8
discriminant io_port = 9
discriminant irq = 10
discriminant irq_state = 11
discriminant trap_frame = 12
discriminant user_context = 13
discriminant dma = 14
discriminant iommu_domain = 15
discriminant clock = 16
discriminant entropy = 17
discriminant power = 18

abbrev pub kind_eq : CapabilityKind → CapabilityKind → Bool
kind_eq k j = discriminant k == discriminant j

of_discriminant : ℕ → CapabilityKind
of_discriminant n =
    if n == 0
    then boot_info
    else if n == 1
    then cpu
    else if n == 2
    then cpu_set
    else if n == 3
    then cpu_local
    else if n == 4
    then phys_region
    else if n == 5
    then frame
    else if n == 6
    then virt_region
    else if n == 7
    then address_space
    else if n == 8
    then mmio
    else if n == 9
    then io_port
    else if n == 10
    then irq
    else if n == 11
    then irq_state
    else if n == 12
    then trap_frame
    else if n == 13
    then user_context
    else if n == 14
    then dma
    else if n == 15
    then iommu_domain
    else if n == 16
    then clock
    else if n == 17
    then entropy
    else power

of_discriminant-discriminant : (k : CapabilityKind) → of_discriminant (discriminant k) ≡ k
unfolding of_discriminant
of_discriminant-discriminant boot_info = refl
of_discriminant-discriminant _ = refl

pub kind_eq_iff : (k j : CapabilityKind) → (kind_eq k j ≡ true) ↔ (k ≡ j)
kind_eq_iff k j = (
  λ h. cc (
    of_discriminant-discriminant k,
    of_discriminant-discriminant j,
    (==_iff (discriminant k) (discriminant j)).0 h,
  ),
  λ h. rw h (==_refl (discriminant j)),
)

-- The ledger's keys: a kind and a slot, in lexicographic order.
abbrev pub SlotKey : Type 0
SlotKey = CapabilityKind × ℕ

abbrev slot_eq : SlotKey → SlotKey → Bool
slot_eq a b = kind_eq a.0 b.0 && a.1 == b.1

abbrev slot_lt : SlotKey → SlotKey → Bool
slot_lt a b = ltb (discriminant a.0) (discriminant b.0) || (kind_eq a.0 b.0 && ltb a.1 b.1)

pub slot_eq_iff : (a b : SlotKey) → (slot_eq a b ≡ true) ↔ (a ≡ b)
slot_eq_iff (k, s) (j, t) =
    (λ h. ground (arith, kind_eq_iff k j), λ h. ground (arith, kind_eq_iff k j))

instance abbrev pub slot_key : Key SlotKey
slot_key = record { eq = slot_eq; lt = slot_lt; eq_iff = slot_eq_iff }
