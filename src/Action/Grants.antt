-- ===== src/Action/Grants.antt =====
-- What a handle must be to grant a privileged action (kernel/src/event.rs).
use bulla.Prelude.{
  ℕ, bit_and, refl, sym, true, false, some, arith, ==_iff, Bool-cases, u64_mod, inl, inr, ◌+◌, ◌*◌,
  ◌≤◌, ◌<◌, ◌≡◌, ◌≢◌, ◌↔◌, ◌==◌,
}
use mathlib.Core.Path.{subst}
use bulla.Capability.{
  Capability, CapabilityKind, CapabilityLedger, OwnerId, Rights, read, write, map_right, control,
  find,
}
use bulla.Capability.Handles.{record_of, InRange}
use bulla.Device.{DeviceWidth, bytes, is_wide, u8, u16, u32, u64}
use bulla.Memory.{bytes_of}
use bulla.Action.{
  Action, ActionAuthority, is_mmio_width, is_pio_width, start_cpu, send_ipi, tlb_shootdown, ack_irq,
  mask_irq, unmask_irq, map_action, unmap_action, protect_action, mmio_read, mmio_write, pio_read,
  pio_write, submit_dma, arm_timer, cancel_timer, enqueue_task, enter_context, reboot, power_off,
  halt,
}

-- The handle is of the kind and has the right.
abbrev pub Gives : Capability → CapabilityKind → Rights → Type 0
Gives c kind right = (c.kind ≡ kind) × (bit_and c.rights right ≡ right)

-- The number `x` is one of the handle's.
abbrev pub Covers : Capability → ℕ → Type 0
Covers c x = (c.base + c.len < u64_mod) × (c.base ≤ x) × (x < c.base + c.len)

-- The handle's numbers begin with 0.
abbrev pub FromZero : Capability → Type 0
FromZero c = (c.base ≡ 0) × (c.len < u64_mod)

-- The width of a device register, and of a port.
abbrev pub IsRegisterWidth : ℕ → Type 0
IsRegisterWidth width = (w : DeviceWidth) × (width ≡ bytes w)

abbrev pub IsPortWidth : ℕ → Type 0
IsPortWidth width = (w : DeviceWidth) × (is_wide w ≡ false) × (width ≡ bytes w)

-- What the handle must be for the action.
unfoldable pub Grants : Capability → Action → Type 0
Grants c (start_cpu cpu) = Gives c CapabilityKind.cpu control × Covers c cpu
Grants c (send_ipi targets vector epoch) = Gives c CapabilityKind.cpu_set control × FromZero c
Grants c (tlb_shootdown targets epoch virtual_base len) =
    ((len ≢ 0) × (virtual_base + len < u64_mod))
    × (Gives c CapabilityKind.cpu_set control × FromZero c)
Grants c (ack_irq vector) = Gives c CapabilityKind.irq control × Covers c vector
Grants c (mask_irq vector) = Gives c CapabilityKind.irq control × Covers c vector
Grants c (unmask_irq vector) = Gives c CapabilityKind.irq control × Covers c vector
Grants c (map_action virtual_base page_size pages permissions) =
    Gives c CapabilityKind.address_space map_right
    × InRange c virtual_base (bytes_of page_size * pages)
Grants c (unmap_action virtual_base) =
    Gives c CapabilityKind.address_space map_right × Covers c virtual_base
Grants c (protect_action virtual_base permissions) =
    Gives c CapabilityKind.address_space map_right × Covers c virtual_base
Grants c (mmio_read address width) =
    IsRegisterWidth width × (Gives c CapabilityKind.mmio read × InRange c address width)
Grants c (mmio_write address width value) =
    IsRegisterWidth width × (Gives c CapabilityKind.mmio write × InRange c address width)
Grants c (pio_read port width) =
    IsPortWidth width × (Gives c CapabilityKind.io_port read × InRange c port width)
Grants c (pio_write port width value) =
    IsPortWidth width × (Gives c CapabilityKind.io_port write × InRange c port width)
Grants c (submit_dma slot) = Gives c CapabilityKind.dma control × Covers c slot
Grants c (arm_timer deadline) = Gives c CapabilityKind.clock control × FromZero c
Grants c cancel_timer = Gives c CapabilityKind.clock control × FromZero c
Grants c (enqueue_task task cpu) = Gives c CapabilityKind.cpu control × Covers c cpu
Grants c (enter_context context) = Gives c CapabilityKind.user_context control × Covers c context
Grants c reboot = Gives c CapabilityKind.power control × FromZero c
Grants c power_off = Gives c CapabilityKind.power control × FromZero c
Grants c halt = Gives c CapabilityKind.power control × FromZero c

-- The ledger holds the handle, live, for the owner, and the handle grants the action.
pub record Backed (l : CapabilityLedger) (owner : OwnerId) (c : Capability) (action : Action)
    : Type 0 where
  pub current : find l c ≡ some (record_of c)
  pub owned : c.owner ≡ owner
  pub grants : Grants c action

abbrev pub Allows : Capability → ActionAuthority → Type 0
Allows c n = Gives c n.kind n.rights × InRange c n.base n.len

pub InRange-one : (c : Capability) (x : ℕ) → InRange c x 1 ↔ Covers c x
InRange-one c x = (
  λ r. let a = r.cap_fits in let b = r.low in let d = r.high in (a, b, omega (arith, d)),
  λ (a, b, d). record {
    cap_fits = a;
    request_fits = omega (arith, a, d);
    low = b;
    high = omega (arith, d);
  },
)

pub InRange-none : (c : Capability) → InRange c 0 0 ↔ FromZero c
InRange-none c = (
  λ r. let a = r.cap_fits in let b = r.low in (omega (arith, b), omega (arith, a)),
  λ (z, b). record {
    cap_fits = omega (arith, z, b);
    request_fits = omega arith;
    low = omega (arith, z);
    high = omega arith;
  },
)

register-width : (x : DeviceWidth) → is_mmio_width (bytes x) ≡ true
unfolding bytes
register-width u8 = refl
register-width u16 = refl
register-width u32 = refl
register-width u64 = refl

port-width : (x : DeviceWidth) → is_wide x ≡ false → is_pio_width (bytes x) ≡ true
unfolding bytes
port-width u8 n = refl
port-width u16 n = refl
port-width u32 n = refl
port-width u64 n = absurd (ground (arith, n))

pub mmio_width_iff : (w : ℕ) → (is_mmio_width w ≡ true) ↔ IsRegisterWidth w
unfolding bytes
mmio_width_iff w = (
  λ h. elim (Bool-cases (w == 1)) [
    | inl e ↦ (u8, (==_iff w 1).0 e)
    | inr n1 ↦ elim (Bool-cases (w == 2)) [
      | inl e ↦ (u16, (==_iff w 2).0 e)
      | inr n2 ↦ elim (Bool-cases (w == 4)) [
        | inl e ↦ (u32, (==_iff w 4).0 e)
        | inr n4 ↦ (u64, (==_iff w 8).0 (ground (arith, h)))
      ]
    ]
  ],
  λ (x, e). subst (λ w. is_mmio_width w ≡ true) (sym e) (register-width x),
)

pub pio_width_iff : (w : ℕ) → (is_pio_width w ≡ true) ↔ IsPortWidth w
unfolding bytes
pio_width_iff w = (
  λ h. elim (Bool-cases (w == 1)) [
    | inl e ↦ (u8, refl, (==_iff w 1).0 e)
    | inr n1 ↦ elim (Bool-cases (w == 2)) [
      | inl e ↦ (u16, refl, (==_iff w 2).0 e)
      | inr n2 ↦ (u32, refl, (==_iff w 4).0 (ground (arith, h)))
    ]
  ],
  λ (x, n, e). subst (λ w. is_pio_width w ≡ true) (sym e) (port-width x n),
)
