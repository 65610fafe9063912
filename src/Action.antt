-- ===== src/Action.antt =====
-- kernel/src/event.rs: the privileged actions, what each must be authorised by, and the executor's
-- last check.
pub mod Authority
pub mod Grants
use bulla.Prelude.{
  ℕ, Bool, not, Result, ok, err, refuse_if, ok_or, checked_add, checked_mul, ◌||◌, ◌==◌, ◌>>=◌,
  ◌>>◌,
}
use bulla.Capability.{
  Capability, CapabilityError, CapabilityKind, CapabilityLedger, OwnerId, Rights, kind_eq, read,
  write, map_right, control,
}
use bulla.Dma.{DmaError}
use bulla.Memory.{MapError, PagePermissions, PageSize, bytes_of}
use bulla.Smp.{CpuId, CpuSet, SmpError}

pub data PlatformError : Type 0 where
  capability_error : CapabilityError → PlatformError
  atomic_error : PlatformError
  smp_error : SmpError → PlatformError
  memory_error : MapError → PlatformError
  dma_error : DmaError → PlatformError
  invalid_event_id invalid_correlation invalid_payload terminal range_overflow : PlatformError
  invalid_width unknown_cpu unowned_vector unowned_dma_slot invalid_trap_origin : PlatformError

pub data Action : Type 0 where
  start_cpu : (cpu : CpuId) → Action
  send_ipi : (targets : CpuSet) (vector epoch : ℕ) → Action
  tlb_shootdown : (targets : CpuSet) (epoch virtual_base len : ℕ) → Action
  ack_irq mask_irq unmask_irq : (vector : ℕ) → Action
  map_action :
      (virtual_base : ℕ) (page_size : PageSize) (pages : ℕ) (permissions : PagePermissions) → Action
  unmap_action : (virtual_base : ℕ) → Action
  protect_action : (virtual_base : ℕ) (permissions : PagePermissions) → Action
  mmio_read : (address width : ℕ) → Action
  mmio_write : (address width value : ℕ) → Action
  pio_read : (port width : ℕ) → Action
  pio_write : (port width value : ℕ) → Action
  submit_dma : (slot : ℕ) → Action
  arm_timer : (deadline : ℕ) → Action
  cancel_timer : Action
  enqueue_task : (task : ℕ) (cpu : CpuId) → Action
  enter_context : (context : ℕ) → Action
  reboot power_off halt : Action

abbrev pub is_mmio_width : ℕ → Bool
is_mmio_width w = w == 1 || w == 2 || w == 4 || w == 8

abbrev pub is_pio_width : ℕ → Bool
is_pio_width w = w == 1 || w == 2 || w == 4

unfoldable pub validate_action : Action → Result PlatformError (Unit {0})
validate_action (tlb_shootdown targets epoch virtual_base len) = do
  refuse_if (len == 0) invalid_payload
  _ ← ok_or (checked_add virtual_base len) range_overflow
  ok tt
validate_action (mmio_read address width) = refuse_if (not (is_mmio_width width)) invalid_width
validate_action (mmio_write address width value) =
    refuse_if (not (is_mmio_width width)) invalid_width
validate_action (pio_read port width) = refuse_if (not (is_pio_width width)) invalid_width
validate_action (pio_write port width value) = refuse_if (not (is_pio_width width)) invalid_width
validate_action _ = ok tt

pub record ActionAuthority : Type 0 where
  pub kind : CapabilityKind
  pub rights : Rights
  pub base : ℕ
  pub len : ℕ

abbrev authority : CapabilityKind → Rights → ℕ → ℕ → ActionAuthority
authority kind rights base len = record { kind = kind; rights = rights; base = base; len = len }

unfoldable pub action_authority : Action → Result PlatformError ActionAuthority
action_authority (start_cpu cpu) = ok (authority CapabilityKind.cpu control cpu 1)
action_authority (send_ipi targets vector epoch) = ok (authority CapabilityKind.cpu_set control 0 0)
action_authority (tlb_shootdown targets epoch virtual_base len) =
    ok (authority CapabilityKind.cpu_set control 0 0)
action_authority (ack_irq vector) = ok (authority CapabilityKind.irq control vector 1)
action_authority (mask_irq vector) = ok (authority CapabilityKind.irq control vector 1)
action_authority (unmask_irq vector) = ok (authority CapabilityKind.irq control vector 1)
action_authority (map_action virtual_base page_size pages permissions) = do
  bytes ← ok_or (checked_mul (bytes_of page_size) pages) range_overflow
  ok (authority CapabilityKind.address_space map_right virtual_base bytes)
action_authority (unmap_action virtual_base) =
    ok (authority CapabilityKind.address_space map_right virtual_base 1)
action_authority (protect_action virtual_base permissions) =
    ok (authority CapabilityKind.address_space map_right virtual_base 1)
action_authority (mmio_read address width) = ok (authority CapabilityKind.mmio read address width)
action_authority (mmio_write address width value) =
    ok (authority CapabilityKind.mmio write address width)
action_authority (pio_read port width) = ok (authority CapabilityKind.io_port read port width)
action_authority (pio_write port width value) =
    ok (authority CapabilityKind.io_port write port width)
action_authority (submit_dma slot) = ok (authority CapabilityKind.dma control slot 1)
action_authority (arm_timer deadline) = ok (authority CapabilityKind.clock control 0 0)
action_authority cancel_timer = ok (authority CapabilityKind.clock control 0 0)
action_authority (enqueue_task task cpu) = ok (authority CapabilityKind.cpu control cpu 1)
action_authority (enter_context context) =
    ok (authority CapabilityKind.user_context control context 1)
action_authority reboot = ok (authority CapabilityKind.power control 0 0)
action_authority power_off = ok (authority CapabilityKind.power control 0 0)
action_authority halt = ok (authority CapabilityKind.power control 0 0)

pub record AuthorizedAction : Type 0 where
  pub action : Action
  pub capability_slot : ℕ
  pub capability_generation : ℕ

-- `map_err(PlatformError::Capability)`
abbrev of_capability : {A : Type 0} → Result CapabilityError A → Result PlatformError A
of_capability (ok a) = ok a
of_capability (err e) = err (capability_error e)

-- `ActionExecutor::authorize`
unfoldable pub authorize :
    CapabilityLedger → OwnerId → Capability → Action → Result PlatformError AuthorizedAction
authorize ledger owner c action = do
  validate_action action
  needed ← action_authority action
  refuse_if (not (kind_eq c.kind needed.kind)) (capability_error CapabilityError.wrong_kind)
  of_capability (bulla.Capability.validate ledger c owner needed.rights needed.base needed.len)
  ok (record { action = action; capability_slot = c.slot; capability_generation = c.generation })
