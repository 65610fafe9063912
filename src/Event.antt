-- ===== src/Event.antt =====
-- kernel/src/event.rs: the sequencer, which numbers events and actions and admits completions.
pub mod Order
use bulla.Prelude.{
  ℕ, Bool, true, false, not, Option, none, some, ltb, leb, Result, ok, err, refuse_if, ok_or,
  attempt, checked_add, ◌||◌, [], ◌==◌,
}
use bulla.Prelude.Map.{Map, get, insert, nat_key}
use bulla.Prelude.NatSet.{NatSet, member, add}
use bulla.Memory.{is_canonical_x86_64}
use bulla.Smp.{CpuFailure, CpuId, CpuSet}
use bulla.Action.{
  Action, PlatformError, validate_action, invalid_event_id, invalid_correlation, invalid_payload,
  unknown_cpu, unowned_vector, unowned_dma_slot, invalid_trap_origin,
}

pub data EventKind : Type 0 where
  boot cpu_online : EventKind
  cpu_start_failed : CpuFailure → EventKind
  irq_event : (vector : ℕ) → EventKind
  timer : EventKind
  ipi : (vector epoch : ℕ) → EventKind
  dma_complete : (slot : ℕ) → EventKind
  syscall : (number : ℕ) → EventKind
  user_fault : (address code : ℕ) → EventKind
  device_fault : (device code : ℕ) → EventKind
  action_complete shutdown_request : EventKind

pub record Event : Type 0 where
  pub cpu : CpuId
  pub id : ℕ
  pub correlation : Option ℕ
  pub kind : EventKind

pub record EventSequencer : Type 0 where
  pub next_event : ℕ
  pub next_action : ℕ
  pub online : Option CpuSet
  pub irq_owners : Map ℕ CpuId
  pub dma_slots : NatSet
  pub max_syscall : ℕ

abbrev pub new_sequencer : EventSequencer
new_sequencer = record {
  next_event = 1;
  next_action = 1;
  online = none;
  irq_owners = [];
  dma_slots = [];
  max_syscall = 0;
}

abbrev pub with_topology : CpuSet → ℕ → EventSequencer
with_topology online max_syscall = record new_sequencer {
  online = some online;
  max_syscall = max_syscall;
}

-- `online.as_ref().is_some_and(|online| !online.contains(cpu))`
unfoldable pub is_offline : EventSequencer → CpuId → Bool
is_offline s cpu = elim s.online [ none ↦ false | some set ↦ not (member cpu set) ]

abbrev pub owns : EventSequencer → ℕ → CpuId → Bool
owns s vector cpu = elim (get vector s.irq_owners) [ none ↦ false | some owner ↦ owner == cpu ]

abbrev is_owned : EventSequencer → ℕ → Bool
is_owned s vector = elim (get vector s.irq_owners) [ none ↦ false | some _ ↦ true ]

-- The insertion is the last of the three tests, so it is made when the two before it pass, and it
-- replaces an owner that is there.
unfoldable pub assign_irq :
    EventSequencer → ℕ → CpuId → EventSequencer × Result PlatformError (Unit {0})
assign_irq s vector cpu =
    attempt (refuse_if (ltb vector 32 || is_offline s cpu) unowned_vector) s λ _. (
      record s { irq_owners = insert vector cpu s.irq_owners },
      refuse_if (is_owned s vector) unowned_vector,
    )

unfoldable pub allow_dma_slot :
    EventSequencer → ℕ → EventSequencer × Result PlatformError (Unit {0})
allow_dma_slot s slot = (
  record s { dma_slots = add slot s.dma_slots },
  refuse_if (member slot s.dma_slots) unowned_dma_slot,
)

-- The guards of `ingress` on the kind of the event.
unfoldable pub admit : EventSequencer → CpuId → EventKind → Result PlatformError (Unit {0})
admit s cpu (irq_event vector) = refuse_if (ltb vector 32 || not (owns s vector cpu)) unowned_vector
admit s cpu (ipi vector epoch) = refuse_if (ltb vector 32 || epoch == 0) invalid_payload
admit s cpu (dma_complete slot) = refuse_if (not (member slot s.dma_slots)) unowned_dma_slot
admit s cpu (syscall number) = refuse_if (ltb s.max_syscall number) invalid_payload
admit s cpu (user_fault address code) =
    refuse_if (not (is_canonical_x86_64 address)) invalid_trap_origin
admit s cpu _ = ok tt

abbrev bad_correlation : EventSequencer → Option ℕ → Bool
bad_correlation s none = false
bad_correlation s (some action) = action == 0 || leb s.next_action action

-- The event number is used up before the correlation is checked, as in the source.
unfoldable pub ingress :
    EventSequencer → CpuId → EventKind → Option ℕ → EventSequencer × Result PlatformError Event
ingress s cpu kind correlation = attempt (refuse_if (is_offline s cpu) unknown_cpu) s λ _.
    attempt (admit s cpu kind) s λ _.
      attempt (ok_or (checked_add s.next_event 1) invalid_event_id) s λ following.
        let s' : EventSequencer = record s { next_event = following } in
        attempt (refuse_if (bad_correlation s correlation) invalid_correlation) s' λ _.
          (s', ok (record { cpu = cpu; id = s.next_event; correlation = correlation; kind = kind }))

pub record IssuedAction : Type 0 where
  pub id : ℕ
  pub action : Action

unfoldable pub issue : EventSequencer → Action → EventSequencer × Result PlatformError IssuedAction
issue s action = attempt (validate_action action) s λ _.
    attempt (ok_or (checked_add s.next_action 1) invalid_correlation) s λ following.
      (record s { next_action = following }, ok (record { id = s.next_action; action = action }))

pub record Completion : Type 0 where
  pub action : ℕ
  pub event : ℕ
  pub result : Result PlatformError (Unit {0})

unfoldable pub platform_error_code : PlatformError → ℕ
platform_error_code (PlatformError.capability_error _) = 1
platform_error_code PlatformError.atomic_error = 2
platform_error_code (PlatformError.smp_error _) = 3
platform_error_code (PlatformError.memory_error _) = 4
platform_error_code (PlatformError.dma_error _) = 5
platform_error_code PlatformError.invalid_event_id = 6
platform_error_code PlatformError.invalid_correlation = 7
platform_error_code PlatformError.invalid_payload = 8
platform_error_code PlatformError.terminal = 9
platform_error_code PlatformError.range_overflow = 10
platform_error_code PlatformError.invalid_width = 11
platform_error_code PlatformError.unknown_cpu = 12
platform_error_code PlatformError.unowned_vector = 13
platform_error_code PlatformError.unowned_dma_slot = 14
platform_error_code PlatformError.invalid_trap_origin = 15

abbrev success_kind : Action → EventKind
success_kind (Action.start_cpu cpu) = cpu_online
success_kind (Action.send_ipi targets vector epoch) = ipi vector epoch
success_kind (Action.submit_dma slot) = dma_complete slot
success_kind (Action.arm_timer deadline) = timer
success_kind Action.cancel_timer = timer
success_kind Action.reboot = shutdown_request
success_kind Action.power_off = shutdown_request
success_kind Action.halt = shutdown_request
success_kind _ = action_complete

unfoldable pub completion_kind : Action → Result PlatformError (Unit {0}) → EventKind
completion_kind action (ok _) = success_kind action
completion_kind action (err e) = device_fault 0 (platform_error_code e)

unfoldable pub complete :
    EventSequencer
    → IssuedAction
    → CpuId
    → Result PlatformError (Unit {0})
    → EventSequencer × Result PlatformError (Completion × Event)
complete s issued cpu result =
    attempt (refuse_if (issued.id == 0 || leb s.next_action issued.id) invalid_correlation) s λ _.
      let answer = ingress s cpu (completion_kind issued.action result) (some issued.id) in
      attempt answer.1 answer.0 λ event.
        (answer.0, ok (record { action = issued.id; event = event.id; result = result }, event))
