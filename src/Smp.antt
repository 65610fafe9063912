-- ===== src/Smp.antt =====
-- kernel/src/smp.rs: the CPU lifecycle, and the epochs of inter-processor interrupts and TLB
-- shootdowns.
pub mod Calls
pub mod Epochs
pub mod Shootdown
pub mod Underway
pub mod Lifecycle
use bulla.Prelude.{
  ℕ, Bool, true, false, not, none, some, List, ltb, Result, ok, err, refuse_if, ok_or, attempt,
  checked_add, ◌&&◌, [], ◌∷◌, if◌then◌else◌,
}
use bulla.Prelude.Map.{Map, get, insert, remove, nat_key}
use bulla.Prelude.Ordered.{last_key}
use bulla.Prelude.NatSet.{NatSet, member, add, same}

abbrev pub CpuId : Type 0
CpuId = ℕ

pub data CpuFailure : Type 0 where
  no_stack no_local_storage startup_timeout descriptor_install interrupt_controller : CpuFailure

pub data CpuLifecycle : Type 0 where
  discovered prepared starting online_state : CpuLifecycle
  failed : CpuFailure → CpuLifecycle

-- `CpuSet`: its members, in ascending order.
abbrev pub CpuSet : Type 0
CpuSet = NatSet

unfoldable pub from_ids : List CpuId → CpuSet
from_ids [] = []
from_ids (c ∷ cs) = add c (from_ids cs)

pub data SmpError : Type 0 where
  duplicate_cpu unknown_cpu illegal_transition cpu_not_online epoch_overflow : SmpError
  unknown_epoch foreign_cpu duplicate_acknowledgement stale_epoch incomplete : SmpError

pub record PendingEpoch : Type 0 where
  pub targets : CpuSet
  pub acknowledgements : NatSet

pub record SmpState : Type 0 where
  pub cpus : Map ℕ CpuLifecycle
  pub next_ipi_epoch : ℕ
  pub next_shootdown_epoch : ℕ
  pub ipis : Map ℕ PendingEpoch
  pub shootdowns : Map ℕ PendingEpoch

abbrev pub new_smp : SmpState
new_smp = record {
  cpus = [];
  next_ipi_epoch = 0;
  next_shootdown_epoch = 0;
  ipis = [];
  shootdowns = [];
}

-- The insertion comes before the test, as in the source.
unfoldable pub discover : SmpState → CpuId → SmpState × Result SmpError (Unit {0})
discover s cpu =
    let s' : SmpState = record s { cpus = insert cpu discovered s.cpus } in
    elim (get cpu s.cpus) [ none ↦ (s', ok tt) | some _ ↦ (s', err duplicate_cpu) ]

unfoldable pub legal : CpuLifecycle → CpuLifecycle → Bool
legal discovered prepared = true
legal prepared starting = true
legal starting online_state = true
legal prepared (failed _) = true
legal starting (failed _) = true
legal _ _ = false

unfoldable pub transition : SmpState → CpuId → CpuLifecycle → SmpState × Result SmpError (Unit {0})
transition s cpu next = attempt (ok_or (get cpu s.cpus) unknown_cpu) s λ current.
    attempt (refuse_if (not (legal current next)) illegal_transition) s
      λ _. (record s { cpus = insert cpu next s.cpus }, ok tt)

abbrev pub is_online : CpuLifecycle → Bool
is_online online_state = true
is_online _ = false

unfoldable pub online_ids : Map ℕ CpuLifecycle → List CpuId
online_ids [] = []
online_ids ((cpu, state) ∷ m) = if is_online state then cpu ∷ online_ids m else online_ids m

abbrev pub online : SmpState → CpuSet
online s = from_ids (online_ids s.cpus)

abbrev online_in : Map ℕ CpuLifecycle → CpuId → Bool
online_in m cpu = elim (get cpu m) [ none ↦ false | some state ↦ is_online state ]

unfoldable pub all_online : Map ℕ CpuLifecycle → CpuSet → Bool
all_online m [] = true
all_online m (cpu ∷ rest) = online_in m cpu && all_online m rest

abbrev pub validate_online_targets : SmpState → CpuSet → Result SmpError (Unit {0})
validate_online_targets s targets = refuse_if (not (all_online s.cpus targets)) cpu_not_online

abbrev pub fresh_epoch : CpuSet → PendingEpoch
fresh_epoch targets = record { targets = targets; acknowledgements = [] }

unfoldable pub begin_ipi : SmpState → CpuSet → SmpState × Result SmpError ℕ
begin_ipi s targets = attempt (validate_online_targets s targets) s λ _.
    attempt (ok_or (checked_add s.next_ipi_epoch 1) epoch_overflow) s λ next.
      (record s { next_ipi_epoch = next; ipis = insert next (fresh_epoch targets) s.ipis }, ok next)

unfoldable pub acknowledge :
    Map ℕ PendingEpoch → ℕ → CpuId → Map ℕ PendingEpoch × Result SmpError Bool
acknowledge pending epoch cpu = attempt (ok_or (last_key pending) unknown_epoch) pending λ current.
    attempt (refuse_if (ltb epoch current) stale_epoch) pending λ _.
      attempt (ok_or (get epoch pending) unknown_epoch) pending λ entry.
        attempt (refuse_if (not (member cpu entry.targets)) foreign_cpu) pending λ _.
          attempt (refuse_if (member cpu entry.acknowledgements) duplicate_acknowledgement) pending
            λ _.
              let acked : NatSet = add cpu entry.acknowledgements in
              (
                insert epoch (record entry { acknowledgements = acked }) pending,
                ok (same acked entry.targets),
              )

unfoldable pub acknowledge_ipi : SmpState → ℕ → CpuId → SmpState × Result SmpError Bool
acknowledge_ipi s epoch cpu =
    let (pending, result) = acknowledge s.ipis epoch cpu in (record s { ipis = pending }, result)

unfoldable pub begin_shootdown : SmpState → SmpState × Result SmpError ℕ
begin_shootdown s = attempt (ok_or (checked_add s.next_shootdown_epoch 1) epoch_overflow) s λ next.
    (
      record s {
        next_shootdown_epoch = next;
        shootdowns = insert next (fresh_epoch (online s)) s.shootdowns;
      },
      ok next,
    )

unfoldable pub acknowledge_shootdown : SmpState → ℕ → CpuId → SmpState × Result SmpError Bool
acknowledge_shootdown s epoch cpu =
    let (pending, result) = acknowledge s.shootdowns epoch cpu in
    (record s { shootdowns = pending }, result)

unfoldable pub complete_shootdown : SmpState → ℕ → SmpState × Result SmpError (Unit {0})
complete_shootdown s epoch = attempt (ok_or (get epoch s.shootdowns) unknown_epoch) s λ pending.
    attempt (refuse_if (not (same pending.acknowledgements pending.targets)) incomplete) s
      λ _. (record s { shootdowns = remove epoch s.shootdowns }, ok tt)
