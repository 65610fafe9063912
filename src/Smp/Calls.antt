-- ===== src/Smp/Calls.antt =====
-- Any sequence of calls on one `SmpState`: the invariant, the shootdown protocol and the CPU
-- lifecycle (kernel/src/smp.rs).
use bulla.Prelude.{ℕ, List, arith, ◌+◌, [], ◌∷◌}
use bulla.Prelude.Map.{get, nat_key}
use bulla.Prelude.NatSet.{IsAscending, member, add-IsAscending}
use bulla.Prelude.Ordered.{IsOrdered, insert-IsOrdered}
use bulla.Smp.{
  discovered, online_ids, online_ids, CpuId, CpuLifecycle, SmpState, from_ids, new_smp, discover,
  transition, online, online_state, begin_ipi, acknowledge_ipi, begin_shootdown,
  acknowledge_shootdown, complete_shootdown, fresh_epoch,
}
use bulla.Smp.Epochs.{
  IsSoundEpoch, IsSoundPending, acknowledge-IsSoundPending, insert-IsSoundPending,
  remove-IsSoundPending,
}

pub data Call : Type 0 where
  discovers : CpuId → Call
  transitions : CpuId → CpuLifecycle → Call
  begins_ipi : List CpuId → Call
  acks_ipi acks_shootdown : ℕ → CpuId → Call
  begins_shootdown : Call
  completes : ℕ → Call

-- The state after a call, whether it succeeded or not.
unfoldable pub after : SmpState → Call → SmpState
after s (discovers cpu) = (discover s cpu).0
after s (transitions cpu next) = (transition s cpu next).0
after s (begins_ipi ids) = (begin_ipi s (from_ids ids)).0
after s (acks_ipi e cpu) = (acknowledge_ipi s e cpu).0
after s (acks_shootdown e cpu) = (acknowledge_shootdown s e cpu).0
after s begins_shootdown = (begin_shootdown s).0
after s (completes e) = (complete_shootdown s e).0

unfoldable pub run : SmpState → List Call → SmpState
run s [] = s
run s (c ∷ cs) = run (after s c) cs

pub record IsSound (s : SmpState) : Type 0 where
  pub cpus_ordered : IsOrdered s.cpus
  pub ipis_sound : IsSoundPending s.ipis s.next_ipi_epoch
  pub shootdowns_sound : IsSoundPending s.shootdowns s.next_shootdown_epoch

from_ids-IsAscending : (cs : List CpuId) → IsAscending (from_ids cs)
unfolding from_ids
from_ids-IsAscending [] = tt
from_ids-IsAscending (c ∷ cs) = add-IsAscending c (from_ids cs) (from_ids-IsAscending cs)

fresh_epoch-IsSoundEpoch : (cs : List CpuId) → IsSoundEpoch (fresh_epoch (from_ids cs))
unfolding member
fresh_epoch-IsSoundEpoch cs = record {
  targets_ascend = from_ids-IsAscending cs;
  acks_ascend = tt;
  acks_targeted = λ k m. cc;
}

module _ (s : SmpState) (inv : IsSound s) where
  begin_ipi-IsSound : (ids : List CpuId) → IsSound (begin_ipi s (from_ids ids)).0
  unfolding begin_ipi
  begin_ipi-IsSound ids = record {
    cpus_ordered = ground arith;
    ipis_sound = ground (
      arith,
      insert-IsSoundPending s.ipis s.next_ipi_epoch inv.ipis_sound (s.next_ipi_epoch + 1)
          (fresh_epoch (from_ids ids)) (s.next_ipi_epoch + 1) (omega arith) (omega arith)
          (fresh_epoch-IsSoundEpoch ids),
    );
    shootdowns_sound = ground arith;
  }

  begin_shootdown-IsSound : IsSound (begin_shootdown s).0
  unfolding begin_shootdown
  begin_shootdown-IsSound = record {
    cpus_ordered = ground arith;
    ipis_sound = ground arith;
    shootdowns_sound = ground (
      arith,
      insert-IsSoundPending s.shootdowns s.next_shootdown_epoch inv.shootdowns_sound
          (s.next_shootdown_epoch + 1) (fresh_epoch (online s)) (s.next_shootdown_epoch + 1)
          (omega arith) (omega arith) (fresh_epoch-IsSoundEpoch (online_ids s.cpus)),
    );
  }

  acks-IsSound :
      (e : ℕ) (cpu : CpuId)
      → IsSound (acknowledge_ipi s e cpu).0 × IsSound (acknowledge_shootdown s e cpu).0
  unfolding acknowledge_ipi acknowledge_shootdown
  acks-IsSound e cpu = (
    record {
      cpus_ordered = inv.cpus_ordered;
      ipis_sound = acknowledge-IsSoundPending s.ipis s.next_ipi_epoch e cpu inv.ipis_sound;
      shootdowns_sound = inv.shootdowns_sound;
    },
    record {
      cpus_ordered = inv.cpus_ordered;
      ipis_sound = inv.ipis_sound;
      shootdowns_sound =
          acknowledge-IsSoundPending s.shootdowns s.next_shootdown_epoch e cpu inv.shootdowns_sound;
    },
  )

  complete_shootdown-IsSound : (e : ℕ) → IsSound (complete_shootdown s e).0
  unfolding complete_shootdown
  complete_shootdown-IsSound e = record {
    cpus_ordered = ground arith;
    ipis_sound = ground arith;
    shootdowns_sound =
        ground
          (arith, remove-IsSoundPending s.shootdowns s.next_shootdown_epoch inv.shootdowns_sound e);
  }

  cpus-IsSound :
      (cpu : CpuId) (next : CpuLifecycle)
      → IsSound (discover s cpu).0 × IsSound (transition s cpu next).0
  unfolding discover transition
  cpus-IsSound cpu next = (
    record {
      cpus_ordered = ground (arith, insert-IsOrdered cpu discovered s.cpus inv.cpus_ordered);
      ipis_sound = ground arith;
      shootdowns_sound = ground arith;
    },
    record {
      cpus_ordered = ground (arith, insert-IsOrdered cpu next s.cpus inv.cpus_ordered);
      ipis_sound = ground arith;
      shootdowns_sound = ground arith;
    },
  )

  pub after-IsSound : (c : Call) → IsSound (after s c)
  unfolding after
  after-IsSound (discovers cpu) = (cpus-IsSound cpu online_state).0
  after-IsSound (transitions cpu next) = (cpus-IsSound cpu next).1
  after-IsSound (begins_ipi ids) = begin_ipi-IsSound ids
  after-IsSound (acks_ipi e cpu) = (acks-IsSound e cpu).0
  after-IsSound (acks_shootdown e cpu) = (acks-IsSound e cpu).1
  after-IsSound begins_shootdown = begin_shootdown-IsSound
  after-IsSound (completes e) = complete_shootdown-IsSound e

run-keeps : (s : SmpState) (cs : List Call) → IsSound s → IsSound (run s cs)
unfolding run
run-keeps s [] inv = inv
run-keeps s (c ∷ cs) inv = run-keeps (after s c) cs (after-IsSound s inv c)

new_smp-IsSound : IsSound new_smp
unfolding get
new_smp-IsSound = record {
  cpus_ordered = tt;
  ipis_sound = record { ordered = tt; sound = λ e p h. cc; issued = λ e p h. cc };
  shootdowns_sound = record { ordered = tt; sound = λ e p h. cc; issued = λ e p h. cc };
}

-- After any calls on a new state, the CPUs are in order without repetition, each pending epoch has its targets and acknowledgements in
-- order, only targets have acknowledged it, and it is no later than the counter of its kind.
pub run-IsSound_smp : (cs : List Call) → IsSound (run new_smp cs)
run-IsSound_smp cs = run-keeps new_smp cs new_smp-IsSound
