-- ===== src/Examples/Cpus.antt =====
-- Two CPUs that come up and shoot down an address translation (kernel/src/smp.rs).
use bulla.Prelude.{ℕ, refl, true, false, List, ok, ◌≡◌, ◌↔◌, [], ◌∷◌, ◌++◌}
use bulla.Prelude.Map.{get, insert, nat_key}
use bulla.Prelude.NatSet.{member, add}
use bulla.Smp.{
  CpuId, SmpState, prepared, starting, online_state, new_smp, online, online_ids, from_ids, legal,
  discover, transition, begin_shootdown, complete_shootdown,
}
use bulla.Smp.Calls.{Call, discovers, acks_shootdown, transitions, after, run, run-IsSound_smp}
use bulla.Smp.Shootdown.{shootdown_completes}
use bulla.Smp.Underway.{acknowledged, undisturbed, leaves}
use bulla.Smp.Lifecycle.{discover_drops}

abbrev bring_up : CpuId → List Call
bring_up cpu =
    discovers cpu
    ∷ transitions cpu prepared
    ∷ transitions cpu starting
    ∷ transitions cpu online_state
    ∷ []

abbrev booted : SmpState
booted = run new_smp (bring_up 0 ++ bring_up 1)

abbrev shooting : SmpState
shooting = (begin_shootdown booted).0

-- Both CPUs acknowledge, one twice, while a third is discovered.
abbrev acks : List Call
acks = acks_shootdown 1 1 ∷ acks_shootdown 1 1 ∷ discovers 2 ∷ acks_shootdown 1 0 ∷ []

shootdown_completes_example :
    ((complete_shootdown (run shooting acks) 1).1 ≡ ok tt)
    ↔ ((k : ℕ) → member k (online booted) ≡ true → acknowledged 1 k acks ≡ true)
unfolding run after discover transition begin_shootdown legal online_ids from_ids member add insert
    get undisturbed leaves
shootdown_completes_example =
    shootdown_completes booted shooting 1 acks (run-IsSound_smp (bring_up 0 ++ bring_up 1)) refl
      refl

discover_drops_example : member 1 (online (discover booted 1).0) ≡ false
unfolding run after discover transition legal insert get
discover_drops_example = discover_drops booted 1 (run-IsSound_smp (bring_up 0 ++ bring_up 1)) refl
