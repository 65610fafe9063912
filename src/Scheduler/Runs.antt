-- ===== src/Scheduler/Runs.antt =====
-- The scheduler over any calls (kernel/src/scheduler.rs).
use mathlib.Core.Path.{subst}
use bulla.Prelude.{
  ℕ, suc, refl, true, Option, none, some, List, arith, u64_mod, ◌+◌, ◌<◌, ◌≡◌, [], ◌∷◌,
  if◌then◌else◌,
}
use bulla.Prelude.Lists.{length, count}
use bulla.Prelude.Map.{get, get-insert, nat_key}
use bulla.Prelude.Ordered.{IsOrdered, insert-IsOrdered}
use bulla.Prelude.Sums.{sum_map, sum_map-insert}
use bulla.Prelude.NatSet.{member}
use bulla.Smp.{CpuId, CpuSet}
use bulla.Scheduler.{
  TaskId, Scheduler, blocked, exited, collect, with_online_cpus, create_task, dispatch,
  yield_current, block_current, exit_current, wake, invariant_holds,
}
use bulla.Scheduler.Places.{queued, IsSound}
use bulla.Scheduler.Calls.{
  create_task-IsSound, wake-IsSound, put_aside-IsSound, older, yield_current-IsSound,
}
use bulla.Scheduler.Dispatch.{dispatch-IsSound}
use bulla.Scheduler.Audit.{IsSound-invariant_holds}

pub data Call : Type 0 where
  creates : TaskId → CpuId → Call
  dispatches : CpuId → Call
  yields blocks : CpuId → Call
  wakes : TaskId → CpuId → Call
  exits : CpuId → ℕ → Call

-- The state after a call, whether it succeeded or not.
unfoldable pub after : Scheduler → Call → Scheduler
after s (creates task cpu) = (create_task s task cpu).0
after s (dispatches cpu) = (dispatch s cpu).0
after s (yields cpu) = (yield_current s cpu).0
after s (blocks cpu) = (block_current s cpu).0
after s (wakes task cpu) = (wake s task cpu).0
after s (exits cpu code) = (exit_current s cpu code).0

unfoldable pub run : Scheduler → List Call → Scheduler
run s [] = s
run s (c ∷ cs) = run (after s c) cs

after-IsSound :
    (n : ℕ) (s : Scheduler) (c : Call) → suc n < u64_mod → IsSound n s → IsSound (suc n) (after s c)
unfolding after block_current exit_current
after-IsSound n s (creates task cpu) room v = older n _ (create_task-IsSound n s v task cpu)
after-IsSound n s (dispatches cpu) room v = older n _ (dispatch-IsSound n s v cpu)
after-IsSound n s (yields cpu) room v = yield_current-IsSound n s v cpu room
after-IsSound n s (blocks cpu) room v =
    older n _ (put_aside-IsSound n s v cpu blocked refl (λ c q. cc))
after-IsSound n s (wakes task cpu) room v = older n _ (wake-IsSound n s v task cpu)
after-IsSound n s (exits cpu code) room v =
    older n _ (put_aside-IsSound n s v cpu (exited code) refl (λ c q. cc))

pub run-keeps :
    (n : ℕ) (s : Scheduler) (cs : List Call)
    → n + length cs < u64_mod
    → IsSound n s
    → IsSound (n + length cs) (run s cs)
unfolding run
run-keeps n s [] room v = subst (λ k. IsSound k s) (omega arith) v
run-keeps n s (c ∷ cs) room v =
    subst (λ k. IsSound k (run (after s c) cs)) (omega arith)
      (run-keeps (suc n) (after s c) cs (omega arith) (after-IsSound n s c (omega arith) v))

get-collect {ℓ} :
    {V : Type ℓ} (value : V) (cpus : CpuSet) (c : CpuId)
    → get c (collect value cpus) ≡ (if member c cpus then some value else none)
unfolding collect member get
get-collect value [] c = refl
get-collect value (cpu ∷ cpus) c =
    ground (arith, get-insert cpu c value (collect value cpus), get-collect value cpus c)

collect-IsOrdered {ℓ} : {V : Type ℓ} (value : V) (cpus : CpuSet) → IsOrdered (collect value cpus)
unfolding collect
collect-IsOrdered value [] = tt
collect-IsOrdered value (cpu ∷ cpus) =
    insert-IsOrdered cpu value (collect value cpus) (collect-IsOrdered value cpus)

queued-collect : (t : TaskId) (cpus : CpuSet) → queued t (collect [] cpus) ≡ 0
unfolding collect sum_map count
queued-collect t [] = refl
queued-collect t (cpu ∷ cpus) = ground (
  arith,
  queued-collect t cpus,
  sum_map-insert (λ _ q. count t q) cpu [] (collect [] cpus) (collect-IsOrdered [] cpus),
)

pub with_online_cpus-IsSound : (cpus : CpuSet) → IsSound 0 (with_online_cpus cpus)
unfolding get
with_online_cpus-IsSound cpus = record {
  queues_ordered = collect-IsOrdered [] cpus;
  tasks_ordered = tt;
  paired = λ c.
      let q = get-collect {V = List TaskId} [] cpus c in
      let k = get-collect {V = Option TaskId} none cpus c in
      (λ h. ground (arith, q, k), λ h. ground (arith, q, k));
  waiting = λ t. queued-collect t cpus;
  holds = λ c t h. ground (arith, get-collect {V = Option TaskId} none cpus c);
  placed = λ c t r g e. cc;
  young = λ t r g. cc;
}

-- Through fewer calls than a generation can count, granted or refused and in any order, the
-- scheduler of any CPUs keeps its own invariant: every queue holds runnable tasks, no task stands
-- in two places, a CPU's slot holds a task that runs on it, and every task that is neither blocked
-- nor exited waits in a queue or runs.
pub run-invariant_holds :
    (cpus : CpuSet) (cs : List Call)
    → length cs < u64_mod
    → invariant_holds (run (with_online_cpus cpus) cs) ≡ true
run-invariant_holds cpus cs room =
    IsSound-invariant_holds (length cs) (run (with_online_cpus cpus) cs) (
      subst (λ k. IsSound k (run (with_online_cpus cpus) cs)) (omega arith)
        (run-keeps 0 (with_online_cpus cpus) cs (omega arith) (with_online_cpus-IsSound cpus)))
