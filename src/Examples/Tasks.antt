-- ===== src/Examples/Tasks.antt =====
-- The scheduler of two CPUs on short runs (kernel/src/scheduler.rs).
use bulla.Prelude.{ℕ, refl, true, none, some, List, arith, ok, ◌<◌, ◌≡◌, ◌⊎◌, [], ◌∷◌}
use bulla.Prelude.Map.{get, nat_key}
use bulla.Scheduler.{TaskId, Scheduler, with_online_cpus, create_task, dispatch, invariant_holds}
use bulla.Scheduler.Places.{queued, IsSound}
use bulla.Scheduler.Dispatch.{dispatch_works}
use bulla.Scheduler.Runs.{
  Call, creates, dispatches, yields, blocks, wakes, exits, after, run, run-keeps,
  with_online_cpus-IsSound, run-invariant_holds,
}

-- Two tasks, of which one yields, the other is stolen, blocks and is woken on its new CPU.
abbrev busy : List Call
busy =
    creates 7 0
    ∷ creates 8 0
    ∷ dispatches 0
    ∷ dispatches 1
    ∷ yields 0
    ∷ blocks 1
    ∷ wakes 8 1
    ∷ dispatches 0
    ∷ exits 0 3
    ∷ []

run-invariant_holds_example : invariant_holds (run (with_online_cpus (0 ∷ 1 ∷ [])) busy) ≡ true
run-invariant_holds_example = run-invariant_holds (0 ∷ 1 ∷ []) busy (omega arith)

abbrev waiting : Scheduler
waiting = run (with_online_cpus (0 ∷ 1 ∷ [])) (creates 7 0 ∷ [])

abbrev waiting-IsSound : IsSound 1 waiting
waiting-IsSound =
    run-keeps 0 (with_online_cpus (0 ∷ 1 ∷ [])) (creates 7 0 ∷ []) (omega arith)
      (with_online_cpus-IsSound (0 ∷ 1 ∷ []))

dispatch_works_example :
    ((task : TaskId) × ((dispatch waiting 1).1 ≡ ok (some task))
      × (0 < queued task waiting.queues)
      × (get 1 (dispatch waiting 1).0.current ≡ some (some task)))
    ⊎ (((dispatch waiting 1).1 ≡ ok none)
        × ((c : ℕ) (q : List TaskId) → get c waiting.queues ≡ some q → q ≡ []))
unfolding run after create_task get bulla.Scheduler.collect bulla.Prelude.Map.insert
dispatch_works_example = dispatch_works 1 waiting 1 waiting-IsSound refl
