-- ===== src/Scheduler/Dispatch.antt =====
-- Dispatching: an idle CPU gets a task whenever one waits anywhere, and every run of calls keeps each
-- task in its place (kernel/src/scheduler.rs).
use mathlib.Core.Path.{subst}
use bulla.Prelude.{
  ℕ, refl, sym, ap, true, Option, none, some, List, arith, ==_iff, Bool-cases, Option-cases, Result,
  ok, attempt, saturating_add, inl, inr, ◌<◌, ◌≡◌, ◌∙◌, ◌⊎◌, [], ◌∷◌, ◌==◌,
}
use bulla.Prelude.Lists.{count}
use bulla.Prelude.Map.{get, insert, get-insert, nat_key}
use bulla.Smp.{CpuId}
use bulla.Scheduler.{
  TaskId, Task, Scheduler, SchedulerError, running, is_runnable, steal, start, take_task, dispatch,
}
use bulla.Scheduler.Places.{queued, IsSound, relocate}
use bulla.Scheduler.Steal.{Taken, Outcome, took, idle, set-Taken, steal-Outcome}
use bulla.Scheduler.Calls.{slotless}

-- What `dispatch` comes to on an idle CPU.
data Dispatched (n : ℕ) (s : Scheduler) (cpu : CpuId)
    : Scheduler × Result SchedulerError (Option TaskId) → Type 0 where
  started :
      (s' : Scheduler) (task : TaskId)
      → IsSound n s'
      → 0 < queued task s.queues
      → get cpu s'.current ≡ some (some task)
      → Dispatched n s cpu (s', ok (some task))
  rested :
      ((c : CpuId) (q : List TaskId) → get c s.queues ≡ some q → q ≡ [])
      → Dispatched n s cpu (s, ok none)

module _ (n : ℕ) (s : Scheduler) (v : IsSound n s) where
  -- The task that was taken from a queue waits nowhere else, so it is runnable, and it starts.
  start-IsSound :
      (s' : Scheduler) (cpu : CpuId) (task : TaskId)
      → get cpu s.current ≡ some none
      → Taken s s' task
      → IsSound n (start s' cpu task).0
        × ((start s' cpu task).1 ≡ ok (some task))
        × (get cpu (start s' cpu task).0.current ≡ some (some task))
  unfolding start
  start-IsSound s' cpu task empty k = elim (Option-cases (get task s.tasks)) [
    | inl missing ↦ absurd (ground (arith, k.once_less task, v.waiting task))
    | inr (r, there) ↦
        let wait : is_runnable r.state ≡ true = ground (arith, k.once_less task, v.waiting task) in
        let r' : Task = record r { state = running cpu } in
        let s'' : Scheduler = record s' {
          tasks = insert task r' s'.tasks;
          current = insert cpu (some task) s'.current;
          completed_dispatches = saturating_add s'.completed_dispatches 1;
        } in
        let there' : get task s'.tasks ≡ some r = ap (get task) k.same_tasks ∙ there in
        let empty' : get cpu s'.current ≡ some none = ap (get cpu) k.same_current ∙ empty in
        let whole : start s' cpu task ≡ (s'', ok (some task)) = ground arith in
        rw whole (
          relocate n s s'' task r' v (ap (insert task r') k.same_tasks) (v.young task r there)
              k.ordered
              (λ c.
                let at = get-insert cpu c (some task) s'.current in
                let old = ap (get c) k.same_current in
                (
                  λ h. ground (arith, (v.paired c).0 ((k.same_cpus c).0 h), at, old),
                  λ h. (k.same_cpus c).1 ((v.paired c).1 (ground (arith, h, at, old))),
                ))
              (λ t. ground (
                arith,
                k.once_less t,
                k.once_less task,
                v.waiting task,
                ap (λ x. queued x s'.queues) ((==_iff task t).0 _),
              ))
              (λ c.
                let at = get-insert cpu c (some task) s'.current in
                let old = ap (get c) k.same_current in
                (
                  λ h. elim (Bool-cases (cpu == c)) [
                    | inl same ↦ ap running ((==_iff cpu c).0 same)
                    | inr other ↦ absurd (
                        slotless n s v task (λ q d g e. ground arith) c
                          (ground (arith, h, at, old)))
                  ],
                  λ h. ground (arith, at),
                ))
              (λ c t ne.
                let at = get-insert cpu c (some task) s'.current in
                let old = ap (get c) k.same_current in
                (λ h. ground (arith, h, at, old), λ h. ground (arith, h, at, old))),
          refl,
          ground (arith, get-insert cpu cpu (some task) s'.current),
        )
  ]

  -- Starting what was taken.
  start-Dispatched :
      (s' : Scheduler) (cpu : CpuId) (task : TaskId)
      → get cpu s.current ≡ some none
      → Taken s s' task
      → Dispatched n s cpu (start s' cpu task)
  start-Dispatched s' cpu task empty k =
      let (sound, answer, on) = start-IsSound s' cpu task empty k in
      subst (Dispatched n s cpu) (ap (λ r. ((start s' cpu task).0, r)) (sym answer))
        (started (start s' cpu task).0 task sound (ground (arith, k.once_less task)) on)

  abbrev go_on :
      CpuId
      → Scheduler × Result SchedulerError (Option TaskId)
      → Scheduler × Result SchedulerError (Option TaskId)
  go_on cpu taken =
      attempt taken.1 taken.0
        λ task. elim task [ none ↦ (taken.0, ok none) | some t ↦ start taken.0 cpu t ]

  steal-Dispatched :
      (cpu : CpuId) (p : Scheduler × Result SchedulerError (Option TaskId))
      → get cpu s.current ≡ some none
      → get cpu s.queues ≡ some []
      → Outcome s cpu p
      → Dispatched n s cpu (go_on cpu p)
  steal-Dispatched cpu _ empty none_local (took s' task k) = start-Dispatched s' cpu task empty k
  steal-Dispatched cpu _ empty none_local (idle others) = rested λ c q g.
      elim (Bool-cases (c == cpu)) [
        | inl same ↦ ground arith
        | inr other ↦ others c q (λ e. ground arith) g
      ]

  take-Dispatched :
      (cpu : CpuId) (queue : List TaskId)
      → get cpu s.current ≡ some none
      → get cpu s.queues ≡ some queue
      → Dispatched n s cpu (go_on cpu (take_task s cpu queue))
  unfolding take_task count
  take-Dispatched cpu [] empty known =
      steal-Dispatched cpu (steal s cpu) empty known (steal-Outcome s cpu v.queues_ordered)
  take-Dispatched cpu (task ∷ rest) empty known =
      start-Dispatched (record s { queues = insert cpu rest s.queues }) cpu task empty
        (set-Taken s _ cpu (task ∷ rest) rest task v.queues_ordered known refl refl refl
          (λ t. omega arith))

  dispatch-Dispatched :
      (cpu : CpuId) → get cpu s.current ≡ some none → Dispatched n s cpu (dispatch s cpu)
  unfolding dispatch
  dispatch-Dispatched cpu empty = elim (Option-cases (get cpu s.queues)) [
    | inl missing ↦ absurd (cc ((v.paired cpu).0 missing, empty))
    | inr (queue, known) ↦ rw (empty, known, dispatch) (take-Dispatched cpu queue empty known)
  ]

  sound_after :
      (cpu : CpuId) (p : Scheduler × Result SchedulerError (Option TaskId))
      → Dispatched n s cpu p
      → IsSound n p.0
  sound_after cpu _ (started s' task sound waits on) = sound
  sound_after cpu _ (rested none_waits) = v

  pub dispatch-IsSound : (cpu : CpuId) → IsSound n (dispatch s cpu).0
  unfolding dispatch
  dispatch-IsSound cpu = elim (Option-cases (get cpu s.current)) [
    | inl unknown ↦ rw (unknown, dispatch) v
    | inr (some task, busy) ↦ rw (busy, dispatch) v
    | inr (none, empty) ↦ sound_after cpu (dispatch s cpu) (dispatch-Dispatched cpu empty)
  ]

works :
    (n : ℕ) (s : Scheduler) (cpu : CpuId) (p : Scheduler × Result SchedulerError (Option TaskId))
    → Dispatched n s cpu p
    → ((task : TaskId) × (p.1 ≡ ok (some task))
        × (0 < queued task s.queues)
        × (get cpu p.0.current ≡ some (some task)))
      ⊎ ((p.1 ≡ ok none) × ((c : CpuId) (q : List TaskId) → get c s.queues ≡ some q → q ≡ []))
works n s cpu _ (started s' task sound waits on) = inl (task, refl, waits, on)
works n s cpu _ (rested none_waits) = inr (refl, none_waits)

-- An idle CPU never rests while work waits: in a sound scheduler, a dispatch there starts a task
-- that waited in some queue, or else no queue holds a task and the answer is that there is none.
pub dispatch_works :
    (n : ℕ) (s : Scheduler) (cpu : CpuId)
    → IsSound n s
    → get cpu s.current ≡ some none
    → ((task : TaskId) × ((dispatch s cpu).1 ≡ ok (some task))
        × (0 < queued task s.queues)
        × (get cpu (dispatch s cpu).0.current ≡ some (some task)))
      ⊎ (((dispatch s cpu).1 ≡ ok none)
          × ((c : CpuId) (q : List TaskId) → get c s.queues ≡ some q → q ≡ []))
dispatch_works n s cpu v empty =
    works n s cpu (dispatch s cpu) (dispatch-Dispatched n s v cpu empty)
