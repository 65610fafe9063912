-- ===== src/Scheduler/Calls.antt =====
-- Every call keeps each task in its place (kernel/src/scheduler.rs).

use bulla.Prelude.{
  ℕ, suc, refl, ap, true, false, Option, none, some, List, arith, ltb, ==_iff, Bool-cases,
  Option-cases, Result, u64_mod, inl, inr, ◌+◌, ◌≤◌, ◌<◌, ◌≡◌, ◌≢◌, ◌↔◌, [], ◌∷◌, ◌++◌, ◌==◌,
}
use bulla.Prelude.Lists.{count, count-append}
use bulla.Prelude.Map.{get, insert, get-insert, nat_key}
use bulla.Prelude.Ordered.{insert-IsOrdered}
use bulla.Smp.{CpuId}
use bulla.Scheduler.{
  TaskId, TaskState, Task, Scheduler, SchedulerError, runnable, running, leave, is_runnable,
  put_aside, requeue, create_task, yield_current, wake, contains, runs_on, is_blocked,
}
use bulla.Scheduler.Places.{queued, due, IsSound, queued-insert, relocate}

module _ (n : ℕ) (s : Scheduler) (v : IsSound n s) where
  -- A task with no record, or one that does not run, stands in no slot.
  pub slotless :
      (task : TaskId)
      → ((r : Task) (cpu : CpuId) → get task s.tasks ≡ some r → r.state ≢ running cpu)
      → (cpu : CpuId) → get cpu s.current ≢ some (some task)
  slotless task off cpu h = let (r, g, e) = v.holds cpu task h in off r cpu g e

  -- A task that becomes runnable at the end of a queue.
  enqueue-IsSound :
      (s' : Scheduler) (task : TaskId) (g : ℕ) (cpu : CpuId) (queue : List TaskId)
      → g ≤ n
      → get cpu s.queues ≡ some queue
      → due (get task s.tasks) ≡ 0
      → ((r : Task) (c : CpuId) → get task s.tasks ≡ some r → r.state ≢ running c)
      → s'.tasks ≡ insert task (record { state = runnable; generation = g }) s.tasks
      → s'.queues ≡ insert cpu (queue ++ task ∷ []) s.queues
      → s'.current ≡ s.current
      → IsSound n s'
  unfolding count
  enqueue-IsSound s' task g cpu queue young known none_due off et eq ec =
      relocate n s s' task (record { state = runnable; generation = g }) v et young
        (rw eq (insert-IsOrdered cpu (queue ++ task ∷ []) s.queues v.queues_ordered))
        (λ c.
          rw (eq, ec)
            (
              λ h. (v.paired c).0 (ground (arith, get-insert cpu c (queue ++ task ∷ []) s.queues)),
              λ h. ground (arith, (v.paired c).1 h, get-insert cpu c (queue ++ task ∷ []) s.queues),
            ))
        (λ t. rw eq (
          ground (
            arith,
            queued-insert t cpu queue (queue ++ task ∷ []) s.queues v.queues_ordered known,
            count-append t queue (task ∷ []),
            v.waiting task,
            none_due,
            ap (λ x. queued x s.queues) ((==_iff task t).0 _),
          )))
        (λ c. (λ h. absurd (slotless task off c (rw ec at h)), λ h. cc))
        (λ c t ne. rw ec (λ h. h, λ h. h))

  pub create_task-IsSound : (task : TaskId) (cpu : CpuId) → IsSound n (create_task s task cpu).0
  unfolding create_task
  create_task-IsSound task cpu = elim (Option-cases (get cpu s.queues)) [
    | inl unknown ↦ rw (unknown, create_task) v
    | inr (queue, known) ↦ elim (Option-cases (get task s.tasks)) [
      | inr (r, there) ↦ rw (known, there) v
      | inl new ↦
          rw (known, new)
            (enqueue-IsSound _ task 0 cpu queue (omega arith) known (rw new refl) (λ r c g. cc) refl
              refl refl)
    ]
  ]

  pub wake-IsSound : (task : TaskId) (cpu : CpuId) → IsSound n (wake s task cpu).0
  unfolding wake
  wake-IsSound task cpu = elim (Option-cases (get cpu s.queues)) [
    | inl unknown ↦ rw (unknown, wake) v
    | inr (queue, known) ↦ elim (Option-cases (get task s.tasks)) [
      | inl missing ↦ rw (known, missing) v
      | inr (r, there) ↦ elim (Bool-cases (is_blocked r.state)) [
        | inr other ↦ rw (known, there, other) v
        | inl sleeping ↦ elim (Bool-cases (contains task queue)) [
          | inl twice ↦ rw (known, there, sleeping, twice) v
          | inr once ↦
              rw (known, there, sleeping, once)
                (enqueue-IsSound _ task r.generation cpu queue (v.young task r there) known
                  (rw there (ground arith)) (λ q c g e. ground arith) refl refl refl)
        ]
      ]
    ]
  ]

  -- The slots once the running task has left its own.
  vacant :
      (task : TaskId) (cpu c : CpuId)
      → get cpu s.current ≡ some (some task)
      → get c (insert cpu none s.current) ≢ some (some task)
  vacant task cpu c held h =
      let other : (cpu == c) ≡ false = ground (arith, h, get-insert cpu c none s.current) in
      let here : get c s.current ≡ some (some task) =
        ground (arith, h, get-insert cpu c none s.current) in
      let (r, g, e) = v.holds cpu task held in
      let (r', g', e') = v.holds c task here in
      let same : r ≡ r' = ground arith in ground (arith, ap (λ (x : Task). x.state) same)

  vacant_others :
      (task t : TaskId) (cpu c : CpuId)
      → get cpu s.current ≡ some (some task)
      → t ≢ task
      → (get c (insert cpu none s.current) ≡ some (some t)) ↔ (get c s.current ≡ some (some t))
  vacant_others task t cpu c held ne = (
    λ h. ground (arith, h, get-insert cpu c none s.current),
    λ h. elim (Bool-cases (cpu == c)) [
      | inl same ↦
          let at : cpu ≡ c = (==_iff cpu c).0 same in
          let again : get c s.current ≡ some (some task) = rw at at held in
          absurd (ne (ground arith))
      | inr other ↦ ground (arith, get-insert cpu c none s.current)
    ],
  )

  vacant_paired :
      (cpu c : CpuId) (now : Option TaskId)
      → get cpu s.current ≡ some now
      → (get c s.queues ≡ none) ↔ (get c (insert cpu none s.current) ≡ none)
  vacant_paired cpu c now held = (
    λ h. ground (arith, (v.paired c).0 h, get-insert cpu c none s.current),
    λ h. (v.paired c).1 (ground (arith, get-insert cpu c none s.current)),
  )

  -- A task that leaves its CPU for a state in which it waits in no queue.
  park-IsSound :
      (s' : Scheduler) (task : TaskId) (r : Task) (state : TaskState) (cpu : CpuId)
      → get cpu s.current ≡ some (some task)
      → get task s.tasks ≡ some r
      → is_runnable state ≡ false
      → ((c : CpuId) → state ≢ running c)
      → s'.tasks ≡ insert task (record r { state = state }) s.tasks
      → s'.queues ≡ s.queues
      → s'.current ≡ insert cpu none s.current
      → IsSound n s'
  park-IsSound s' task r state cpu held there off still et eq ec =
      let (q, g, e) = v.holds cpu task held in
      let rq : q ≡ r = ground arith in
      relocate n s s' task (record r { state = state }) v et (v.young task r there)
        (rw eq v.queues_ordered) (λ c. rw (eq, ec) (vacant_paired cpu c (some task) held))
        (λ t. rw eq (ground (arith, v.waiting task)))
        (λ c. (λ h. absurd (vacant task cpu c held (rw ec at h)), λ h. absurd (still c h)))
        (λ c t ne. rw ec (vacant_others task t cpu c held ne))

  leave-IsSound :
      {A : Type 0} (m : ℕ) (cpu : CpuId)
      (go : Scheduler → TaskId → Task → Scheduler × Result SchedulerError A)
      → ((task : TaskId) (r : Task)
          → get cpu s.current ≡ some (some task)
          → get task s.tasks ≡ some r
          → r.state ≡ running cpu
          → IsSound m (go (record s { current = insert cpu none s.current }) task r).0)
      → IsSound m s
      → IsSound m (leave s cpu go).0
  unfolding leave
  leave-IsSound m cpu go keeps v' = elim (Option-cases (get cpu s.current)) [
    | inl unknown ↦ rw (unknown, leave) v'
    | inr (none, at_rest) ↦ rw (at_rest, leave) v'
    | inr (some task, held) ↦
        let (r, g, e) = v.holds cpu task held in
        let on : runs_on cpu r.state ≡ true = rw e (ground arith) in
        rw (held, g, on) (keeps task r held g e)
  ]

  pub put_aside-IsSound :
      (cpu : CpuId) (state : TaskState)
      → is_runnable state ≡ false
      → ((c : CpuId) → state ≢ running c)
      → IsSound n (leave s cpu (put_aside state)).0
  unfolding put_aside
  put_aside-IsSound cpu state off still =
      leave-IsSound n cpu (put_aside state)
        (λ task r held g e. park-IsSound _ task r state cpu held g off still refl refl refl) v

  pub older : IsSound (suc n) s
  older = record {
    queues_ordered = v.queues_ordered;
    tasks_ordered = v.tasks_ordered;
    paired = v.paired;
    waiting = v.waiting;
    holds = v.holds;
    placed = v.placed;
    young = λ t r g. omega (arith, v.young t r g);
  }

  requeue-IsSound :
      (cpu : CpuId) (task : TaskId) (r : Task)
      → suc n < u64_mod
      → get cpu s.current ≡ some (some task)
      → get task s.tasks ≡ some r
      → r.state ≡ running cpu
      → IsSound (suc n) (requeue cpu (record s { current = insert cpu none s.current }) task r).0
  unfolding requeue count
  requeue-IsSound cpu task r room held g e = elim (Option-cases (get cpu s.queues)) [
    | inl missing ↦ absurd (cc ((v.paired cpu).0 missing, held))
    | inr (queue, known) ↦
        let r' : Task = record { state = runnable; generation = r.generation + 1 } in
        let s' : Scheduler = record s {
          current = insert cpu none s.current;
          tasks = insert task r' s.tasks;
          queues = insert cpu (queue ++ task ∷ []) s.queues;
        } in
        let fits : ltb (r.generation + 1) u64_mod ≡ true = ground (arith, v.young task r g) in
        rw (fits, known, requeue)
          (relocate (suc n) s s' task r' older refl (omega (arith, v.young task r g))
            (insert-IsOrdered cpu (queue ++ task ∷ []) s.queues v.queues_ordered)
            (λ c. (
              λ h.
                  (vacant_paired cpu c (some task) held).0
                    (ground (arith, h, get-insert cpu c (queue ++ task ∷ []) s.queues)),
              λ h. ground (
                arith,
                (vacant_paired cpu c (some task) held).1 h,
                get-insert cpu c (queue ++ task ∷ []) s.queues,
              ),
            ))
            (λ t. ground (
              arith,
              queued-insert t cpu queue (queue ++ task ∷ []) s.queues v.queues_ordered known,
              count-append t queue (task ∷ []),
              v.waiting task,
              ap (λ x. queued x s.queues) ((==_iff task t).0 _),
            ))
            (λ c. (λ h. absurd (vacant task cpu c held h), λ h. cc))
            (λ c t ne. vacant_others task t cpu c held ne))
  ]

  pub yield_current-IsSound :
      (cpu : CpuId) → suc n < u64_mod → IsSound (suc n) (yield_current s cpu).0
  unfolding yield_current
  yield_current-IsSound cpu room =
      leave-IsSound (suc n) cpu (requeue cpu)
        (λ task r held g e. requeue-IsSound cpu task r room held g e) older
