-- ===== src/Scheduler/Places.antt =====
-- Where a task stands: in one queue, on one CPU, or nowhere (kernel/src/scheduler.rs).
use mathlib.Core.Path.{subst}
use bulla.Prelude.{
  ℕ, Option, none, some, List, arith, ==_iff, Bool-cases, inl, inr, ◌+◌, ◌≤◌, ◌≡◌, ◌≢◌, ◌↔◌, ◌==◌,
  if◌then◌else◌,
}
use bulla.Prelude.Lists.{count}
use bulla.Prelude.Map.{Map, get, insert, get-insert, nat_key}
use bulla.Prelude.Ordered.{IsOrdered, insert-IsOrdered}
use bulla.Prelude.Sums.{sum_map, sum_map-insert, weight_le}
use bulla.Smp.{CpuId}
use bulla.Scheduler.{TaskId, Task, Scheduler, running, is_runnable}

-- How often a task stands in the queues.
abbrev pub queued : TaskId → Map ℕ (List TaskId) → ℕ
queued t = sum_map (λ _ queue. count t queue)

-- A runnable task waits in one queue; no other does.
abbrev pub due : Option Task → ℕ
due none = 0
due (some t) = if is_runnable t.state then 1 else 0

-- The CPUs have a queue and a slot each; every runnable task waits in exactly one queue, once, and
-- no other task in any; a slot holds the task that runs there, and no generation is above `n`.
pub record IsSound (n : ℕ) (s : Scheduler) : Type 0 where
  pub queues_ordered : IsOrdered s.queues
  pub tasks_ordered : IsOrdered s.tasks
  pub paired : (cpu : CpuId) → (get cpu s.queues ≡ none) ↔ (get cpu s.current ≡ none)
  pub waiting : (t : TaskId) → queued t s.queues ≡ due (get t s.tasks)
  pub holds :
      (cpu : CpuId) (t : TaskId)
      → get cpu s.current ≡ some (some t)
      → (r : Task) × (get t s.tasks ≡ some r) × (r.state ≡ running cpu)
  pub placed :
      (cpu : CpuId) (t : TaskId) (r : Task)
      → get t s.tasks ≡ some r
      → r.state ≡ running cpu
      → get cpu s.current ≡ some (some t)
  pub young : (t : TaskId) (r : Task) → get t s.tasks ≡ some r → r.generation ≤ n

-- Setting a queue.
pub queued-insert :
    (t : TaskId) (cpu : CpuId) (old new : List TaskId) (m : Map ℕ (List TaskId))
    → IsOrdered m
    → get cpu m ≡ some old
    → queued t (insert cpu new m) + count t old ≡ queued t m + count t new
queued-insert t cpu old new m o g = ground (arith, sum_map-insert (λ _ q. count t q) cpu new m o)

-- A queue's tasks wait.
pub count_le :
    (t : TaskId) (cpu : CpuId) (q : List TaskId) (m : Map ℕ (List TaskId))
    → get cpu m ≡ some q
    → count t q ≤ queued t m
count_le t cpu q m g = ground (arith, weight_le (λ _ queue. count t queue) cpu m)

-- A call that sets one task's record, if the queues and the slots have that task where its new state
-- wants it and keep every other task where it was.
pub relocate :
    (n : ℕ) (s s' : Scheduler) (task : TaskId) (r' : Task)
    → IsSound n s
    → s'.tasks ≡ insert task r' s.tasks
    → r'.generation ≤ n
    → IsOrdered s'.queues
    → ((cpu : CpuId) → (get cpu s'.queues ≡ none) ↔ (get cpu s'.current ≡ none))
    → ((t : TaskId) → queued t s'.queues ≡ (if task == t then due (some r') else queued t s.queues))
    → ((cpu : CpuId) → (get cpu s'.current ≡ some (some task)) ↔ (r'.state ≡ running cpu))
    → ((cpu : CpuId) (t : TaskId)
        → t ≢ task
        → (get cpu s'.current ≡ some (some t)) ↔ (get cpu s.current ≡ some (some t)))
    → IsSound n s'
relocate n s s' task r' v e young o paired waits here other = record {
  queues_ordered = o;
  tasks_ordered = rw e (insert-IsOrdered task r' s.tasks v.tasks_ordered);
  paired = paired;
  waiting = λ t. rw e (ground (arith, waits t, v.waiting t, get-insert task t r' s.tasks));
  holds = λ cpu t h. elim (Bool-cases (task == t)) [
    | inl same ↦
        let at : task ≡ t = (==_iff task t).0 same in
        (r', rw e (ground (arith, get-insert task t r' s.tasks)), (here cpu).0 (rw at h))
    | inr ne ↦
        let (r, g, q) = v.holds cpu t ((other cpu t (λ q. ground arith)).0 h) in
        (r, rw e (ground (arith, get-insert task t r' s.tasks)), q)
  ];
  placed = λ cpu t r g q. elim (Bool-cases (task == t)) [
    | inl same ↦
        let at : task ≡ t = (==_iff task t).0 same in
        let is_r : r ≡ r' = ground (arith, g, e, get-insert task t r' s.tasks) in
        subst (λ x. get cpu s'.current ≡ some (some x)) at ((here cpu).1 (cc (q, is_r)))
    | inr ne ↦
        let g' : get t s.tasks ≡ some r = ground (arith, g, e, get-insert task t r' s.tasks) in
        (other cpu t (λ q. ground arith)).1 (v.placed cpu t r g' q)
  ];
  young = λ t r g. ground (arith, g, e, get-insert task t r' s.tasks, v.young t r);
}
