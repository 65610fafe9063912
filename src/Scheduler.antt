-- ===== src/Scheduler.antt =====
-- kernel/src/scheduler.rs: run queues, one for each CPU, and work stealing between them.
pub mod Places
pub mod Steal
pub mod Calls
pub mod Dispatch
pub mod Audit
pub mod Runs
use bulla.Prelude.{
  ℕ, Bool, true, false, not, Option, none, some, List, ltb, leb, Result, ok, refuse_if, ok_or,
  attempt, checked_add, saturating_add, ◌&&◌, ◌||◌, [], ◌∷◌, ◌++◌, ◌==◌, if◌then◌else◌,
}
use bulla.Prelude.Lists.{length, pop_back}
use bulla.Prelude.Map.{Map, get, insert, nat_key}
use bulla.Prelude.NatSet.{NatSet, member, add}
use bulla.Smp.{CpuId, CpuSet}

abbrev pub TaskId : Type 0
TaskId = ℕ

-- The exit code is an `i32`, kept as its bit pattern.
pub data TaskState : Type 0 where
  runnable blocked : TaskState
  running : CpuId → TaskState
  exited : ℕ → TaskState

pub record Task : Type 0 where
  pub state : TaskState
  pub generation : ℕ

pub data SchedulerError : Type 0 where
  unknown_cpu duplicate_task unknown_task wrong_state foreign_cpu : SchedulerError
  duplicate_queue_entry generation_overflow : SchedulerError

pub record Scheduler : Type 0 where
  pub queues : Map ℕ (List TaskId)
  pub tasks : Map ℕ Task
  pub current : Map ℕ (Option TaskId)
  pub completed_dispatches : ℕ
  pub steals : ℕ

-- `cpus.iter().map(|cpu| (cpu, value)).collect()`
unfoldable pub collect {ℓ} : {V : Type ℓ} → V → CpuSet → Map ℕ V
collect value [] = []
collect value (cpu ∷ cpus) = insert cpu value (collect value cpus)

abbrev pub with_online_cpus : CpuSet → Scheduler
with_online_cpus cpus = record {
  queues = collect [] cpus;
  tasks = [];
  current = collect none cpus;
  completed_dispatches = 0;
  steals = 0;
}

abbrev pub is_some {ℓ} : {A : Type ℓ} → Option A → Bool
is_some none = false
is_some (some _) = true

abbrev pub is_runnable : TaskState → Bool
is_runnable runnable = true
is_runnable _ = false

abbrev pub is_blocked : TaskState → Bool
is_blocked blocked = true
is_blocked _ = false

-- `state == TaskState::Running(cpu)`
abbrev pub runs_on : CpuId → TaskState → Bool
runs_on cpu (running c) = c == cpu
runs_on cpu _ = false

unfoldable pub create_task :
    Scheduler → TaskId → CpuId → Scheduler × Result SchedulerError (Unit {0})
create_task s task cpu = attempt (ok_or (get cpu s.queues) unknown_cpu) s λ queue.
    attempt (refuse_if (is_some (get task s.tasks)) duplicate_task) s λ _.
      let t : Task = record { state = runnable; generation = 0 } in
      (
        record s {
          tasks = insert task t s.tasks;
          queues = insert cpu (queue ++ task ∷ []) s.queues;
        },
        ok tt,
      )

-- `max_by_key` over the queues of the other CPUs: the longest, of equal ones that of the lowest CPU.
unfoldable pub longest_other : CpuId → Map ℕ (List TaskId) → Option (CpuId × List TaskId)
longest_other requester [] = none
longest_other requester ((cpu, queue) ∷ rest) =
    let best = longest_other requester rest in
    if cpu == requester then best else elim best [
      | none ↦ some (cpu, queue)
      | some (c, q) ↦
          if ltb (length queue) (length q) || (length queue == length q && leb c cpu)
          then some (c, q)
          else some (cpu, queue)
    ]

-- `and_then(|(cpu, queue)| (!queue.is_empty()).then_some(*cpu))`
unfoldable pub find_victim : CpuId → Map ℕ (List TaskId) → Option CpuId
find_victim requester queues = elim (longest_other requester queues) [
  | none ↦ none
  | some (cpu, queue) ↦ if length queue == 0 then none else some cpu
]

unfoldable pub steal : Scheduler → CpuId → Scheduler × Result SchedulerError (Option TaskId)
steal s requester = elim (find_victim requester s.queues) [
  | none ↦ (s, ok none)
  | some victim ↦ attempt (ok_or (get victim s.queues) unknown_cpu) s λ queue.
      elim (pop_back queue) [
        | none ↦ (s, ok none)
        | some (rest, task) ↦ (
          record s { queues = insert victim rest s.queues; steals = saturating_add s.steals 1 },
          ok (some task),
        )
      ]
]

-- What `dispatch` does with the task that it took from a queue.
unfoldable pub start :
    Scheduler → CpuId → TaskId → Scheduler × Result SchedulerError (Option TaskId)
start s cpu task = attempt (ok_or (get task s.tasks) unknown_task) s λ t.
    attempt (refuse_if (not (is_runnable t.state)) wrong_state) s λ _.
      let s' : Scheduler = record s {
        tasks = insert task (record t { state = running cpu }) s.tasks;
      } in
      attempt (ok_or (get cpu s.current) unknown_cpu) s' λ _. (
        record s' {
          current = insert cpu (some task) s.current;
          completed_dispatches = saturating_add s.completed_dispatches 1;
        },
        ok (some task),
      )

-- What the local queue gives, or else what is stolen.
unfoldable pub take_task :
    Scheduler → CpuId → List TaskId → Scheduler × Result SchedulerError (Option TaskId)
take_task s cpu [] = steal s cpu
take_task s cpu (task ∷ rest) = (record s { queues = insert cpu rest s.queues }, ok (some task))

unfoldable pub dispatch : Scheduler → CpuId → Scheduler × Result SchedulerError (Option TaskId)
dispatch s cpu = attempt (ok_or (get cpu s.current) unknown_cpu) s λ now.
    attempt (refuse_if (is_some now) wrong_state) s λ _.
      attempt (ok_or (get cpu s.queues) unknown_cpu) s λ queue.
        let taken = take_task s cpu queue in
        attempt taken.1 taken.0
          λ task. elim task [ none ↦ (taken.0, ok none) | some t ↦ start taken.0 cpu t ]

-- `current.take()` and the checks that the three calls on the running task share; the slot is empty
-- whether they pass or not.
unfoldable pub leave :
    {A : Type 0}
    → Scheduler
    → CpuId
    → (Scheduler → TaskId → Task → Scheduler × Result SchedulerError A)
    → Scheduler × Result SchedulerError A
leave s cpu go = attempt (ok_or (get cpu s.current) unknown_cpu) s λ now.
    attempt (ok_or now wrong_state) s λ task.
      let s' : Scheduler = record s { current = insert cpu none s.current } in
      attempt (ok_or (get task s.tasks) unknown_task) s'
        λ t. attempt (refuse_if (not (runs_on cpu t.state)) foreign_cpu) s' λ _. go s' task t

unfoldable pub requeue :
    CpuId → Scheduler → TaskId → Task → Scheduler × Result SchedulerError TaskId
requeue cpu s task t =
    attempt (ok_or (checked_add t.generation 1) generation_overflow) s λ generation.
      let s' : Scheduler = record s {
        tasks = insert task (record { state = runnable; generation = generation }) s.tasks;
      } in
      attempt (ok_or (get cpu s.queues) unknown_cpu) s'
        λ queue. (record s' { queues = insert cpu (queue ++ task ∷ []) s.queues }, ok task)

unfoldable pub yield_current : Scheduler → CpuId → Scheduler × Result SchedulerError TaskId
yield_current s cpu = leave s cpu (requeue cpu)

unfoldable pub put_aside :
    TaskState → Scheduler → TaskId → Task → Scheduler × Result SchedulerError TaskId
put_aside state s task t =
    (record s { tasks = insert task (record t { state = state }) s.tasks }, ok task)

unfoldable pub block_current : Scheduler → CpuId → Scheduler × Result SchedulerError TaskId
block_current s cpu = leave s cpu (put_aside blocked)

unfoldable pub exit_current : Scheduler → CpuId → ℕ → Scheduler × Result SchedulerError TaskId
exit_current s cpu code = leave s cpu (put_aside (exited code))

unfoldable pub contains : TaskId → List TaskId → Bool
contains task [] = false
contains task (t ∷ queue) = t == task || contains task queue

unfoldable pub wake : Scheduler → TaskId → CpuId → Scheduler × Result SchedulerError (Unit {0})
wake s task cpu = attempt (ok_or (get cpu s.queues) unknown_cpu) s λ queue.
    attempt (ok_or (get task s.tasks) unknown_task) s λ t.
      attempt (refuse_if (not (is_blocked t.state)) wrong_state) s λ _.
        attempt (refuse_if (contains task queue) duplicate_queue_entry) s λ _. (
          record s {
            tasks = insert task (record t { state = runnable }) s.tasks;
            queues = insert cpu (queue ++ task ∷ []) s.queues;
          },
          ok tt,
        )

-- `invariant_holds`: the loop over one queue, with the tasks seen so far; `none` is `return false`.
unfoldable pub scan_queue : Map ℕ Task → NatSet → List TaskId → Option NatSet
scan_queue tasks seen [] = some seen
scan_queue tasks seen (task ∷ queue) =
    let rest = scan_queue tasks (add task seen) queue in
    if member task seen
    then none
    else elim (get task tasks) [ none ↦ none | some t ↦ if is_runnable t.state then rest else none ]

-- Its look at the task that a CPU runs.
unfoldable pub scan_current : Map ℕ Task → NatSet → CpuId → Option (Option TaskId) → Option NatSet
scan_current tasks seen cpu (some (some task)) =
    if member task seen then none else elim (get task tasks) [
      | none ↦ none
      | some t ↦ if runs_on cpu t.state then some (add task seen) else none
    ]
scan_current tasks seen cpu _ = some seen

unfoldable pub scan : Scheduler → NatSet → Map ℕ (List TaskId) → Option NatSet
scan s seen [] = some seen
scan s seen ((cpu, queue) ∷ rest) = elim (scan_queue s.tasks seen queue) [
  | none ↦ none
  | some seen' ↦ elim (scan_current s.tasks seen' cpu (get cpu s.current)) [
    | none ↦ none
    | some seen'' ↦ scan s seen'' rest
  ]
]

abbrev pub is_off : TaskState → Bool
is_off blocked = true
is_off (exited _) = true
is_off _ = false

unfoldable pub all_seen : NatSet → Map ℕ Task → Bool
all_seen seen [] = true
all_seen seen ((task, t) ∷ rest) = (is_off t.state || member task seen) && all_seen seen rest

unfoldable pub invariant_holds : Scheduler → Bool
invariant_holds s = elim (scan s [] s.queues) [ none ↦ false | some seen ↦ all_seen seen s.tasks ]
