-- ===== src/Scheduler/Audit.antt =====
-- The scheduler's own check, `invariant_holds` (kernel/src/scheduler.rs): what it reads in a sound
-- scheduler.
use bulla.Prelude.{
  ℕ, suc, refl, ap, true, false, none, some, List, arith, ltb, ==_iff, Bool-cases, Option-cases,
  inl, inr, ◌≤◌, ◌<◌, ◌≡◌, ◌≢◌, ◌↔◌, ◌⊎◌, ◌||◌, [], ◌∷◌, ◌==◌,
}
use bulla.Prelude.Lists.{count}
use bulla.Prelude.Map.{Map, get, nat_key}
use bulla.Prelude.Ordered.{KeysAbove, get_below}
use bulla.Prelude.Sums.{sum_map}
use bulla.Prelude.NatSet.{NatSet, member, add, member-add}
use bulla.Smp.{CpuId}
use bulla.Scheduler.{
  TaskId, TaskState, Task, Scheduler, running, runs_on, is_off, scan_queue, scan_current, scan,
  all_seen, invariant_holds, runnable, blocked, exited,
}
use bulla.Scheduler.Places.{queued, due, IsSound}

-- A queue of runnable tasks, each once and none seen, is seen through.
scan_queue-sees :
    (tasks : Map ℕ Task) (seen : NatSet) (q : List TaskId)
    → ((t : TaskId)
        → 0 < count t q
        → (member t seen ≡ false) × (count t q ≡ 1) × (due (get t tasks) ≡ 1))
    → (seen' : NatSet) × (scan_queue tasks seen q ≡ some seen')
      × ((t : TaskId) → member t seen' ≡ (member t seen || ltb 0 (count t q)))
unfolding scan_queue count
scan_queue-sees tasks seen [] h = (seen, refl, λ t. ground arith)
scan_queue-sees tasks seen (x ∷ q) h =
    let (new, once, ready) = h x (ground arith) in
    let (seen', e, sees) = scan_queue-sees tasks (add x seen) q (λ t p.
      ground
        (arith, h t, new, once, member-add x t seen, ap (λ y. count y q) ((==_iff x t).0 _))) in
    (seen', ground arith, λ t. ground (arith, sees t, member-add x t seen))

-- What the scan of the queues from some CPU on needs to find.
record Fine (s : Scheduler) (seen : NatSet) (m : Map ℕ (List TaskId)) : Type 0 where
  once : (t : TaskId) → queued t m ≤ 1
  ready : (t : TaskId) → 0 < queued t m → due (get t s.tasks) ≡ 1
  holds :
      (c : CpuId) (t : TaskId)
      → get c s.current ≡ some (some t)
      → (r : Task) × (get t s.tasks ≡ some r) × (r.state ≡ running c)
  fresh : (t : TaskId) → member t seen ≡ true → queued t m ≡ 0
  unheld :
      (t : TaskId) (c : CpuId) (q : List TaskId)
      → member t seen ≡ true
      → get c m ≡ some q
      → get c s.current ≢ some (some t)

-- What it has seen in the end.
record Sees (s : Scheduler) (seen : NatSet) (m : Map ℕ (List TaskId)) (seen' : NatSet)
    : Type 0 where
  done : scan s seen m ≡ some seen'
  old : (t : TaskId) → member t seen ≡ true → member t seen' ≡ true
  waiting : (t : TaskId) → 0 < queued t m → member t seen' ≡ true
  held :
      (t : TaskId) (c : CpuId) (q : List TaskId)
      → get c m ≡ some q
      → get c s.current ≡ some (some t)
      → member t seen' ≡ true

-- A task that runs is in no queue.
apart :
    (s : Scheduler) (seen : NatSet) (m : Map ℕ (List TaskId)) (c : CpuId) (t : TaskId)
    → Fine s seen m
    → get c s.current ≡ some (some t)
    → queued t m ≡ 0
apart s seen m c t f h =
    let (r, g, e) = f.holds c t h in
    let none_due : due (get t s.tasks) ≡ 0 = rw (g, e) refl in ground (arith, f.ready t)

scan_current-sees :
    (s : Scheduler) (seen : NatSet) (cpu : CpuId)
    → ((t : TaskId)
        → get cpu s.current ≡ some (some t)
        → (member t seen ≡ false)
          × ((r : Task) × (get t s.tasks ≡ some r) × (r.state ≡ running cpu)))
    → (seen' : NatSet) × (scan_current s.tasks seen cpu (get cpu s.current) ≡ some seen')
      × ((t : TaskId)
          → (member t seen' ≡ true)
            ↔ ((member t seen ≡ true) ⊎ (get cpu s.current ≡ some (some t))))
unfolding scan_current
scan_current-sees s seen cpu h = elim (Option-cases (get cpu s.current)) [
  | inl unknown ↦ (seen, rw unknown refl, λ t. (λ p. inl p, λ p. ground arith))
  | inr (none, empty) ↦ (seen, rw empty refl, λ t. (λ p. inl p, λ p. ground arith))
  | inr (some task, busy) ↦
      let (new, (r, g, e)) = h task busy in
      let on : runs_on cpu r.state ≡ true = rw e (ground arith) in
      (
        add task seen,
        rw (busy, new, g, on) refl,
        λ t. (
          λ p. ground (arith, member-add task t seen),
          λ p. ground (arith, member-add task t seen),
        ),
      )
]

module _ (s : Scheduler) (seen : NatSet) (b : ℕ) (cpu : CpuId) (queue : List TaskId)
    (rest : Map ℕ (List TaskId)) (a : KeysAbove b ((cpu, queue) ∷ rest))
    (f : Fine s seen ((cpu, queue) ∷ rest)) where
  queue_fine :
      (t : TaskId)
      → 0 < count t queue
      → (member t seen ≡ false) × (count t queue ≡ 1) × (due (get t s.tasks) ≡ 1)
  unfolding sum_map
  queue_fine t p = (ground (arith, f.fresh t), omega (arith, f.once t), f.ready t (omega arith))

  current_fine :
      (seen' : NatSet)
      → ((t : TaskId) → member t seen' ≡ (member t seen || ltb 0 (count t queue)))
      → (t : TaskId) → get cpu s.current ≡ some (some t)
      → (member t seen' ≡ false) × ((r : Task) × (get t s.tasks ≡ some r) × (r.state ≡ running cpu))
  unfolding sum_map get
  current_fine seen' sees t h =
      let away = apart s seen ((cpu, queue) ∷ rest) cpu t f h in
      let here : get cpu ((cpu, queue) ∷ rest) ≡ some queue = ground arith in
      let unseen = f.unheld t cpu queue in (ground (arith, sees t, away, unseen), f.holds cpu t h)

  rest-Fine :
      (seen' seen'' : NatSet)
      → ((t : TaskId) → member t seen' ≡ (member t seen || ltb 0 (count t queue)))
      → ((t : TaskId)
          → (member t seen'' ≡ true)
            ↔ ((member t seen' ≡ true) ⊎ (get cpu s.current ≡ some (some t))))
      → Fine s seen'' rest
  unfolding sum_map get
  rest-Fine seen' seen'' sees sees' = record {
    once = λ t. omega (arith, f.once t);
    ready = λ t p. f.ready t (omega arith);
    holds = f.holds;
    fresh = λ t p. elim ((sees' t).0 p) [
      | inl q ↦ ground (arith, sees t, f.fresh t, f.once t)
      | inr h ↦ omega (arith, apart s seen ((cpu, queue) ∷ rest) cpu t f h)
    ];
    unheld = λ t c q p g h. elim ((sees' t).0 p) [
      | inl old ↦ elim (Bool-cases (member t seen)) [
        | inl seen_before ↦
            f.unheld t c q seen_before (ground (arith, get_below (suc cpu) c rest a.1)) h
        | inr new ↦
            let away = apart s seen ((cpu, queue) ∷ rest) c t f h in ground (arith, sees t, away)
      ]
      | inr here ↦
          let (r, g1, e1) = f.holds cpu t here in
          let (r', g2, e2) = f.holds c t h in
          let same : r ≡ r' = ground arith in
          ground (arith, ap (λ (x : Task). x.state) same, get_below (suc cpu) c rest a.1)
    ];
  }

scan-Sees :
    (s : Scheduler) (seen : NatSet) (b : ℕ) (m : Map ℕ (List TaskId))
    → KeysAbove b m
    → Fine s seen m
    → (seen' : NatSet) × Sees s seen m seen'
unfolding scan sum_map get
scan-Sees s seen b [] a f = (
  seen,
  record {
    done = refl;
    old = λ t p. p;
    waiting = λ t p. absurd (omega arith);
    held = λ t c q g h. cc;
  },
)
scan-Sees s seen b ((cpu, queue) ∷ rest) a f =
    let (seen', e, sees) =
      scan_queue-sees s.tasks seen queue (queue_fine s seen b cpu queue rest a f) in
    let (seen'', e', sees') =
      scan_current-sees s seen' cpu (current_fine s seen b cpu queue rest a f seen' sees) in
    let (all, k) =
      scan-Sees s seen'' (suc cpu) rest a.1
        (rest-Fine s seen b cpu queue rest a f seen' seen'' sees sees') in
    (
      all,
      record {
        done = ground (arith, e, e', k.done);
        old = λ t p. k.old t ((sees' t).1 (inl (ground (arith, sees t))));
        waiting = λ t p. elim (Bool-cases (ltb 0 (count t queue))) [
          | inl here ↦ k.old t ((sees' t).1 (inl (ground (arith, sees t))))
          | inr later ↦ k.waiting t (ground arith)
        ];
        held = λ t c q g h. elim (Bool-cases (cpu == c)) [
          | inl same ↦
              let at : cpu ≡ c = (==_iff cpu c).0 same in k.old t ((sees' t).1 (inr (rw at h)))
          | inr other ↦ k.held t c q (ground arith) h
        ];
      },
    )

-- Every task that is neither blocked nor exited has been seen.
all_seen-lem :
    (b : ℕ) (seen : NatSet) (m : Map ℕ Task)
    → KeysAbove b m
    → ((t : TaskId) (r : Task) → get t m ≡ some r → (is_off r.state || member t seen) ≡ true)
    → all_seen seen m ≡ true
unfolding all_seen get
all_seen-lem b seen [] a h = refl
all_seen-lem b seen ((t, r) ∷ m) a h =
    let here = h t r (ground arith) in
    let rest =
      all_seen-lem (suc t) seen m a.1
        (λ u q g. h u q (ground (arith, get_below (suc t) u m a.1))) in
    ground arith

data Doing : TaskState → Type 0 where
  off : {state : TaskState} → is_off state ≡ true → Doing state
  ready : {state : TaskState} → state ≡ runnable → Doing state
  at_work : {state : TaskState} (cpu : CpuId) → state ≡ running cpu → Doing state

doing : (state : TaskState) → Doing state
doing runnable = ready refl
doing blocked = off refl
doing (exited code) = off refl
doing (running cpu) = at_work cpu refl

-- A sound scheduler passes its own check.
pub IsSound-invariant_holds : (n : ℕ) (s : Scheduler) → IsSound n s → invariant_holds s ≡ true
unfolding invariant_holds member
IsSound-invariant_holds n s v =
    let (seen, k) = scan-Sees s [] 0 s.queues v.queues_ordered (record {
      once = λ t. ground (arith, v.waiting t);
      ready = λ t p. ground (arith, v.waiting t);
      holds = v.holds;
      fresh = λ t p. cc;
      unheld = λ t c q p. cc;
    }) in
    rw (k.done, invariant_holds)
      (all_seen-lem 0 seen s.tasks v.tasks_ordered (λ t r g. elim (doing r.state) [
        | off e ↦ ground arith
        | ready e ↦ ground (arith, k.waiting t, v.waiting t)
        | at_work c e ↦ elim (Option-cases (get c s.queues)) [
          | inl missing ↦ absurd (cc ((v.paired c).0 missing, v.placed c t r g e))
          | inr (q, known) ↦ ground (arith, k.held t c q known (v.placed c t r g e))
        ]
      ]))
