-- ===== src/Scheduler/Steal.antt =====
-- Which queue a CPU without work steals from (kernel/src/scheduler.rs).
use bulla.Prelude.{
  ℕ, suc, refl, ap, Option, none, some, List, arith, ==_iff, Bool-cases, Option-cases, Result, ok,
  saturating_add, inl, inr, ◌+◌, ◌≤◌, ◌≡◌, ◌≢◌, ◌↔◌, [], ◌∷◌, ◌==◌, if◌then◌else◌,
}
use bulla.Prelude.Lists.{length, count, pop_back, count-pop_back, pop_back-none}
use bulla.Prelude.Map.{Map, get, insert, get-insert, nat_key}
use bulla.Prelude.Ordered.{IsOrdered, KeysAbove, insert-IsOrdered, get_below}
use bulla.Smp.{CpuId}
use bulla.Scheduler.{TaskId, Scheduler, SchedulerError, longest_other, find_victim, steal}
use bulla.Scheduler.Places.{queued, queued-insert}

-- The queue found is another CPU's, and no shorter than any other's.
record Longest (requester : CpuId) (m : Map ℕ (List TaskId)) (cpu : CpuId) (queue : List TaskId)
    : Type 0 where
  stored : get cpu m ≡ some queue
  foreign : cpu ≢ requester
  most : (c : CpuId) (q : List TaskId) → c ≢ requester → get c m ≡ some q → length q ≤ length queue

longest-none :
    (requester : CpuId) (m : Map ℕ (List TaskId)) (c : CpuId)
    → longest_other requester m ≡ none
    → c ≢ requester
    → get c m ≡ none
unfolding longest_other get
longest-none requester [] c h ne = refl
longest-none requester ((cpu, queue) ∷ rest) c h ne =
    elim (Option-cases (longest_other requester rest)) [
      | inl alone ↦ ground (arith, longest-none requester rest c alone ne)
      | inr (e, found) ↦ absurd (ground arith)
    ]

longest_other-Longest :
    (b : ℕ) (requester : CpuId) (m : Map ℕ (List TaskId)) (cpu : CpuId) (queue : List TaskId)
    → KeysAbove b m
    → longest_other requester m ≡ some (cpu, queue)
    → Longest requester m cpu queue
unfolding longest_other get
longest_other-Longest b requester [] cpu queue a h = cc
longest_other-Longest b requester ((k, q) ∷ rest) cpu queue a h =
    elim (Option-cases (longest_other requester rest)) [
      | inl alone ↦ record {
        stored = ground arith;
        foreign = λ e. ground arith;
        most = λ c r ne g. ground (arith, longest-none requester rest c alone ne);
      }
      | inr ((c', q'), found) ↦
          let ih = longest_other-Longest (suc k) requester rest c' q' a.1 found in
          record {
            stored = ground (
              arith,
              ih.stored,
              ih.foreign,
              get_below (suc k) c' rest a.1,
              get_below (suc k) cpu rest a.1,
            );
            foreign = λ e. ground (arith, ih.foreign);
            most = λ c r ne g. ground (arith, ih.most c r ne);
          }
    ]

-- A task taken from a queue: it stands there once less, and nothing else has changed.
pub record Taken (s s' : Scheduler) (task : TaskId) : Type 0 where
  pub ordered : IsOrdered s'.queues
  pub same_cpus : (c : CpuId) → (get c s'.queues ≡ none) ↔ (get c s.queues ≡ none)
  pub once_less :
      (t : TaskId) → queued t s'.queues + (if task == t then 1 else 0) ≡ queued t s.queues
  pub same_tasks : s'.tasks ≡ s.tasks
  pub same_current : s'.current ≡ s.current

pub data Outcome (s : Scheduler) (cpu : CpuId)
    : Scheduler × Result SchedulerError (Option TaskId) → Type 0 where
  took : (s' : Scheduler) (task : TaskId) → Taken s s' task → Outcome s cpu (s', ok (some task))
  idle :
      ((c : CpuId) (q : List TaskId) → c ≢ cpu → get c s.queues ≡ some q → q ≡ [])
      → Outcome s cpu (s, ok none)

length-nil {ℓ} : {A : Type ℓ} (xs : List A) → length xs ≤ 0 → xs ≡ []
length-nil [] h = refl
length-nil (x ∷ xs) h = absurd (omega arith)

pub set-Taken :
    (s s' : Scheduler) (c : CpuId) (old new : List TaskId) (task : TaskId)
    → IsOrdered s.queues
    → get c s.queues ≡ some old
    → s'.queues ≡ insert c new s.queues
    → s'.tasks ≡ s.tasks
    → s'.current ≡ s.current
    → ((t : TaskId) → count t old ≡ count t new + (if task == t then 1 else 0))
    → Taken s s' task
set-Taken s s' c old new task o g q e f less = record {
  ordered = rw q (insert-IsOrdered c new s.queues o);
  same_cpus = λ k. rw q (
    λ h. ground (arith, get-insert c k new s.queues),
    λ h. ground (arith, get-insert c k new s.queues),
  );
  once_less = λ t. rw q (omega (arith, queued-insert t c old new s.queues o g, less t));
  same_tasks = e;
  same_current = f;
}

abbrev after_steal : Scheduler → CpuId → List TaskId → Scheduler
after_steal s c rest = record s {
  queues = insert c rest s.queues;
  steals = saturating_add s.steals 1;
}

pub steal-Outcome : (s : Scheduler) (cpu : CpuId) → IsOrdered s.queues → Outcome s cpu (steal s cpu)
unfolding steal find_victim
steal-Outcome s cpu o = elim (Option-cases (longest_other cpu s.queues)) [
  | inl alone ↦
      rw (alone, steal, find_victim)
        (idle (λ c q ne g. cc (longest-none cpu s.queues c alone ne, g)))
  | inr ((c, queue), found) ↦
      let l = longest_other-Longest 0 cpu s.queues c queue o found in
      elim (Bool-cases (length queue == 0)) [
        | inl empty ↦
            rw (found, empty, steal, find_victim)
              (idle
                (λ k q ne g. length-nil q (omega (arith, l.most k q ne g, (==_iff _ _).0 empty))))
        | inr busy ↦ elim (Option-cases (pop_back queue)) [
          | inl none_last ↦
              absurd
                (ground (arith, ap (λ (q : List TaskId). length q) (pop_back-none queue none_last)))
          | inr ((rest, task), last) ↦
              let s' = after_steal s c rest in
              let whole : steal s cpu ≡ (s', ok (some task)) = ground (arith, l.stored) in
              rw whole (
                took s' task (
                  set-Taken s s' c queue rest task o l.stored refl refl refl
                    (λ t. count-pop_back t task queue rest last)))
        ]
      ]
]
