-- ===== src/Policy.antt =====
-- kernel/src/policy.rs: the kernel's policy, which turns one event into a batch of actions.
pub mod Steps
use bulla.Prelude.{
  ℕ, Bool, true, false, not, Option, none, some, List, leb, Result, ok, refuse_if, ok_or, attempt,
  u32_mod, checked_add, checked_add32, add64, ◌%◌, ◌&&◌, [], ◌∷◌, ◌++◌, ◌==◌, if◌then◌else◌, ◌>>=◌,
  ◌>>◌,
}
use bulla.Prelude.Map.{Map, get, insert, nat_key}
use bulla.Prelude.Lists.{length}
use bulla.Smp.{CpuId, from_ids}
use bulla.Action.{
  Action, PlatformError, arm_timer, enqueue_task, ack_irq, send_ipi, enter_context, mask_irq,
  power_off,
}
use bulla.Event.{
  EventKind, Event, boot, cpu_online, cpu_start_failed, irq_event, timer, ipi, dma_complete,
  syscall, user_fault, device_fault, action_complete, shutdown_request,
}

pub record CpuShard : Type 0 where
  pub cpu : CpuId
  pub last_event : ℕ
  pub ticks : ℕ
  pub runnable_tasks : ℕ
  pub terminal : Bool

pub data PolicyError : Type 0 where
  unknown_cpu duplicate_cpu stale_event correlation_required unexpected_correlation : PolicyError
  action_overflow tick_overflow task_overflow terminal_error : PolicyError
  platform : PlatformError → PolicyError

-- `ActionBatch<N>`: the actions in the slots below `len`.
abbrev pub ActionBatch : Type 0
ActionBatch = List Action

-- `ActionBatch::push`, for a batch of `n` slots.
unfoldable pub push : ℕ → ActionBatch → Action → Result PolicyError ActionBatch
push n batch action = do refuse_if (length batch == n) action_overflow; ok (batch ++ (action ∷ []))

pub record KernelPolicy : Type 0 where
  pub shards : Map ℕ CpuShard
  pub last_global_event : ℕ

abbrev pub fresh_shard : CpuId → CpuShard
fresh_shard cpu = record {
  cpu = cpu;
  last_event = 0;
  ticks = 0;
  runnable_tasks = 0;
  terminal = false;
}

abbrev is_known : KernelPolicy → CpuId → Bool
is_known k cpu = elim (get cpu k.shards) [ none ↦ false | some _ ↦ true ]

-- The shard is replaced before the call is refused, as in the source.
unfoldable pub add_cpu : KernelPolicy → CpuId → KernelPolicy × Result PolicyError (Unit {0})
add_cpu k cpu = (
  record k { shards = insert cpu (fresh_shard cpu) k.shards },
  refuse_if (is_known k cpu) duplicate_cpu,
)

abbrev pub is_completion : EventKind → Bool
is_completion cpu_online = true
is_completion (cpu_start_failed _) = true
is_completion (dma_complete _) = true
is_completion _ = false

abbrev pub is_some {ℓ} : {A : Type ℓ} → Option A → Bool
is_some none = false
is_some (some _) = true

-- The shard after the event's arm of the match, and the actions. `shard.ticks + 1` wraps, as the
-- release profile compiles it.
unfoldable pub react : CpuShard → CpuId → EventKind → CpuShard × Result PolicyError ActionBatch
react shard cpu boot = (shard, push 4 [] (arm_timer 1))
react shard cpu cpu_online =
    attempt (ok_or (checked_add32 shard.runnable_tasks 1) task_overflow) shard
      λ tasks. (record shard { runnable_tasks = tasks }, push 4 [] (enqueue_task cpu cpu))
react shard cpu (cpu_start_failed _) = (shard, ok [])
react shard cpu (irq_event vector) = (shard, push 4 [] (ack_irq vector))
react shard cpu timer =
    attempt (ok_or (checked_add shard.ticks 1) tick_overflow) shard
      λ ticks. (record shard { ticks = ticks }, push 4 [] (arm_timer (add64 ticks 1)))
react shard cpu (ipi vector epoch) =
    (shard, push 4 [] (send_ipi (from_ids (cpu ∷ [])) vector epoch))
react shard cpu (dma_complete slot) =
    attempt (ok_or (checked_add32 shard.runnable_tasks 1) task_overflow) shard
      λ tasks. (record shard { runnable_tasks = tasks }, ok [])
react shard cpu (syscall number) = (
  shard,
  if number == 0
      then push 4 [] (enqueue_task shard.runnable_tasks cpu)
      else push 4 [] (enter_context (number % u32_mod)),
)
react shard cpu (user_fault address code) = (shard, push 4 [] (enter_context 0))
react shard cpu (device_fault device code) = (shard, push 4 [] (mask_irq 0))
react shard cpu action_complete = (shard, ok [])
react shard cpu shutdown_request = (record shard { terminal = true }, push 4 [] power_off)

-- The two counters are written before the arm of the match can fail, as in the source.
unfoldable pub step : KernelPolicy → Event → KernelPolicy × Result PolicyError ActionBatch
step k event = attempt (refuse_if (leb event.id k.last_global_event) stale_event) k λ _.
    attempt (ok_or (get event.cpu k.shards) unknown_cpu) k λ shard.
      attempt (refuse_if shard.terminal terminal_error) k λ _.
        attempt
          (refuse_if (is_completion event.kind && not (is_some event.correlation))
            correlation_required)
          k
          λ _.
            attempt
              (refuse_if (not (is_completion event.kind) && is_some event.correlation)
                unexpected_correlation)
              k
              λ _.
                let answer = react (record shard { last_event = event.id }) event.cpu event.kind in
                (
                  record k {
                    shards = insert event.cpu answer.0 k.shards;
                    last_global_event = event.id;
                  },
                  answer.1,
                )
