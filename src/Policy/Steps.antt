-- ===== src/Policy/Steps.antt =====
-- What the policy does over many events, and with the sequencer's completions
-- (kernel/src/policy.rs, kernel/src/event.rs).
use bulla.Prelude.{
  ℕ, refl, sym, ap, true, false, some, List, arith, leb, Bool-cases, Option-cases, Result, ok, err,
  inl, inr, ◌≤◌, ◌<◌, ◌≡◌, ◌∙◌, ◌≢◌, ◌⊎◌, [], ◌∷◌,
}
use bulla.Prelude.Map.{get, insert, get-insert, nat_key}
use bulla.Smp.{CpuId}
use bulla.Action.{Action, PlatformError, submit_dma}
use bulla.Event.{
  EventKind, Event, EventSequencer, Completion, IssuedAction, boot, cpu_online, cpu_start_failed,
  irq_event, timer, ipi, dma_complete, syscall, user_fault, device_fault, action_complete,
  shutdown_request, complete, completion_kind, ingress,
}
use bulla.Policy.{
  CpuShard, PolicyError, ActionBatch, KernelPolicy, action_overflow, push, react, step,
  is_completion, is_some, stale_event, unknown_cpu, terminal_error, correlation_required,
  unexpected_correlation,
}

unfoldable pub run : KernelPolicy → List Event → KernelPolicy
run k [] = k
run k (e ∷ es) = run (step k e).0 es

abbrev pub IsTerminal : KernelPolicy → CpuId → Type 0
IsTerminal k cpu = (shard : CpuShard) × (get cpu k.shards ≡ some shard) × (shard.terminal ≡ true)

abbrev after_event : KernelPolicy → Event → CpuShard → CpuShard × Result PolicyError ActionBatch
after_event k e shard = react (record shard { last_event = e.id }) e.cpu e.kind

-- What the policy found of an event that reached its arm of the match.
record Reached (k : KernelPolicy) (e : Event) : Type 0 where
  shard : CpuShard
  found : get e.cpu k.shards ≡ some shard
  running : shard.terminal ≡ false
  fresh : k.last_global_event < e.id
  correlated : is_completion e.kind ≡ is_some e.correlation
  written : step k e ≡ (
    record { shards = insert e.cpu (after_event k e shard).0 k.shards; last_global_event = e.id },
    (after_event k e shard).1,
  )

-- An event reaches its arm, or is refused with the state as it was.
data EitherWay (k : KernelPolicy) (e : Event) : Type 0 where
  reached : Reached k e → EitherWay k e
  refused : (x : PolicyError) → x ≢ action_overflow → step k e ≡ (k, err x) → EitherWay k e

look : (k : KernelPolicy) (e : Event) → EitherWay k e
unfolding step
look k e = elim (Bool-cases (leb e.id k.last_global_event)) [
  | inl old ↦ refused stale_event (λ q. cc) (ground arith)
  | inr new ↦ elim (Option-cases (get e.cpu k.shards)) [
    | inl missing ↦ refused unknown_cpu (λ q. cc) (ground arith)
    | inr (shard, found) ↦ elim (Bool-cases shard.terminal) [
      | inl over ↦ refused terminal_error (λ q. cc) (ground arith)
      | inr running ↦ elim (Bool-cases (is_completion e.kind)) [
        | inl completes ↦ elim (Bool-cases (is_some e.correlation)) [
          | inl correlated ↦ reached (record {
            shard = shard;
            found = found;
            running = running;
            fresh = ground arith;
            correlated = completes ∙ sym correlated;
            written = rw (new, found, running, completes, correlated) refl;
          })
          | inr plain ↦
              refused correlation_required (λ q. cc)
                (rw (new, found, running, completes, plain) refl)
        ]
        | inr other ↦ elim (Bool-cases (is_some e.correlation)) [
          | inl correlated ↦
              refused unexpected_correlation (λ q. cc)
                (rw (new, found, running, other, correlated) refl)
          | inr plain ↦ reached (record {
            shard = shard;
            found = found;
            running = running;
            fresh = ground arith;
            correlated = other ∙ sym plain;
            written = rw (new, found, running, other, plain) refl;
          })
        ]
      ]
    ]
  ]
]

step-IsTerminal :
    (k : KernelPolicy) (cpu : CpuId) (e : Event) → IsTerminal k cpu → IsTerminal (step k e).0 cpu
step-IsTerminal k cpu e (shard, found, t) = elim (look k e) [
  | reached r ↦ rw r.written (
    shard,
    ground (arith, get-insert e.cpu cpu (after_event k e r.shard).0 k.shards, r.found, r.running),
    t,
  )
  | refused x n h ↦ rw h (shard, found, t)
]

run-IsTerminal :
    (k : KernelPolicy) (cpu : CpuId) (es : List Event)
    → IsTerminal k cpu
    → IsTerminal (run k es) cpu
unfolding run
run-IsTerminal k cpu [] t = t
run-IsTerminal k cpu (e ∷ es) t = run-IsTerminal (step k e).0 cpu es (step-IsTerminal k cpu e t)

-- Once a CPU's shutdown request has been accepted, no later event on that CPU is, whatever events
-- come between.
pub shutdown_final :
    (k k' : KernelPolicy) (e e' : Event) (es : List Event) (b b' : ActionBatch)
    → step k e ≡ (k', ok b)
    → e.kind ≡ shutdown_request
    → e'.cpu ≡ e.cpu
    → (step (run k' es) e').1 ≢ ok b'
unfolding react
shutdown_final k k' e e' es b b' h q c accepted = elim (look k e) [
  | refused x n r ↦ cc (h, r)
  | reached r ↦
      let shard' = (after_event k e r.shard).0 in
      let over : shard'.terminal ≡ true = rw q refl in
      let stored : get e.cpu k'.shards ≡ some shard' =
        ground (arith, h, r.written, get-insert e.cpu e.cpu shard' k.shards) in
      let (last, found, t) = run-IsTerminal k' e.cpu es (shard', stored, over) in
      elim (look (run k' es) e') [
        | refused x n r' ↦ cc (accepted, r')
        | reached r' ↦ ground (arith, r'.found, r'.running, ap (λ x. get x (run k' es).shards) c)
      ]
]

step-last : (k : KernelPolicy) (e : Event) → k.last_global_event ≤ (step k e).0.last_global_event
unfolding step
step-last k e = ground arith

run-last : (k : KernelPolicy) (es : List Event) → k.last_global_event ≤ (run k es).last_global_event
unfolding run
run-last k [] = omega arith
run-last k (e ∷ es) = omega (arith, step-last k e, run-last (step k e).0 es)

-- An accepted event is accepted once: no later event with its number or a lower one is, on any CPU.
pub step_once :
    (k k' : KernelPolicy) (e e' : Event) (es : List Event) (b b' : ActionBatch)
    → step k e ≡ (k', ok b)
    → e'.id ≤ e.id
    → (step (run k' es) e').1 ≢ ok b'
unfolding step
step_once k k' e e' es b b' h le accepted =
    let now : k'.last_global_event ≡ e.id = ground arith in ground (arith, run-last k' es)

react_batch :
    (shard : CpuShard) (cpu : CpuId) (kind : EventKind)
    → (react shard cpu kind).1 ≢ err action_overflow
unfolding react push
react_batch shard cpu boot h = cc
react_batch shard cpu cpu_online h = ground arith
react_batch shard cpu (cpu_start_failed f) h = cc
react_batch shard cpu (irq_event vector) h = cc
react_batch shard cpu timer h = ground arith
react_batch shard cpu (ipi vector epoch) h = cc
react_batch shard cpu (dma_complete slot) h = ground arith
react_batch shard cpu (syscall number) h = ground arith
react_batch shard cpu (user_fault address code) h = cc
react_batch shard cpu (device_fault device code) h = cc
react_batch shard cpu action_complete h = cc
react_batch shard cpu shutdown_request h = cc

-- No event overflows the four slots of its batch.
pub step_batch : (k : KernelPolicy) (e : Event) → (step k e).1 ≢ err action_overflow
step_batch k e h = elim (look k e) [
  | reached r ↦ react_batch (record r.shard { last_event = e.id }) e.cpu e.kind (cc (h, r.written))
  | refused x n r ↦ n (cc (h, r))
]

-- What a completion reports that the policy takes for one.
abbrev pub IsReported : Action → Result PlatformError (Unit {0}) → Type 0
IsReported action result =
    (result ≡ ok tt)
    × (((target : CpuId) × (action ≡ Action.start_cpu target))
        ⊎ ((slot : ℕ) × (action ≡ submit_dma slot)))

completion_cases :
    (action : Action) (result : Result PlatformError (Unit {0}))
    → is_completion (completion_kind action result) ≡ true
    → IsReported action result
unfolding completion_kind
completion_cases (Action.start_cpu target) (ok tt) h = (refl, inl (target, refl))
completion_cases (Action.send_ipi t v e) (ok tt) h = cc
completion_cases (Action.tlb_shootdown t e v l) (ok tt) h = cc
completion_cases (Action.ack_irq v) (ok tt) h = cc
completion_cases (Action.mask_irq v) (ok tt) h = cc
completion_cases (Action.unmask_irq v) (ok tt) h = cc
completion_cases (Action.map_action v z n p) (ok tt) h = cc
completion_cases (Action.unmap_action v) (ok tt) h = cc
completion_cases (Action.protect_action v p) (ok tt) h = cc
completion_cases (Action.mmio_read a w) (ok tt) h = cc
completion_cases (Action.mmio_write a w v) (ok tt) h = cc
completion_cases (Action.pio_read p w) (ok tt) h = cc
completion_cases (Action.pio_write p w v) (ok tt) h = cc
completion_cases (Action.submit_dma slot) (ok tt) h = (refl, inr (slot, refl))
completion_cases (Action.arm_timer d) (ok tt) h = cc
completion_cases Action.cancel_timer (ok tt) h = cc
completion_cases (Action.enqueue_task t c) (ok tt) h = cc
completion_cases (Action.enter_context c) (ok tt) h = cc
completion_cases Action.reboot (ok tt) h = cc
completion_cases Action.power_off (ok tt) h = cc
completion_cases Action.halt (ok tt) h = cc
completion_cases a (err x) h = cc

-- The completion that the sequencer makes is refused by the policy unless it reports a started CPU
-- or a finished DMA transfer: whichever other action completed, and for every action that failed.
pub completion_refused :
    (s s' : EventSequencer) (i : IssuedAction) (cpu : CpuId)
    (result : Result PlatformError (Unit {0})) (c : Completion) (e : Event) (k : KernelPolicy)
    (b : ActionBatch)
    → complete s i cpu result ≡ (s', ok (c, e))
    → (step k e).1 ≡ ok b
    → IsReported i.action result
unfolding complete ingress
completion_refused s s' i cpu result c e k b h accepted =
    let kind : e.kind ≡ completion_kind i.action result = ground arith in
    let correlation : e.correlation ≡ some i.id = ground arith in
    elim (look k e) [
      | refused x n r ↦ cc (accepted, r)
      | reached r ↦
          completion_cases i.action result
            (ap is_completion (sym kind) ∙ r.correlated ∙ ap is_some correlation)
    ]
