-- ===== src/Examples/Events.antt =====
-- A boot, a timer action with its completion, and a shutdown (kernel/src/event.rs,
-- kernel/src/policy.rs).
use bulla.Prelude.{
  refl, false, none, some, List, arith, ok, err, u64_mod, ◌+◌, ◌<◌, ◌≡◌, ◌≢◌, ◌↔◌, [], ◌∷◌,
}
use bulla.Prelude.Map.{get, insert, nat_key}
use bulla.Prelude.NatSet.{member}
use bulla.Action.{Action, arm_timer, start_cpu, validate_action}
use bulla.Event.{
  Event, EventSequencer, Completion, IssuedAction, boot, timer, shutdown_request, cpu_online,
  with_topology, is_offline, admit, ingress, issue, complete, completion_kind,
}
use bulla.Event.Order
use bulla.Policy.{KernelPolicy, ActionBatch, add_cpu, react, step, push}
use bulla.Policy.Steps.{run, IsReported, shutdown_final, step_once, step_batch, completion_refused}

abbrev sequencer : EventSequencer
sequencer = with_topology (0 ∷ []) 10

abbrev calls : List Order.Call
calls =
    Order.ingresses 0 boot none
    ∷ Order.issues (arm_timer 1)
    ∷ Order.completes (record { id = 1; action = arm_timer 1 }) 0 (ok tt)
    ∷ []

events-Numbered_example :
    Order.Numbered 1 (Order.run sequencer calls).next_action (Order.events sequencer calls)
events-Numbered_example = Order.events-Numbered sequencer calls

abbrev starting_one : IssuedAction
starting_one = record { id = 1; action = start_cpu 1 }

abbrev issued : EventSequencer
issued = (issue sequencer (start_cpu 1)).0

complete-issue_iff_example :
    ((d : Completion × Event) × ((complete (Order.run issued calls) starting_one 0 (ok tt)).1
        ≡ ok d))
    ↔ ((is_offline (Order.run issued calls) 0 ≡ false)
        × (admit (Order.run issued calls) 0 (completion_kind (start_cpu 1) (ok tt)) ≡ ok tt)
        × ((Order.run issued calls).next_event + 1 < u64_mod))
unfolding issue validate_action
complete-issue_iff_example =
    Order.complete-issue_iff sequencer issued (start_cpu 1) starting_one calls 0 (ok tt)
      (omega arith) refl

abbrev policy : KernelPolicy
policy = (add_cpu (record { shards = []; last_global_event = 0 }) 0).0

abbrev stop : Event
stop = record { cpu = 0; id = 1; correlation = none; kind = shutdown_request }

abbrev tick : Event
tick = record { cpu = 0; id = 2; correlation = none; kind = timer }

abbrev stopped : KernelPolicy
stopped = (step policy stop).0

shutdown_final_example : (step (run stopped (tick ∷ [])) tick).1 ≢ ok (arm_timer 1 ∷ [])
unfolding step add_cpu react push get insert
shutdown_final_example =
    shutdown_final policy stopped stop tick (tick ∷ []) (Action.power_off ∷ []) (arm_timer 1 ∷ [])
      refl refl refl

step_once_example : (step (run stopped (tick ∷ [])) stop).1 ≢ ok (Action.power_off ∷ [])
unfolding step add_cpu react push get insert
step_once_example =
    step_once policy stopped stop stop (tick ∷ []) (Action.power_off ∷ []) (Action.power_off ∷ [])
      refl (omega arith)

step_batch_example : (step policy tick).1 ≢ err bulla.Policy.action_overflow
step_batch_example = step_batch policy tick

abbrev online_event : Event
online_event = record { cpu = 0; id = 1; correlation = some 1; kind = cpu_online }

completion_refused_example : IsReported (start_cpu 1) (ok tt)
unfolding issue validate_action complete ingress completion_kind admit is_offline member step
    add_cpu react push get insert
completion_refused_example =
    completion_refused issued (complete issued starting_one 0 (ok tt)).0 starting_one 0 (ok tt)
      (record { action = 1; event = 1; result = ok tt }) online_event policy
      (Action.enqueue_task 0 0 ∷ []) refl refl
