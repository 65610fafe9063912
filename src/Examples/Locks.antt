-- ===== src/Examples/Locks.antt =====
-- The ticket lock, the queue and the barrier on short runs (kernel/src/sync.rs).
use bulla.Prelude.{
  ℕ, refl, true, false, List, arith, ok, is_ok, u64_mod, ◌+◌, ◌≤◌, ◌<◌, ◌≡◌, ◌↔◌, [], ◌∷◌, ◌++◌,
  if◌then◌else◌,
}
use bulla.Prelude.Map.{nat_key}
use bulla.Prelude.Lists.{length}
use bulla.Prelude.NatSet.{member, add}
use bulla.Sync.{
  Barrier, LockGuard, TicketLock, new_lock, new_barrier, enqueue, acquire, release,
  accounting_holds, arrive, advance,
}
use bulla.Sync.Lock
use bulla.Sync.Queue
use bulla.Sync.Meeting

-- Tickets 0 and 1 are drawn.
abbrev two_drawn : List Lock.Call
two_drawn = Lock.enqueues ∷ Lock.enqueues ∷ []

abbrev lock : TicketLock
lock = Lock.run new_lock two_drawn

abbrev guard : LockGuard
guard = record { ticket = 0 }

release-acquire_example :
    ((release lock guard).1 ≡ ok tt)
    × ((release lock guard).0.owner ≡ 0 + 1)
    × ((release lock guard).0.next ≡ lock.next)
    × (0 + 1 < lock.next → acquire (release lock guard).0 (0 + 1) ≡ ok (record { ticket = 0 + 1 }))
unfolding acquire Lock.run Lock.after enqueue member add
release-acquire_example = Lock.release-acquire lock 0 guard (Lock.run-IsSound_lock two_drawn) refl

-- A queue of two places that refuses a third value.
abbrev traffic : List (Queue.Call ℕ)
traffic =
    Queue.pushes_to 0 10
    ∷ Queue.pushes_to 1 11
    ∷ Queue.pushes_to 0 12
    ∷ Queue.pops_from
    ∷ Queue.pushes_to 0 13
    ∷ []

run_queue_example :
    (accounting_holds (Queue.run (Queue.start 2) traffic).state ≡ true)
    × (length (Queue.run (Queue.start 2) traffic).state.queue ≤ 2)
    × ((Queue.run (Queue.start 2) traffic).accepted
        ≡ (Queue.run (Queue.start 2) traffic).delivered
          ++ (Queue.run (Queue.start 2) traffic).state.queue)
run_queue_example = Queue.run_queue 2 traffic (omega arith)

abbrev pair : Barrier
pair = new_barrier (0 ∷ 1 ∷ [])

pair-IsSound : Meeting.IsSound pair
unfolding member
pair-IsSound = record {
  participants_ascend = ground arith;
  arrived_ascend = tt;
  invited = λ k h. cc;
}

abbrev one_here : List Meeting.Call
one_here = Meeting.arrives 1 0 ∷ []

run-IsSound_barrier_example : Meeting.IsSound (Meeting.run pair one_here)
run-IsSound_barrier_example = Meeting.run-IsSound_barrier pair one_here pair-IsSound

-- One of two participants is there, and the other arrives.
abbrev half : Barrier
half = Meeting.run pair one_here

barrier_opens_example :
    let a = arrive half 1 0 in
    let o = advance half in
    ((is_ok a.1 ≡ true) ↔ (
      (0 ≡ half.generation)
      × (member 1 half.participants ≡ true)
      × (member 1 half.arrived ≡ false)))
    × (a.0 ≡ (if is_ok a.1 then record half { arrived = add 1 half.arrived } else half))
    × ((a.1 ≡ ok true) ↔ ((is_ok a.1 ≡ true) × Meeting.IsFull a.0))
    × ((is_ok o.1 ≡ true) ↔ (Meeting.IsFull half × (half.generation + 1 < u64_mod)))
    × (o ≡ (
        if is_ok o.1
        then (
          record half { generation = half.generation + 1; arrived = [] },
          ok (half.generation + 1),
        )
        else (half, o.1)))
barrier_opens_example =
    Meeting.barrier_opens half 1 0 (Meeting.run-IsSound_barrier pair one_here pair-IsSound)
