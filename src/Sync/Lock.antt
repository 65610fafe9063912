-- ===== src/Sync/Lock.antt =====
-- The ticket lock: first come, first served, and never two holders (kernel/src/sync.rs).
use bulla.Prelude.{ℕ, List, arith, ltb, leb, ok, u64_mod, ◌+◌, ◌≤◌, ◌<◌, ◌≡◌, ◌↔◌, ◌&&◌, [], ◌∷◌}
use bulla.Prelude.NatSet.{member, member-add, member-delete}
use bulla.Sync.{LockGuard, TicketLock, new_lock, enqueue, acquire, release}

pub data Call : Type 0 where
  enqueues : Call
  releases : LockGuard → Call

unfoldable pub after : TicketLock → Call → TicketLock
after l enqueues = (enqueue l).0
after l (releases g) = (release l g).0

unfoldable pub run : TicketLock → List Call → TicketLock
run l [] = l
run l (c ∷ cs) = run (after l c) cs

-- The tickets waiting or held are those from the owner's up to the next one.
pub record IsSound (l : TicketLock) : Type 0 where
  pub queued : (t : ℕ) → member t l.outstanding ≡ (leb l.owner t && ltb t l.next)
  pub ahead : l.owner ≤ l.next
  pub fits : l.next < u64_mod

after-IsSound : (l : TicketLock) (c : Call) → IsSound l → IsSound (after l c)
unfolding after enqueue release
after-IsSound l enqueues v = record {
  queued = λ t. ground (arith, v.queued t, member-add l.next t l.outstanding);
  ahead = ground arith;
  fits = ground arith;
}
after-IsSound l (releases g) v = record {
  queued =
      λ t. ground (arith, v.queued t, v.queued g.ticket, member-delete g.ticket t l.outstanding);
  ahead = ground (arith, v.queued g.ticket);
  fits = ground arith;
}

run-keeps : (l : TicketLock) (cs : List Call) → IsSound l → IsSound (run l cs)
unfolding run
run-keeps l [] v = v
run-keeps l (c ∷ cs) v = run-keeps (after l c) cs (after-IsSound l c v)

-- After any calls on a new lock, the outstanding tickets are exactly those from the owner's ticket
-- up to the next to be drawn.
pub run-IsSound_lock : (cs : List Call) → IsSound (run new_lock cs)
unfolding member
run-IsSound_lock cs =
    run-keeps new_lock cs
      (record { queued = λ t. ground arith; ahead = omega arith; fits = omega arith })

-- Only the owner's ticket acquires the lock, and it does so whenever any ticket is outstanding.
pub acquire_iff :
    (l : TicketLock) (t : ℕ)
    → IsSound l
    → (acquire l t ≡ ok (record { ticket = t })) ↔ ((t ≡ l.owner) × (l.owner < l.next))
unfolding acquire
acquire_iff l t v = (λ h. ground (arith, v.queued t), λ h. ground (arith, v.queued t))

-- The holder's release always succeeds, and hands the lock to the ticket drawn next after its own,
-- if there is one.
pub release-acquire :
    (l : TicketLock) (t : ℕ) (g : LockGuard)
    → IsSound l
    → acquire l t ≡ ok g
    → ((release l g).1 ≡ ok tt)
      × ((release l g).0.owner ≡ t + 1)
      × ((release l g).0.next ≡ l.next)
      × (t + 1 < l.next → acquire (release l g).0 (t + 1) ≡ ok (record { ticket = t + 1 }))
unfolding acquire release
release-acquire l t g v h = (
  ground (arith, v.queued t),
  ground (arith, v.queued t),
  ground (arith, v.queued t),
  λ more. ground (arith, v.queued t, v.queued (t + 1), member-delete t (t + 1) l.outstanding),
)
