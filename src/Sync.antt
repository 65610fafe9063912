-- ===== src/Sync.antt =====
-- kernel/src/sync.rs: the ticket lock, the once cell, the bounded queue and the barrier.
pub mod Lock
pub mod Meeting
pub mod Queue
use bulla.Prelude.{
  ℕ, Bool, not, Option, none, some, List, Result, ok, err, refuse_if, ok_or, attempt, u64_mod,
  checked_add, saturating_add, ◌+◌, ◌%◌, [], ◌∷◌, ◌++◌, ◌==◌, if◌then◌else◌, ◌>>=◌, ◌>>◌,
}
use bulla.Prelude.Lists.{length}
use bulla.Prelude.Map.{Map, get, insert, nat_key}
use bulla.Prelude.NatSet.{NatSet, member, add, delete}
use bulla.Smp.{CpuId, CpuSet}

pub data SyncError : Type 0 where
  ticket_overflow unknown_ticket out_of_order_release already_initialized uninitialized : SyncError
  queue_full queue_empty duplicate_participant foreign_participant stale_generation : SyncError
  generation_overflow : SyncError

pub record LockGuard : Type 0 where
  pub ticket : ℕ

pub record TicketLock : Type 0 where
  pub next : ℕ
  pub owner : ℕ
  pub outstanding : NatSet

abbrev pub new_lock : TicketLock
new_lock = record { next = 0; owner = 0; outstanding = [] }

unfoldable pub enqueue : TicketLock → TicketLock × Result SyncError ℕ
enqueue l =
    attempt (ok_or (checked_add l.next 1) ticket_overflow) l
      λ next. (record l { next = next; outstanding = add l.next l.outstanding }, ok l.next)

unfoldable pub acquire : TicketLock → ℕ → Result SyncError LockGuard
acquire l ticket = do
  refuse_if (not (member ticket l.outstanding)) unknown_ticket
  refuse_if (not (ticket == l.owner)) out_of_order_release
  ok (record { ticket = ticket })

-- The removal comes before the check of the counter, as in the source.
unfoldable pub release : TicketLock → LockGuard → TicketLock × Result SyncError (Unit {0})
release l guard = attempt (refuse_if (not (guard.ticket == l.owner)) out_of_order_release) l λ _.
    let l' : TicketLock = record l { outstanding = delete guard.ticket l.outstanding } in
    attempt (refuse_if (not (member guard.ticket l.outstanding)) out_of_order_release) l' λ _.
      attempt (ok_or (checked_add l.owner 1) ticket_overflow) l'
        λ owner. (record l' { owner = owner }, ok tt)

module _ {ℓ} {T : Type ℓ} where
  -- `OnceCell<T>` is its `value`.
  unfoldable pub initialize : Option T → T → Option T × Result SyncError T
  initialize none value = (some value, ok value)
  initialize (some old) value = (some old, err already_initialized)

  unfoldable pub get_once : Option T → Result SyncError T
  get_once cell = ok_or cell uninitialized

abbrev pub count_of : ℕ → Map ℕ ℕ → ℕ
count_of producer pushes = elim (get producer pushes) [ none ↦ 0 | some n ↦ n ]

unfoldable pub sum_values : Map ℕ ℕ → ℕ
sum_values [] = 0
sum_values ((k, n) ∷ m) = n + sum_values m

pub record BoundedMpsc {ℓ} (T : Type ℓ) : Type ℓ where
  pub capacity : ℕ
  pub queue : List (CpuId × T)
  pub pushes : Map ℕ ℕ
  pub pops : ℕ

module _ {ℓ} {T : Type ℓ} where
  abbrev pub new_mpsc : ℕ → BoundedMpsc T
  new_mpsc capacity = record { capacity = capacity; queue = []; pushes = []; pops = 0 }

  -- `+= 1` on the `u64` counter wraps, as the release profile compiles it.
  unfoldable pub push : BoundedMpsc T → CpuId → T → BoundedMpsc T × Result SyncError (Unit {0})
  push q producer value = if length q.queue == q.capacity then (q, err queue_full) else (
    record q {
      queue = q.queue ++ (producer, value) ∷ [];
      pushes = insert producer ((count_of producer q.pushes + 1) % u64_mod) q.pushes;
    },
    ok tt,
  )

  unfoldable pub pop : BoundedMpsc T → BoundedMpsc T × Result SyncError (CpuId × T)
  pop q = elim q.queue [
    | [] ↦ (q, err queue_empty)
    | value ∷ rest ↦ (record q { queue = rest; pops = saturating_add q.pops 1 }, ok value)
  ]

  unfoldable pub accounting_holds : BoundedMpsc T → Bool
  unfolding sum_values
  accounting_holds q =
      sum_values q.pushes % u64_mod == saturating_add q.pops (length q.queue % u64_mod)

pub record Barrier : Type 0 where
  pub participants : CpuSet
  pub arrived : NatSet
  pub generation : ℕ

abbrev pub new_barrier : CpuSet → Barrier
new_barrier participants = record { participants = participants; arrived = []; generation = 0 }

unfoldable pub arrive : Barrier → CpuId → ℕ → Barrier × Result SyncError Bool
arrive b cpu generation =
    attempt (refuse_if (not (generation == b.generation)) stale_generation) b λ _.
      attempt (refuse_if (not (member cpu b.participants)) foreign_participant) b λ _.
        attempt (refuse_if (member cpu b.arrived) duplicate_participant) b λ _.
          let arrived' : NatSet = add cpu b.arrived in
          (record b { arrived = arrived' }, ok (length arrived' == length b.participants))

unfoldable pub advance : Barrier → Barrier × Result SyncError ℕ
advance b =
    attempt (refuse_if (not (length b.arrived == length b.participants)) foreign_participant) b λ _.
      attempt (ok_or (checked_add b.generation 1) generation_overflow) b
        λ next. (record b { generation = next; arrived = [] }, ok next)
