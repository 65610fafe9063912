-- ===== src/Sync/Queue.antt =====
-- The bounded queue: its capacity, its accounting and its order (kernel/src/sync.rs).
use bulla.Prelude.{
  ℕ, suc, refl, sym, ap, true, List, arith, ==_iff, Bool-cases, Result, ok, err, u64_mod, inl, inr,
  ◌+◌, ◌%◌, ◌≤◌, ◌<◌, ◌≡◌, ◌∙◌, [], ◌∷◌, ◌++◌, ◌==◌,
}
use native.Mathlib.Nat.{add-zero}
use mathlib.Core.List.{append_assoc}
use bulla.Prelude.Lists.{length, length-append}
use bulla.Prelude.Map.{Map, get, insert, nat_key}
use bulla.Prelude.Ordered.{IsOrdered, KeysAbove, insert-IsOrdered, get_below}
use bulla.Smp.{CpuId}
use bulla.Sync.{SyncError, BoundedMpsc, new_mpsc, count_of, push, pop, sum_values, accounting_holds}

sum_values-insert :
    (b k n : ℕ) (m : Map ℕ ℕ)
    → KeysAbove b m
    → sum_values (insert k n m) + count_of k m ≡ sum_values m + n
unfolding sum_values insert get
sum_values-insert b k n [] a = ground arith
sum_values-insert b k n ((j, w) ∷ m) a =
    ground (arith, sum_values-insert (suc j) k n m a.1, get_below (suc j) k m a.1)

count_le : (b k : ℕ) (m : Map ℕ ℕ) → KeysAbove b m → count_of k m ≤ sum_values m
count_le b k m a = omega (arith, sum_values-insert b k 0 m a)

pub data Call {ℓ} (T : Type ℓ) : Type ℓ where
  pushes_to : CpuId → T → Call T
  pops_from : Call T

-- The queue after some calls, with what was accepted and what was handed out so far.
pub record Run {ℓ} (T : Type ℓ) : Type ℓ where
  pub state : BoundedMpsc T
  pub accepted : List (CpuId × T)
  pub delivered : List (CpuId × T)

module _ {ℓ} {T : Type ℓ} where
  abbrev pushed : Run T → CpuId × T → BoundedMpsc T × Result SyncError (Unit {0}) → Run T
  pushed r value (q, ok _) = record r { state = q; accepted = r.accepted ++ value ∷ [] }
  pushed r value (q, err _) = record r { state = q }

  abbrev popped : Run T → BoundedMpsc T × Result SyncError (CpuId × T) → Run T
  popped r (q, ok value) = record r { state = q; delivered = r.delivered ++ value ∷ [] }
  popped r (q, err _) = record r { state = q }

  unfoldable pub after : Run T → Call T → Run T
  after r (pushes_to cpu v) = pushed r (cpu, v) (push r.state cpu v)
  after r pops_from = popped r (pop r.state)

  unfoldable pub run : Run T → List (Call T) → Run T
  run r [] = r
  run r (c ∷ cs) = run (after r c) cs

  abbrev pub start : ℕ → Run T
  start capacity = record { state = new_mpsc capacity; accepted = []; delivered = [] }

  -- `n` bounds the calls made so far.
  record IsSound (n : ℕ) (r : Run T) : Type ℓ where
    ordered : IsOrdered r.state.pushes
    balanced : sum_values r.state.pushes ≡ r.state.pops + length r.state.queue
    small : sum_values r.state.pushes ≤ n
    bounded : length r.state.queue ≤ r.state.capacity
    in_order : r.accepted ≡ r.delivered ++ r.state.queue

  push-IsSound :
      (n : ℕ) (r : Run T) (cpu : CpuId) (x : T)
      → n + 1 < u64_mod
      → IsSound n r
      → IsSound (n + 1) (after r (pushes_to cpu x))
  unfolding after push
  push-IsSound n r cpu x h v = elim (Bool-cases (length r.state.queue == r.state.capacity)) [
    | inl full ↦ rw full (record {
      ordered = v.ordered;
      balanced = v.balanced;
      small = omega arith;
      bounded = v.bounded;
      in_order = v.in_order;
    })
    | inr room ↦
        let q = r.state in
        let count = (count_of cpu q.pushes + 1) % u64_mod in
        let le = count_le 0 cpu q.pushes v.ordered in
        let total = sum_values-insert 0 cpu count q.pushes v.ordered in
        let longer = length-append q.queue ((cpu, x) ∷ []) in
        rw room (record {
          ordered = insert-IsOrdered cpu count q.pushes v.ordered;
          balanced = omega arith;
          small = omega arith;
          bounded = ground arith;
          in_order = rw (v.in_order) (append_assoc r.delivered q.queue ((cpu, x) ∷ []));
        })
  ]

  pop-IsSound :
      (n : ℕ) (r : Run T) (queue : List (CpuId × T))
      → n + 1 < u64_mod
      → IsSound n r
      → r.state.queue ≡ queue
      → IsSound (n + 1) (after r pops_from)
  unfolding after pop
  pop-IsSound n r [] h v e =
      rw (e, pop)
        (record {
          ordered = v.ordered;
          balanced = v.balanced;
          small = omega arith;
          bounded = v.bounded;
          in_order = v.in_order;
        })
  pop-IsSound n r (x ∷ rest) h v e =
      rw (e, pop)
        (record {
          ordered = v.ordered;
          balanced = ground (arith, v.balanced, ap length e);
          small = omega arith;
          bounded = omega (arith, ap length e);
          in_order =
              v.in_order ∙ ap (◌++◌ r.delivered) e ∙ sym (append_assoc r.delivered (x ∷ []) rest);
        })

  after-IsSound :
      (n : ℕ) (r : Run T) (c : Call T) → n + 1 < u64_mod → IsSound n r → IsSound (n + 1) (after r c)
  after-IsSound n r (pushes_to cpu x) h v = push-IsSound n r cpu x h v
  after-IsSound n r pops_from h v = pop-IsSound n r r.state.queue h v refl

  run-keeps :
      (n : ℕ) (r : Run T) (cs : List (Call T))
      → n + length cs < u64_mod
      → IsSound n r
      → IsSound (n + length cs) (run r cs)
  unfolding run
  run-keeps n r [] h v = rw add-zero v
  run-keeps n r (c ∷ cs) h v =
      let e : n + 1 + length cs ≡ n + suc (length cs) = omega arith in
      rw e at (run-keeps (n + 1) (after r c) cs (omega arith) (after-IsSound n r c (omega arith) v))

  after_capacity : (r : Run T) (c : Call T) → (after r c).state.capacity ≡ r.state.capacity
  unfolding after push pop
  after_capacity r (pushes_to cpu x) = ground arith
  after_capacity r pops_from = ground arith

  run_capacity : (r : Run T) (cs : List (Call T)) → (run r cs).state.capacity ≡ r.state.capacity
  unfolding run
  run_capacity r [] = refl
  run_capacity r (c ∷ cs) = run_capacity (after r c) cs ∙ after_capacity r c

  -- Through fewer calls than the counters can count, a new queue's accounting holds, it never holds
  -- more than its capacity, and what was accepted is what was handed out followed by what is still
  -- queued, in the order of acceptance.
  pub run_queue :
      (capacity : ℕ) (cs : List (Call T))
      → length cs < u64_mod
      → (accounting_holds (run (start capacity) cs).state ≡ true)
        × (length (run (start capacity) cs).state.queue ≤ capacity)
        × ((run (start capacity) cs).accepted
            ≡ (run (start capacity) cs).delivered ++ (run (start capacity) cs).state.queue)
  unfolding accounting_holds sum_values
  run_queue capacity cs h =
      let v = run-keeps 0 (start capacity) cs (omega arith) (record {
        ordered = tt;
        balanced = omega arith;
        small = omega arith;
        bounded = omega arith;
        in_order = refl;
      }) in
      (
        (==_iff _ _).1 (omega (arith, v.balanced, v.small)),
        omega (arith, v.bounded, run_capacity (start capacity) cs),
        v.in_order,
      )
