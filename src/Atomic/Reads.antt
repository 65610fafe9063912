-- ===== src/Atomic/Reads.antt =====
-- What an atomic read sees, and how the writes of a cell are numbered (kernel/src/atomic.rs).
use bulla.Prelude.{
  ℕ, refl, sym, ap, false, Option, none, some, List, arith, ==_refl, Option-cases, ok, inl, inr,
  ◌+◌, ◌≡◌, ◌∙◌, ◌&&◌, [], ◌∷◌, ◌++◌, if◌then◌else◌,
}
use bulla.Prelude.Map.{nat_key}
use mathlib.Core.Path.{subst}
use bulla.Atomic.{AtomicOrdering, is_releasing}
use bulla.Atomic.Model.{
  AtomicEvent, MemoryCell, AtomicMemoryModel, new_model, load, releases, acquires, load_event,
  stores, store, write_event, edge, release_edge,
}
use bulla.Atomic.Trace.{Call, run, registered, last_write, write_count, last_write-append}
use bulla.Atomic.Agreement.{Agrees, traced, write-writes_to}
use bulla.Atomic.Moves.{
  write_event-WriteOutcome, load-LoadOutcome, write_event-WriteOutcome, fails, done,
}

-- The edges that the last write gives to a read of this ordering.
unfoldable pub reads_edge : Option AtomicEvent → Option ℕ
reads_edge none = none
reads_edge (some w) = some w.id

unfoldable pub release_of : AtomicOrdering → Option AtomicEvent → Option ℕ
release_of o none = none
release_of o (some w) = if acquires o && releases w.ordering then some w.id else none

-- The value of the last write, or the one given where there is none.
unfoldable pub value_of : ℕ → Option AtomicEvent → ℕ
value_of v none = v
value_of v (some w) = w.value

Agrees-edge :
    (es : List AtomicEvent) (k : ℕ) (c : MemoryCell)
    → Agrees es k c
    → edge c ≡ reads_edge (last_write es k)
unfolding reads_edge
Agrees-edge es k c a = elim (Option-cases (last_write es k)) [
  | inl h ↦ rw h (ground (arith, a.fresh h))
  | inr (w, h) ↦ rw h (ground (arith, a.id w h))
]

Agrees-value :
    (es : List AtomicEvent) (k : ℕ) (c : MemoryCell)
    → Agrees es k c
    → c.value ≡ value_of c.value (last_write es k)
unfolding value_of
Agrees-value es k c a = elim (Option-cases (last_write es k)) [
  | inl h ↦ rw h refl
  | inr (w, h) ↦ rw h (sym (a.value w h))
]

Agrees-release :
    (es : List AtomicEvent) (k : ℕ) (c : MemoryCell) (o : AtomicOrdering)
    → Agrees es k c
    → is_releasing o ≡ false
    → release_edge o c ≡ release_of o (last_write es k)
unfolding release_of
Agrees-release es k c o a r = elim (Option-cases (last_write es k)) [
  | inl h ↦ rw h (ground (arith, r, a.fresh h))
  | inr (w, h) ↦ rw (h, a.ordering w h) (ground (arith, r, a.id w h))
]

-- On the trace that any calls made after cells were registered, a successful load returns the value
-- of the last event that wrote its cell, and the event that it adds reads from that write and, for
-- an acquiring load of a releasing write, happens after it; a cell that no event wrote gives
-- neither edge.
pub load_sees_last_write :
    (ks : List (ℕ × ℕ)) (cs : List Call) (cpu k : ℕ) (o : AtomicOrdering) (n : AtomicMemoryModel)
    (v id : ℕ)
    → let m = run (registered new_model ks) cs in
      load m cpu k o ≡ (n, ok (v, id))
      → let w = last_write m.events k in
        (e : AtomicEvent) × (n.events ≡ m.events ++ (e ∷ []))
        × (v ≡ value_of v w)
        × (e.value ≡ v)
        × (e.reads_from ≡ reads_edge w)
        × (e.happens_after_release ≡ release_of o w)
unfolding load
load_sees_last_write ks cs cpu k o n v id h =
    let m = run (registered new_model ks) cs in
    elim (load-LoadOutcome m cpu k o) [
      | fails e g _ ↦ absurd (ground (arith, g, ap (λ r. r.1) h))
      | done c sc found g noted ↦
          let a = (traced ks cs).agrees k c found in
          let value : c.value ≡ v = ground (arith, sym g ∙ ap (λ r. r.1) h) in
          let r : is_releasing o ≡ false = ground (arith, h) in
          (
            load_event cpu k o c m.next_event sc,
            sym (ap (λ r. r.0.events) h) ∙ noted.events,
            subst (λ x. x ≡ value_of x (last_write m.events k)) value (Agrees-value m.events k c a),
            value,
            Agrees-edge m.events k c a,
            Agrees-release m.events k c o a r,
          )
    ]

-- Each successful store adds an event with its value, numbered by the writes of the cell so far:
-- the numbers of a cell's writes are 1, 2, 3 and so on, in the order of the trace.
pub store_numbered :
    (ks : List (ℕ × ℕ)) (cs : List Call) (cpu k v : ℕ) (o : AtomicOrdering) (n : AtomicMemoryModel)
    (id : ℕ)
    → let m = run (registered new_model ks) cs in
      store m cpu k v o ≡ (n, ok id)
      → (e : AtomicEvent) × (n.events ≡ m.events ++ (e ∷ []))
        × (e.value ≡ v)
        × (e.modification_order ≡ some (write_count m.events k + 1))
        × (last_write n.events k ≡ some e)
unfolding store
store_numbered ks cs cpu k v o n id h =
    let m = run (registered new_model ks) cs in
    let inner : write_event m cpu k v o stores none ≡ (n, ok id) = ground (arith, h) in
    elim (write_event-WriteOutcome m cpu k v o stores none) [
      | fails e g _ ↦ absurd (ground (arith, g, ap (λ r. r.1) inner))
      | done e g w value _ ↦
          let a = (traced ks cs).agrees k w.before w.known in
          let events : n.events ≡ m.events ++ (e ∷ []) =
            sym (ap (λ r. r.0.events) inner) ∙ w.events in
          (
            e,
            events,
            value,
            w.order ∙ ap (λ x. some (x + 1)) a.counted,
            ap (λ es. last_write es k) events
                ∙ last_write-append m.events e k
                ∙ rw
                    (
                      write-writes_to k k (w.before.modification_order + 1) e w.cell w.order,
                      ==_refl k,
                    )
                    refl,
          )
    ]
