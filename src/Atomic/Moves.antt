-- ===== src/Atomic/Moves.antt =====
-- How each call of the memory model moves its cells and its trace (kernel/src/atomic.rs).
use bulla.Prelude.{
  ℕ, refl, sym, ap, Option, none, some, arith, ltb, Bool-cases, Option-cases, Result, ok, err,
  u64_mod, add64, inl, inr, ◌+◌, ◌≤◌, ◌≡◌, ◌∙◌, ◌⊎◌, [], ◌∷◌, ◌++◌,
}
use bulla.Prelude.Map.{get, insert, nat_key}
use mathlib.Core.Path.{subst}
use bulla.Atomic.{
  AtomicOrdering, AtomicError, is_releasing, is_acquiring, event_overflow, unknown_cell,
  illegal_load_ordering,
}
use bulla.Atomic.Trace.{Call, after, stored, loaded, added, fenced, change_last-append}
use bulla.Atomic.Model.{
  FenceKind, AtomicEvent, stores, read_modify_write, prior_write, prior_release, AtomicEventKind,
  record_write, load_event, fence_event, MemoryCell, AtomicMemoryModel, numbered, next_event_id,
  sc_index, written, write_event, store, load, fence, change_last, linked, fetch_add, push,
  is_seq_cst, is_relaxed,
}

-- How a call moves the model: it leaves the cells and the trace, adds an event that writes
-- nothing, or writes a cell and adds the event of it.
pub record Idle (m n : AtomicMemoryModel) : Type 0 where
  pub cells : n.cells ≡ m.cells
  pub events : n.events ≡ m.events
  pub next : m.next_event ≤ n.next_event

pub record Noted (m n : AtomicMemoryModel) (e : AtomicEvent) : Type 0 where
  pub cells : n.cells ≡ m.cells
  pub events : n.events ≡ m.events ++ (e ∷ [])
  pub next : m.next_event ≤ n.next_event
  pub no_write : e.modification_order ≡ none

pub record Wrote (m n : AtomicMemoryModel) (k : ℕ) (e : AtomicEvent) : Type 0 where
  pub before : MemoryCell
  pub known : get k m.cells ≡ some before
  pub cells :
      n.cells
      ≡ insert k (written e.id before e.value e.ordering (before.modification_order + 1)) m.cells
  pub events : n.events ≡ m.events ++ (e ∷ [])
  pub id : e.id ≡ m.next_event
  pub next : m.next_event ≤ n.next_event
  pub cell : e.cell ≡ some k
  pub order : e.modification_order ≡ some (before.modification_order + 1)

pub data Move (m n : AtomicMemoryModel) : Type 0 where
  idles : Idle m n → Move m n
  notes : (e : AtomicEvent) → Noted m n e → Move m n
  writes : (k : ℕ) (e : AtomicEvent) → Wrote m n k e → Move m n

-- Either the numbers run out, or the rest goes on with the model's next event.
record Outcome {A : Type 0} (m : AtomicMemoryModel) (o : AtomicOrdering)
    (k : AtomicMemoryModel → ℕ → Option ℕ → AtomicMemoryModel × Result AtomicError A) : Type 0 where
  n : AtomicMemoryModel
  idle : Idle m n
  outcome :
      ((e : AtomicError) × (numbered m o k ≡ (n, err e)))
      ⊎ ((sc : Option ℕ) × (numbered m o k ≡ k n m.next_event sc))

numbered-Outcome :
    {A : Type 0} (m : AtomicMemoryModel) (o : AtomicOrdering)
    (k : AtomicMemoryModel → ℕ → Option ℕ → AtomicMemoryModel × Result AtomicError A)
    → Outcome m o k
unfolding numbered next_event_id sc_index
numbered-Outcome m o k = elim (Bool-cases (ltb (m.next_event + 1) u64_mod)) [
  | inr h ↦ record {
    n = m;
    idle = record { cells = refl; events = refl; next = omega arith };
    outcome = inl (event_overflow, rw (numbered, h) refl);
  }
  | inl h ↦ elim (Bool-cases (is_seq_cst o)) [
    | inr g ↦ record {
      n = record m { next_event = m.next_event + 1 };
      idle = record { cells = refl; events = refl; next = omega arith };
      outcome = inr (none, rw (numbered, h, g) refl);
    }
    | inl g ↦ elim (Bool-cases (ltb (m.next_sc + 1) u64_mod)) [
      | inr f ↦ record {
        n = record m { next_event = m.next_event + 1 };
        idle = record { cells = refl; events = refl; next = omega arith };
        outcome = inl (event_overflow, rw (numbered, h, g, f) refl);
      }
      | inl f ↦ record {
        n = record m { next_event = m.next_event + 1; next_sc = m.next_sc + 1 };
        idle = record { cells = refl; events = refl; next = omega arith };
        outcome = inr (some m.next_sc, rw (numbered, h, g, f) refl);
      }
    ]
  ]
]

-- A write either fails and adds no event, or adds the event of this write.
pub data WriteOutcome (m : AtomicMemoryModel) (k v : ℕ) (o : AtomicOrdering)
    (r : AtomicMemoryModel × Result AtomicError ℕ) : Type 0 where
  fails : (e : AtomicError) → r.1 ≡ err e → Idle m r.0 → WriteOutcome m k v o r
  done :
      (e : AtomicEvent)
      → r.1 ≡ ok e.id
      → Wrote m r.0 k e
      → e.value ≡ v
      → e.ordering ≡ o
      → WriteOutcome m k v o r

record_write-WriteOutcome :
    (m n : AtomicMemoryModel) (cpu k v : ℕ) (o : AtomicOrdering) (kind : AtomicEventKind)
    (rf sc : Option ℕ)
    → Idle m n
    → WriteOutcome m k v o (record_write cpu k v o kind rf n m.next_event sc)
unfolding record_write
record_write-WriteOutcome m n cpu k v o kind rf sc idle = elim (Option-cases (get k n.cells)) [
  | inl h ↦ fails unknown_cell (rw (record_write, h) refl) (rw (record_write, h) idle)
  | inr (state, h) ↦ elim (Bool-cases (ltb (state.modification_order + 1) u64_mod)) [
    | inr g ↦ fails event_overflow (rw (record_write, h, g) refl) (rw (record_write, h, g) idle)
    | inl g ↦
        done
          (record {
            id = m.next_event;
            cpu = cpu;
            cell = some k;
            kind = kind;
            ordering = o;
            value = v;
            reads_from = rf;
            modification_order = some (state.modification_order + 1);
            sequentially_consistent_order = sc;
            happens_after_release = none;
          })
          (rw (record_write, h, g) refl)
          (record {
            before = state;
            known = rw (← idle.cells) h;
            cells = rw (record_write, h, g, idle.cells) refl;
            events = rw (record_write, h, g, idle.events) refl;
            id = refl;
            next = rw (record_write, h, g) idle.next;
            cell = refl;
            order = refl;
          })
          refl refl
  ]
]

pub write_event-WriteOutcome :
    (m : AtomicMemoryModel) (cpu k v : ℕ) (o : AtomicOrdering) (kind : AtomicEventKind)
    (rf : Option ℕ)
    → WriteOutcome m k v o (write_event m cpu k v o kind rf)
unfolding write_event
write_event-WriteOutcome m cpu k v o kind rf =
    let y = numbered-Outcome m o (record_write cpu k v o kind rf) in
    elim y.outcome [
      | inl (e, h) ↦ subst (λ r. WriteOutcome m k v o r) (sym h) (fails e refl y.idle)
      | inr (sc, h) ↦
          subst (λ r. WriteOutcome m k v o r) (sym h)
            (record_write-WriteOutcome m y.n cpu k v o kind rf sc y.idle)
    ]

Idle-push :
    (m n : AtomicMemoryModel) (e : AtomicEvent)
    → Idle m n
    → e.modification_order ≡ none
    → Noted m (push n e) e
Idle-push m n e idle h = record {
  cells = idle.cells;
  events = ap (λ es. es ++ (e ∷ [])) idle.events;
  next = idle.next;
  no_write = h;
}

store-Move :
    (m : AtomicMemoryModel) (cpu k v : ℕ) (o : AtomicOrdering) → Move m (store m cpu k v o).0
unfolding store
store-Move m cpu k v o = elim (Bool-cases (is_acquiring o)) [
  | inl h ↦ idles (rw (store, h) (record { cells = refl; events = refl; next = omega arith }))
  | inr h ↦ elim (write_event-WriteOutcome m cpu k v o stores none) [
    | fails _ _ idle ↦ idles (rw (store, h) idle)
    | done e _ w _ _ ↦ writes k e (rw (store, h) w)
  ]
]

fence-Move :
    (m : AtomicMemoryModel) (cpu : ℕ) (kind : FenceKind) (o : AtomicOrdering)
    → Move m (fence m cpu kind o).0
unfolding fence
fence-Move m cpu kind o = elim (Bool-cases (is_relaxed o)) [
  | inl h ↦ idles (rw (fence, h) (record { cells = refl; events = refl; next = omega arith }))
  | inr h ↦
      let y =
        numbered-Outcome m o (λ n event sc. (push n (fence_event cpu kind o event sc), ok event)) in
      elim y.outcome [
        | inl (e, g) ↦ idles (rw (fence, h, g) y.idle)
        | inr (sc, g) ↦
            notes (fence_event cpu kind o m.next_event sc)
              (rw (fence, h, g) (Idle-push m y.n _ y.idle refl))
      ]
]

-- A load fails and adds no event, or returns the value of the cell and adds its event.
pub data LoadOutcome (m : AtomicMemoryModel) (cpu k : ℕ) (o : AtomicOrdering)
    (r : AtomicMemoryModel × Result AtomicError (ℕ × ℕ)) : Type 0 where
  fails : (e : AtomicError) → r.1 ≡ err e → Idle m r.0 → LoadOutcome m cpu k o r
  done :
      (c : MemoryCell) (sc : Option ℕ)
      → get k m.cells ≡ some c
      → r.1 ≡ ok (c.value, m.next_event)
      → Noted m r.0 (load_event cpu k o c m.next_event sc)
      → LoadOutcome m cpu k o r

pub load-LoadOutcome :
    (m : AtomicMemoryModel) (cpu k : ℕ) (o : AtomicOrdering)
    → LoadOutcome m cpu k o (load m cpu k o)
unfolding load
load-LoadOutcome m cpu k o = elim (Bool-cases (is_releasing o)) [
  | inl h ↦
      fails illegal_load_ordering (rw (load, h) refl)
        (rw (load, h) (record { cells = refl; events = refl; next = omega arith }))
  | inr h ↦ elim (Option-cases (get k m.cells)) [
    | inl f ↦
        fails unknown_cell (rw (load, h, f) refl)
          (rw (load, h, f) (record { cells = refl; events = refl; next = omega arith }))
    | inr (c, f) ↦
        let y =
          numbered-Outcome {A = ℕ × ℕ} m o
            (λ n event sc. (push n (load_event cpu k o c event sc), ok (c.value, event))) in
        elim y.outcome [
          | inl (e, g) ↦ fails e (rw (load, h, f, g) refl) (rw (load, h, f, g) y.idle)
          | inr (sc, g) ↦
              done c sc f (rw (load, h, f, g) refl)
                (rw (load, h, f, g) (Idle-push m y.n _ y.idle refl))
        ]
  ]
]

Wrote-linked :
    (m n : AtomicMemoryModel) (k : ℕ) (e : AtomicEvent) (p a : Option ℕ)
    → Wrote m n k e
    → Wrote m (record n { events = change_last (linked p a) n.events }) k (linked p a e)
Wrote-linked m n k e p a w = record {
  before = w.before;
  known = w.known;
  cells = w.cells;
  events = ap (change_last (linked p a)) w.events ∙ change_last-append (linked p a) m.events e;
  id = w.id;
  next = w.next;
  cell = w.cell;
  order = w.order;
}

fetch_add-Move :
    (m : AtomicMemoryModel) (cpu k v : ℕ) (o : AtomicOrdering) → Move m (fetch_add m cpu k v o).0
unfolding fetch_add
fetch_add-Move m cpu k v o = elim (Option-cases (get k m.cells)) [
  | inl f ↦ idles (rw (fetch_add, f) (record { cells = refl; events = refl; next = omega arith }))
  | inr (c, f) ↦
      elim (write_event-WriteOutcome m cpu k (add64 c.value v) o read_modify_write none) [
        | fails e h idle ↦ idles (rw (fetch_add, f, h) idle)
        | done e h w _ _ ↦
            let n = (write_event m cpu k (add64 c.value v) o read_modify_write none).0 in
            let p = prior_write n.events k in
            let a = prior_release n.events o p in
            writes k (linked p a e) (rw (fetch_add, f, h) (Wrote-linked m n k e p a w))
      ]
]

pub after-Move : (m : AtomicMemoryModel) (c : Call) → Move m (after m c)
unfolding after
after-Move m (stored cpu k v o) = store-Move m cpu k v o
after-Move m (loaded cpu k o) = elim (load-LoadOutcome m cpu k o) [
  | fails _ _ idle ↦ idles idle
  | done c sc _ _ w ↦ notes _ w
]
after-Move m (added cpu k v o) = fetch_add-Move m cpu k v o
after-Move m (fenced cpu kind o) = fence-Move m cpu kind o
