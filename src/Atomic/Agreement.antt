-- ===== src/Atomic/Agreement.antt =====
-- The cells and the trace agree over any calls: a cell holds what the last event that wrote it wrote
-- (kernel/src/atomic.rs).
use bulla.Prelude.{
  ℕ, refl, sym, ap, true, false, none, some, List, arith, ==_iff, Bool-cases, inl, inr, ◌+◌, ◌<◌,
  ◌≡◌, ◌∙◌, [], ◌∷◌, ◌++◌, ◌==◌, if◌then◌else◌,
}
use bulla.Prelude.Map.{get, get-insert, nat_key}
use mathlib.Core.Path.{subst}
use bulla.Atomic.Model.{
  AtomicEvent, MemoryCell, AtomicMemoryModel, new_model, register, written, fresh_cell,
}
use bulla.Atomic.Trace.{
  Call, run, after, registered, last_write, write_count, writes_to, last_write-append,
  write_count-append,
}
use bulla.Atomic.Moves.{Move, idles, notes, writes, Wrote, after-Move}

-- A cell holds what the last write of the trace wrote, and counts the writes.
pub record Agrees (es : List AtomicEvent) (k : ℕ) (c : MemoryCell) : Type 0 where
  pub fresh : last_write es k ≡ none → c.last_write ≡ 0
  pub id : (e : AtomicEvent) → last_write es k ≡ some e → (e.id ≡ c.last_write) × (0 < e.id)
  pub value : (e : AtomicEvent) → last_write es k ≡ some e → e.value ≡ c.value
  pub ordering : (e : AtomicEvent) → last_write es k ≡ some e → e.ordering ≡ c.last_write_ordering
  pub counted : c.modification_order ≡ write_count es k

pub record IsTraced (m : AtomicMemoryModel) : Type 0 where
  pub started : 0 < m.next_event
  pub agrees : (k : ℕ) (c : MemoryCell) → get k m.cells ≡ some c → Agrees m.events k c

-- An event that does not write the cell changes nothing for it.
append-other :
    (es : List AtomicEvent) (k : ℕ) (c : MemoryCell) (e : AtomicEvent)
    → writes_to k e ≡ false
    → Agrees es k c
    → Agrees (es ++ (e ∷ [])) k c
append-other es k c e h a =
    let same : last_write (es ++ (e ∷ [])) k ≡ last_write es k =
      last_write-append es e k ∙ rw h refl in
    record {
      fresh = λ t. a.fresh (sym same ∙ t);
      id = λ d t. a.id d (sym same ∙ t);
      value = λ d t. a.value d (sym same ∙ t);
      ordering = λ d t. a.ordering d (sym same ∙ t);
      counted = a.counted ∙ sym (write_count-append es e k ∙ rw h (omega arith));
    }

append-written :
    (es : List AtomicEvent) (k : ℕ) (c : MemoryCell) (e : AtomicEvent)
    → writes_to k e ≡ true
    → 0 < e.id
    → Agrees es k c
    → Agrees (es ++ (e ∷ [])) k (written e.id c e.value e.ordering (c.modification_order + 1))
append-written es k c e h p a =
    let same : last_write (es ++ (e ∷ [])) k ≡ some e = last_write-append es e k ∙ rw h refl in
    record {
      fresh = λ t. absurd (ground (arith, t, same));
      id = λ d t. ground (arith, p, t, same);
      value = λ d t. ground (arith, t, same);
      ordering = λ d t. ground (arith, t, same);
      counted = sym (write_count-append es e k ∙ rw h (omega (arith, a.counted)));
    }

no_write-writes_to : (k : ℕ) (e : AtomicEvent) → e.modification_order ≡ none → writes_to k e ≡ false
unfolding writes_to
no_write-writes_to k e h = ground (arith, h)

pub write-writes_to :
    (j k n : ℕ) (e : AtomicEvent)
    → e.cell ≡ some j
    → e.modification_order ≡ some n
    → writes_to k e ≡ (j == k)
unfolding writes_to
write-writes_to j k n e g h = ground (arith, g, h)

Wrote-Agrees :
    (m n : AtomicMemoryModel) (j : ℕ) (e : AtomicEvent) (i : Wrote m n j e)
    → IsTraced m
    → (k : ℕ) (c : MemoryCell) → get k n.cells ≡ some c
    → Agrees (m.events ++ (e ∷ [])) k c
Wrote-Agrees m n j e i t k c h =
    let new = written e.id i.before e.value e.ordering (i.before.modification_order + 1) in
    let found : (if j == k then some new else get k m.cells) ≡ some c =
      sym (get-insert j k new m.cells) ∙ ap (get k) (sym i.cells) ∙ h in
    let w = write-writes_to j k (i.before.modification_order + 1) e i.cell i.order in
    elim (Bool-cases (j == k)) [
      | inl q ↦
          let old : get k m.cells ≡ some i.before =
            ap (λ x. get x m.cells) (sym ((==_iff j k).0 q)) ∙ i.known in
          let same : new ≡ c = ground (arith, found, q) in
          subst (λ d. Agrees (m.events ++ (e ∷ [])) k d) same
            (append-written m.events k i.before e (w ∙ q) (omega (arith, i.id, t.started))
              (t.agrees k i.before old))
      | inr q ↦ append-other m.events k c e (w ∙ q) (t.agrees k c (ground (arith, found, q)))
    ]

Move-IsTraced : (m n : AtomicMemoryModel) → Move m n → IsTraced m → IsTraced n
Move-IsTraced m n (idles i) t = record {
  started = omega (arith, i.next, t.started);
  agrees = λ k c h. rw i.events (t.agrees k c (ap (get k) (sym i.cells) ∙ h));
}
Move-IsTraced m n (notes e i) t = record {
  started = omega (arith, i.next, t.started);
  agrees = λ k c h. rw i.events (
      append-other m.events k c e (no_write-writes_to k e i.no_write)
        (t.agrees k c (ap (get k) (sym i.cells) ∙ h)));
}
Move-IsTraced m n (writes j e i) t = record {
  started = omega (arith, i.next, t.started);
  agrees = λ k c h. rw i.events (Wrote-Agrees m n j e i t k c h);
}

run-IsTraced : (cs : List Call) (m : AtomicMemoryModel) → IsTraced m → IsTraced (run m cs)
unfolding run
run-IsTraced [] m t = t
run-IsTraced (c ∷ cs) m t =
    run-IsTraced cs (after m c) (Move-IsTraced m (after m c) (after-Move m c) t)

-- Before the first event.
record IsQuiet (m : AtomicMemoryModel) : Type 0 where
  started : 0 < m.next_event
  events : m.events ≡ []
  unwritten :
      (k : ℕ) (c : MemoryCell)
      → get k m.cells ≡ some c
      → (c.last_write ≡ 0) × (c.modification_order ≡ 0)

registered-IsQuiet :
    (ks : List (ℕ × ℕ)) (m : AtomicMemoryModel) → IsQuiet m → IsQuiet (registered m ks)
unfolding registered register
registered-IsQuiet [] m q = q
registered-IsQuiet ((j, v) ∷ ks) m q = registered-IsQuiet ks (register m j v).0 (record {
  started = q.started;
  events = q.events;
  unwritten = λ k c h. ground (arith, h, q.unwritten k c, get-insert j k (fresh_cell v) m.cells);
})

IsQuiet-IsTraced : (m : AtomicMemoryModel) → IsQuiet m → IsTraced m
unfolding last_write write_count
IsQuiet-IsTraced m q = record {
  started = q.started;
  agrees = λ k c h. rw q.events (record {
    fresh = λ _. (q.unwritten k c h).0;
    id = λ e t. absurd (ground (arith, t));
    value = λ e t. absurd (ground (arith, t));
    ordering = λ e t. absurd (ground (arith, t));
    counted = (q.unwritten k c h).1;
  });
}

pub traced : (ks : List (ℕ × ℕ)) (cs : List Call) → IsTraced (run (registered new_model ks) cs)
unfolding get
traced ks cs =
    let quiet : IsQuiet new_model = record {
      started = omega arith;
      events = refl;
      unwritten = λ k c h. absurd (ground (arith, h));
    } in
    run-IsTraced cs (registered new_model ks)
      (IsQuiet-IsTraced _ (registered-IsQuiet ks new_model quiet))
