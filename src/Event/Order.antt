-- ===== src/Event/Order.antt =====
-- The numbers that the sequencer gives to events and actions (kernel/src/event.rs).
use bulla.Prelude.{
  ℕ, suc, ap, false, Option, some, List, arith, leb, Bool-cases, Result, ok, err, Result-cases,
  u64_mod, inl, inr, ◌+◌, ◌≤◌, ◌<◌, ◌≡◌, ◌↔◌, ◌||◌, [], ◌∷◌, ◌++◌, ◌==◌,
}
use bulla.Smp.{CpuId}
use bulla.Action.{Action, PlatformError}
use bulla.Event.{
  EventKind, Event, EventSequencer, IssuedAction, Completion, assign_irq, allow_dma_slot, admit,
  ingress, issue, complete, completion_kind, is_offline,
}

pub data Call : Type 0 where
  assigns : (vector : ℕ) → CpuId → Call
  allows : (slot : ℕ) → Call
  ingresses : CpuId → EventKind → Option ℕ → Call
  issues : Action → Call
  completes : IssuedAction → CpuId → Result PlatformError (Unit {0}) → Call

-- The event that a call delivers, if any.
abbrev delivered : Result PlatformError Event → List Event
delivered (ok e) = e ∷ []
delivered (err x) = []

abbrev completed : Result PlatformError (Completion × Event) → List Event
completed (ok (c, e)) = e ∷ []
completed (err x) = []

unfoldable pub step : EventSequencer → Call → EventSequencer × List Event
step s (assigns vector cpu) = ((assign_irq s vector cpu).0, [])
step s (allows slot) = ((allow_dma_slot s slot).0, [])
step s (ingresses cpu kind correlation) =
    let r = ingress s cpu kind correlation in (r.0, delivered r.1)
step s (issues action) = ((issue s action).0, [])
step s (completes issued cpu result) = let r = complete s issued cpu result in (r.0, completed r.1)

unfoldable pub run : EventSequencer → List Call → EventSequencer
run s [] = s
run s (c ∷ cs) = run (step s c).0 cs

unfoldable pub events : EventSequencer → List Call → List Event
events s [] = []
events s (c ∷ cs) = (step s c).1 ++ events (step s c).0 cs

-- The events are numbered in ascending order from `low` on, below 2⁶⁴ - 1, and each correlation is
-- the number of an action issued by the end, `high`.
abbrev pub Numbered : ℕ → ℕ → List Event → Type 0
Numbered low high [] = Unit
Numbered low high (e ∷ es) =
    (low ≤ e.id)
    × (e.id + 1 < u64_mod)
    × ((a : ℕ) → e.correlation ≡ some a → (0 < a) × (a < high))
    × Numbered (suc e.id) high es

-- What a delivered event carries, and the counters after it.
pub record Delivers (s s' : EventSequencer) (e : Event) : Type 0 where
  pub numbered : e.id ≡ s.next_event
  pub following : s'.next_event ≡ suc e.id
  pub small : e.id + 1 < u64_mod
  pub correlated : (a : ℕ) → e.correlation ≡ some a → (0 < a) × (a < s.next_action)

pub data OutcomeOf (s s' : EventSequencer) : List Event → Type 0 where
  silent : OutcomeOf s s' []
  one : (e : Event) → Delivers s s' e → OutcomeOf s s' (e ∷ [])

-- What one call does to the two counters.
pub record Counts (s s' : EventSequencer) (es : List Event) : Type 0 where
  pub later : s.next_event ≤ s'.next_event
  pub more : s.next_action ≤ s'.next_action
  pub outcome : OutcomeOf s s' es

ingress-Delivers :
    (s : EventSequencer) (cpu : CpuId) (kind : EventKind) (correlation : Option ℕ) (e : Event)
    → (ingress s cpu kind correlation).1 ≡ ok e
    → Delivers s (ingress s cpu kind correlation).0 e
unfolding ingress
ingress-Delivers s cpu kind correlation e h = record {
  numbered = ground arith;
  following = ground arith;
  small = ground arith;
  correlated = λ a q. (ground arith, ground arith);
}

ingress-later :
    (s : EventSequencer) (cpu : CpuId) (kind : EventKind) (correlation : Option ℕ)
    → (s.next_event ≤ (ingress s cpu kind correlation).0.next_event)
      × ((ingress s cpu kind correlation).0.next_action ≡ s.next_action)
unfolding ingress
ingress-later s cpu kind correlation = (ground arith, ground arith)

ingress-Counts :
    (s : EventSequencer) (cpu : CpuId) (kind : EventKind) (correlation : Option ℕ)
    → Counts s (ingress s cpu kind correlation).0 (delivered (ingress s cpu kind correlation).1)
ingress-Counts s cpu kind correlation =
    let w = ingress-later s cpu kind correlation in
    record {
      later = w.0;
      more = omega (arith, w.1);
      outcome = elim (Result-cases (ingress s cpu kind correlation).1) [
        | inl (e, h) ↦ rw h (one e (ingress-Delivers s cpu kind correlation e h))
        | inr (x, h) ↦ rw h silent
      ];
    }

complete-Counts :
    (s : EventSequencer) (issued : IssuedAction) (cpu : CpuId)
    (result : Result PlatformError (Unit {0}))
    → Counts s (complete s issued cpu result).0 (completed (complete s issued cpu result).1)
unfolding complete
complete-Counts s issued cpu result =
    elim (Bool-cases (issued.id == 0 || leb s.next_action issued.id)) [
      | inl bad ↦ rw bad (record { later = omega arith; more = omega arith; outcome = silent })
      | inr good ↦
          let kind = completion_kind issued.action result in
          let w = ingress-later s cpu kind (some issued.id) in
          elim (Result-cases (ingress s cpu kind (some issued.id)).1) [
            | inl (e, h) ↦
                rw (good, h)
                  (record {
                    later = w.0;
                    more = omega (arith, w.1);
                    outcome = one e (ingress-Delivers s cpu kind (some issued.id) e h);
                  })
            | inr (x, h) ↦
                rw (good, h) (record { later = w.0; more = omega (arith, w.1); outcome = silent })
          ]
    ]

step-Counts : (s : EventSequencer) (c : Call) → Counts s (step s c).0 (step s c).1
unfolding step assign_irq allow_dma_slot issue
step-Counts s (assigns vector cpu) = record {
  later = ground arith;
  more = ground arith;
  outcome = silent;
}
step-Counts s (allows slot) = record { later = ground arith; more = ground arith; outcome = silent }
step-Counts s (ingresses cpu kind correlation) = ingress-Counts s cpu kind correlation
step-Counts s (issues action) = record {
  later = ground arith;
  more = ground arith;
  outcome = silent;
}
step-Counts s (completes issued cpu result) = complete-Counts s issued cpu result

-- Calls never lower the counters.
run-more :
    (s : EventSequencer) (cs : List Call)
    → (s.next_event ≤ (run s cs).next_event) × (s.next_action ≤ (run s cs).next_action)
unfolding run
run-more s [] = (omega arith, omega arith)
run-more s (c ∷ cs) =
    let d = step-Counts s c in
    let (e, a) = run-more (step s c).0 cs in (omega (arith, d.later, e), omega (arith, d.more, a))

Numbered-lower :
    (low low' high : ℕ) (es : List Event)
    → low ≤ low'
    → Numbered low' high es
    → Numbered low high es
Numbered-lower low low' high [] h n = tt
Numbered-lower low low' high (e ∷ es) h (a, b, c, d) = (omega arith, b, c, d)

Numbered-step :
    {s s' : EventSequencer} {es : List Event} (high : ℕ) (rest : List Event)
    → OutcomeOf s s' es
    → s.next_event ≤ s'.next_event
    → s.next_action ≤ high
    → Numbered s'.next_event high rest
    → Numbered s.next_event high (es ++ rest)
Numbered-step high rest silent le more n = Numbered-lower _ _ high rest le n
Numbered-step high rest (one e d) le more n = (
  omega (arith, d.numbered),
  d.small,
  λ a q. let (x, y) = d.correlated a q in (x, omega arith),
  Numbered-lower (suc e.id) _ high rest (omega (arith, d.following)) n,
)

-- Over any calls, the delivered events carry ever larger numbers below 2⁶⁴ - 1, from the counter's
-- value on, and a correlation is always the number of an action that was issued.
pub events-Numbered :
    (s : EventSequencer) (cs : List Call)
    → Numbered s.next_event (run s cs).next_action (events s cs)
unfolding run events
events-Numbered s [] = tt
events-Numbered s (c ∷ cs) =
    let d = step-Counts s c in
    let rest = events-Numbered (step s c).0 cs in
    let (_, more) = run-more (step s c).0 cs in
    Numbered-step (run s (c ∷ cs)).next_action (events (step s c).0 cs) d.outcome d.later
      (omega (arith, d.more, more)) rest

-- Once an action has been issued, its completion is accepted after any further calls exactly when
-- the CPU is online, the completion's event is admitted, and there is an event number left: it is
-- never refused for its correlation.
pub complete-issue_iff :
    (s s' : EventSequencer) (action : Action) (i : IssuedAction) (cs : List Call) (cpu : CpuId)
    (result : Result PlatformError (Unit {0}))
    → 0 < s.next_action
    → issue s action ≡ (s', ok i)
    → ((d : Completion × Event) × ((complete (run s' cs) i cpu result).1 ≡ ok d)) ↔ (
        (is_offline (run s' cs) cpu ≡ false)
        × (admit (run s' cs) cpu (completion_kind action result) ≡ ok tt)
        × ((run s' cs).next_event + 1 < u64_mod))
unfolding complete ingress issue
complete-issue_iff s s' action i cs cpu result pos h =
    let id_is : i.id ≡ s.next_action = ground arith in
    let action_is : i.action ≡ action = ground arith in
    let counted : s'.next_action ≡ s.next_action + 1 = ground arith in
    let more = (run-more s' cs).1 in
    let kind = ap (λ a. completion_kind a result) action_is in
    (
      λ (d, q). (ground arith, ground arith, ground arith),
      λ (on, admitted, room). (
        (
          record { action = i.id; event = (run s' cs).next_event; result = result },
          record {
            cpu = cpu;
            id = (run s' cs).next_event;
            correlation = some i.id;
            kind = completion_kind i.action result;
          },
        ),
        ground arith,
      ),
    )
