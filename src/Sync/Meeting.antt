-- ===== src/Sync/Meeting.antt =====
-- The barrier opens exactly when every participant has arrived (kernel/src/sync.rs).
use bulla.Prelude.{
  ℕ, refl, ap, true, false, List, arith, ltb, ==_iff, Bool-cases, ok, err, is_ok, u64_mod, inl, inr,
  ◌+◌, ◌<◌, ◌≡◌, ◌↔◌, ◌⊎◌, [], ◌∷◌, ◌==◌, if◌then◌else◌,
}
use bulla.Prelude.Lists.{length}
use bulla.Prelude.NatSet.{
  eq_of_subset, IsAscending, IsSubset, member, add, member-add, add-IsAscending,
  eq_of_subset-length,
}
use bulla.Smp.{CpuId}
use bulla.Sync.{
  SyncError, stale_generation, foreign_participant, duplicate_participant, Barrier, arrive, advance,
}

pub record IsSound (b : Barrier) : Type 0 where
  pub participants_ascend : IsAscending b.participants
  pub arrived_ascend : IsAscending b.arrived
  pub invited : IsSubset b.arrived b.participants

-- Every participant has arrived.
abbrev pub IsFull : Barrier → Type 0
IsFull b = IsSubset b.participants b.arrived

pub IsFull-iff :
    (b : Barrier) → IsSound b → ((length b.arrived == length b.participants) ≡ true) ↔ IsFull b
IsFull-iff b v = (
  λ h k m.
      rw
        (eq_of_subset-length b.arrived b.participants v.arrived_ascend v.participants_ascend
          v.invited ((==_iff _ _).0 h))
        m,
  λ h. (==_iff _ _).1 (
      ap length
        (eq_of_subset b.arrived b.participants v.arrived_ascend v.participants_ascend v.invited h)),
)

pub data Call : Type 0 where
  arrives : CpuId → ℕ → Call
  advances : Call

unfoldable pub after : Barrier → Call → Barrier
after b (arrives cpu generation) = (arrive b cpu generation).0
after b advances = (advance b).0

unfoldable pub run : Barrier → List Call → Barrier
run b [] = b
run b (c ∷ cs) = run (after b c) cs

after-IsSound : (b : Barrier) (c : Call) → IsSound b → IsSound (after b c)
unfolding after arrive advance member
after-IsSound b (arrives cpu generation) v = record {
  participants_ascend = ground arith;
  arrived_ascend = ground (arith, add-IsAscending cpu b.arrived v.arrived_ascend);
  invited = λ k m. ground (arith, v.invited k, member-add cpu k b.arrived);
}
after-IsSound b advances v = record {
  participants_ascend = ground arith;
  arrived_ascend = ground arith;
  invited = λ k m. ground (arith, v.invited k);
}

-- Any calls keep the barrier sound: only participants have arrived, each counted once.
pub run-IsSound_barrier : (b : Barrier) (cs : List Call) → IsSound b → IsSound (run b cs)
unfolding run
run-IsSound_barrier b [] v = v
run-IsSound_barrier b (c ∷ cs) v = run-IsSound_barrier (after b c) cs (after-IsSound b c v)

arrived-IsSound :
    (b : Barrier) (cpu : CpuId)
    → IsSound b
    → member cpu b.participants ≡ true
    → IsSound (record b { arrived = add cpu b.arrived })
arrived-IsSound b cpu v t = record {
  participants_ascend = v.participants_ascend;
  arrived_ascend = add-IsAscending cpu b.arrived v.arrived_ascend;
  invited = λ k m. ground (arith, v.invited k, member-add cpu k b.arrived, t, m);
}

advance-IsFull :
    (b : Barrier)
    → IsSound b
    → (is_ok (advance b).1 ≡ true) ↔ (IsFull b × (b.generation + 1 < u64_mod))
unfolding advance
advance-IsFull b v = (
  λ h. ((IsFull-iff b v).0 (ground (arith, h)), ground (arith, h)),
  λ h. let e = (IsFull-iff b v).1 h.0 in let room = h.1 in ground (arith, e, room),
)

advance-state :
    (b : Barrier)
    → advance b ≡ (
        if is_ok (advance b).1
        then (record b { generation = b.generation + 1; arrived = [] }, ok (b.generation + 1))
        else (b, (advance b).1))
unfolding advance
advance-state b = elim (Bool-cases (length b.arrived == length b.participants)) [
  | inr e ↦ rw (advance, e) refl
  | inl e ↦ elim (Bool-cases (ltb (b.generation + 1) u64_mod)) [
    | inl g ↦ rw (advance, e, g) refl
    | inr g ↦ rw (advance, e, g) refl
  ]
]

arrive_iff :
    (b : Barrier) (cpu : CpuId) (generation : ℕ)
    → (is_ok (arrive b cpu generation).1 ≡ true) ↔ (
        (generation ≡ b.generation)
        × (member cpu b.participants ≡ true)
        × (member cpu b.arrived ≡ false))
unfolding arrive
arrive_iff b cpu generation = (
  λ h. ground (arith, h, (==_iff generation b.generation).0),
  λ h. ground (arith, h, (==_iff generation b.generation).1),
)

-- An arrival is refused, or it is a participant's and is added.
arrive_cases :
    (b : Barrier) (cpu : CpuId) (generation : ℕ)
    → ((member cpu b.participants ≡ true)
        × (arrive b cpu generation ≡ (
          record b { arrived = add cpu b.arrived },
          ok (length (add cpu b.arrived) == length b.participants),
        )))
      ⊎ ((e : SyncError) × (arrive b cpu generation ≡ (b, err e)))
unfolding arrive
arrive_cases b cpu generation = elim (Bool-cases (generation == b.generation)) [
  | inr e ↦ inr (stale_generation, rw (arrive, e) refl)
  | inl e ↦ elim (Bool-cases (member cpu b.participants)) [
    | inr f ↦ inr (foreign_participant, rw (arrive, e, f) refl)
    | inl f ↦ elim (Bool-cases (member cpu b.arrived)) [
      | inl g ↦ inr (duplicate_participant, rw (arrive, e, f, g) refl)
      | inr g ↦ inl (f, rw (arrive, e, f, g) refl)
    ]
  ]
]

arrive-state :
    (b : Barrier) (cpu : CpuId) (generation : ℕ)
    → (arrive b cpu generation).0
      ≡ (if is_ok (arrive b cpu generation).1 then record b { arrived = add cpu b.arrived } else b)
arrive-state b cpu generation = elim (arrive_cases b cpu generation) [
  | inl (_, e) ↦ rw e refl
  | inr (_, e) ↦ rw e refl
]

arrive-last :
    (b : Barrier) (cpu : CpuId) (generation : ℕ)
    → IsSound b
    → let a = arrive b cpu generation in (a.1 ≡ ok true) ↔ ((is_ok a.1 ≡ true) × IsFull a.0)
arrive-last b cpu generation v = elim (arrive_cases b cpu generation) [
  | inl (t, e) ↦
      let full =
        IsFull-iff (record b { arrived = add cpu b.arrived }) (arrived-IsSound b cpu v t) in
      rw e ((λ h. (refl, full.0 (ground (arith, h))), λ h. ap ok (full.1 h.1)))
  | inr (x, e) ↦ rw e ((λ h. absurd (ground (arith, h)), λ h. absurd (ground (arith, h.0))))
]

-- An arrival is accepted exactly for the barrier's generation, from a participant that has not
-- arrived, and is then added to those that have; its answer is true exactly when with it every
-- participant has arrived. The barrier advances exactly when every participant has arrived and the
-- generation can be counted: it then goes to the next generation, returns it, and forgets who has
-- arrived. A refused arrival or advance changes nothing.
pub barrier_opens :
    (b : Barrier) (cpu : CpuId) (generation : ℕ)
    → IsSound b
    → let a = arrive b cpu generation in
      let o = advance b in
      ((is_ok a.1 ≡ true) ↔ (
        (generation ≡ b.generation)
        × (member cpu b.participants ≡ true)
        × (member cpu b.arrived ≡ false)))
      × (a.0 ≡ (if is_ok a.1 then record b { arrived = add cpu b.arrived } else b))
      × ((a.1 ≡ ok true) ↔ ((is_ok a.1 ≡ true) × IsFull a.0))
      × ((is_ok o.1 ≡ true) ↔ (IsFull b × (b.generation + 1 < u64_mod)))
      × (o ≡ (
          if is_ok o.1
          then (record b { generation = b.generation + 1; arrived = [] }, ok (b.generation + 1))
          else (b, o.1)))
barrier_opens b cpu generation v = (
  arrive_iff b cpu generation,
  arrive-state b cpu generation,
  arrive-last b cpu generation v,
  advance-IsFull b v,
  advance-state b,
)
