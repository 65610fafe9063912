-- ===== src/Smp/Lifecycle.antt =====
-- The CPU lifecycle as a step relation, and the snapshot of online CPUs (kernel/src/smp.rs).
use bulla.Prelude.{
  ℕ, suc, refl, true, false, some, List, arith, Bool-cases, Option-cases, ok, err, inl, inr, ◌≡◌,
  ◌≢◌, ◌↔◌, [], ◌∷◌,
}
use bulla.Prelude.Map.{Map, get, get-insert, nat_key}
use bulla.Prelude.Ordered.{KeysAbove, get_below}
use bulla.Prelude.NatSet.{member, member-add}
use bulla.Smp.{
  CpuId, CpuFailure, CpuLifecycle, SmpState, from_ids, discover, transition, online, online_ids,
  discovered, prepared, starting, online_state, failed, legal, begin_ipi, acknowledge_ipi,
  begin_shootdown, acknowledge_shootdown, complete_shootdown, duplicate_cpu,
}
use bulla.Smp.Calls.{Call, discovers, transitions, after, run, IsSound, after-IsSound}

-- The allowed lifecycle steps.
pub data Edge : CpuLifecycle → CpuLifecycle → Type 0 where
  prepare : Edge discovered prepared
  start : Edge prepared starting
  arrive : Edge starting online_state
  fail_prepared : (f : CpuFailure) → Edge prepared (failed f)
  fail_starting : (f : CpuFailure) → Edge starting (failed f)

legal→Edge : (a b : CpuLifecycle) → legal a b ≡ true → Edge a b
unfolding legal
legal→Edge discovered prepared h = prepare
legal→Edge prepared starting h = start
legal→Edge starting online_state h = arrive
legal→Edge prepared (failed f) h = fail_prepared f
legal→Edge starting (failed f) h = fail_starting f
legal→Edge _ _ h = cc

Edge→legal : {a b : CpuLifecycle} → Edge a b → legal a b ≡ true
unfolding legal
Edge→legal prepare = refl
Edge→legal start = refl
Edge→legal arrive = refl
Edge→legal (fail_prepared f) = refl
Edge→legal (fail_starting f) = refl

-- A transition succeeds exactly along an edge of the lifecycle from the CPU's present state.
pub transition_iff :
    (s : SmpState) (cpu : CpuId) (next : CpuLifecycle)
    → ((transition s cpu next).1 ≡ ok tt)
      ↔ ((current : CpuLifecycle) × (get cpu s.cpus ≡ some current) × Edge current next)
unfolding transition
transition_iff s cpu next = (
  λ h. elim (Option-cases (get cpu s.cpus)) [
    | inl unknown ↦ absurd (ground arith)
    | inr (current, known) ↦ (current, known, legal→Edge current next (ground arith))
  ],
  λ (current, known, edge). let allowed = Edge→legal edge in ground arith,
)

-- No edge leaves the online state.
online_final : (next : CpuLifecycle) → legal online_state next ≡ false
unfolding legal
online_final discovered = refl
online_final _ = refl

-- The call is no discovery of this CPU.
abbrev pub Spares : CpuId → Call → Type 0
Spares cpu (discovers c) = c ≢ cpu
Spares cpu _ = Unit

abbrev pub AllSpare : CpuId → List Call → Type 0
AllSpare cpu [] = Unit
AllSpare cpu (c ∷ cs) = Spares cpu c × AllSpare cpu cs

after_online :
    (s : SmpState) (cpu : CpuId) (c : Call)
    → Spares cpu c
    → get cpu s.cpus ≡ some online_state
    → get cpu (after s c).cpus ≡ some online_state
unfolding after discover transition begin_ipi acknowledge_ipi begin_shootdown acknowledge_shootdown
    complete_shootdown
after_online s cpu (discovers c) h on = ground (arith, get-insert c cpu discovered s.cpus)
after_online s cpu (transitions c next) h on =
    ground (arith, online_final next, get-insert c cpu next s.cpus)
after_online s cpu _ h on = ground arith

-- A CPU that is online stays online through any calls, but for a repeated discovery of that CPU.
pub run_online :
    (s : SmpState) (cpu : CpuId) (cs : List Call)
    → AllSpare cpu cs
    → get cpu s.cpus ≡ some online_state
    → get cpu (run s cs).cpus ≡ some online_state
unfolding run
run_online s cpu [] h on = on
run_online s cpu (c ∷ cs) h on = run_online (after s c) cpu cs h.1 (after_online s cpu c h.0 on)

online_ids-member :
    (b : ℕ) (m : Map ℕ CpuLifecycle) (cpu : CpuId)
    → KeysAbove b m
    → (member cpu (from_ids (online_ids m)) ≡ true) ↔ (get cpu m ≡ some online_state)
unfolding online_ids from_ids member get
online_ids-member b [] cpu a = (λ h. cc, λ h. cc)
online_ids-member b ((j, online_state) ∷ m) cpu a = (
  λ h.
      ground
        (arith, member-add j cpu (from_ids (online_ids m)), online_ids-member (suc j) m cpu a.1),
  λ h.
      ground
        (arith, member-add j cpu (from_ids (online_ids m)), online_ids-member (suc j) m cpu a.1),
)
online_ids-member b ((j, state) ∷ m) cpu a = (
  λ h. ground (arith, online_ids-member (suc j) m cpu a.1, get_below (suc j) cpu m a.1),
  λ h. ground (arith, online_ids-member (suc j) m cpu a.1),
)

-- The snapshot of online CPUs holds exactly the CPUs whose state is online.
pub online_iff :
    (s : SmpState) (cpu : CpuId)
    → IsSound s
    → (member cpu (online s) ≡ true) ↔ (get cpu s.cpus ≡ some online_state)
online_iff s cpu inv = online_ids-member 0 s.cpus cpu inv.cpus_ordered

-- A discovery that is refused as a duplicate has taken the CPU out of the online set all the same.
pub discover_drops :
    (s : SmpState) (cpu : CpuId)
    → IsSound s
    → (discover s cpu).1 ≡ err duplicate_cpu
    → member cpu (online (discover s cpu).0) ≡ false
unfolding discover after
discover_drops s cpu inv h = elim (Bool-cases (member cpu (online (discover s cpu).0))) [
  | inl on ↦
      let there = (online_iff (discover s cpu).0 cpu (after-IsSound s inv (discovers cpu))).0 on in
      ground (arith, get-insert cpu cpu discovered s.cpus)
  | inr off ↦ off
]
