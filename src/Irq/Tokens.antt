-- ===== src/Irq/Tokens.antt =====
-- Interrupt state tokens: one restore for each save, and the flag comes back (kernel/src/irq.rs).
use bulla.Prelude.{
  ℕ, true, false, some, List, arith, Bool-cases, Option-cases, ok, err, Result-cases, inl, inr, ◌<◌,
  ◌≡◌, ◌≢◌, ◌⊎◌, [], ◌∷◌, ◌==◌,
}
use bulla.Prelude.Map.{get, get-insert, nat_key}
use bulla.Capability.{Capability}
use bulla.Smp.{CpuId}
use bulla.Irq.{
  IrqController, IrqStateToken, LocalIrqState, service_key, fresh_local, add_cpu, save_disable,
  restore, route, set_masked, deliver, end_of_interrupt, interrupts_enabled, unknown_cpu,
}
use bulla.Irq.Calls.{
  Call, adds, saves, restores, after, run, Keeps, Leaves, All, saved_local, restored_local,
  run-Held, saved,
}

-- Interrupts that a CPU has saved and disabled stay off through any calls that neither add the CPU
-- again nor restore it with that token's generation, and restoring the token then succeeds and
-- brings back the flag that was saved.
pub restore-save_disable :
    (s s' : IrqController) (cpu : CpuId) (c : Capability) (t : IrqStateToken) (cs : List Call)
    → save_disable s cpu c ≡ (s', ok t)
    → All (Leaves cpu t.generation) cs
    → (interrupts_enabled (run s' cs) cpu ≡ some false)
      × ((restore (run s' cs) cpu c t).1 ≡ ok tt)
      × (interrupts_enabled (restore (run s' cs) cpu c t).0 cpu ≡ interrupts_enabled s cpu)
unfolding restore
restore-save_disable s s' cpu c t cs h quiet =
    let (was, owner, held, allowed) = saved s s' cpu c t h in
    let here = run-Held s' cpu t.generation cs quiet held in
    let st : LocalIrqState = record {
      enabled = false;
      generation = t.generation;
      outstanding = true;
    } in
    let wrote = get-insert cpu cpu (restored_local st t) (run s' cs).locals in
    (ground arith, ground arith, ground (arith, wrote))

-- The token's save is over: restored, or overtaken by a later save.
abbrev Over : IrqController → CpuId → ℕ → Type 0
Over s cpu g =
    (st : LocalIrqState) × (get cpu s.locals ≡ some st)
    × ((g < st.generation) ⊎ ((g ≡ st.generation) × (st.outstanding ≡ false)))

saves-Over :
    (s : IrqController) (cpu c : CpuId) (g : ℕ) (k : Capability)
    → Over s cpu g
    → Over (save_disable s c k).0 cpu g
unfolding save_disable
saves-Over s cpu c g k (st, found, h) = elim (Result-cases (save_disable s c k).1) [
  | inl (t, e) ↦ elim (Bool-cases (c == cpu)) [
    | inl same ↦
        (saved_local st, ground (arith, get-insert c cpu (saved_local st) s.locals), ground arith)
    | inr other ↦ elim (Option-cases (get c s.locals)) [
      | inl missing ↦ absurd (ground arith)
      | inr (su, there) ↦ (st, ground (arith, get-insert c cpu (saved_local su) s.locals), h)
    ]
  ]
  | inr (x, e) ↦ (st, ground arith, h)
]

restores-Over :
    (s : IrqController) (cpu c : CpuId) (g : ℕ) (k : Capability) (t : IrqStateToken)
    → Over s cpu g
    → Over (restore s c k t).0 cpu g
unfolding restore
restores-Over s cpu c g k t (st, found, h) = elim (Result-cases (restore s c k t).1) [
  | inl (_, e) ↦ elim (Bool-cases (c == cpu)) [
    | inl same ↦ (
      restored_local st t,
      ground (arith, get-insert c cpu (restored_local st t) s.locals),
      ground arith,
    )
    | inr other ↦ elim (Option-cases (get c s.locals)) [
      | inl missing ↦ absurd (ground arith)
      | inr (su, there) ↦ (st, ground (arith, get-insert c cpu (restored_local su t) s.locals), h)
    ]
  ]
  | inr (x, e) ↦ (st, ground arith, h)
]

after-Over :
    (s : IrqController) (cpu : CpuId) (g : ℕ) (c : Call)
    → Keeps cpu c
    → Over s cpu g
    → Over (after s c) cpu g
unfolding after add_cpu route set_masked deliver end_of_interrupt
after-Over s cpu g (adds c) h (st, found, o) =
    (st, ground (arith, get-insert c cpu fresh_local s.locals), o)
after-Over s cpu g (saves c k) h o = saves-Over s cpu c g k o
after-Over s cpu g (restores c k t) h o = restores-Over s cpu c g k t o
after-Over s cpu g _ h (st, found, o) = (st, ground arith, o)

run-Over :
    (s : IrqController) (cpu : CpuId) (g : ℕ) (cs : List Call)
    → All (Keeps cpu) cs
    → Over s cpu g
    → Over (run s cs) cpu g
unfolding run
run-Over s cpu g [] h o = o
run-Over s cpu g (c ∷ cs) h o = run-Over (after s c) cpu g cs h.1 (after-Over s cpu g c h.0 o)

restored :
    (s s' : IrqController) (cpu : CpuId) (c : Capability) (t : IrqStateToken)
    → restore s cpu c t ≡ (s', ok tt)
    → Over s' cpu t.generation
unfolding restore
restored s s' cpu c t h = elim (Option-cases (get cpu s.locals)) [
  | inl missing ↦ absurd (ground arith)
  | inr (st, found) ↦ (
    restored_local st t,
    ground (arith, get-insert cpu cpu (restored_local st t) s.locals),
    ground arith,
  )
]

-- A token that was restored is never accepted again, through any calls but a repeated addition of
-- its CPU.
pub restore_once :
    (s s' : IrqController) (cpu : CpuId) (c d : Capability) (t : IrqStateToken) (cs : List Call)
    → restore s cpu c t ≡ (s', ok tt)
    → All (Keeps cpu) cs
    → (restore (run s' cs) cpu d t).1 ≢ ok tt
unfolding restore
restore_once s s' cpu c d t cs h quiet again =
    let (st, found, o) = run-Over s' cpu t.generation cs quiet (restored s s' cpu c t h) in
    ground arith

-- Adding a CPU that is already there is refused, and has enabled its interrupts all the same.
pub add_cpu_enables :
    (s : IrqController) (cpu : CpuId)
    → (add_cpu s cpu).1 ≡ err unknown_cpu
    → interrupts_enabled (add_cpu s cpu).0 cpu ≡ some true
unfolding add_cpu
add_cpu_enables s cpu h = ground (arith, get-insert cpu cpu fresh_local s.locals)
