-- ===== src/Irq/Calls.antt =====
-- The calls of the interrupt controller in sequence, and what they leave of a saved state
-- (kernel/src/irq.rs).
use bulla.Prelude.{
  ℕ, Bool, true, false, some, List, arith, Option-cases, ok, inl, inr, ◌+◌, ◌≡◌, ◌≢◌, ◌⊎◌, [], ◌∷◌,
}
use bulla.Prelude.Map.{get, get-insert, nat_key}
use bulla.Capability.{Capability, CapabilityKind, control}
use bulla.Smp.{CpuId}
use bulla.Irq.{
  IrqController, IrqStateToken, LocalIrqState, service_key, require, fresh_local, add_cpu,
  save_disable, restore, route, set_masked, deliver, end_of_interrupt, interrupts_enabled,
}

pub data Call : Type 0 where
  adds : CpuId → Call
  saves : CpuId → Capability → Call
  restores : CpuId → Capability → IrqStateToken → Call
  routes_to : Capability → ℕ → CpuId → Call
  masks : ℕ → Bool → Call
  delivers : ℕ → Call
  ends : CpuId → ℕ → Call

unfoldable pub after : IrqController → Call → IrqController
after s (adds cpu) = (add_cpu s cpu).0
after s (saves cpu c) = (save_disable s cpu c).0
after s (restores cpu c t) = (restore s cpu c t).0
after s (routes_to c v cpu) = (route s c v cpu).0
after s (masks v b) = (set_masked s v b).0
after s (delivers v) = (deliver s v).0
after s (ends cpu v) = (end_of_interrupt s cpu v).0

unfoldable pub run : IrqController → List Call → IrqController
run s [] = s
run s (c ∷ cs) = run (after s c) cs

-- The call does not add this CPU again.
abbrev pub Keeps : CpuId → Call → Type 0
Keeps cpu (adds c) = c ≢ cpu
Keeps cpu _ = Unit

-- Nor does it restore this CPU with the generation given.
abbrev pub Leaves : CpuId → ℕ → Call → Type 0
Leaves cpu g (adds c) = c ≢ cpu
Leaves cpu g (restores c _ t) = (c ≢ cpu) ⊎ (t.generation ≢ g)
Leaves cpu g _ = Unit

abbrev pub All {κ} : (Call → Type κ) → List Call → Type κ
All P [] = Unit
All P (c ∷ cs) = P c × All P cs

-- Interrupts are off and the token of this generation is out.
abbrev pub Held : IrqController → CpuId → ℕ → Type 0
Held s cpu g =
    get cpu s.locals ≡ some (record { enabled = false; generation = g; outstanding = true })

abbrev pub saved_local : LocalIrqState → LocalIrqState
saved_local st = record { enabled = false; generation = st.generation + 1; outstanding = true }

abbrev pub restored_local : LocalIrqState → IrqStateToken → LocalIrqState
restored_local st t = record {
  enabled = t.was_enabled;
  generation = st.generation;
  outstanding = false;
}

saves-Held :
    (s : IrqController) (cpu c : CpuId) (g : ℕ) (k : Capability)
    → Held s cpu g
    → Held (save_disable s c k).0 cpu g
unfolding save_disable
saves-Held s cpu c g k held = elim (Option-cases (get c s.locals)) [
  | inl missing ↦ ground arith
  | inr (st, found) ↦ ground (arith, get-insert c cpu (saved_local st) s.locals)
]

restores-Held :
    (s : IrqController) (cpu c : CpuId) (g : ℕ) (k : Capability) (t : IrqStateToken)
    → (c ≢ cpu) ⊎ (t.generation ≢ g)
    → Held s cpu g
    → Held (restore s c k t).0 cpu g
unfolding restore
restores-Held s cpu c g k t h held = elim (Option-cases (get c s.locals)) [
  | inl missing ↦ ground arith
  | inr (st, found) ↦ ground (arith, get-insert c cpu (restored_local st t) s.locals)
]

after-Held :
    (s : IrqController) (cpu : CpuId) (g : ℕ) (c : Call)
    → Leaves cpu g c
    → Held s cpu g
    → Held (after s c) cpu g
unfolding after add_cpu route set_masked deliver end_of_interrupt
after-Held s cpu g (adds c) h held = ground (arith, get-insert c cpu fresh_local s.locals)
after-Held s cpu g (saves c k) h held = saves-Held s cpu c g k held
after-Held s cpu g (restores c k t) h held = restores-Held s cpu c g k t h held
after-Held s cpu g _ h held = ground arith

pub run-Held :
    (s : IrqController) (cpu : CpuId) (g : ℕ) (cs : List Call)
    → All (Leaves cpu g) cs
    → Held s cpu g
    → Held (run s cs) cpu g
unfolding run
run-Held s cpu g [] h held = held
run-Held s cpu g (c ∷ cs) h held = run-Held (after s c) cpu g cs h.1 (after-Held s cpu g c h.0 held)

pub saved :
    (s s' : IrqController) (cpu : CpuId) (c : Capability) (t : IrqStateToken)
    → save_disable s cpu c ≡ (s', ok t)
    → (interrupts_enabled s cpu ≡ some t.was_enabled)
      × (t.cpu ≡ cpu)
      × Held s' cpu t.generation
      × (require c CapabilityKind.cpu_local control ≡ ok tt)
unfolding save_disable
saved s s' cpu c t h = elim (Option-cases (get cpu s.locals)) [
  | inl missing ↦ absurd (ground arith)
  | inr (st, found) ↦
      let wrote = get-insert cpu cpu (saved_local st) s.locals in
      (ground arith, ground arith, ground (arith, wrote), ground arith)
]
