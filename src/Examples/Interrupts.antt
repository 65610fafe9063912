-- ===== src/Examples/Interrupts.antt =====
-- Interrupts saved and restored on one CPU while another is added (kernel/src/irq.rs).
use bulla.Prelude.{refl, true, false, some, List, arith, ok, ◌≡◌, ◌≢◌, [], ◌∷◌}
use bulla.Prelude.Map.{get, insert, nat_key}
use bulla.Capability.{Capability, CapabilityKind}
use bulla.Irq.{
  IrqController, IrqStateToken, new_controller, add_cpu, save_disable, restore, require,
  interrupts_enabled,
}
use bulla.Irq.Calls.{Call, adds, saves, after, run}
use bulla.Irq.Tokens.{restore-save_disable, restore_once}

abbrev local : Capability
local = record {
  kind = CapabilityKind.cpu_local;
  slot = 3;
  owner = 1;
  rights = 32;
  generation = 0;
  base = 0;
  len = 1;
}

abbrev one_cpu : IrqController
one_cpu = run new_controller (adds 0 ∷ [])

abbrev token : IrqStateToken
token = record { cpu = 0; generation = 1; was_enabled = true }

abbrev saved : IrqController
saved = (save_disable one_cpu 0 local).0

abbrev meanwhile : List Call
meanwhile = adds 1 ∷ saves 1 local ∷ []

restore-save_disable_example :
    (interrupts_enabled (run saved meanwhile) 0 ≡ some false)
    × ((restore (run saved meanwhile) 0 local token).1 ≡ ok tt)
    × (interrupts_enabled (restore (run saved meanwhile) 0 local token).0 0
        ≡ interrupts_enabled one_cpu 0)
unfolding run after add_cpu save_disable require get insert
restore-save_disable_example =
    restore-save_disable one_cpu saved 0 local token meanwhile refl
      ((λ e. omega (arith, e)), (tt, tt))

abbrev restored_once : IrqController
restored_once = (restore saved 0 local token).0

restore_once_example : (restore (run restored_once meanwhile) 0 local token).1 ≢ ok tt
unfolding run after add_cpu save_disable restore require get insert
restore_once_example =
    restore_once saved restored_once 0 local local token meanwhile refl
      ((λ e. omega (arith, e)), (tt, tt))
