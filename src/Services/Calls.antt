-- ===== src/Services/Calls.antt =====
-- The services over any calls (kernel/src/services.rs).
use bulla.Prelude.{ℕ, suc, refl, ap, Bool, false, List, arith, ◌≤◌, ◌≡◌, ◌∙◌, [], ◌∷◌}
use bulla.Prelude.Lists.{length}
use bulla.Capability.{Capability}
use bulla.Services.{
  PlatformServices, TerminalState, update_clock, arm_deadline, cancel_deadline, set_entropy_health,
  next_entropy, fill, fill_entropy, is_running, set_terminal, require,
}

pub data Call : Type 0 where
  updates_clock : ℕ → ℕ → Call
  arms cancels : Capability → ℕ → ℕ → Call
  sets_health : Bool → Call
  fills : Capability → List ℕ → Call
  ends : Capability → TerminalState → Call

-- The services after a call, whether it succeeded or not; a cancellation does not read its last
-- argument.
unfoldable pub after : PlatformServices → Call → PlatformServices
after s (updates_clock ticks error_ticks) = (update_clock s ticks error_ticks).0
after s (arms c cpu deadline) = (arm_deadline s c cpu deadline).0
after s (cancels c cpu _) = (cancel_deadline s c cpu).0
after s (sets_health healthy) = set_entropy_health s healthy
after s (fills c output) = (fill_entropy s c output).0
after s (ends c state) = (set_terminal s c state).0

unfoldable pub run : PlatformServices → List Call → PlatformServices
run s [] = s
run s (c ∷ cs) = run (after s c) cs

record Later (s t : PlatformServices) : Type 0 where
  clock : s.now ≤ t.now
  final : is_running s.terminal ≡ false → t.terminal ≡ s.terminal

after-Later : (s : PlatformServices) (c : Call) → Later s (after s c)
unfolding after update_clock arm_deadline cancel_deadline fill_entropy set_terminal require
after-Later s (updates_clock t e) = record { clock = ground arith; final = λ h. ground arith }
after-Later s (arms c cpu d) = record { clock = ground arith; final = λ h. ground arith }
after-Later s (cancels c cpu d) = record { clock = ground arith; final = λ h. ground arith }
after-Later s (sets_health b) = record { clock = omega arith; final = λ h. refl }
after-Later s (fills c output) = record { clock = ground arith; final = λ h. ground arith }
after-Later s (ends c state) = record { clock = ground arith; final = λ h. ground (arith, h) }

run-Later : (cs : List Call) (s : PlatformServices) → Later s (run s cs)
unfolding run
run-Later [] s = record { clock = omega arith; final = λ h. refl }
run-Later (c ∷ cs) s =
    let a = after-Later s c in
    let b = run-Later cs (after s c) in
    record {
      clock = omega (arith, a.clock, b.clock);
      final = λ h. b.final (ap is_running (a.final h) ∙ h) ∙ a.final h;
    }

-- Over any calls of the services the clock never goes back, and a terminal state once set stays.
pub run_forward :
    (cs : List Call) (s : PlatformServices)
    → is_running s.terminal ≡ false
    → (s.now ≤ (run s cs).now) × ((run s cs).terminal ≡ s.terminal)
run_forward cs s h = let l = run-Later cs s in (l.clock, l.final h)

-- The generator writes one byte for each place of the buffer.
pub fill-length : (output : List ℕ) (x : ℕ) → length (fill x output).1 ≡ length output
unfolding fill
fill-length [] x = refl
fill-length (_ ∷ output) x = ap suc (fill-length output (next_entropy x))
