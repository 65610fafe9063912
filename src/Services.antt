-- ===== src/Services.antt =====
-- kernel/src/services.rs: the clock, deadlines, entropy and the terminal state.
pub mod Calls
use bulla.Prelude.{
  ℕ, bit_xor, Bool, true, false, not, List, ltb, leb, Result, ok, refuse_if, ok_or, attempt,
  u64_mod, ◌*◌, ◌/◌, ◌%◌, ◌^◌, ◌||◌, [], ◌∷◌, ◌==◌, if◌then◌else◌, ◌>>=◌, ◌>>◌,
}
use bulla.Prelude.Lists.{length}
use bulla.Prelude.Map.{Map, get, insert, remove, nat_key}
use bulla.Capability.{Capability, CapabilityKind, Rights, kind_eq, contains, read, control}

pub record Instant : Type 0 where
  pub ticks : ℕ
  pub scale_numerator : ℕ
  pub scale_denominator : ℕ
  pub error_ticks : ℕ

pub data TerminalState : Type 0 where
  running reboot power_off halt : TerminalState

pub data ServiceError : Type 0 where
  wrong_capability missing_rights clock_went_backward invalid_scale deadline_in_past : ServiceError
  no_deadline entropy_unavailable buffer_too_large already_terminal : ServiceError

pub record PlatformServices : Type 0 where
  pub now : ℕ
  pub scale_numerator : ℕ
  pub scale_denominator : ℕ
  pub error_ticks : ℕ
  pub deadlines : Map ℕ ℕ
  pub entropy_state : ℕ
  pub entropy_healthy : Bool
  pub terminal : TerminalState

unfoldable pub require : Capability → CapabilityKind → Rights → Result ServiceError (Unit {0})
require c kind rights = do
  refuse_if (not (kind_eq c.kind kind)) wrong_capability
  refuse_if (not (contains c.rights rights)) missing_rights

unfoldable pub new_services : ℕ → ℕ → Result ServiceError PlatformServices
new_services scale_numerator scale_denominator = do
  refuse_if (scale_numerator == 0 || scale_denominator == 0) invalid_scale
  ok (record {
    now = 0;
    scale_numerator = scale_numerator;
    scale_denominator = scale_denominator;
    error_ticks = 0;
    deadlines = [];
    entropy_state = 0x6a09e667f3bcc909;
    entropy_healthy = true;
    terminal = running;
  })

unfoldable pub update_clock :
    PlatformServices → ℕ → ℕ → PlatformServices × Result ServiceError (Unit {0})
update_clock s ticks error_ticks =
    attempt (refuse_if (ltb ticks s.now) clock_went_backward) s
      λ _. (record s { now = ticks; error_ticks = error_ticks }, ok tt)

unfoldable pub read_clock : PlatformServices → Capability → Result ServiceError Instant
unfolding require
read_clock s c = do
  require c CapabilityKind.clock read
  ok (record {
    ticks = s.now;
    scale_numerator = s.scale_numerator;
    scale_denominator = s.scale_denominator;
    error_ticks = s.error_ticks;
  })

unfoldable pub arm_deadline :
    PlatformServices → Capability → ℕ → ℕ → PlatformServices × Result ServiceError (Unit {0})
unfolding require
arm_deadline s c cpu deadline = attempt (require c CapabilityKind.clock control) s λ _.
    attempt (refuse_if (leb deadline s.now) deadline_in_past) s
      λ _. (record s { deadlines = insert cpu deadline s.deadlines }, ok tt)

unfoldable pub cancel_deadline :
    PlatformServices → Capability → ℕ → PlatformServices × Result ServiceError ℕ
unfolding require
cancel_deadline s c cpu = attempt (require c CapabilityKind.clock control) s λ _.
    attempt (ok_or (get cpu s.deadlines) no_deadline) s
      λ deadline. (record s { deadlines = remove cpu s.deadlines }, ok deadline)

-- The filter of `due`, over the deadlines in the order of the CPUs.
unfoldable pub due_of : ℕ → Map ℕ ℕ → List ℕ
due_of now [] = []
due_of now ((cpu, deadline) ∷ deadlines) =
    let rest = due_of now deadlines in if leb deadline now then cpu ∷ rest else rest

unfoldable pub due : PlatformServices → List ℕ
unfolding due_of
due s = due_of s.now s.deadlines

abbrev pub set_entropy_health : PlatformServices → Bool → PlatformServices
set_entropy_health s healthy = record s { entropy_healthy = healthy }

-- One step of the generator, on 64 bits.
abbrev pub next_entropy : ℕ → ℕ
next_entropy x =
    let a = bit_xor x (x * 2 ^ 13 % u64_mod) in
    let b = bit_xor a (a / 2 ^ 7) in bit_xor b (b * 2 ^ 17 % u64_mod)

-- The loop over the buffer: the last state and the bytes written.
unfoldable pub fill : ℕ → List ℕ → ℕ × List ℕ
fill x [] = (x, [])
fill x (_ ∷ output) =
    let y = next_entropy x in let rest = fill y output in (rest.0, y % 256 ∷ rest.1)

-- The buffer is returned with the state.
unfoldable pub fill_entropy :
    PlatformServices → Capability → List ℕ → PlatformServices × Result ServiceError (List ℕ)
unfolding require fill
fill_entropy s c output = attempt (require c CapabilityKind.entropy read) s λ _.
    attempt (refuse_if (not s.entropy_healthy) entropy_unavailable) s λ _.
      attempt (refuse_if (ltb 4096 (length output)) buffer_too_large) s λ _.
        let filled = fill s.entropy_state output in
        (record s { entropy_state = filled.0 }, ok filled.1)

abbrev pub is_running : TerminalState → Bool
is_running running = true
is_running _ = false

unfoldable pub set_terminal :
    PlatformServices
    → Capability
    → TerminalState
    → PlatformServices × Result ServiceError (Unit {0})
unfolding require
set_terminal s c state = attempt (require c CapabilityKind.power control) s λ _.
    attempt (refuse_if (not (is_running s.terminal) || is_running state) already_terminal) s
      λ _. (record s { terminal = state }, ok tt)
