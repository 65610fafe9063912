-- ===== src/Context/Calls.antt =====
-- Contexts over sequences of calls: what a new one is, one entry per generation, and frames that
-- resume once (kernel/src/context.rs).
use bulla.Prelude.{
  ℕ, bit_and, refl, sym, true, false, List, arith, ==_iff, ==_refl, ok, is_ok, u64_mod, ◌+◌, ◌%◌,
  ◌^◌, ◌≤◌, ◌<◌, ◌≡◌, ◌∙◌, ◌↔◌, [], ◌∷◌,
}
use bulla.Prelude.Powers.{low_mask}
use bulla.Capability.{Capability, CapabilityKind, kind_eq, contains, control}
use bulla.Memory.Copies.{is_canonical_iff}
use bulla.Context.{
  TrapOrigin, Registers, UserContext, TrapFrame, require, create, enter, trap, resume, terminate,
}

bit_and-sixteen : (a : ℕ) → (bit_and a 15 ≡ 0) ↔ (a % 16 ≡ 0)
bit_and-sixteen a = (λ t. sym (low_mask 4 a) ∙ t, λ t. low_mask 4 a ∙ t)

-- A context is created exactly from a context capability with the control right, for an entry
-- point and a stack in the lower half of the address space, the stack aligned to sixteen bytes.
pub create_iff :
    (c : Capability) (id space ip sp : ℕ)
    → ip < u64_mod
    → sp < u64_mod
    → (is_ok (create c id space ip sp) ≡ true) ↔ (
        (kind_eq c.kind CapabilityKind.user_context ≡ true)
        × (contains c.rights control ≡ true)
        × (ip < 2 ^ 47)
        × (sp < 2 ^ 47)
        × (sp % 16 ≡ 0))
unfolding create require
create_iff c id space ip sp p q = (
  λ t. ground (
    arith,
    t,
    (is_canonical_iff ip p).0,
    (is_canonical_iff sp q).0,
    (bit_and-sixteen sp).0,
    (==_iff (bit_and sp 15) 0).0,
  ),
  λ t. ground (
    arith,
    t,
    (is_canonical_iff ip p).1,
    (is_canonical_iff sp q).1,
    (bit_and-sixteen sp).1,
    (==_iff (bit_and sp 15) 0).1,
  ),
)

pub data Call : Type 0 where
  enters : Capability → Call
  traps : Capability → TrapOrigin → Registers → Call
  resumes : Capability → TrapFrame → ℕ → Call
  terminates : Call

-- The context after a call, whether it succeeded or not.
unfoldable pub after : UserContext → Call → UserContext
after x (enters c) = (enter x c).0
after x (traps c origin registers) = (trap x c origin registers).0
after x (resumes c frame result) = (resume x c frame result).0
after x terminates = terminate x

unfoldable pub run : UserContext → List Call → UserContext
run x [] = x
run x (c ∷ cs) = run (after x c) cs

after_ascends : (x : UserContext) (c : Call) → x.generation ≤ (after x c).generation
unfolding after enter trap resume terminate require
after_ascends x (enters c) = ground arith
after_ascends x (traps c origin registers) = ground arith
after_ascends x (resumes c frame result) = ground arith
after_ascends x terminates = omega arith

run_ascends : (cs : List Call) (x : UserContext) → x.generation ≤ (run x cs).generation
unfolding run
run_ascends [] x = omega arith
run_ascends (c ∷ cs) x = omega (arith, after_ascends x c, run_ascends cs (after x c))

-- The context cannot run in the generation `g`, nor in one before it.
record Spent (g : ℕ) (x : UserContext) : Type 0 where
  reached : g ≤ x.generation
  parked : x.generation ≡ g → x.runnable ≡ false

after-Spent : (g : ℕ) (x : UserContext) (c : Call) → Spent g x → Spent g (after x c)
unfolding after enter trap resume terminate require
after-Spent g x (enters c) w = record {
  reached = ground (arith, w.reached);
  parked = λ t. ground (arith, t, w.reached, w.parked);
}
after-Spent g x (traps c origin registers) w = record {
  reached = ground (arith, w.reached);
  parked = λ t. ground (arith, t, w.reached, w.parked);
}
after-Spent g x (resumes c frame result) w = record {
  reached = ground (arith, w.reached);
  parked = λ t. ground (arith, t, w.reached, w.parked);
}
after-Spent g x terminates w = record { reached = w.reached; parked = λ t. refl }

run-Spent : (g : ℕ) (cs : List Call) (x : UserContext) → Spent g x → Spent g (run x cs)
unfolding run
run-Spent g [] x w = w
run-Spent g (c ∷ cs) x w = run-Spent g cs (after x c) (after-Spent g x c w)

-- Between two successful entries of a context, whatever calls were made, its generation has grown:
-- no two entries hand out frames of one generation, so the context is inside at most once.
pub enter-once :
    (x : UserContext) (c : Capability) (y : UserContext) (f : TrapFrame) (cs : List Call)
    (d : Capability) (z : UserContext) (g : TrapFrame)
    → enter x c ≡ (y, ok f)
    → enter (run y cs) d ≡ (z, ok g)
    → f.generation < g.generation
unfolding enter require
enter-once x c y f cs d z g t u =
    let w : Spent f.generation y = record {
      reached = ground (arith, t);
      parked = λ e. ground (arith, t, e);
    } in
    let v = run-Spent f.generation cs y w in ground (arith, u, t, v.reached, v.parked)

-- A frame that resumed its context is refused from then on, whatever calls follow.
pub resume-once :
    (x : UserContext) (c : Capability) (f : TrapFrame) (r : ℕ) (y : UserContext) (cs : List Call)
    (d : Capability) (q : ℕ)
    → resume x c f r ≡ (y, ok tt)
    → is_ok (resume (run y cs) d f q).1 ≡ false
unfolding resume require
resume-once x c f r y cs d q t =
    let w : f.generation + 1 ≤ y.generation =
      ground (arith, t, (==_iff f.generation x.generation).0) in
    let v = run_ascends cs y in ground (arith, w, v, (==_iff f.generation (run y cs).generation).0)

-- Entering a context and resuming it by the frame gives the same context back, with the result in
-- its registers and the next generation.
pub resume-enter :
    (x : UserContext) (c : Capability) (d : Capability) (y : UserContext) (f : TrapFrame) (r : ℕ)
    → enter x c ≡ (y, ok f)
    → require d CapabilityKind.user_context control ≡ ok tt
    → x.generation + 1 < u64_mod
    → resume y d f r ≡ (
      record x { registers = record x.registers { result = r }; generation = x.generation + 1 },
      ok tt,
    )
unfolding enter resume
resume-enter x c d y f r t u b = ground (arith, t, u, b, ==_refl x.id, ==_refl x.generation)
