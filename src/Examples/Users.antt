-- ===== src/Examples/Users.antt =====
-- A user context that is entered, traps and resumes (kernel/src/context.rs).
use bulla.Prelude.{refl, true, false, is_ok, ◌<◌, ◌≡◌, [], ◌∷◌}
use bulla.Capability.{Capability, CapabilityKind}
use bulla.Context.{UserContext, TrapFrame, enter, resume}
use bulla.Context.Calls.{resumes, enters, run, after, enter-once, resume-once}

abbrev handle : Capability
handle = record {
  kind = CapabilityKind.user_context;
  slot = 3;
  owner = 1;
  rights = 32;
  generation = 0;
  base = 0;
  len = 1;
}

abbrev user_context : UserContext
user_context = record {
  id = 6;
  address_space = 2;
  registers = record {
    instruction_pointer = 4096;
    stack_pointer = 8192;
    flags = 514;
    argument0 = 0;
    result = 0;
  };
  generation = 0;
  runnable = true;
}

abbrev frame : TrapFrame
frame = record {
  context = 6;
  origin = bulla.Context.syscall 0;
  registers = user_context.registers;
  privilege = bulla.Context.user;
  generation = 0;
}

abbrev inside : UserContext
inside = (enter user_context handle).0

abbrev back : UserContext
back = (resume inside handle frame 42).0

abbrev second : TrapFrame
second = record frame { registers = back.registers; generation = 1 }

enter-once_example : frame.generation < second.generation
unfolding enter resume run after bulla.Context.require
enter-once_example =
    enter-once user_context handle inside frame (resumes handle frame 42 ∷ []) handle
      (enter back handle).0 second refl refl

resume-once_example : is_ok (resume (run back (enters handle ∷ [])) handle frame 43).1 ≡ false
unfolding enter resume bulla.Context.require
resume-once_example = resume-once inside handle frame 42 back (enters handle ∷ []) handle 43 refl
