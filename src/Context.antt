-- ===== src/Context.antt =====
-- kernel/src/context.rs: user contexts and the frames by which they trap and resume.
pub mod Calls
use bulla.Prelude.{
  ℕ, bit_and, Bool, true, false, not, leb, Result, ok, refuse_if, ok_or, attempt, checked_add, ◌^◌,
  ◌||◌, ◌==◌, ◌>>=◌, ◌>>◌,
}
use bulla.Capability.{Capability, CapabilityKind, Rights, kind_eq, contains, control}
use bulla.Memory.{is_canonical_x86_64}

pub data Privilege : Type 0 where
  kernel user : Privilege

pub data TrapOrigin : Type 0 where
  interrupt exception syscall : ℕ → TrapOrigin

pub record Registers : Type 0 where
  pub instruction_pointer : ℕ
  pub stack_pointer : ℕ
  pub flags : ℕ
  pub argument0 : ℕ
  pub result : ℕ

pub record UserContext : Type 0 where
  pub id : ℕ
  pub address_space : ℕ
  pub registers : Registers
  pub generation : ℕ
  pub runnable : Bool

pub record TrapFrame : Type 0 where
  pub context : ℕ
  pub origin : TrapOrigin
  pub registers : Registers
  pub privilege : Privilege
  pub generation : ℕ

pub data ContextError : Type 0 where
  wrong_capability missing_rights non_canonical misaligned_stack kernel_address : ContextError
  not_runnable wrong_context wrong_generation wrong_privilege generation_overflow : ContextError

abbrev is_user : Privilege → Bool
is_user kernel = false
is_user user = true

unfoldable pub require : Capability → CapabilityKind → Rights → Result ContextError (Unit {0})
require c kind rights = do
  refuse_if (not (kind_eq c.kind kind)) wrong_capability
  refuse_if (not (contains c.rights rights)) missing_rights

-- `0x0000_8000_0000_0000`
abbrev pub user_end : ℕ
user_end = 2 ^ 47

unfoldable pub create : Capability → ℕ → ℕ → ℕ → ℕ → Result ContextError UserContext
create c id address_space instruction_pointer stack_pointer = do
  require c CapabilityKind.user_context control
  refuse_if
      (not (is_canonical_x86_64 instruction_pointer) || not (is_canonical_x86_64 stack_pointer))
      non_canonical
  refuse_if (leb user_end instruction_pointer || leb user_end stack_pointer) kernel_address
  refuse_if (not (bit_and stack_pointer 15 == 0)) misaligned_stack
  ok (record {
    id = id;
    address_space = address_space;
    registers = record {
      instruction_pointer = instruction_pointer;
      stack_pointer = stack_pointer;
      flags = 514;
      argument0 = 0;
      result = 0;
    };
    generation = 0;
    runnable = true;
  })

abbrev pub frame_of : UserContext → TrapOrigin → Registers → TrapFrame
frame_of x origin registers = record {
  context = x.id;
  origin = origin;
  registers = registers;
  privilege = user;
  generation = x.generation;
}

unfoldable pub enter : UserContext → Capability → UserContext × Result ContextError TrapFrame
enter x c = attempt (require c CapabilityKind.user_context control) x λ _.
    attempt (refuse_if (not x.runnable) not_runnable) x
      λ _. (record x { runnable = false }, ok (frame_of x (syscall 0) x.registers))

unfoldable pub trap :
    UserContext → Capability → TrapOrigin → Registers → UserContext × Result ContextError TrapFrame
trap x c origin registers =
    attempt (require c CapabilityKind.trap_frame control) x
      λ _. (x, ok (frame_of x origin registers))

-- The registers are written before the generation is checked, as in the source.
unfoldable pub resume :
    UserContext → Capability → TrapFrame → ℕ → UserContext × Result ContextError (Unit {0})
resume x c frame result = attempt (require c CapabilityKind.user_context control) x λ _.
    attempt (refuse_if (not (frame.context == x.id)) wrong_context) x λ _.
      attempt (refuse_if (not (frame.generation == x.generation)) wrong_generation) x λ _.
        attempt (refuse_if (not (is_user frame.privilege)) wrong_privilege) x λ _.
          let written = record x { registers = record frame.registers { result = result } } in
          attempt (ok_or (checked_add x.generation 1) generation_overflow) written
            λ next. (record written { generation = next; runnable = true }, ok tt)

unfoldable pub terminate : UserContext → UserContext
terminate x = record x { runnable = false }
