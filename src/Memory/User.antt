-- ===== src/Memory/User.antt =====
-- Copies between the kernel and user memory, and the memory itself (kernel/src/memory.rs).
use bulla.Prelude.{
  ℕ, zero, suc, bit_or, not, List, Result, ok, refuse_if, ok_or, attempt, checked_add, ◌+◌, [], ◌∷◌,
  ◌>>=◌, ◌>>◌,
}
use bulla.Prelude.Lists.{length}
use bulla.Prelude.Map.{Map, get, insert, nat_key}
use bulla.Memory.{
  AddressSpace, MapError, PagePermissions, permits, page_read, page_write, page_user,
  range_overflow, user_fault, translate,
}

-- `UserMemory` is its `bytes`.
abbrev pub UserMemory : Type 0
UserMemory = Map ℕ ℕ

-- The loop of `validate_user_range`, over the offsets from `offset` on.
unfoldable pub user_addresses :
    AddressSpace → ℕ → PagePermissions → ℕ → ℕ → Result MapError (List ℕ)
user_addresses s start right zero offset = ok []
user_addresses s start right (suc n) offset =
    let others = user_addresses s start right n (offset + 1) in
    do
      address ← ok_or (checked_add start offset) range_overflow
      (physical, permissions) ← translate s address
      refuse_if (not (permits permissions (bit_or page_user right))) user_fault
      rest ← others
      ok (physical ∷ rest)

unfoldable pub validate_user_range :
    AddressSpace → ℕ → ℕ → PagePermissions → Result MapError (List ℕ)
validate_user_range s start len right = user_addresses s start right len 0

unfoldable pub read_all : UserMemory → List ℕ → Result MapError (List ℕ)
read_all memory [] = ok []
read_all memory (physical ∷ rest) = do
  byte ← ok_or (get physical memory) user_fault
  bytes ← read_all memory rest
  ok (byte ∷ bytes)

-- The bytes copied to `output`, which is left as it was on an error.
unfoldable pub copy_from_user : AddressSpace → UserMemory → ℕ → ℕ → Result MapError (List ℕ)
copy_from_user s memory address len = do
  addresses ← validate_user_range s address len page_read
  read_all memory addresses

unfoldable pub write_all : UserMemory → List ℕ → List ℕ → UserMemory
write_all memory (physical ∷ ps) (value ∷ vs) = write_all (insert physical value memory) ps vs
write_all memory _ _ = memory

unfoldable pub copy_to_user :
    AddressSpace → UserMemory → ℕ → List ℕ → UserMemory × Result MapError (Unit {0})
copy_to_user s memory address input =
    attempt (validate_user_range s address (length input) page_write) memory
      λ addresses. (write_all memory addresses input, ok tt)

-- `initialize`; what was written before an error stays.
unfoldable pub initialize : UserMemory → ℕ → ℕ → List ℕ → UserMemory × Result MapError (Unit {0})
initialize memory physical offset [] = (memory, ok tt)
initialize memory physical offset (value ∷ vs) =
    attempt (ok_or (checked_add physical offset) range_overflow) memory
      λ address. initialize (insert address value memory) physical (offset + 1) vs
