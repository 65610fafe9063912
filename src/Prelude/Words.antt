-- ===== src/Prelude/Words.antt =====
-- Machine integers: a value is a native number, with its wrap-around and its checks written out.
use mathlib.Core.Bool.{Bool, ◌&&◌, not}
use Prim.Native.Nat.{ℕ, ◌+◌, ◌-◌, ◌*◌, min, ◌%◌, bit_and}
use mathlib.Core.Option.{Option, none, some}
use bulla.Prelude.Tests.{ltb, if◌then◌else◌, ◌==◌}

abbrev pub u32_mod : ℕ
u32_mod = 0x1_0000_0000

abbrev pub u64_mod : ℕ
u64_mod = 0x1_0000_0000_0000_0000

-- `a.checked_add(b)` on `u64`
abbrev pub checked_add : ℕ → ℕ → Option ℕ
checked_add a b = if ltb (a + b) u64_mod then some (a + b) else none

-- `a.checked_mul(b)` on `u64`
abbrev pub checked_mul : ℕ → ℕ → Option ℕ
checked_mul a b = if ltb (a * b) u64_mod then some (a * b) else none

-- `a.checked_add(b)` on `u32`
abbrev pub checked_add32 : ℕ → ℕ → Option ℕ
checked_add32 a b = if ltb (a + b) u32_mod then some (a + b) else none

-- `a.saturating_add(b)` and `a.saturating_mul(b)` on `u64`
abbrev pub saturating_add : ℕ → ℕ → ℕ
saturating_add a b = min (a + b) (u64_mod - 1)

abbrev pub saturating_mul : ℕ → ℕ → ℕ
saturating_mul a b = min (a * b) (u64_mod - 1)

-- `a + b` and `a * b` on `u64`, which wrap as the release profile compiles them.
abbrev pub add64 : ℕ → ℕ → ℕ
add64 a b = (a + b) % u64_mod

abbrev pub mul64 : ℕ → ℕ → ℕ
mul64 a b = (a * b) % u64_mod

-- `a.is_power_of_two()`
abbrev pub is_power_of_two : ℕ → Bool
is_power_of_two n = not (n == 0) && bit_and n (n - 1) == 0
