-- ===== src/Common/Bits.antt =====
-- Single bits of a machine word, by arithmetic: `x & (1 << k)`, `x | (1 << k)`, `x & ~(1 << k)`.
use Prim.Native.Nat.{ℕ, ◌+◌, ◌-◌, ◌/◌, ◌%◌, ◌^◌}
use mathlib.Core.Bool.{Bool}
use adelaideos.Common.Tests.{◌==◌, if◌then◌else◌}

abbrev pub test_bit : ℕ → ℕ → Bool
test_bit k x = (x / 2 ^ k) % 2 == 1

abbrev pub set_bit : ℕ → ℕ → ℕ
set_bit k x = if test_bit k x then x else x + 2 ^ k

abbrev pub clear_bit : ℕ → ℕ → ℕ
clear_bit k x = if test_bit k x then x - 2 ^ k else x

-- The size of `unsigned int`.
abbrev pub u32_mod : ℕ
u32_mod = 2 ^ 32
