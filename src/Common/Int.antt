-- ===== src/Common/Int.antt =====
-- Arguments of type `int`, which may be negative. `negsuc n` is -(n + 1).
use Prim.Native.Nat.{ℕ}
use mathlib.Core.Option.{Option, none, some}
use adelaideos.Common.Tests.{ltb, if◌then◌else◌}

pub data ℤ : Type 0 where
  pos : ℕ → ℤ
  negsuc : ℕ → ℤ

-- The index that passes the test !((0 > i) || (size <= i)).
abbrev pub checked_index : ℤ → ℕ → Option ℕ
checked_index (pos n) size = if ltb n size then some n else none
checked_index (negsuc n) size = none
