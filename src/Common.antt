-- ===== src/Common.antt =====
-- The names that the modules share: the libraries', passed on, and those of the children: tests on
-- numbers, lists that stand for C arrays, bits of machine words, and tables indexed by numbers.
mod Tests
mod Lists
mod Bits
mod Table
mod Int
mod Control
mod Pigeonhole
mod Text
pub use Tests.*
pub use Lists.*
pub use Bits.*
pub use Table.*
pub use Int.*
unfoldable pub use Control.{for_below}
pub use Control.*
pub use Pigeonhole.*
pub use Text.*
pub use Prim.Native.Nat.{ℕ, zero, suc, ◌+◌, ◌-◌, ◌*◌, ◌/◌, ◌%◌, ◌^◌, ◌≤◌, ◌<◌}
pub use mathlib.Core.Path.{◌≡◌, refl, sym, ap, subst, ◌∙◌}
pub use mathlib.Core.Logic.{◌≢◌, ◌↔◌, ◌⊎◌, inl, inr}
pub use mathlib.Core.Bool.{Bool, true, false, not, ◌&&◌, ◌||◌}
pub use mathlib.Core.Option.{Option, none, some}
pub use mathlib.Core.List.{List, [], ◌∷◌, ◌++◌, map}
pub use native.Mathlib.Omega.{arith}
