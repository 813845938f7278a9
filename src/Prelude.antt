-- ===== src/Prelude.antt =====
-- Names shared by every module: the libraries' names passed on, Boolean tests on the native
-- numbers, lists measured by native numbers, and the arithmetic of C's fixed-width integers.
mod Tests
mod Lists
mod Lookup
mod Words
mod Powers
pub mod Bits
unfoldable pub use Tests.*
pub use Lists.*
pub use Lookup.*
pub use Words.*
pub use Powers.*
pub use Prim.Native.Nat.{ℕ, zero, suc, ◌+◌, ◌-◌, ◌*◌, ◌/◌, ◌%◌, ◌^◌, ◌≤◌, ◌<◌, bit_and, bit_or}
pub use mathlib.Core.Path.{◌≡◌, refl, sym, ap, ◌∙◌, subst}
pub use mathlib.Core.Logic.{◌≢◌, ◌↔◌, ◌⊎◌, inl, inr}
pub use mathlib.Core.Bool.{Bool, true, false, ◌&&◌, ◌||◌, not}
pub use mathlib.Core.Option.{Option, none, some}
pub use mathlib.Core.List.{List, [], ◌∷◌, ◌++◌, reverse}
pub use native.Mathlib.Omega.{arith}
