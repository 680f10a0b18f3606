-- ===== src/Common.antt =====
-- The names that the modules of this library share: the libraries', passed on, the Boolean tests
-- and the lists measured by native numbers.
mod Tests
mod Lists
mod Compare
mod Fallible
pub mod Int
pub use Tests.*
pub use Lists.*
pub use Fallible.*
unfoldable pub use Compare.{Bytes, str_eq}
pub use Compare.{str_eq_iff, IsText, append-IsText}
pub use Prim.Native.Nat.{ℕ, zero, suc, ◌+◌, ◌-◌, ◌*◌, ◌/◌, ◌%◌, ◌^◌, ◌≤◌, ◌<◌, min}
pub use mathlib.Core.Path.{◌≡◌, refl, sym, ap, ap₂, ◌∙◌, subst}
pub use mathlib.Core.Logic.{◌≢◌, ◌↔◌, ◌⊎◌, inl, inr}
pub use mathlib.Core.Bool.{Bool, true, false, not, ◌&&◌, ◌||◌}
pub use mathlib.Core.Option.{Option, none, some}
pub use mathlib.Core.List.{List, [], ◌∷◌, ◌++◌, map}
pub use native.Mathlib.Omega.{arith}
