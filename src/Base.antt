-- ===== src/Base.antt =====
-- The names that every component shares: the library's, passed on, and those of the children:
-- Boolean tests, lists over the native numbers, failure, and C arrays with their copying loops.
pub mod Tests
pub mod Lists
pub mod Fault
pub mod Arrays
pub mod Families
pub mod Integers
pub use Tests.*
pub use Lists.*
pub use Fault.*
pub use Integers.*
unfoldable pub use Families.*
pub use Prim.Native.Nat.{ℕ, zero, suc, ◌+◌, ◌-◌, ◌*◌, ◌/◌, ◌%◌, ◌^◌, ◌≤◌, ◌<◌, min}
pub use mathlib.Core.Path.{◌≡◌, refl, sym, ap, ◌∙◌, subst, fun_ext}
pub use mathlib.Core.Logic.{◌≢◌, ◌↔◌, ◌⊎◌, inl, inr}
pub use mathlib.Core.Bool.{Bool, true, false, true≢false, ◌&&◌, ◌||◌, not}
pub use mathlib.Core.Option.{Option, none, some}
pub use mathlib.Core.List.{List, [], ◌∷◌, ◌++◌, map, append-nil, append_assoc, map-append}
pub use native.Mathlib.Omega.{arith}
