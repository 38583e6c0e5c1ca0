-- ===== src/Base.antt =====
-- Names that every module shares: library names passed on, Boolean tests on numbers, lists over the
-- native numbers, Python's integers and texts, and calls that change state and may raise.
mod Tests
mod Lists
pub mod Int
pub mod Text
pub mod Digits
pub mod Exec
pub mod Value
pub mod Shared
pub mod Rely
pub use Tests.*
pub use Lists.*
pub use Prim.Native.Nat.{ℕ, zero, suc, ◌+◌, ◌-◌, ◌*◌, ◌/◌, ◌%◌, ◌^◌, ◌≤◌, ◌<◌}
pub use mathlib.Core.Path.{◌≡◌, refl, sym, ap, ◌∙◌}
pub use mathlib.Core.Logic.{◌≢◌, ◌↔◌, ◌⊎◌, inl, inr}
pub use mathlib.Core.Bool.{Bool, true, false, not, ◌&&◌, ◌||◌}
pub use mathlib.Core.Option.{Option, none, some}
pub use mathlib.Core.List.{List, [], ◌∷◌, ◌++◌, map, foldl}
pub use native.Mathlib.Omega.{arith}
