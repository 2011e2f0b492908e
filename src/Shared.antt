-- ===== src/Shared.antt =====
-- What every module uses: the libraries' names, passed on, and the shared types and lemmas of the
-- modules below. `Tests` has the Boolean tests on native numbers, `Lists` the lists, `Int` the
-- integers that stand for Python's `int` and for fixed-point `Decimal` values, `Text` the strings,
-- `Dict` the dictionaries with string keys, and `Action` the methods that change an object and may
-- raise.
mod Tests
mod Lists
pub mod Int
pub mod Sums
pub mod Text
pub mod Dict
pub mod Action
pub use Tests.*
pub use Lists.*
pub use Prim.Native.Nat.{ℕ, zero, suc, ◌+◌, ◌-◌, ◌*◌, ◌/◌, ◌%◌, ◌≤◌, ◌<◌}
pub use Prim.Native.String.{String}
pub use mathlib.Core.Path.{◌≡◌, refl, sym, ap, ◌∙◌}
pub use mathlib.Core.Logic.{◌≢◌, ◌↔◌, ◌⊎◌, inl, inr}
pub use mathlib.Core.Bool.{Bool, true, false, not, ◌&&◌, ◌||◌}
pub use mathlib.Core.Option.{Option, none, some}
pub use mathlib.Core.List.{List, [], ◌∷◌, ◌++◌, map, foldl}
pub use native.Mathlib.Omega.{arith}
