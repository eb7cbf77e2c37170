-- ===== src/Base.antt =====
-- The names that every other module shares: the libraries' (passed on), Python's `==` and `or`,
-- comparisons and lists over the native numbers, text stripping, and exceptions as results.
pub mod Equality
pub mod Numbers
pub mod Lists
pub mod Distinct
pub mod Rows
pub mod Dict
pub mod Text
pub mod Outcome
pub mod Integers
unfoldable pub use Equality.*
pub use Numbers.*
pub use Prim.Native.Nat.{ℕ, zero, suc, ◌+◌, ◌-◌, ◌≤◌, ◌<◌}
pub use Prim.Native.String.{String}
pub use mathlib.Core.Path.{◌≡◌, refl, sym, ap, ◌∙◌, subst}
pub use mathlib.Core.Logic.{◌≢◌, ◌↔◌, ◌⊎◌, inl, inr}
pub use mathlib.Core.Bool.{Bool, true, false, not, ◌&&◌, ◌||◌}
pub use mathlib.Core.Option.{Option, none, some}
pub use mathlib.Core.List.{List, [], ◌∷◌, ◌++◌, map}
pub use native.Mathlib.Omega.{arith}
