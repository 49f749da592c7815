-- ===== src/Base.antt =====
-- Names that every module of the development shares: the libraries' names passed on, Boolean
-- tests, lists over the native numbers, and actions that may fail. Below it stand database
-- statements and the prefix operations on texts.
mod Tests
mod Lists
mod Actions
pub mod Sql
pub mod Text
pub mod Parse
pub mod Results
pub mod Int
pub mod Ensures
pub use Tests.*
pub use Lists.*
unfoldable pub use Actions.*
pub use Prim.Native.Nat.{ℕ, zero, suc, ◌+◌, ◌-◌, ◌*◌, ◌≤◌, ◌<◌}
pub use Prim.Native.String.{String}
pub use mathlib.Core.Path.{◌≡◌, refl, sym, ap, ◌∙◌, subst}
pub use mathlib.Core.Logic.{◌≢◌, ◌↔◌, ◌⊎◌, inl, inr}
pub use mathlib.Core.Bool.{Bool, true, false, not, ◌&&◌, ◌||◌}
pub use mathlib.Core.Option.{Option, none, some}
pub use mathlib.Core.List.{List, [], ◌∷◌, ◌++◌, map}
pub use native.Mathlib.Omega.{arith}
pub use text.Mathlib.Text.{◌==◌}
pub use text.Mathlib.TextEquality.{eq_iff}
