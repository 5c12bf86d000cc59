-- ===== src/Base.antt =====
-- Names shared by every module: the libraries' names that are in use, and those of the children:
-- Boolean tests on numbers, list and row helpers, exceptions with state, sessions, JSON values.
pub mod Unique
pub mod Does
pub mod Frames
pub mod Yields
mod Tests
mod Lists
mod Rows
mod Errors
mod Effects
mod Commits
mod Values
pub use Tests.*
unfoldable pub use Lists.*
unfoldable pub use Rows.*
pub use Errors.*
unfoldable pub use Effects.*
pub use Commits.*
unfoldable pub use Values.*
pub use Prim.Native.Nat.{ℕ, zero, suc, ◌+◌, ◌-◌, ◌*◌, ◌/◌, ◌%◌, ◌^◌, ◌≤◌, ◌<◌, min, max}
pub use Prim.Native.String.{String}
pub use mathlib.Core.Path.{◌≡◌, refl, sym, ap, subst, ◌∙◌}
pub use mathlib.Core.Logic.{◌≢◌, ◌↔◌, ◌⊎◌, inl, inr}
pub use mathlib.Core.Bool.{Bool, true, false, not, ◌&&◌, ◌||◌}
pub use mathlib.Core.Option.{Option, none, some}
pub use mathlib.Core.List.{List, [], ◌∷◌, ◌++◌, map}
pub use native.Mathlib.Omega.{arith}
pub use text.Mathlib.Text.{◌==◌ as str_eq}
pub use text.Mathlib.TextEquality.{eq_iff}
