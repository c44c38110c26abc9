-- ===== src/Prelude.antt =====
-- Names that every module shares: the libraries', passed on, and those of the child modules.
mod Tests
mod Lists
mod Rows
mod Int
mod Text
mod Parse
pub use Tests.*
pub use Lists.*
pub use Rows.*
unfoldable pub use Int.*
unfoldable pub use Text.*
unfoldable pub use Parse.*
pub use Prim.Native.Nat.{ℕ, zero, suc, ◌+◌, ◌-◌, ◌*◌, ◌/◌, ◌%◌, ◌^◌, ◌≤◌, ◌<◌}
pub use Prim.Native.String.{String}
pub use mathlib.Core.Path.{◌≡◌, refl, sym, ap, ◌∙◌, subst}
pub use mathlib.Core.Logic.{◌≢◌, ◌↔◌, ◌⊎◌, inl, inr}
pub use mathlib.Core.Bool.{Bool, true, false, ◌&&◌, ◌||◌, not}
pub use mathlib.Core.Option.{Option, none, some}
pub use mathlib.Core.List.{List, [], ◌∷◌, ◌++◌, map}
pub use native.Mathlib.Omega.{arith}
