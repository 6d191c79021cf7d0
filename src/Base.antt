-- ===== src/Base.antt =====
-- The names that the other modules share: the libraries', passed on, and those of two children.
-- `Tests` holds the Boolean tests that Python's comparisons become, `Lists` the operations that
-- the SQL statements become (`filter`, `update_where`, `delete_where`) with their lemmas.
mod Tests
mod Lists
mod Rows
mod Slices
mod Dicts
mod Names
mod Int
pub use Tests.*
pub use Lists.*
pub use Rows.*
pub use Slices.*
pub use Dicts.*
pub use Names.*
pub use Int.*
pub use Prim.Native.Nat.{ℕ, zero, suc, ◌+◌, ◌-◌, ◌*◌, ◌/◌, ◌%◌, ◌≤◌, ◌<◌, min, max}
pub use mathlib.Core.Path.{◌≡◌, refl, sym, ap, subst, ◌∙◌}
pub use mathlib.Core.Logic.{◌≢◌, ◌↔◌, ◌⊎◌, inl, inr}
pub use mathlib.Core.Bool.{Bool, true, false, not, ◌&&◌, ◌||◌}
pub use mathlib.Core.Option.{Option, none, some}
pub use mathlib.Core.List.{List, [], ◌∷◌, ◌++◌, map}
pub use native.Mathlib.Omega.{arith}
