-- ===== src/Prelude.antt =====
-- The names that all modules share: the libraries' names passed on, and the notation, the Boolean
-- tests and the list helpers of the children. It models no code of the repository by itself.
mod Tests
mod Lists
mod Sorting
pub mod Int
pub use Tests.*
pub use Lists.*
unfoldable pub use Sorting.{sort, insert_sorted}
pub use Sorting.{sum_by-sort, length-sort, All-sort}
pub use Prim.Native.Nat.{ℕ, zero, suc, ◌+◌, ◌-◌, ◌*◌, ◌/◌, ◌%◌, ◌≤◌, ◌<◌, min, max}
pub use mathlib.Core.Path.{◌≡◌, refl, sym, ap, ◌∙◌, subst}
pub use mathlib.Core.Logic.{◌≢◌, ◌↔◌, ◌⊎◌, inl, inr}
pub use mathlib.Core.Bool.{Bool, true, false, ◌&&◌, ◌||◌, not}
pub use mathlib.Core.Option.{Option, none, some}
pub use mathlib.Core.List.{List, [], ◌∷◌, ◌++◌, map}
pub use native.Mathlib.Omega.{arith}
