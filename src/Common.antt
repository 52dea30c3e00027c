-- ===== src/Common.antt =====
-- Shared names: the library's, passed on, the tests on native numbers, and the children that hold
-- lists, integers, texts, keyed tables and JSON values. It models no file of the repository by
-- itself; the parts below follow what Python, PostgreSQL and JSON mean to that code.
mod Tests
mod Lists
mod Int
mod Keys
pub mod Text
pub mod Table
pub mod Json
pub mod Result
pub mod Maybe
pub mod Action
pub mod Exception
pub mod Time
pub use Tests.*
pub use Lists.*
pub use Int.*
unfoldable pub use Keys.*
pub use Prim.Native.Nat.{ℕ, zero, suc, ◌+◌, ◌-◌, ◌*◌, ◌/◌, ◌%◌, ◌≤◌, ◌<◌}
pub use mathlib.Core.Path.{◌≡◌, refl, sym, ap, ◌∙◌}
pub use mathlib.Core.Logic.{◌≢◌, ◌↔◌, ◌⊎◌, inl, inr}
pub use mathlib.Core.Bool.{Bool, true, false, not, ◌&&◌, ◌||◌}
pub use mathlib.Core.Option.{Option, none, some}
pub use mathlib.Core.List.{List, [], ◌∷◌, ◌++◌, map}
pub use native.Mathlib.Omega.{arith}
