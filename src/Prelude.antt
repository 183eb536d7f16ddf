-- ===== src/Prelude.antt =====
-- The names that the other modules share: library names passed on, tests on numbers and
-- texts, lists, dictionaries and decidable equality.
pub mod Tests
pub mod Equal
pub mod Dict
pub mod Lists
pub mod Sort
pub mod Texts
pub mod Raises
pub mod Ints
pub mod Items
pub mod Groups
pub use Tests.*
pub use Equal.*
pub use Prim.Native.Nat.{ℕ, zero, suc, ◌+◌, ◌-◌, ◌*◌, ◌/◌, ◌%◌, ◌^◌, ◌≤◌, ◌<◌, min, max}
pub use Prim.Native.String.{String}
pub use mathlib.Core.Path.{◌≡◌, refl, sym, ap, ◌∙◌, subst}
pub use mathlib.Core.Logic.{◌≢◌, ◌↔◌, ◌⊎◌, inl, inr}
pub use mathlib.Core.Bool.{Bool, true, false, not, ◌&&◌, ◌||◌}
pub use mathlib.Core.Option.{Option, none, some}
pub use mathlib.Core.List.{List, [], ◌∷◌, ◌++◌, map}
pub use native.Mathlib.Omega.{arith}
