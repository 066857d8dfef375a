-- ===== src/Common.antt =====
-- The names that every module shares: the library's, passed on, and those of the children.
mod Tests
mod Lists
mod Texts
mod Ints
pub mod Insertion
pub mod Results
pub mod Effects
pub use Tests.*
pub use Lists.*
pub use Texts.*
pub use Ints.*
unfoldable pub use Texts.{text_eq, text_lt, starts_with, ends_with}
unfoldable pub use Ints.{to_string, digits_from}
pub use Results.*
pub use Effects.{Outcome, done, failed, aborted, Action, Outcome-cases}
unfoldable pub use Effects.{for_each}
pub use Prim.Native.Nat.{ℕ, zero, suc, ◌+◌, ◌-◌, ◌*◌, ◌/◌, ◌%◌, ◌^◌, ◌≤◌, ◌<◌}
pub use mathlib.Core.Path.{◌≡◌, refl, sym, ap, ◌∙◌, subst}
pub use mathlib.Core.Logic.{◌≢◌, ◌↔◌, ◌⊎◌, inl, inr}
pub use mathlib.Core.Bool.{Bool, true, false, not, ◌&&◌, ◌||◌}
pub use mathlib.Core.Option.{Option, none, some}
pub use mathlib.Core.List.{List, [], ◌∷◌, ◌++◌, map}
pub use native.Mathlib.Omega.{arith}
