-- ===== src/Prelude.antt =====
-- The names that every module shares: those of the libraries, passed on, the tests on numbers,
-- the lists over the native numbers, and texts as lists of UTF-16 code units.
mod Tests
mod Lists
mod Texts
mod Results
pub mod Decimal
pub use Tests.*
pub use Lists.*
unfoldable pub use Texts.{same, starts_with, is_space, is_blank}
pub use Texts.*
pub use Results.*
pub use Prim.Native.Nat.{ℕ, zero, suc, ◌+◌, ◌-◌, ◌*◌, ◌/◌, ◌%◌, ◌≤◌, ◌<◌}
pub use mathlib.Core.Path.{◌≡◌, refl, sym, ap, ◌∙◌, subst}
pub use mathlib.Core.Logic.{◌≢◌, ◌↔◌, ◌⊎◌, inl, inr}
pub use mathlib.Core.Bool.{Bool, true, false, not, ◌&&◌, ◌||◌}
pub use mathlib.Core.Option.{Option, none, some}
pub use mathlib.Core.List.{List, [], ◌∷◌, ◌++◌, append-nil, append_assoc}
unfoldable pub use mathlib.Core.List.{map}
pub use native.Mathlib.Omega.{arith}
