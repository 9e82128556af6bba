-- ===== src/Prelude.antt =====
-- The names that the components share: the libraries' names passed on, Boolean tests on the native
-- numbers, lists measured by them, and little-endian and big-endian bytes.
pub mod Tests
pub mod Lists
pub mod Assoc
pub mod Endian
pub mod Utf8
pub use Tests.*
pub use Lists.*
unfoldable pub use Assoc.*
unfoldable pub use Endian.*
unfoldable pub use Utf8.*
pub use Prim.Native.Nat.{ℕ, zero, suc, ◌+◌, ◌-◌, ◌*◌, ◌/◌, ◌%◌, ◌^◌, ◌≤◌, ◌<◌, min}
pub use mathlib.Core.Path.{◌≡◌, refl, sym, ap, ◌∙◌, subst}
pub use mathlib.Core.Logic.{◌≢◌, ◌↔◌, ◌⊎◌, inl, inr}
pub use mathlib.Core.Bool.{Bool, true, false, not, ◌&&◌, ◌||◌}
pub use mathlib.Core.Option.{Option, none, some}
pub use mathlib.Core.List.{List, [], ◌∷◌, ◌++◌, map, append_assoc, append-nil}
pub use native.Mathlib.Omega.{arith}
