-- ===== src/Common.antt =====
-- The names that the other modules share: the libraries', and those of the children.
pub mod Tests
pub mod Lists
pub mod Keys
pub mod Maps
pub mod Texts
pub mod Int
pub mod Tables
pub use Prim.Native.Nat.{
  ℕ, zero, suc, ◌+◌, ◌-◌, ◌*◌, ◌/◌, ◌%◌, ◌^◌, ◌≤◌, ◌<◌, min, max, bit_and, bit_or, bit_xor,
}
pub use mathlib.Core.Path.{◌≡◌, refl, sym, ap, ◌∙◌}
pub use mathlib.Core.Logic.{◌≢◌, ◌↔◌, ◌⊎◌, inl, inr}
pub use mathlib.Core.Bool.{Bool, true, false, not, ◌&&◌, ◌||◌}
pub use mathlib.Core.Option.{Option, none, some}
pub use mathlib.Core.List.{List, [], ◌∷◌, ◌++◌, map}
pub use native.Mathlib.Omega.{arith}
pub use Tests.*
pub use Lists.*
unfoldable pub use Keys.*
unfoldable pub use Maps.*
unfoldable pub use Texts.*
unfoldable pub use Tables.*
