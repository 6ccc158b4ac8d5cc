-- ===== src/Prelude.antt =====
-- The names that the modules share: the libraries', passed on, and the children's.
mod Tests
mod Lists
mod Text
pub mod Int
pub mod Bits
pub mod Radix
pub use Tests.*
pub use Lists.*
pub use Text.{codes}
pub use Prim.Native.Nat.{
  ℕ, zero, suc, ◌+◌, ◌-◌, ◌*◌, ◌/◌, ◌%◌, ◌^◌, ◌≤◌, ◌<◌, min, bit_and, bit_or, bit_xor,
}
pub use mathlib.Core.Path.{◌≡◌, refl, sym, ap, ◌∙◌, subst}
pub use mathlib.Core.Logic.{◌≢◌, ◌↔◌, ◌⊎◌, inl, inr}
pub use mathlib.Core.Bool.{Bool, true, false, not, ◌&&◌, ◌||◌}
pub use mathlib.Core.Option.{Option, none, some}
pub use mathlib.Core.List.{List, [], ◌∷◌, ◌++◌, map, foldl, flat_map, append-nil, append_assoc}
pub use native.Mathlib.Omega.{arith}
