-- ===== src/Common.antt =====
-- The names that the modules share: the libraries', passed on, and those of the children: Boolean
-- tests, lists over the native numbers, byte strings, machine words and results.
mod Tests
mod Lists
mod ByteStrings
mod Results
pub mod Words
pub mod BigEndian
pub mod Decimal
pub use Tests.*
pub use Lists.*
unfoldable pub use ByteStrings.*
pub use Results.*
pub use Prim.Native.Nat.{ℕ, zero, suc, ◌+◌, ◌-◌, ◌*◌, ◌/◌, ◌%◌, ◌^◌, ◌≤◌, ◌<◌}
pub use mathlib.Core.Path.{◌≡◌, refl, sym, ap, ap₂, subst, ◌∙◌}
pub use mathlib.Core.Logic.{◌≢◌, ◌↔◌, ◌⊎◌, inl, inr}
pub use mathlib.Core.Bool.{Bool, true, false, not, ◌&&◌, ◌||◌}
pub use mathlib.Core.Option.{Option, none, some}
pub use mathlib.Core.List.{List, [], ◌∷◌, ◌++◌, map, append-nil, append_assoc}
pub use native.Mathlib.Omega.{arith}
