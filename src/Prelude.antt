-- ===== src/Prelude.antt =====
-- What the other modules share: library names, Boolean tests, lists measured by native numbers,
-- and the arithmetic of C's `unsigned long`.
mod Tests
mod Lists
mod Words
mod Nodes
mod Distinct
pub use Tests.*
pub use Lists.*
pub use Words.*
unfoldable pub use Nodes.{remove}
pub use Nodes.*
pub use Distinct.*
pub use Prim.Native.Nat.{ℕ, zero, suc, ◌+◌, ◌-◌, ◌*◌, ◌/◌, ◌%◌, ◌^◌, ◌≤◌, ◌<◌}
pub use mathlib.Core.Path.{◌≡◌, refl, sym, ap, ◌∙◌, fun_ext}
pub use mathlib.Core.Logic.{◌≢◌, ◌↔◌, ◌⊎◌, inl, inr}
pub use mathlib.Core.Bool.{Bool, true, false, not, ◌&&◌, ◌||◌}
pub use mathlib.Core.Option.{Option, none, some}
pub use mathlib.Core.List.{List, [], ◌∷◌, ◌++◌, map, append_assoc, append-nil}
pub use native.Mathlib.Omega.{arith}
