-- ===== src/Common.antt =====
-- The names that the other modules share: the libraries' names, passed on, the Boolean tests and
-- memory as a function from addresses, lists of numbers, and the parts of a list.
mod Tests
mod Memory
mod Lists
mod Slices
pub use Tests.*
pub use Memory.*
unfoldable pub use Lists.*
unfoldable pub use Slices.*
pub use Prim.Native.Nat.{ℕ, zero, suc, ◌+◌, ◌-◌, ◌*◌, ◌/◌, ◌%◌, ◌^◌, ◌≤◌, ◌<◌}
pub use mathlib.Core.Path.{◌≡◌, refl, sym, ap, ◌∙◌}
pub use mathlib.Core.Logic.{◌≢◌, ◌↔◌, ◌⊎◌, inl, inr}
pub use mathlib.Core.Bool.{Bool, true, false, not, ◌&&◌, ◌||◌}
pub use mathlib.Core.Option.{Option, none, some}
pub use mathlib.Core.List.{List, [], ◌∷◌, ◌++◌, append-nil, append_assoc}
pub use native.Mathlib.Omega.{arith}
