-- ===== src/Base.antt =====
-- The names that the other modules share: the libraries', passed on, and those of the children.
mod Tests
mod Texts
mod Maps
mod Lists
mod Ints
mod Results
mod Sorting
mod Spaces
mod Counting
mod Decimals
mod Bytes
pub use Prim.Native.Nat.{ℕ, zero, suc, ◌+◌, ◌-◌, ◌*◌, ◌/◌, ◌%◌, ◌≤◌, ◌<◌}
pub use mathlib.Core.Path.{◌≡◌, refl, sym, ap, ◌∙◌, subst}
pub use mathlib.Core.Logic.{◌≢◌, ◌↔◌, ◌⊎◌, inl, inr}
pub use mathlib.Core.Bool.{Bool, true, false, not, ◌&&◌, ◌||◌}
pub use mathlib.Core.Option.{Option, none, some}
pub use mathlib.Core.List.{List, [], ◌∷◌, ◌++◌, map}
pub use native.Mathlib.Omega.{arith}
pub use Tests.*
unfoldable pub use Texts.*
unfoldable pub use Maps.*
pub use Lists.*
pub use Ints.*
pub use Results.*
unfoldable pub use Sorting.*
unfoldable pub use Spaces.*
pub use Counting.*
unfoldable pub use Decimals.*
unfoldable pub use Bytes.*
