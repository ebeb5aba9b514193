-- ===== src/Common.antt =====
-- What the other modules share: names of the libraries passed on, tests on numbers, lists measured
-- by native numbers, maps as association lists, sorting, and std::expected.
mod Tests
mod Lists
mod Maps
mod Sorting
mod Results
mod Floats
pub use Tests.*
pub use Lists.*
unfoldable pub use Maps.*
unfoldable pub use Sorting.*
pub use Results.*
unfoldable pub use Floats.*
pub use Prim.Native.Nat.{ℕ, zero, suc, ◌+◌, ◌-◌, ◌*◌, ◌/◌, ◌%◌, ◌^◌, ◌≤◌, ◌<◌, min, max}
pub use Prim.Native.String.{String}
pub use mathlib.Core.Path.{◌≡◌, refl, sym, ap, ◌∙◌}
pub use mathlib.Core.Logic.{◌≢◌, ◌↔◌, ◌⊎◌, inl, inr}
pub use mathlib.Core.Bool.{Bool, true, false, not, ◌&&◌, ◌||◌}
pub use mathlib.Core.Option.{Option, none, some}
pub use mathlib.Core.List.{List, [], ◌∷◌, ◌++◌, map}
pub use native.Mathlib.Omega.{arith}
