-- ===== src/Common.antt =====
-- Names that every part shares: the libraries', passed on, and those of the children below.
mod Tests
mod Lists
mod Maps
mod Channels
mod Strings
mod Signed
pub mod Counting
pub use Tests.*
pub use Lists.*
unfoldable pub use Maps.*
pub use Channels.*
pub use Signed.*
unfoldable pub use Strings.*
pub use Prim.Native.Nat.{ℕ, zero, suc, min, max, ◌+◌, ◌-◌, ◌*◌, ◌/◌, ◌%◌, ◌^◌, ◌≤◌, ◌<◌}
pub use mathlib.Core.Path.{◌≡◌, refl, sym, ap, ap₂, subst, ◌∙◌}
pub use mathlib.Core.Logic.{◌≢◌, ◌↔◌, ◌⊎◌, inl, inr}
pub use mathlib.Core.Bool.{Bool, true, false, not, ◌&&◌, ◌||◌}
pub use mathlib.Core.Option.{Option, none, some, some-injective}
pub use mathlib.Core.List.{List, [], ◌∷◌, ◌++◌, map}
pub use native.Mathlib.Omega.{arith}
