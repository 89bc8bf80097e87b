-- ===== src/Common.antt =====
-- Names that the other modules share: the libraries' names, passed on, and those of the children.
pub mod Tests
pub mod Float
pub mod IdSet
pub mod Int
pub mod Lists
pub mod Map
pub mod Sort
pub mod Text
pub mod Words
pub use Tests.*
pub use Lists.*
unfoldable pub use Text.*
pub use Words.*
pub use Prim.Native.Nat.{ℕ, zero, suc, ◌+◌, ◌-◌, ◌*◌, ◌/◌, ◌%◌, ◌^◌, ◌≤◌, ◌<◌, min, max}
pub use mathlib.Core.Path.{◌≡◌, refl, sym, ap, ap₂, subst, fun_ext, ◌∙◌}
pub use mathlib.Core.Logic.{◌≢◌, ◌↔◌, ◌⊎◌, inl, inr}
pub use mathlib.Core.Bool.{Bool, true, false, not, ◌&&◌, ◌||◌}
pub use mathlib.Core.Option.{Option, none, some}
pub use mathlib.Core.List.{List, [], ◌∷◌, ◌++◌, map, Permᴰ, Perm, Memᴰ}
pub use native.Mathlib.Omega.{arith}
