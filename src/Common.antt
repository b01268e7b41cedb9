-- ===== src/Common.antt =====
-- Shared names: the libraries' names that the components use, passed on, and the helpers below.
mod Tests
mod Lists
mod Int
mod Dict
mod Words
mod Bits
pub use Tests.*
pub use Lists.*
pub use Int.*
pub use Dict.*
unfoldable pub use Dict.{lookup, modify, insert, delete, count_if}
pub use Words.*
pub use Bits.*
pub use Prim.Native.Nat.{ℕ, zero, suc, ◌+◌, ◌-◌, ◌*◌, ◌/◌, ◌%◌, ◌^◌, ◌≤◌, ◌<◌}
pub use mathlib.Core.Path.{◌≡◌, refl, sym, ap, ◌∙◌}
pub use mathlib.Core.Logic.{◌≢◌, ◌↔◌, ◌⊎◌, inl, inr}
unfoldable pub use mathlib.Core.Logic.{ite}
pub use mathlib.Core.Bool.{Bool, true, false, ◌&&◌, ◌||◌, not}
pub use mathlib.Core.Option.{Option, none, some}
pub use mathlib.Core.List.{List, [], ◌∷◌, ◌++◌}
pub use native.Mathlib.Omega.{arith}
unfoldable pub use native.Mathlib.Decide.{dec_lt, ℕ_discrete}
