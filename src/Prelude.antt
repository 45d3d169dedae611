-- ===== src/Prelude.antt =====
-- The names that every module shares: the library's, passed on, the tests and lists on native
-- numbers, keys with a total order, and maps and sets in key order (std's BTreeMap and HashMap).
mod Tests
mod Lists
pub mod Key
pub mod Map
pub mod Set
pub mod Text
mod Errors
pub use Errors.*
pub use Tests.*
pub use Lists.*
pub use Prim.Native.Nat.{
  ℕ, zero, suc, ◌+◌, ◌-◌, ◌*◌, ◌/◌, ◌%◌, ◌^◌, ◌≤◌, ◌<◌, min, max, Ordering, compare,
}
pub use Prim.Native.String.{String}
pub use mathlib.Core.Path.{◌≡◌, refl, sym, ap, ◌∙◌, subst}
pub use mathlib.Core.Logic.{◌≢◌, ◌↔◌, ◌⊎◌, inl, inr}
pub use mathlib.Core.Bool.{Bool, true, false, ◌&&◌, ◌||◌, not}
pub use mathlib.Core.Option.{Option, none, some}
pub use mathlib.Core.List.{List, [], ◌∷◌, ◌++◌, map}
unfoldable pub use native.Mathlib.Decide.{dec_lt, dec_le}
pub use native.Mathlib.Omega.{arith}
pub use Key.{Ord, ◌==◌, ==_iff, ==_refl, nat_key, string_key, pair_key, is_eq, is_lt}
