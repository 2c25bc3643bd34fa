-- ===== src/Prelude.antt =====
-- The names that the other modules share: the libraries', passed on, and those of the children.
pub mod Tests
pub mod Keys
pub mod Lists
pub mod Assoc
pub mod Maybe
pub mod Bytes
pub use Tests.*
pub use Keys.*
pub use Lists.*
pub use Assoc.{
  Dict, keys, values, lookup-insert, lookup-insert_self, contains-insert, lookup-erase,
  lookup-of_contains, HasDistinctKeys, HasDistinctKeys-insert, All-insert, All-lookup,
  lookup-of_entries,
}
unfoldable pub use Assoc.{lookup, insert, erase, contains}
pub use Prim.Native.Nat.{ℕ, zero, suc, ◌+◌, ◌-◌, ◌*◌, ◌/◌, ◌%◌, ◌^◌, ◌≤◌, ◌<◌}
pub use Prim.Native.String.{String}
pub use mathlib.Core.Path.{◌≡◌, refl, sym, ap, ◌∙◌}
pub use mathlib.Core.Logic.{◌≢◌, ◌↔◌, ◌⊎◌, inl, inr}
pub use mathlib.Core.Bool.{Bool, true, false, ◌&&◌, ◌||◌, not}
pub use mathlib.Core.Option.{Option, none, some}
pub use mathlib.Core.List.{List, [], ◌∷◌, ◌++◌, map}
pub use native.Mathlib.Omega.{arith}
