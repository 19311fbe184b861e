-- ===== src/Base.antt =====
-- The names that the other modules share: the libraries', passed on, and those of the children.
mod Tests
mod Lists
mod Sets
mod Types
mod Chunks
mod Maps
pub use Tests.*
pub use Lists.*
pub use Types.*
unfoldable pub use Chunks.{chunks_from}
pub use Chunks.{in_chunks, flatten, flatten-chunks_from, IsFrame, chunks_from-IsFrame}
unfoldable pub use Maps.{remove_key, insert_key}
pub use Maps.{
  lookup, DistinctKeys, lookup-remove_key, lookup-insert_key, DistinctKeys-remove_key,
  DistinctKeys-insert_key,
}
unfoldable pub use Sets.{insert, remove, difference}
pub use Sets.{
  contains, Distinct, contains-append, contains-insert, contains-remove, contains-difference,
  contains-keep, Distinct-insert, Distinct-remove, contains_self, Distinct-difference,
}
pub use Prim.Native.Nat.{ℕ, zero, suc, ◌+◌, ◌-◌, ◌*◌, ◌/◌, ◌%◌, ◌^◌, ◌≤◌, ◌<◌, min}
pub use mathlib.Core.Path.{◌≡◌, refl, sym, ap, subst, ◌∙◌}
pub use mathlib.Core.Logic.{◌≢◌, ◌↔◌, ◌⊎◌, inl, inr}
pub use mathlib.Core.Bool.{Bool, true, false, not, ◌&&◌, ◌||◌}
pub use mathlib.Core.Option.{Option, none, some}
pub use mathlib.Core.List.{List, [], ◌∷◌, ◌++◌, map}
pub use native.Mathlib.Omega.{arith}
