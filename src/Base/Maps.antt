-- ===== src/Base/Maps.antt =====
-- Maps from numbers as association lists: what `HashMap` and `BTreeMap` are used for. The list is in
-- the order in which the map iterates, so a statement about every list covers every order.
use Prim.Native.Nat.{ℕ}
use mathlib.Core.Path.{◌≡◌}
use mathlib.Core.List.{List, [], ◌∷◌}
use mathlib.Core.Option.{Option, none, some}
use native.Mathlib.Omega.{arith}
use cluster_mempool_observer.Base.Tests.{◌==◌, if◌then◌else◌}

module _ {ℓ} {A : Type ℓ} where
  abbrev pub lookup : ℕ → List (ℕ × A) → Option A
  lookup k [] = none
  lookup k ((i, a) ∷ m) = if k == i then some a else lookup k m

  unfoldable pub remove_key : ℕ → List (ℕ × A) → List (ℕ × A)
  remove_key k [] = []
  remove_key k ((i, a) ∷ m) = if k == i then remove_key k m else (i, a) ∷ remove_key k m

  unfoldable pub insert_key : ℕ → A → List (ℕ × A) → List (ℕ × A)
  insert_key k a m = (k, a) ∷ remove_key k m

  -- No key twice.
  abbrev pub DistinctKeys : List (ℕ × A) → Type ℓ
  DistinctKeys [] = Unit {ℓ}
  DistinctKeys ((i, a) ∷ m) = (lookup i m ≡ none) × DistinctKeys m

  pub lookup-remove_key :
      (k i : ℕ) (m : List (ℕ × A))
      → lookup k (remove_key i m) ≡ (if k == i then none else lookup k m)
  unfolding remove_key
  lookup-remove_key k i [] = ground arith
  lookup-remove_key k i ((j, a) ∷ m) = ground (arith, lookup-remove_key k i m)

  pub lookup-insert_key :
      (k i : ℕ) (a : A) (m : List (ℕ × A))
      → lookup k (insert_key i a m) ≡ (if k == i then some a else lookup k m)
  unfolding insert_key
  lookup-insert_key k i a m = ground (arith, lookup-remove_key k i m)

  pub DistinctKeys-remove_key :
      (i : ℕ) (m : List (ℕ × A)) → DistinctKeys m → DistinctKeys (remove_key i m)
  unfolding remove_key
  DistinctKeys-remove_key i [] d = tt
  DistinctKeys-remove_key i ((j, a) ∷ m) d =
      ground (arith, lookup-remove_key j i m, DistinctKeys-remove_key i m d.1)

  pub DistinctKeys-insert_key :
      (i : ℕ) (a : A) (m : List (ℕ × A)) → DistinctKeys m → DistinctKeys (insert_key i a m)
  unfolding insert_key
  DistinctKeys-insert_key i a m d =
      (ground (arith, lookup-remove_key i i m), DistinctKeys-remove_key i m d)
