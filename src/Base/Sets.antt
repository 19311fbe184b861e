-- ===== src/Base/Sets.antt =====
-- Sets of numbers as lists without repetition: what `HashSet` and `BTreeSet` are used for. The list
-- is in the order in which the set iterates, so a statement about every list covers every order.
use Prim.Native.Nat.{ℕ}
use mathlib.Core.Path.{◌≡◌, refl}
use mathlib.Core.Bool.{Bool, true, false, not, ◌&&◌, ◌||◌}
use mathlib.Core.List.{List, [], ◌∷◌, ◌++◌}
use native.Mathlib.Omega.{arith}
use cluster_mempool_observer.Base.Tests.{◌==◌, if◌then◌else◌}
use cluster_mempool_observer.Base.Lists.{keep}

abbrev pub contains : ℕ → List ℕ → Bool
contains x [] = false
contains x (y ∷ ys) = x == y || contains x ys

unfoldable pub insert : ℕ → List ℕ → List ℕ
insert x s = if contains x s then s else x ∷ s

unfoldable pub remove : ℕ → List ℕ → List ℕ
remove x [] = []
remove x (y ∷ ys) = if x == y then remove x ys else y ∷ remove x ys

-- The elements of the first set that the second does not hold.
unfoldable pub difference : List ℕ → List ℕ → List ℕ
difference xs ys = keep (λ x. not (contains x ys)) xs

abbrev pub Distinct : List ℕ → Type 0
Distinct [] = Unit {0}
Distinct (x ∷ xs) = (contains x xs ≡ false) × Distinct xs

pub contains-append :
    (x : ℕ) (xs ys : List ℕ) → contains x (xs ++ ys) ≡ (contains x xs || contains x ys)
contains-append x [] ys = refl
contains-append x (y ∷ xs) ys = ground (arith, contains-append x xs ys)

pub contains_self : (x : ℕ) (xs : List ℕ) → contains x (x ∷ xs) ≡ true
contains_self x xs = ground arith

pub contains-insert : (x y : ℕ) (s : List ℕ) → contains x (insert y s) ≡ (x == y || contains x s)
unfolding insert
contains-insert x y s = ground arith

pub contains-remove :
    (x y : ℕ) (s : List ℕ) → contains x (remove y s) ≡ (not (x == y) && contains x s)
unfolding remove
contains-remove x y [] = ground arith
contains-remove x y (z ∷ s) = ground (arith, contains-remove x y s)

pub contains-keep :
    (x : ℕ) (p : ℕ → Bool) (s : List ℕ) → contains x (keep p s) ≡ (p x && contains x s)
contains-keep x p [] = ground arith
contains-keep x p (z ∷ s) = ground (arith, contains-keep x p s)

pub contains-difference :
    (x : ℕ) (xs ys : List ℕ)
    → contains x (difference xs ys) ≡ (contains x xs && not (contains x ys))
unfolding difference
contains-difference x xs ys = ground (arith, contains-keep x (λ z. not (contains z ys)) xs)

Distinct-keep : (p : ℕ → Bool) (s : List ℕ) → Distinct s → Distinct (keep p s)
Distinct-keep p [] d = tt
Distinct-keep p (x ∷ s) d = ground (arith, contains-keep x p s, Distinct-keep p s d.1)

pub Distinct-difference : (xs ys : List ℕ) → Distinct xs → Distinct (difference xs ys)
unfolding difference
Distinct-difference xs ys d = Distinct-keep _ xs d

pub Distinct-insert : (x : ℕ) (s : List ℕ) → Distinct s → Distinct (insert x s)
unfolding insert
Distinct-insert x s d = ground arith

pub Distinct-remove : (x : ℕ) (s : List ℕ) → Distinct s → Distinct (remove x s)
unfolding remove
Distinct-remove x [] d = tt
Distinct-remove x (y ∷ s) d = ground (arith, contains-remove y x s, Distinct-remove x s d.1)
