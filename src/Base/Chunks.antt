-- ===== src/Base/Chunks.antt =====
-- `slice::chunks` and the loops that fill a buffer and flush it when it is full.
use Prim.Native.Nat.{ℕ, ◌≤◌, ◌<◌}
use mathlib.Core.Path.{◌≡◌, refl}
use mathlib.Core.Logic.{inl, inr}
use mathlib.Core.Bool.{true}
use mathlib.Core.List.{List, [], ◌∷◌, ◌++◌, append_assoc}
use native.Mathlib.Omega.{arith}
use cluster_mempool_observer.Base.Tests.{◌==◌, if◌then◌else◌, Bool-cases}
use cluster_mempool_observer.Base.Lists.{length, length-append, All}

module _ {ℓ} {A : Type ℓ} where
  -- The chunks of a list, after a buffer that is not full.
  unfoldable pub chunks_from : ℕ → List A → List A → List (List A)
  chunks_from n buffer [] = if length buffer == 0 then [] else buffer ∷ []
  chunks_from n buffer (x ∷ xs) =
      let filled = buffer ++ x ∷ [] in
      let rest = chunks_from n (if length filled == n then [] else filled) xs in
      if length filled == n then filled ∷ rest else rest

  abbrev pub in_chunks : ℕ → List A → List (List A)
  in_chunks n = chunks_from n []

  abbrev pub flatten : List (List A) → List A
  flatten [] = []
  flatten (xs ∷ xss) = xs ++ flatten xss

  is_empty-≡ : (xs : List A) → (length xs == 0) ≡ true → xs ≡ []
  is_empty-≡ [] h = refl
  is_empty-≡ (x ∷ xs) h = absurd (ground arith)

  pub flatten-chunks_from :
      (n : ℕ) (buffer xs : List A) → flatten (chunks_from n buffer xs) ≡ buffer ++ xs
  unfolding chunks_from
  flatten-chunks_from n buffer [] = elim (Bool-cases (length buffer == 0)) [
    | inl idle ↦ rw (idle, is_empty-≡ buffer idle) refl
    | inr busy ↦ rw busy refl
  ]
  flatten-chunks_from n buffer (x ∷ xs) = elim (Bool-cases (length (buffer ++ x ∷ []) == n)) [
    | inl full ↦ rw (full, flatten-chunks_from n [] xs) (append_assoc buffer (x ∷ []) xs)
    | inr room ↦
        rw (room, flatten-chunks_from n (buffer ++ x ∷ []) xs) (append_assoc buffer (x ∷ []) xs)
  ]

  -- Filled to between one element and `n`.
  abbrev pub IsFrame : ℕ → List A → Type 0
  IsFrame n frame = (0 < length frame) × (length frame ≤ n)

  pub chunks_from-IsFrame :
      (n : ℕ) (buffer xs : List A) → length buffer < n → All (IsFrame n) (chunks_from n buffer xs)
  unfolding chunks_from
  chunks_from-IsFrame n buffer [] h = elim (Bool-cases (length buffer == 0)) [
    | inl idle ↦ rw idle tt
    | inr busy ↦ rw busy ((ground arith, ground arith), tt)
  ]
  chunks_from-IsFrame n buffer (x ∷ xs) h =
      let size = length-append buffer (x ∷ []) in
      elim (Bool-cases (length (buffer ++ x ∷ []) == n)) [
        | inl full ↦
            rw full (
              (omega (arith, size), ground (arith, size)),
              chunks_from-IsFrame n [] xs (omega arith),
            )
        | inr room ↦ rw room (chunks_from-IsFrame n (buffer ++ x ∷ []) xs (ground (arith, size)))
      ]
