-- ===== src/BlockSync/Chain.antt =====
-- api/src/services/block.rs: the order in which blocks are applied, and how far a catch-up gets.
use cluster_mempool_observer.Base.{
  ℕ, zero, suc, ◌+◌, ◌-◌, ◌*◌, ◌^◌, ◌≤◌, ◌≡◌, refl, ◌∙◌, ap, Bool, true, false, List, [], ◌∷◌,
  Option, none, some, ltb, leb, arith, Bool-cases, inl, inr, if◌then◌else◌,
}
use Prim.Native.Nat.pow
use cluster_mempool_observer.BlockSync.{
  catch_up_backoff_base, max_catch_up_backoff, u32_max, shift_factor, catch_up_backoff,
  latest_height, Pass, CatchUp, caught_up, next_height, apply_heights, run_pass, pass_once, or_next,
  catch_up,
}

-- Each block is one above the one stored before it.
abbrev pub IsChain : List ℕ → Type 0
IsChain [] = Unit {0}
IsChain (h ∷ []) = Unit {0}
IsChain (h ∷ k ∷ blocks) = (h ≡ suc k) × IsChain (k ∷ blocks)

abbrev pub top : List ℕ → Option ℕ
top [] = none
top (h ∷ blocks) = some h

latest_height-top : (blocks : List ℕ) → IsChain blocks → latest_height blocks ≡ top blocks
unfolding latest_height
latest_height-top [] v = refl
latest_height-top (h ∷ []) v = refl
latest_height-top (h ∷ k ∷ blocks) v =
    rw (latest_height-top (k ∷ blocks) v.1)
      (let lower : leb k h ≡ true = ground (arith, v.0) in rw lower refl)

-- The next height follows the top.
abbrev Follows : ℕ → List ℕ → Type 0
Follows height [] = Unit {0}
Follows height (h ∷ blocks) = height ≡ suc h

IsChain-cons :
    (height : ℕ) (blocks : List ℕ)
    → Follows height blocks
    → IsChain blocks
    → IsChain (height ∷ blocks)
IsChain-cons height [] f v = tt
IsChain-cons height (h ∷ blocks) f v = (f, v)

apply_heights-IsChain :
    (applies : ℕ → Bool) (height n : ℕ) (blocks : List ℕ)
    → Follows height blocks
    → IsChain blocks
    → IsChain (apply_heights applies height n blocks).1
unfolding apply_heights
apply_heights-IsChain applies height zero blocks f v = v
apply_heights-IsChain applies height (suc n) blocks f v =
    let rest =
      apply_heights-IsChain applies (suc height) n (height ∷ blocks) refl
        (IsChain-cons height blocks f v) in
    elim (Bool-cases (applies height)) [ inl ok ↦ rw ok rest | inr broken ↦ rw broken v ]

next_height-Follows : (tip : ℕ) (blocks : List ℕ) → Follows (next_height tip (top blocks)) blocks
next_height-Follows tip [] = tt
next_height-Follows tip (h ∷ blocks) = omega arith

run_pass-IsChain :
    (applies : ℕ → Bool) (tip : ℕ) (blocks : List ℕ)
    → IsChain blocks
    → IsChain (run_pass applies tip blocks).1
unfolding run_pass
run_pass-IsChain applies tip blocks v =
    let next = next_height tip (latest_height blocks) in
    let f : Follows next blocks =
      rw (latest_height-top blocks v) (next_height-Follows tip blocks) in
    elim (Bool-cases (ltb tip next)) [
      | inl done ↦ rw done v
      | inr behind ↦ rw behind (apply_heights-IsChain applies next (suc tip - next) blocks f v)
    ]

pass_once-IsChain :
    (tip : Option ℕ) (reads : Bool) (applies : ℕ → Bool) (blocks : List ℕ)
    → IsChain blocks
    → IsChain (pass_once tip reads applies blocks).1
pass_once-IsChain none reads applies blocks v = v
pass_once-IsChain (some tip) false applies blocks v = v
pass_once-IsChain (some tip) true applies blocks v = run_pass-IsChain applies tip blocks v

or_next-IsChain :
    (once rest : Option CatchUp × List ℕ)
    → IsChain once.1
    → IsChain rest.1
    → IsChain (or_next once rest).1
or_next-IsChain (some result, blocks) rest v w = v
or_next-IsChain (none, blocks) rest v w = w

-- Whatever tips a catch-up reads and wherever it fails, each block that it stores is one above the block
-- stored before it: no height is skipped, and none is applied twice.
pub catch_up-IsChain :
    (passes : List Pass) (blocks : List ℕ) → IsChain blocks → IsChain (catch_up passes blocks).1
unfolding catch_up
catch_up-IsChain [] blocks v = v
catch_up-IsChain (p ∷ passes) blocks v =
    let once = pass_once p.tip p.reads p.applies blocks in
    let w = pass_once-IsChain p.tip p.reads p.applies blocks v in
    or_next-IsChain once (catch_up passes once.1) w (catch_up-IsChain passes once.1 w)

apply_heights-top :
    (applies : ℕ → Bool) (height n : ℕ) (blocks : List ℕ)
    → ((h : ℕ) → applies h ≡ true)
    → ((apply_heights applies height (suc n) blocks).0 ≡ true)
      × (top (apply_heights applies height (suc n) blocks).1 ≡ some (height + n))
unfolding apply_heights
apply_heights-top applies height zero blocks ok =
    rw (ok height) (refl, (let e : height ≡ height + 0 = omega arith in ap some e))
apply_heights-top applies height (suc n) blocks ok =
    let rest = apply_heights-top applies (suc height) n (height ∷ blocks) ok in
    let e : suc height + n ≡ height + suc n = omega arith in
    rw (ok height) (rest.0, rest.1 ∙ ap some e)

abbrev pub reaches : ℕ → Option ℕ → Bool
reaches tip none = false
reaches tip (some h) = leb tip h

run_pass-ahead :
    (applies : ℕ → Bool) (tip : ℕ) (blocks : List ℕ)
    → ltb tip (next_height tip (latest_height blocks)) ≡ true
    → run_pass applies tip blocks ≡ (some caught_up, blocks)
unfolding run_pass
run_pass-ahead applies tip blocks ahead = rw ahead refl

run_pass-behind :
    (applies : ℕ → Bool) (tip : ℕ) (blocks : List ℕ)
    → ((h : ℕ) → applies h ≡ true)
    → ltb tip (next_height tip (latest_height blocks)) ≡ false
    → ((run_pass applies tip blocks).0 ≡ none) × (top (run_pass applies tip blocks).1 ≡ some tip)
unfolding run_pass
run_pass-behind applies tip blocks ok behind =
    let next = next_height tip (latest_height blocks) in
    let m = tip - next in
    let count : suc tip - next ≡ suc m = ground arith in
    let all = apply_heights-top applies next m blocks ok in
    let last : next + m ≡ tip = ground arith in
    rw (behind, count) (rw all.0 (refl, all.1 ∙ ap some last))

-- The tip's own pass: nothing is left above the top.
ahead_of_top :
    (tip : ℕ) (blocks : List ℕ)
    → IsChain blocks
    → top blocks ≡ some tip
    → ltb tip (next_height tip (latest_height blocks)) ≡ true
ahead_of_top tip blocks v h = rw (latest_height-top blocks v, h) (ground arith)

top-ahead : (tip : ℕ) (o : Option ℕ) → ltb tip (next_height tip o) ≡ true → reaches tip o ≡ true
top-ahead tip none h = absurd (ground arith)
top-ahead tip (some k) h = ground arith

-- If the tip stays where it is and nothing fails, two passes of a catch-up are enough: it ends, and the
-- last block stored is at the tip or above.
pub catch_up-reaches :
    (tip : ℕ) (applies : ℕ → Bool) (blocks : List ℕ)
    → IsChain blocks
    → ((h : ℕ) → applies h ≡ true)
    → let p : Pass = record { tip = some tip; reads = true; applies = applies } in
      ((catch_up (p ∷ p ∷ []) blocks).0 ≡ some caught_up)
      × (reaches tip (top (catch_up (p ∷ p ∷ []) blocks).1) ≡ true)
unfolding catch_up
catch_up-reaches tip applies blocks v ok =
    elim (Bool-cases (ltb tip (next_height tip (latest_height blocks)))) [
      | inl ahead ↦
          rw (run_pass-ahead applies tip blocks ahead)
            (refl, top-ahead tip (top blocks) (rw (latest_height-top blocks v) at ahead))
      | inr behind ↦
          let first = run_pass-behind applies tip blocks ok behind in
          let mid = (run_pass applies tip blocks).1 in
          let w = run_pass-IsChain applies tip blocks v in
          let second = run_pass-ahead applies tip mid (ahead_of_top tip mid w first.1) in
          rw (first.0, second) (refl, rw first.1 (ground arith))
    ]

power_positive : (n : ℕ) → 1 ≤ 2 ^ n
power_positive zero = omega arith
power_positive (suc n) = rw (pow.suc 2 n) (omega (arith, power_positive n))

-- The wait before a catch-up is tried again is between the base and the maximum, however many attempts
-- there were.
catch_up_backoff-bounds :
    (attempts : ℕ)
    → (catch_up_backoff_base ≤ catch_up_backoff attempts)
      × (catch_up_backoff attempts ≤ max_catch_up_backoff)
unfolding catch_up_backoff shift_factor
catch_up_backoff-bounds attempts =
    let positive : 1 ≤ (if ltb attempts 32 then 2 ^ attempts else u32_max) =
      elim (Bool-cases (ltb attempts 32)) [
        | inl few ↦ rw few (power_positive attempts)
        | inr many ↦ rw many (omega arith)
      ] in
    clamp (if ltb attempts 32 then 2 ^ attempts else u32_max) positive
  where
    clamp :
        (factor : ℕ)
        → 1 ≤ factor
        → (250 ≤ (if leb (250 * factor) 10000 then 250 * factor else 10000))
          × ((if leb (250 * factor) 10000 then 250 * factor else 10000) ≤ 10000)
    clamp factor h = elim (Bool-cases (leb (250 * factor) 10000)) [
      | inl below ↦ rw below (omega arith, ground arith)
      | inr above ↦ rw above (omega arith, omega arith)
    ]
