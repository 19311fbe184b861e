-- ===== src/BlockSync.antt =====
-- api/src/services/block.rs: `catch_up`, which applies the blocks that are missing, and the wait before
-- it is tried again. Of `apply_block` only that it stores the block or fails is in this model; the node
-- is taken to answer a height with a block of that height.
pub mod Chain
use cluster_mempool_observer.Base.{
  ℕ, zero, suc, ◌+◌, ◌-◌, ◌*◌, ◌^◌, Bool, true, false, not, List, [], ◌∷◌, Option, none, some, ltb,
  leb, if◌then◌else◌,
}

-- In milliseconds.
abbrev pub catch_up_backoff_base : ℕ
catch_up_backoff_base = 250

abbrev pub max_catch_up_backoff : ℕ
max_catch_up_backoff = 10000

-- `u32::MAX`.
abbrev pub u32_max : ℕ
u32_max = 4294967295

-- `1u32.checked_shl(attempts).unwrap_or(u32::MAX)`, which does not lose the bit below 32.
unfoldable pub shift_factor : ℕ → ℕ
shift_factor attempts = if ltb attempts 32 then 2 ^ attempts else u32_max

-- The product is far below the limit of a duration, where the multiplication would saturate.
unfoldable pub catch_up_backoff : ℕ → ℕ
catch_up_backoff attempts =
    let delay = catch_up_backoff_base * shift_factor attempts in
    if leb delay max_catch_up_backoff then delay else max_catch_up_backoff

abbrev pub higher : ℕ → Option ℕ → Option ℕ
higher h none = some h
higher h (some k) = if leb k h then some h else some k

-- The heights of the stored blocks, the last one stored first.
unfoldable pub latest_height : List ℕ → Option ℕ
latest_height [] = none
latest_height (h ∷ blocks) = higher h (latest_height blocks)

-- What a pass meets: the tip, or that it cannot be read; whether the database can be read; and at
-- which heights the block's hash, the block and its storing succeed.
pub record Pass : Type 0 where
  pub tip : Option ℕ
  pub reads : Bool
  pub applies : ℕ → Bool

pub data CatchUp : Type 0 where
  caught_up failed : CatchUp

abbrev pub next_height : ℕ → Option ℕ → ℕ
next_height tip none = tip
next_height tip (some height) = height + 1

-- The loop over `next..=tip`, of so many heights: whether all were applied.
unfoldable pub apply_heights : (ℕ → Bool) → ℕ → ℕ → List ℕ → Bool × List ℕ
apply_heights applies height zero blocks = (true, blocks)
apply_heights applies height (suc n) blocks =
    let rest = apply_heights applies (suc height) n (height ∷ blocks) in
    if applies height then rest else (false, blocks)

-- The rest of a pass that has read the tip and the database: whether it ended, and how.
unfoldable pub run_pass : (ℕ → Bool) → ℕ → List ℕ → Option CatchUp × List ℕ
run_pass applies tip blocks =
    let next = next_height tip (latest_height blocks) in
    if ltb tip next
    then (some caught_up, blocks)
    else let applied = apply_heights applies next (suc tip - next) blocks in
      (if applied.0 then none else some failed, applied.1)

abbrev pub pass_once : Option ℕ → Bool → (ℕ → Bool) → List ℕ → Option CatchUp × List ℕ
pass_once none reads applies blocks = (some failed, blocks)
pass_once (some tip) false applies blocks = (some failed, blocks)
pass_once (some tip) true applies blocks = run_pass applies tip blocks

abbrev pub or_next : Option CatchUp × List ℕ → Option CatchUp × List ℕ → Option CatchUp × List ℕ
or_next (some result, blocks) rest = (some result, blocks)
or_next (none, blocks) rest = rest

-- The loop, over the passes that it meets: no result if they do not suffice.
unfoldable pub catch_up : List Pass → List ℕ → Option CatchUp × List ℕ
catch_up [] blocks = (none, blocks)
catch_up (p ∷ passes) blocks =
    let once = pass_once p.tip p.reads p.applies blocks in or_next once (catch_up passes once.1)
