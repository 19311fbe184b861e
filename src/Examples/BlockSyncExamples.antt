-- ===== src/Examples/BlockSyncExamples.antt =====
-- api/src/services/block.rs: catch-ups, and the theorems at them.
use cluster_mempool_observer.Base.{ℕ, true, not, ◌≡◌, refl, List, [], ◌∷◌, some, ◌==◌}
use cluster_mempool_observer.BlockSync.{
  Pass, caught_up, failed, catch_up, run_pass, apply_heights, latest_height, catch_up_backoff,
  shift_factor,
}
use cluster_mempool_observer.BlockSync.Chain.{
  IsChain, reaches, top, catch_up-IsChain, catch_up-reaches,
}

abbrev stored : List ℕ
stored = 101 ∷ 100 ∷ []

-- The block at 104 cannot be fetched in the first pass.
abbrev passes : List Pass
passes = record { tip = some 105; reads = true; applies = λ h. not (h == 104) } ∷ []

stops : catch_up passes stored ≡ (some failed, 103 ∷ 102 ∷ stored)
unfolding catch_up run_pass apply_heights latest_height
stops = refl

catch_up-IsChain_example : IsChain (catch_up passes stored).1
catch_up-IsChain_example = catch_up-IsChain passes stored (refl, tt)

abbrev steady : Pass
steady = record { tip = some 103; reads = true; applies = λ h. true }

catch_up-reaches_example :
    ((catch_up (steady ∷ steady ∷ []) stored).0 ≡ some caught_up)
    × (reaches 103 (top (catch_up (steady ∷ steady ∷ []) stored).1) ≡ true)
catch_up-reaches_example = catch_up-reaches 103 (λ h. true) stored (refl, tt) (λ h. refl)

waits : catch_up_backoff 5 ≡ 8000
unfolding catch_up_backoff shift_factor
waits = refl

waits_at_most : catch_up_backoff 40 ≡ 10000
unfolding catch_up_backoff shift_factor
waits_at_most = refl
