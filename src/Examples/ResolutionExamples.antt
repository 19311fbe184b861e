-- ===== src/Examples/ResolutionExamples.antt =====
-- api/src/services/resolution.rs: the ranges that its tests name, and the theorem at one of them.
use cluster_mempool_observer.Base.{◌/◌, ◌≤◌, ◌<◌, true, ◌≡◌, refl, contains, ◌⊎◌}
use cluster_mempool_observer.Resolution.{
  resolution_ladder, max_points, find_rung, pick_resolution, pick_resolution-smallest,
}

-- A day, thirty days, and ten years.
picks :
    (pick_resolution 86400 ≡ 60)
    × (pick_resolution 2592000 ≡ 1800)
    × (pick_resolution 315360000 ≡ 86400)
unfolding pick_resolution find_rung
picks = (refl, refl, refl)

pick_resolution-smallest_example :
    ((2592000 / pick_resolution 2592000 ≤ max_points) ⊎ (pick_resolution 2592000 ≡ 86400))
    × (contains (pick_resolution 2592000) resolution_ladder ≡ true)
    × ((pick_resolution 2592000 ≤ 600) ⊎ (max_points < 2592000 / 600))
pick_resolution-smallest_example = pick_resolution-smallest 2592000 600 refl
