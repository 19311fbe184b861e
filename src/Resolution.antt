-- ===== src/Resolution.antt =====
-- api/src/services/resolution.rs: the size of the buckets that a range of a time series is divided into.
use cluster_mempool_observer.Base.{
  ℕ, ◌/◌, ◌≤◌, ◌<◌, true, ◌≡◌, List, [], ◌∷◌, Option, none, some, leb, arith, if◌then◌else◌,
  contains, ◌⊎◌,
}

-- `RESOLUTION_LADDER_SECS`.
abbrev pub resolution_ladder : List ℕ
resolution_ladder = 60 ∷ 300 ∷ 600 ∷ 1800 ∷ 3600 ∷ 21600 ∷ 86400 ∷ []

abbrev pub max_points : ℕ
max_points = 2000

unfoldable pub find_rung : ℕ → List ℕ → Option ℕ
find_rung span [] = none
find_rung span (res ∷ rungs) =
    let rest = find_rung span rungs in if leb (span / res) max_points then some res else rest

abbrev unwrap_or : Option ℕ → ℕ → ℕ
unwrap_or none last = last
unwrap_or (some res) last = res

-- A range that ends before it starts gets the first rung, as an empty one does.
unfoldable pub pick_resolution : ℕ → ℕ
pick_resolution span = unwrap_or (find_rung span resolution_ladder) 86400

-- The bucket size is a rung of the ladder, which keeps the range within the cap of points unless it is the
-- widest, and with every smaller rung of the ladder the range exceeds the cap.
pub pick_resolution-smallest :
    (span rung : ℕ)
    → contains rung resolution_ladder ≡ true
    → ((span / pick_resolution span ≤ max_points) ⊎ (pick_resolution span ≡ 86400))
      × (contains (pick_resolution span) resolution_ladder ≡ true)
      × ((pick_resolution span ≤ rung) ⊎ (max_points < span / rung))
unfolding pick_resolution find_rung
pick_resolution-smallest span rung h = (ground arith, ground arith, ground arith)
