-- ===== src/Examples/SnapshotExamples.antt =====
-- shared/src/snapshot/cluster.rs and api/src/services/cluster.rs: small snapshots and change sets, and
-- the theorems at them.
use cluster_mempool_observer.Base.{
  ℕ, ◌+◌, ◌<◌, Bool, true, false, not, ◌&&◌, ◌||◌, ◌≡◌, ◌≢◌, refl, List, [], ◌∷◌, ◌++◌, map, Option,
  none, some, arith, Txid, Time, contains, lookup, DistinctKeys, if◌then◌else◌, insert_key,
  remove_key, chunks_from, keep, insert, any, length, ◌==◌, ◌/◌, All, IsFrame, leb,
}
use cluster_mempool_observer.Base
use cluster_mempool_observer.Db.{Cluster, active}
use cluster_mempool_observer.Snapshot.{
  ActiveCluster, ClusterSnapshot, state, seed, collect, get_current_snapshot, get_current_chunked,
  ClusterDeltaEvent, publish, publish_rounds, upsert_all, upsert, remove, remove_all, reference,
}
use cluster_mempool_observer.Snapshot.Client.{Shows}
use cluster_mempool_observer.Snapshot.Subscription.{
  apply_events, apply_frames, empty_view, subscription-Shows,
}
use cluster_mempool_observer.Snapshot.Tracking.{or_else, get_current_chunked-covers, upserted_of}
use cluster_mempool_observer.DeltaSet.{
  ClusterDeltaSet, no_changes, mark_removed, mark_upserted, merge, merge_stages, publish_delta,
  record_upserted, merge_upserted, merge_removed,
}
use cluster_mempool_observer.DeltaSet.Merging.{
  IsCoherent, lookup-merge, or_else_active, is_none, merge_stages-IsCoherent, publish_delta-follows,
  state_of, mark_upserted-IsCoherent, mark_removed-IsCoherent,
}

-- Rounds up to a quarter, as the library documents it.
abbrev vbytes : ℕ → ℕ
vbytes weight = (weight + 3) / 4

abbrev cluster_of : ℕ → List Txid → ℕ → ActiveCluster
cluster_of id txids fee = record {
  id = id;
  chunks = record { txids = txids; fee_sats = fee; weight = 402 } ∷ [];
  total_weight = 402;
  total_fee = fee;
  first_seen_at = 5;
}

abbrev two_clusters : ClusterSnapshot
two_clusters = seed (cluster_of 1 (10 ∷ 11 ∷ []) 90 ∷ cluster_of 2 (12 ∷ []) 40 ∷ [])

two_clusters-DistinctKeys : DistinctKeys two_clusters
unfolding seed collect insert_key remove_key
two_clusters-DistinctKeys = (refl, (refl, tt))

-- One cluster is unchanged, one is new, and one of the removed is not tracked.
publishes :
    (publish vbytes
      (cluster_of 1 (10 ∷ 11 ∷ []) 90 ∷ cluster_of 3 (13 ∷ []) 8 ∷ [])
      (2 ∷ 9 ∷ [])
      two_clusters).1
    ≡ some (record {
      upserted = reference vbytes 3 (state (cluster_of 3 (13 ∷ []) 8)) ∷ [];
      removed = 2 ∷ [];
    })
unfolding publish upsert_all upsert remove remove_all seed collect insert_key remove_key
publishes = refl

-- A cluster is removed before the snapshot is read, and comes back after.
abbrev missed_rounds : List (List ActiveCluster × List ℕ)
missed_rounds = (cluster_of 3 (13 ∷ []) 8 ∷ [], 2 ∷ []) ∷ []

abbrev later_rounds : List (List ActiveCluster × List ℕ)
later_rounds = (cluster_of 2 (12 ∷ 14 ∷ []) 50 ∷ [], 1 ∷ []) ∷ []

subscription-Shows_example :
    let mid = publish_rounds vbytes missed_rounds two_clusters in
    let end = publish_rounds vbytes later_rounds mid.0 in
    let view = apply_frames (get_current_snapshot vbytes mid.0) empty_view in
    Shows vbytes end.0 (apply_events end.1 (apply_events mid.1 view))
subscription-Shows_example =
    subscription-Shows vbytes missed_rounds later_rounds two_clusters two_clusters-DistinctKeys

get_current_chunked-covers_example :
    (upserted_of vbytes (get_current_chunked vbytes 1 two_clusters)
      ≡ map (λ entry. reference vbytes entry.0 entry.1) two_clusters)
    × All
        (λ (event : ClusterDeltaEvent).
          (event.removed ≡ []) × IsFrame (if leb 1 1 then 1 else 1) event.upserted)
        (get_current_chunked vbytes 1 two_clusters)
get_current_chunked-covers_example = get_current_chunked-covers vbytes 1 two_clusters

abbrev cluster : ℕ → List Txid → Cluster
cluster id txids = record {
  id = id;
  row = record {
    status = active;
    version = 1;
    total_weight = 402;
    total_fee = 90;
    first_seen_at = 5;
    confirmed_at = none;
    closed_at = none;
  };
  chunks =
      record { txids = txids; fee_sats = 60; weight = 200 }
      ∷ record { txids = 20 ∷ []; fee_sats = 30; weight = 202 }
      ∷ [];
}

-- First 1 is upserted and 2 removed, then 1 is removed and 2 brought back.
abbrev first_changes : ClusterDeltaSet
first_changes = mark_removed 2 (mark_upserted (cluster 1 (10 ∷ [])) no_changes)

abbrev second_changes : ClusterDeltaSet
second_changes = mark_upserted (cluster 2 (12 ∷ [])) (mark_removed 1 no_changes)

no_changes-IsCoherent : IsCoherent no_changes
no_changes-IsCoherent = record { distinct = tt; keyed = tt; disjoint = λ id m. refl }

first_changes-IsCoherent : IsCoherent first_changes
first_changes-IsCoherent =
    mark_removed-IsCoherent 2 (mark_upserted (cluster 1 (10 ∷ [])) no_changes)
      (mark_upserted-IsCoherent (cluster 1 (10 ∷ [])) no_changes no_changes-IsCoherent)

second_changes-IsCoherent : IsCoherent second_changes
second_changes-IsCoherent =
    mark_upserted-IsCoherent (cluster 2 (12 ∷ [])) (mark_removed 1 no_changes)
      (mark_removed-IsCoherent 1 no_changes no_changes-IsCoherent)

merges : (merge first_changes second_changes).removed ≡ 1 ∷ []
unfolding merge merge_upserted merge_removed mark_upserted mark_removed record_upserted insert_key
    remove_key insert Base.remove
merges = refl

lookup-merge_example :
    (lookup 2 (merge first_changes second_changes).upserted ≡ (
      if contains 2 second_changes.removed
      then none
      else or_else_active (lookup 2 second_changes.upserted) (lookup 2 first_changes.upserted)))
    × (contains 2 (merge first_changes second_changes).removed ≡ (
        contains 2 second_changes.removed
        || (contains 2 first_changes.removed && is_none (lookup 2 second_changes.upserted))))
lookup-merge_example = lookup-merge 2 first_changes second_changes second_changes-IsCoherent

merge_stages-IsCoherent_example :
    IsCoherent (merge_stages (first_changes ∷ second_changes ∷ []) no_changes)
merge_stages-IsCoherent_example =
    merge_stages-IsCoherent (first_changes ∷ second_changes ∷ [])
      (first_changes-IsCoherent, (second_changes-IsCoherent, tt))

publish_delta-follows_example : lookup 2 (publish_delta vbytes second_changes two_clusters).0 ≡ (
    if contains 2 second_changes.removed
    then none
    else or_else (state_of (lookup 2 second_changes.upserted)) (lookup 2 two_clusters))
publish_delta-follows_example =
    publish_delta-follows vbytes second_changes two_clusters 2 second_changes-IsCoherent
