-- ===== src/DeltaSet.antt =====
-- api/src/services/cluster.rs: `ClusterDeltaSet`, the clusters that a round of changes touched, each
-- under its last change, and the part of `sync_clusters` that gathers and publishes them.
pub mod Merging
pub mod Told
use cluster_mempool_observer.Base.{
  ℕ, Bool, true, false, not, ◌&&◌, List, [], ◌∷◌, map, Option, none, some, length, ◌==◌,
  if◌then◌else◌, insert, remove, insert_key, remove_key,
}
use cluster_mempool_observer.Db.{is_active, Cluster}
use cluster_mempool_observer.Snapshot.{ActiveCluster, ClusterSnapshot, ClusterDeltaEvent, publish}

-- api/src/db/adapters.rs
abbrev pub from_cluster : Cluster → ActiveCluster
from_cluster c = record {
  id = c.id;
  chunks = c.chunks;
  total_weight = c.row.total_weight;
  total_fee = c.row.total_fee;
  first_seen_at = c.row.first_seen_at;
}

pub record ClusterDeltaSet : Type 0 where
  pub upserted : List (ℕ × ActiveCluster)
  pub removed : List ℕ

abbrev pub no_changes : ClusterDeltaSet
no_changes = record { upserted = []; removed = [] }

unfoldable pub mark_removed : ℕ → ClusterDeltaSet → ClusterDeltaSet
mark_removed id changes = record {
  upserted = remove_key id changes.upserted;
  removed = insert id changes.removed;
}

unfoldable pub record_upserted : ℕ → ActiveCluster → ClusterDeltaSet → ClusterDeltaSet
record_upserted id cluster changes = record {
  upserted = insert_key id cluster changes.upserted;
  removed = remove id changes.removed;
}

unfoldable pub mark_upserted : Cluster → ClusterDeltaSet → ClusterDeltaSet
mark_upserted cluster changes =
    if not (is_active cluster.row.status)
    then mark_removed cluster.id changes
    else record_upserted cluster.id (from_cluster cluster) changes

abbrev pub is_empty : ClusterDeltaSet → Bool
is_empty changes = length changes.upserted == 0 && length changes.removed == 0

-- The two loops of `merge`.
unfoldable pub merge_upserted : List (ℕ × ActiveCluster) → ClusterDeltaSet → ClusterDeltaSet
merge_upserted [] changes = changes
merge_upserted ((id, cluster) ∷ others) changes =
    merge_upserted others (record_upserted id cluster changes)

unfoldable pub merge_removed : List ℕ → ClusterDeltaSet → ClusterDeltaSet
merge_removed [] changes = changes
merge_removed (id ∷ ids) changes = merge_removed ids (mark_removed id changes)

unfoldable pub merge : ClusterDeltaSet → ClusterDeltaSet → ClusterDeltaSet
merge changes other = merge_removed other.removed (merge_upserted other.upserted changes)

-- The stages of `sync_clusters`, each of which ran or was skipped.
unfoldable pub merge_stages : List ClusterDeltaSet → ClusterDeltaSet → ClusterDeltaSet
merge_stages [] changes = changes
merge_stages (stage ∷ stages) changes = merge_stages stages (merge changes stage)

-- `publish_delta`.
unfoldable pub publish_delta :
    (ℕ → ℕ) → ClusterDeltaSet → ClusterSnapshot → ClusterSnapshot × Option ClusterDeltaEvent
publish_delta to_vbytes_ceil changes m =
    publish to_vbytes_ceil (map (λ entry. entry.1) changes.upserted) changes.removed m
