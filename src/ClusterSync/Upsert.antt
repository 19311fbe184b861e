-- ===== src/ClusterSync/Upsert.antt =====
-- api/src/services/cluster.rs: `upsert`, which inserts a cluster that the node reports or makes one of
-- the clusters that held its transactions.
use cluster_mempool_observer.Base.{
  ℕ, not, List, [], ◌∷◌, ◌++◌, Option, none, some, Txid, Time, contains, keep, length, ltb, ◌==◌,
  if◌then◌else◌,
}
use cluster_mempool_observer.Db.{ClusterChunk, Cluster, NewCluster}
use cluster_mempool_observer.Membership.{as_merged, close_many, replace_chunks, chunk_txids}
use cluster_mempool_observer.Membership.Insertion.{insert_in}
use cluster_mempool_observer.Membership.Loading.{find_by_ids, ids_of}
use cluster_mempool_observer.DeltaSet.{ClusterDeltaSet, no_changes, mark_upserted, merge_removed}
use cluster_mempool_observer.ClusterSync.{Outside, World, query, transact}

pub record UpsertOutcome : Type 0 where
  pub changes : ClusterDeltaSet
  pub detached : List Txid

abbrev pub untouched : ClusterDeltaSet → UpsertOutcome
untouched changes = record { changes = changes; detached = [] }

unfoldable pub mark_all : List Cluster → ClusterDeltaSet → ClusterDeltaSet
mark_all [] changes = changes
mark_all (row ∷ rows) changes = mark_all rows (mark_upserted row changes)

abbrev pub new_cluster : Time → List ClusterChunk → NewCluster
new_cluster now chunks = record { chunks = chunks; first_seen_at = now }

-- `existing.iter().min_by_key(|c| c.first_seen_at)`: of several first ones, the first.
unfoldable pub earliest : Cluster → List Cluster → Cluster
earliest c [] = c
earliest c (d ∷ ds) = earliest (if ltb d.row.first_seen_at c.row.first_seen_at then d else c) ds

unfoldable pub members_of : List Cluster → List Txid
members_of [] = []
members_of (c ∷ cs) = chunk_txids c.chunks ++ members_of cs

abbrev pub other_ids : ℕ → List Cluster → List ℕ
other_ids keep_id existing = keep (λ id. not (id == keep_id)) (ids_of existing)

abbrev pub with_rows : List Cluster → Option (List Cluster) → Option (List Cluster)
with_rows rows none = none
with_rows rows (some more) = some (rows ++ more)

-- The loop stops at a batch that fails, in the state that is left.
abbrev pub after_batch :
    Option (List Cluster) → World → Option (List Cluster) × World → Option (List Cluster) × World
after_batch none w rest = (none, w)
after_batch (some rows) w (more, w') = (with_rows rows more, w')

module _ (o : Outside) where
  -- `replace_chunks`, and what follows it.
  unfoldable pub replace_into :
      List ClusterChunk → ℕ → List Txid → ClusterDeltaSet → World → UpsertOutcome × World
  replace_into chunks keep_id detached changes w =
      let (updated, w') =
        transact o
          (λ now db. replace_chunks now (record { cluster_id = keep_id; chunks = chunks }) db) w in
      elim updated [
        | none ↦ (record { changes = changes; detached = detached }, w')
        | some row ↦ (record { changes = mark_upserted row changes; detached = detached }, w')
      ]

  -- The clusters found, of which one is kept.
  unfoldable pub merge_into : List ClusterChunk → List Cluster → World → UpsertOutcome × World
  merge_into chunks [] w = (untouched no_changes, w)
  merge_into chunks (c ∷ cs) w =
      let keep_id = (earliest c cs).id in
      let detached = keep (λ x. not (contains x (chunk_txids chunks))) (members_of (c ∷ cs)) in
      let clusters_to_remove = other_ids keep_id (c ∷ cs) in
      if length clusters_to_remove == 0
      then replace_into chunks keep_id detached no_changes w
      else let (closed, w') =
          transact o (λ now db. some (close_many now as_merged clusters_to_remove db)) w in
        elim closed [
          | none ↦ (untouched no_changes, w')
          | some _ ↦
              replace_into chunks keep_id detached (merge_removed clusters_to_remove no_changes) w'
        ]

  unfoldable pub upsert : List ClusterChunk → List ℕ → World → UpsertOutcome × World
  upsert chunks [] w =
      let first_seen_at = o.now w.calls in
      let (inserted, w') =
        transact o (λ now db. some (insert_in now (new_cluster first_seen_at chunks ∷ []) db)) w in
      elim inserted [
        | none ↦ (untouched no_changes, w')
        | some rows ↦ (untouched (mark_all rows no_changes), w')
      ]
  upsert chunks (id ∷ ids) w =
      let (existing, w') = query o (find_by_ids (id ∷ ids)) w in
      elim existing [
        | none ↦ (untouched no_changes, w')
        | some clusters ↦ merge_into chunks clusters w'
      ]

  -- The loop of `insert_many_with_members` against a database that may fail: the batches before the
  -- one that fails stay written.
  unfoldable pub insert_each : List (List NewCluster) → World → Option (List Cluster) × World
  insert_each [] w = (some [], w)
  insert_each (batch ∷ batches) w =
      let (inserted, w') = transact o (λ now db. some (insert_in now batch db)) w in
      after_batch inserted w' (insert_each batches w')
