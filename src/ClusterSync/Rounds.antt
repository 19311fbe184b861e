-- ===== src/ClusterSync/Rounds.antt =====
-- api/src/services/cluster.rs: the rounds of changes that start from candidates, evictions and mined
-- transactions, and their publication. Metrics are left out.
use cluster_mempool_observer.Base.{
  ℕ, not, List, [], ◌∷◌, ◌++◌, map, Option, none, some, Txid, Time, insert, keep, length, ◌==◌,
  if◌then◌else◌,
}
use cluster_mempool_observer.Db.{Cluster, Transaction, Database}
use cluster_mempool_observer.Snapshot.{ClusterDeltaEvent, seed}
use cluster_mempool_observer.Membership.{
  as_evicted, close_many, confirm_many_in, trim_and_confirm_many,
}
use cluster_mempool_observer.Membership.Lookup.{find_active_ids_by_txids}
use cluster_mempool_observer.Membership.Loading.{find_by_ids, find_active, ids_of}
use cluster_mempool_observer.DeltaSet.{
  from_cluster, ClusterDeltaSet, no_changes, merge_removed, merge, is_empty, publish_delta,
}
use cluster_mempool_observer.Mined.{
  MinedBlock, MinedTrim, MinedRow, mined_trim, as_update, is_full, by_block, split_evicted,
}
use cluster_mempool_observer.ClusterSync.{Outside, World, query, transact}
use cluster_mempool_observer.ClusterSync.Upsert.{members_of}
use cluster_mempool_observer.ClusterSync.Queue.{handle_candidates_covering, handle_candidates}

-- `find_mined_by_txids`: the join of `transactions` and `blocks`.
abbrev pub mined_row : (ℕ → Option (ℕ × Time)) → Txid → Transaction → ℕ → List MinedRow
mined_row blocks x t hash = elim (blocks hash) [
  | none ↦ []
  | some (height, mined_at) ↦
      record {
        txid = x;
        fee = t.fee;
        weight = t.weight;
        hash = some hash;
        height = height;
        mined_at = mined_at;
      }
      ∷ []
]

abbrev pub joined_row : (ℕ → Option (ℕ × Time)) → Txid → Option Transaction → List MinedRow
joined_row blocks x none = []
joined_row blocks x (some t) = elim t.confirmed_at_block [
  | none ↦ []
  | some hash ↦ mined_row blocks x t hash
]

unfoldable pub each_once : List Txid → List Txid
each_once [] = []
each_once (x ∷ xs) = insert x (each_once xs)

unfoldable pub join_blocks : (ℕ → Option (ℕ × Time)) → List Txid → Database → List MinedRow
join_blocks blocks [] db = []
join_blocks blocks (x ∷ xs) db = joined_row blocks x (db.transactions x) ++ join_blocks blocks xs db

abbrev pub find_mined_by_txids : (ℕ → Option (ℕ × Time)) → List Txid → Database → List MinedRow
find_mined_by_txids blocks txids = join_blocks blocks (each_once txids)

unfoldable pub pending_of : List MinedTrim → List Txid
pending_of [] = []
pending_of (trim ∷ trims) = trim.pending ++ pending_of trims

module _ (o : Outside) where
  -- The clusters of the txids, by the two queries that each round starts with.
  unfoldable pub load_containing : List Txid → World → Option (List Cluster) × World
  load_containing txids w =
      let (found, w1) = query o (find_active_ids_by_txids txids) w in
      elim found [
        | none ↦ (none, w1)
        | some ids ↦ if length ids == 0 then (some [], w1) else query o (find_by_ids ids) w1
      ]

  unfoldable pub close_emptied : List ℕ → World → ClusterDeltaSet × World
  close_emptied emptied w =
      if length emptied == 0
      then (no_changes, w)
      else let (closed, w') =
          transact o (λ now db. some (close_many now as_evicted emptied db)) w in
        elim closed [ none ↦ (no_changes, w') | some _ ↦ (merge_removed emptied no_changes, w') ]

  unfoldable pub shrink : ℕ → List Txid → List Cluster → World → ClusterDeltaSet × World
  shrink fuel evicted_txids clusters w =
      let (emptied, survivors) = split_evicted evicted_txids w.ledger.live clusters in
      let (changes, w1) = close_emptied emptied w in
      let (resynced, w2) = handle_candidates_covering o fuel survivors evicted_txids w1 in
      if length survivors == 0 then (changes, w1) else (merge changes resynced, w2)

  unfoldable pub handle_evicted : ℕ → List Txid → World → ClusterDeltaSet × World
  handle_evicted fuel evicted_txids w =
      if length evicted_txids == 0
      then (no_changes, w)
      else let (clusters, w') = load_containing evicted_txids w in
        elim clusters [
          | none ↦ (no_changes, w')
          | some loaded ↦ shrink fuel evicted_txids loaded w'
        ]

  -- Failing to find the clusters leaves none to confirm.
  abbrev pub find_active_clusters_containing : List Txid → World → List Cluster × World
  find_active_clusters_containing txids w =
      let (clusters, w') = load_containing txids w in
      (elim clusters [ none ↦ [] | some loaded ↦ loaded ], w')

  unfoldable pub confirm_full : MinedBlock → List ℕ → World → ClusterDeltaSet × World
  confirm_full block full_ids w =
      if length full_ids == 0
      then (no_changes, w)
      else let (done, w') =
          transact o (λ now db. some (confirm_many_in now block.confirmed_at full_ids db)) w in
        elim done [ none ↦ (no_changes, w') | some _ ↦ (merge_removed full_ids no_changes, w') ]

  unfoldable pub confirm_partial :
      ℕ → MinedBlock → List MinedTrim → ClusterDeltaSet → World → ClusterDeltaSet × World
  confirm_partial fuel block trims changes w =
      if length trims == 0
      then (changes, w)
      else let (done, w1) =
          transact o
            (λ now db. trim_and_confirm_many now block.confirmed_at (map as_update trims) db) w in
        let (resynced, w2) = handle_candidates o fuel (pending_of trims) w1 in
        elim done [
          | none ↦ (changes, w1)
          | some _ ↦ (merge (merge_removed (map (λ t. t.cluster_id) trims) changes) resynced, w2)
        ]

  unfoldable pub confirm_mined_inner : ℕ → MinedBlock → World → ClusterDeltaSet × World
  confirm_mined_inner fuel block w =
      let (clusters, w1) = find_active_clusters_containing block.txids w in
      let full = keep (is_full block) clusters in
      let partial = keep (λ c. not (is_full block c)) clusters in
      let (changes, w2) = confirm_full block (ids_of full) w1 in
      confirm_partial fuel block (map (λ c. mined_trim c block) partial) changes w2

  unfoldable pub confirm_blocks :
      ℕ → List MinedBlock → ClusterDeltaSet → World → ClusterDeltaSet × World
  confirm_blocks fuel [] changes w = (changes, w)
  confirm_blocks fuel (block ∷ blocks) changes w =
      let (confirmed, w') = confirm_mined_inner fuel block w in
      confirm_blocks fuel blocks (merge changes confirmed) w'

  -- With no clusters there are no members, and with no members no block.
  unfoldable pub handle_confirmed : ℕ → List Txid → World → ClusterDeltaSet × World
  handle_confirmed fuel confirmed_txids w =
      let (clusters, w1) = load_containing confirmed_txids w in
      elim clusters [
        | none ↦ (no_changes, w1)
        | some [] ↦ (no_changes, w1)
        | some (c ∷ cs) ↦
            let (rows, w2) = query o (find_mined_by_txids o.blocks (members_of (c ∷ cs))) w1 in
            elim rows [
              | none ↦ (no_changes, w2)
              | some found ↦ confirm_blocks fuel (by_block found) no_changes w2
            ]
      ]

  -- A stage of `sync_clusters`, skipped for no txids.
  abbrev pub run_stage :
      (List Txid → World → ClusterDeltaSet × World)
      → List Txid
      → ClusterDeltaSet × World
      → ClusterDeltaSet × World
  run_stage handle [] r = r
  run_stage handle (x ∷ xs) (changes, w) =
      let (more, w') = handle (x ∷ xs) w in (merge changes more, w')

  unfoldable pub gather_changes :
      ℕ → List Txid → List Txid → List Txid → World → ClusterDeltaSet × World
  gather_changes fuel candidate_txids confirmed_txids evicted_txids w =
      run_stage (handle_candidates o fuel) candidate_txids (
        run_stage (handle_evicted fuel) evicted_txids
          (run_stage (handle_confirmed fuel) confirmed_txids (no_changes, w)))

  module _ (to_vbytes_ceil : ℕ → ℕ) where
    unfoldable pub publish_in : ClusterDeltaSet → World → World × Option ClusterDeltaEvent
    publish_in changes w =
        let (snapshot, event) = publish_delta to_vbytes_ceil changes w.snapshot in
        (record w { snapshot = snapshot }, event)

    unfoldable pub sync_clusters :
        ℕ → List Txid → List Txid → List Txid → World → World × Option ClusterDeltaEvent
    sync_clusters fuel candidate_txids confirmed_txids evicted_txids w =
        let (changes, w') = gather_changes fuel candidate_txids confirmed_txids evicted_txids w in
        if is_empty changes then (w', none) else publish_in changes w'

    unfoldable pub confirm_mined : ℕ → MinedBlock → World → World × Option ClusterDeltaEvent
    confirm_mined fuel block w =
        let (changes, w') = confirm_mined_inner fuel block w in publish_in changes w'

  unfoldable pub seed_snapshot : World → World
  seed_snapshot w =
      let (rows, w') = query o find_active w in
      elim rows [
        | none ↦ w'
        | some clusters ↦ record w' { snapshot = seed (map from_cluster clusters) }
      ]
