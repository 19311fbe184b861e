-- ===== src/ClusterSync/Queue.antt =====
-- api/src/services/cluster.rs: `handle_candidates_covering`, the work queue that asks the node for the
-- cluster of each candidate.
use cluster_mempool_observer.Base.{
  ℕ, zero, suc, not, ◌&&◌, List, [], ◌∷◌, ◌++◌, map, none, some, Txid, TxSet, contains, insert,
  keep, length, ◌==◌, if◌then◌else◌, insert_key, remove_key, in_chunks,
}
use cluster_mempool_observer.Db.{ClusterChunk, NewCluster, mempool_delta_insert_chunk_size}
use cluster_mempool_observer.FlushWrite.{extend}
use cluster_mempool_observer.Ledger.{assert_present, assert_absent}
use cluster_mempool_observer.Membership.{chunk_txids}
use cluster_mempool_observer.Membership.Lookup.{find_active_ids_by_txids}
use cluster_mempool_observer.DeltaSet.{ClusterDeltaSet, no_changes, merge}
use cluster_mempool_observer.ClusterSync.{
  Outside, World, NodeAnswer, grouped, not_found, node_error, awaited, query,
}
use cluster_mempool_observer.ClusterSync.Upsert.{new_cluster, mark_all, upsert, insert_each}

-- The variables of the loop.
pub record Round : Type 0 where
  pub pending : List Txid
  pub out_of_mempool : TxSet
  pub fresh_singletons : List (Txid × NewCluster)
  pub changes : ClusterDeltaSet
  pub world : World

unfoldable pub forget : List Txid → List (Txid × NewCluster) → List (Txid × NewCluster)
forget [] singletons = singletons
forget (x ∷ xs) singletons = forget xs (remove_key x singletons)

module _ (o : Outside) where
  abbrev pub asserting_absent : Txid → World → World
  asserting_absent x w = record w { ledger = assert_absent (o.clock w.calls) (x ∷ []) w.ledger }

  abbrev pub asserting_present : List Txid → World → World
  asserting_present xs w = record w { ledger = assert_present (o.clock w.calls) xs w.ledger }

  unfoldable pub left_mempool : Txid → Round → Round
  left_mempool x r = record r {
    out_of_mempool = insert x r.out_of_mempool;
    world = asserting_absent x r.world;
  }

  unfoldable pub buffer : List Txid → List ClusterChunk → Round → Round
  buffer [] chunks r = r
  buffer (x ∷ _) chunks r = record r {
    fresh_singletons = insert_key x (new_cluster (o.now r.world.calls) chunks) r.fresh_singletons;
  }

  unfoldable pub regroup : List ClusterChunk → List ℕ → Round → Round
  regroup chunks existing_ids r =
      let (outcome, w) = upsert o chunks existing_ids r.world in
      record r {
        fresh_singletons = forget (chunk_txids chunks) r.fresh_singletons;
        changes = merge r.changes outcome.changes;
        pending = r.pending ++ keep (λ x. not (contains x r.out_of_mempool)) outcome.detached;
        world = w;
      }

  -- The group is known, with its txids out of the queue's way and asserted present.
  unfoldable pub place : List ClusterChunk → Round → Round
  place chunks r =
      let txids = chunk_txids chunks in
      let (found, w) = query o (find_active_ids_by_txids txids) r.world in
      let r' : Round = record r { world = w } in
      elim found [
        | none ↦ r'
        | some existing_ids ↦
            if length existing_ids == 0 && length txids == 1
            then buffer txids chunks r'
            else regroup chunks existing_ids r'
      ]

  unfoldable pub answered : Txid → NodeAnswer → Round → Round
  answered x node_error r = r
  answered x not_found r = left_mempool x r
  answered x (grouped chunks) r =
      let txids = chunk_txids chunks in
      if length txids == 0
      then left_mempool x r
      else place chunks (record r {
        out_of_mempool = extend txids r.out_of_mempool;
        world = asserting_present txids r.world;
      })

  -- One pass of the loop, for the txid popped.
  unfoldable pub ask_for : Txid → Round → Round
  ask_for x r =
      if contains x r.out_of_mempool
      then r
      else answered x (o.get_mempool_cluster r.world.calls x)
          (record r { world = awaited o r.world })

  -- The loop. It has ended if the queue is empty after it.
  unfoldable pub drain : ℕ → Round → Round
  drain zero r = r
  drain (suc fuel) r = elim r.pending [
    | [] ↦ r
    | x ∷ rest ↦ drain fuel (ask_for x (record r { pending = rest }))
  ]

  -- What follows the loop.
  unfoldable pub insert_singletons : Round → ClusterDeltaSet × World
  insert_singletons r =
      let batch = map (λ (entry : Txid × NewCluster). entry.1) r.fresh_singletons in
      let (rows, w) = insert_each o (in_chunks mempool_delta_insert_chunk_size batch) r.world in
      elim rows [ none ↦ (r.changes, w) | some clusters ↦ (mark_all clusters r.changes, w) ]

  abbrev pub first_round : List Txid → TxSet → World → Round
  first_round candidates out_of_mempool w = record {
    pending = candidates;
    out_of_mempool = out_of_mempool;
    fresh_singletons = [];
    changes = no_changes;
    world = w;
  }

  unfoldable pub handle_candidates_covering :
      ℕ → List Txid → TxSet → World → ClusterDeltaSet × World
  handle_candidates_covering fuel candidates out_of_mempool w =
      insert_singletons (drain fuel (first_round candidates out_of_mempool w))

  abbrev pub handle_candidates : ℕ → List Txid → World → ClusterDeltaSet × World
  handle_candidates fuel candidates = handle_candidates_covering fuel candidates []
