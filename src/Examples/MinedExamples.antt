-- ===== src/Examples/MinedExamples.antt =====
-- api/src/services/cluster.rs and api/src/infra/block_gate.rs: blocks, evictions and interleavings, and
-- the theorems at them.
use cluster_mempool_observer.Base.{
  ℕ, false, not, ◌&&◌, ◌≡◌, ◌≢◌, refl, List, [], ◌∷◌, map, none, some, arith, Txid, contains, keep,
  any, length, ◌==◌,
}
use cluster_mempool_observer.Db.{Cluster, active}
use cluster_mempool_observer.Membership.{chunk_txids}
use cluster_mempool_observer.Mined.{
  MinedBlock, mined_trim, in_block, MinedRow, group_rows, split_evicted, remaining, by_block,
  add_row, push_row, sum_of, split_chunk, trim_chunks,
}
use cluster_mempool_observer.Mined.Trimming.{mined_trim-partition}
use cluster_mempool_observer.Mined.Blocks.{IsOrdered, txids_of, is_mined_in, group_rows-exact}
use cluster_mempool_observer.Mined.Eviction.{is_shrunk, split_evicted-exact}
use cluster_mempool_observer.BlockGate.{
  System, applying, waiting, flushing, tick_idle, begin_acquire, poll_acquire, elapse, claim, check,
  step, initial, Reachable, started, stepped, begin_by, poll_by, shut,
}
use cluster_mempool_observer.BlockGate.Exclusion.{applying-excludes_flush, claim-gets_to_flush}

abbrev cluster : ℕ → List Txid → Cluster
cluster id txids = record {
  id = id;
  row = record {
    status = active;
    version = 1;
    total_weight = 402;
    total_fee = 90;
    first_seen_at = 5;
    confirmed_at = none;
    closed_at = none;
  };
  chunks =
      record { txids = txids; fee_sats = 60; weight = 200 }
      ∷ record { txids = 20 ∷ []; fee_sats = 30; weight = 202 }
      ∷ [];
}

abbrev block : MinedBlock
block = record {
  txids = 10 ∷ 20 ∷ [];
  fees = (10, 33) ∷ (20, 30) ∷ [];
  weights = (10, 120) ∷ (20, 202) ∷ [];
  confirmed_at = 9;
}

trims_cluster : mined_trim (cluster 1 (10 ∷ 11 ∷ [])) block ≡ record {
  cluster_id = 1;
  mined =
      record { txids = 10 ∷ []; fee_sats = 33; weight = 120 }
      ∷ record { txids = 20 ∷ []; fee_sats = 30; weight = 202 }
      ∷ [];
  pending = 11 ∷ [];
}
unfolding mined_trim trim_chunks split_chunk sum_of
trims_cluster = refl

mined_trim-partition_example :
    (chunk_txids (mined_trim (cluster 1 (10 ∷ 11 ∷ [])) block).mined
      ≡ keep (in_block block) (chunk_txids (cluster 1 (10 ∷ 11 ∷ [])).chunks))
    × ((mined_trim (cluster 1 (10 ∷ 11 ∷ [])) block).pending
        ≡ keep (λ x. not (in_block block x)) (chunk_txids (cluster 1 (10 ∷ 11 ∷ [])).chunks))
mined_trim-partition_example = mined_trim-partition (cluster 1 (10 ∷ 11 ∷ [])) block

abbrev mined_row : Txid → ℕ → ℕ → MinedRow
mined_row x height hash = record {
  txid = x;
  fee = some 30;
  weight = 400;
  hash = some hash;
  height = height;
  mined_at = 9;
}

abbrev mined_rows : List MinedRow
mined_rows = mined_row 10 7 70 ∷ mined_row 11 6 60 ∷ mined_row 12 7 70 ∷ []

groups : map (λ b. b.txids) (by_block mined_rows) ≡ (11 ∷ []) ∷ (10 ∷ 12 ∷ []) ∷ []
unfolding by_block group_rows add_row push_row
groups = refl

group_rows-exact_example :
    IsOrdered (group_rows mined_rows [])
    × (txids_of 7 70 (group_rows mined_rows [])
        ≡ map (λ row. row.txid) (keep (is_mined_in 7 70) mined_rows))
group_rows-exact_example = group_rows-exact mined_rows 7 70

splits :
    split_evicted (10 ∷ 20 ∷ []) (11 ∷ []) (cluster 1 (10 ∷ []) ∷ cluster 2 (11 ∷ 12 ∷ []) ∷ [])
    ≡ (1 ∷ [], 11 ∷ [])
unfolding split_evicted chunk_txids
splits = refl

split_evicted-exact_example :
    let clusters = cluster 1 (10 ∷ []) ∷ cluster 2 (11 ∷ 12 ∷ []) ∷ [] in
    (contains 11 (split_evicted (10 ∷ 20 ∷ []) (11 ∷ []) clusters).1 ≡ (
      any (λ c. is_shrunk (10 ∷ 20 ∷ []) c && contains 11 (chunk_txids c.chunks)) clusters
      && (not (contains 11 (10 ∷ 20 ∷ [])) && contains 11 (11 ∷ []))))
    × (contains 1 (split_evicted (10 ∷ 20 ∷ []) (11 ∷ []) clusters).0
        ≡ any
            (λ c.
              1 == c.id
              && (is_shrunk (10 ∷ 20 ∷ []) c && length (remaining (10 ∷ 20 ∷ []) (11 ∷ []) c) == 0))
            clusters)
split_evicted-exact_example =
    split_evicted-exact (10 ∷ 20 ∷ []) (11 ∷ [])
      (cluster 1 (10 ∷ []) ∷ cluster 2 (11 ∷ 12 ∷ []) ∷ []) 11 1

-- A block shuts the gate at 100 and is applied from 107 on.
abbrev applied : System
applied = record {
  now = 107;
  gate = record { held_since = some 100; in_flight = false; queued = false };
  block = applying 100;
  tick = tick_idle;
}

applied-Reachable : Reachable applied
unfolding step begin_by poll_by shut
applied-Reachable =
    let start = started 100 in
    let waits : Reachable (record {
      now = 100;
      gate = record { held_since = some 100; in_flight = false; queued = false };
      block = waiting 100;
      tick = tick_idle;
    }) =
      stepped begin_acquire start refl in
    let late : Reachable (record {
      now = 107;
      gate = record { held_since = some 100; in_flight = false; queued = false };
      block = waiting 100;
      tick = tick_idle;
    }) =
      stepped (elapse 7) waits refl in
    stepped poll_acquire late refl

applying-excludes_flush_example : applied.tick ≢ flushing
applying-excludes_flush_example =
    applying-excludes_flush applied 100 applied-Reachable refl (omega arith)

claim-gets_to_flush_example :
    (leased : System) × (flushes : System) × (step claim (initial 50) ≡ some leased)
    × (step check leased ≡ some flushes)
    × (flushes.tick ≡ flushing)
claim-gets_to_flush_example = claim-gets_to_flush (initial 50) (started 50) refl refl refl
