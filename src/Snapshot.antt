-- ===== src/Snapshot.antt =====
-- shared/src/snapshot/cluster.rs and api/src/services/cluster_delta.rs: the active clusters in memory
-- and the events that tell of their changes. Counts of metrics are left out.
pub mod Client
pub mod Subscription
pub mod Tracking
use cluster_mempool_observer.Base.{
  ℕ, zero, suc, ◌+◌, Bool, true, false, not, ◌&&◌, List, [], ◌∷◌, ◌++◌, map, Option, none, some,
  Txid, Time, TxSet, contains, keep, length, leb, ◌==◌, if◌then◌else◌, lookup, insert_key,
  remove_key, in_chunks,
}
use cluster_mempool_observer.Db.{ClusterChunk, same_chunks}

pub record ClusterState : Type 0 where
  pub chunks : List ClusterChunk
  pub total_weight : ℕ
  pub total_fee : ℕ
  pub first_seen_at : Time

pub record ActiveCluster : Type 0 where
  pub id : ℕ
  pub chunks : List ClusterChunk
  pub total_weight : ℕ
  pub total_fee : ℕ
  pub first_seen_at : Time

abbrev pub state : ActiveCluster → ClusterState
state c = record {
  chunks = c.chunks;
  total_weight = c.total_weight;
  total_fee = c.total_fee;
  first_seen_at = c.first_seen_at;
}

pub record ClusterChunkRef : Type 0 where
  pub txids : List Txid
  pub fee : ℕ
  pub vsize : ℕ

pub record ClusterRef : Type 0 where
  pub id : ℕ
  pub chunks : List ClusterChunkRef
  pub total_vsize : ℕ
  pub total_fee : ℕ
  pub first_seen_at : Time

pub record ClusterDeltaEvent : Type 0 where
  pub upserted : List ClusterRef
  pub removed : List ℕ

abbrev pub ClusterSnapshot : Type 0
ClusterSnapshot = List (ℕ × ClusterState)

abbrev pub same_state : ClusterState → ClusterState → Bool
same_state s t =
    same_chunks s.chunks t.chunks
    && s.total_weight == t.total_weight
    && s.total_fee == t.total_fee
    && s.first_seen_at == t.first_seen_at

abbrev pub is_tracked : Option ClusterState → Bool
is_tracked none = false
is_tracked (some s) = true

abbrev pub is_unchanged : Option ClusterState → ClusterState → Bool
is_unchanged none s = false
is_unchanged (some prev) s = same_state prev s

-- Clusters that share an id leave the last of them.
unfoldable pub collect : ClusterSnapshot → List ActiveCluster → ClusterSnapshot
collect m [] = m
collect m (c ∷ cs) = collect (insert_key c.id (state c) m) cs

unfoldable pub seed : List ActiveCluster → ClusterSnapshot
seed = collect []

-- `remove`: whether the cluster was tracked.
unfoldable pub remove : ℕ → ClusterSnapshot → ClusterSnapshot × Bool
remove id m = (remove_key id m, is_tracked (lookup id m))

pub record ClusterStats : Type 0 where
  pub cluster_count : ℕ
  pub tx_count : ℕ
  pub total_weight : ℕ
  pub total_fee : ℕ

abbrev pub state_txids : List ClusterChunk → List Txid
state_txids [] = []
state_txids (c ∷ cs) = c.txids ++ state_txids cs

unfoldable pub count_states : ClusterSnapshot → ClusterStats → ClusterStats
count_states [] stats = stats
count_states ((_, s) ∷ m) stats = count_states m (record stats {
  tx_count = stats.tx_count + length (state_txids s.chunks);
  total_weight = stats.total_weight + s.total_weight;
  total_fee = stats.total_fee + s.total_fee;
})

unfoldable pub stats : ClusterSnapshot → ClusterStats
stats m =
    count_states m
      (record { cluster_count = length m; tx_count = 0; total_weight = 0; total_fee = 0 })

unfoldable pub missing_member_count : TxSet → ClusterSnapshot → ℕ
missing_member_count live_txids [] = 0
missing_member_count live_txids ((_, s) ∷ m) =
    length (keep (λ x. not (contains x live_txids)) (state_txids s.chunks))
    + missing_member_count live_txids m

abbrev pub snapshot_chunk_size : ℕ
snapshot_chunk_size = 1000

abbrev pub reported : Option ClusterRef → List ClusterRef → List ClusterRef
reported none refs = refs
reported (some r) refs = r ∷ refs

-- `Weight::to_vbytes_ceil` of the bitcoin library.
module _ (to_vbytes_ceil : ℕ → ℕ) where
  unfoldable pub reference : ℕ → ClusterState → ClusterRef
  reference id s = record {
    id = id;
    chunks =
        map
          (λ chunk. record {
            txids = chunk.txids;
            fee = chunk.fee_sats;
            vsize = to_vbytes_ceil chunk.weight;
          })
          s.chunks;
    total_vsize = to_vbytes_ceil s.total_weight;
    total_fee = s.total_fee;
    first_seen_at = s.first_seen_at;
  }

  unfoldable pub upsert : ActiveCluster → ClusterSnapshot → ClusterSnapshot × Option ClusterRef
  upsert c m =
      if is_unchanged (lookup c.id m) (state c)
      then (m, none)
      else (insert_key c.id (state c) m, some (reference c.id (state c)))

  unfoldable pub get_current_chunked : ℕ → ClusterSnapshot → List ClusterDeltaEvent
  get_current_chunked chunk_size m =
      map (λ refs. record { upserted = refs; removed = [] })
        (in_chunks (if leb 1 chunk_size then chunk_size else 1)
          (map (λ entry. reference entry.0 entry.1) m))

  -- `ClusterDeltaService::get_current_snapshot`.
  unfoldable pub get_current_snapshot : ClusterSnapshot → List ClusterDeltaEvent
  get_current_snapshot m =
      let frames = get_current_chunked snapshot_chunk_size m in
      if length frames == 0 then record { upserted = []; removed = [] } ∷ [] else frames

  -- The two loops of `publish`.
  unfoldable pub upsert_all :
      List ActiveCluster → ClusterSnapshot → ClusterSnapshot × List ClusterRef
  upsert_all [] m = (m, [])
  upsert_all (c ∷ cs) m =
      let (m', ref) = upsert c m in let (m'', refs) = upsert_all cs m' in (m'', reported ref refs)

  unfoldable pub remove_all : List ℕ → ClusterSnapshot → ClusterSnapshot × List ℕ
  remove_all [] m = (m, [])
  remove_all (id ∷ ids) m =
      let (m', tracked) = remove id m in
      let (m'', reports) = remove_all ids m' in (m'', if tracked then id ∷ reports else reports)

  -- `none` where nothing is broadcast.
  unfoldable pub publish :
      List ActiveCluster → List ℕ → ClusterSnapshot → ClusterSnapshot × Option ClusterDeltaEvent
  publish upserted removed m =
      let (m', refs) = upsert_all upserted m in
      let (m'', ids) = remove_all removed m' in
      (
        m'',
        if length refs == 0 && length ids == 0
            then none
            else some (record { upserted = refs; removed = ids }),
      )

  -- Publications one after the other, each of the clusters upserted and the ids removed.
  unfoldable pub publish_rounds :
      List (List ActiveCluster × List ℕ)
      → ClusterSnapshot
      → ClusterSnapshot × List (Option ClusterDeltaEvent)
  publish_rounds [] m = (m, [])
  publish_rounds ((upserted, removed) ∷ rounds) m =
      let (m', event) = publish upserted removed m in
      let (m'', events) = publish_rounds rounds m' in (m'', event ∷ events)
