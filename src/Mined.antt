-- ===== src/Mined.antt =====
-- api/src/services/cluster.rs: `MinedBlock`, `MinedTrim` and `MinedTxs`, how a mined block splits the
-- clusters that it touches, and the same for a flush that found members evicted.
pub mod Trimming
pub mod Blocks
pub mod Eviction
use cluster_mempool_observer.Base.{
  ℕ, zero, suc, ◌+◌, Bool, true, false, not, ◌&&◌, ◌||◌, List, [], ◌∷◌, ◌++◌, map, Option, none,
  some, Txid, Time, TxSet, contains, keep, any, length, ltb, ◌==◌, if◌then◌else◌, lookup,
  insert_key,
}
use cluster_mempool_observer.Db.{ClusterChunk, Cluster, Transaction, is_active}
use cluster_mempool_observer.Membership.{ClusterVersionUpdate, chunk_txids}

-- Fees and weights by txid; the amounts of a block are not negative.
pub record MinedBlock : Type 0 where
  pub txids : List Txid
  pub fees : List (Txid × ℕ)
  pub weights : List (Txid × ℕ)
  pub confirmed_at : Time

abbrev pub in_block : MinedBlock → Txid → Bool
in_block block x = contains x block.txids

abbrev pub amount : Option ℕ → ℕ
amount none = 0
amount (some n) = n

-- `filter_map(|txid| amounts.get(txid)).sum()`.
unfoldable pub sum_of : List (Txid × ℕ) → List Txid → ℕ
sum_of amounts [] = 0
sum_of amounts (x ∷ xs) = amount (lookup x amounts) + sum_of amounts xs

unfoldable pub split_chunk : MinedBlock → List Txid → ClusterChunk
split_chunk block txids = record {
  txids = txids;
  fee_sats = sum_of block.fees txids;
  weight = sum_of block.weights txids;
}

-- What the loop of `MinedTrim::new` adds to `mined` for a chunk.
abbrev pub kept_of : MinedBlock → ClusterChunk → List ClusterChunk
kept_of block chunk =
    let mined = keep (in_block block) chunk.txids in
    let left = keep (λ x. not (in_block block x)) chunk.txids in
    if length left == 0
    then chunk ∷ []
    else if not (length mined == 0)
    then split_chunk block mined ∷ []
    else []

unfoldable pub trim_chunks : MinedBlock → List ClusterChunk → List ClusterChunk × List Txid
trim_chunks block [] = ([], [])
trim_chunks block (chunk ∷ chunks) =
    let (mined, pending) = trim_chunks block chunks in
    (kept_of block chunk ++ mined, keep (λ x. not (in_block block x)) chunk.txids ++ pending)

pub record MinedTrim : Type 0 where
  pub cluster_id : ℕ
  pub mined : List ClusterChunk
  pub pending : List Txid

unfoldable pub mined_trim : Cluster → MinedBlock → MinedTrim
mined_trim cluster block =
    let (mined, pending) = trim_chunks block cluster.chunks in
    record { cluster_id = cluster.id; mined = mined; pending = pending }

abbrev pub as_update : MinedTrim → ClusterVersionUpdate
as_update trim = record { cluster_id = trim.cluster_id; chunks = trim.mined }

-- The `partition` of `confirm_mined_inner`.
abbrev pub is_full : MinedBlock → Cluster → Bool
is_full block cluster = not (any (λ x. not (in_block block x)) (chunk_txids cluster.chunks))

-- A mined transaction of the database, with its block's height and time. A block hash is a number,
-- in the order of the texts.
pub record MinedRow : Type 0 where
  pub txid : Txid
  pub fee : Option ℕ
  pub weight : ℕ
  pub hash : Option ℕ
  pub height : ℕ
  pub mined_at : Time

-- The entry of `blocks` for a height and a hash.
pub record BlockEntry : Type 0 where
  pub height : ℕ
  pub hash : ℕ
  pub txs : MinedBlock

abbrev pub add_fee : Txid → Option ℕ → List (Txid × ℕ) → List (Txid × ℕ)
add_fee x none fees = fees
add_fee x (some fee) fees = insert_key x fee fees

unfoldable pub push_row : MinedRow → MinedBlock → MinedBlock
push_row row block = record block {
  fees = add_fee row.txid row.fee block.fees;
  weights = insert_key row.txid row.weight block.weights;
  txids = block.txids ++ row.txid ∷ [];
}

abbrev pub before : ℕ → ℕ → BlockEntry → Bool
before height hash entry =
    ltb height entry.height || (height == entry.height && ltb hash entry.hash)

abbrev pub is_block : ℕ → ℕ → BlockEntry → Bool
is_block height hash entry = height == entry.height && hash == entry.hash

abbrev pub new_entry : MinedRow → ℕ → BlockEntry
new_entry row hash = record {
  height = row.height;
  hash = hash;
  txs = push_row row (record { txids = []; fees = []; weights = []; confirmed_at = row.mined_at });
}

-- `blocks.entry((height, hash)).or_insert_with(…)` and the changes to it, in the map's order.
unfoldable pub add_row : MinedRow → ℕ → List BlockEntry → List BlockEntry
add_row row hash [] = new_entry row hash ∷ []
add_row row hash (entry ∷ entries) =
    let rest = add_row row hash entries in
    if before row.height hash entry
    then new_entry row hash ∷ entry ∷ entries
    else if is_block row.height hash entry
    then record entry { txs = push_row row entry.txs } ∷ entries
    else entry ∷ rest

abbrev pub add_mined : MinedRow → Option ℕ → List BlockEntry → List BlockEntry
add_mined row none entries = entries
add_mined row (some hash) entries = add_row row hash entries

unfoldable pub group_rows : List MinedRow → List BlockEntry → List BlockEntry
group_rows [] entries = entries
group_rows (row ∷ rows) entries = group_rows rows (add_mined row row.hash entries)

unfoldable pub by_block : List MinedRow → List MinedBlock
by_block rows = map (λ entry. entry.txs) (group_rows rows [])

-- The loop of `handle_evicted` over the loaded clusters: the emptied ones, and the members of the
-- others that are left.
abbrev pub remaining : TxSet → TxSet → Cluster → List Txid
remaining evicted live cluster =
    keep (λ x. not (contains x evicted) && contains x live) (chunk_txids cluster.chunks)

unfoldable pub split_evicted : TxSet → TxSet → List Cluster → List ℕ × List Txid
split_evicted evicted live [] = ([], [])
split_evicted evicted live (cluster ∷ clusters) =
    let (emptied, survivors) = split_evicted evicted live clusters in
    if not (is_active cluster.row.status)
    then (emptied, survivors)
    else if not (any (λ x. contains x evicted) (chunk_txids cluster.chunks))
    then (emptied, survivors)
    else if length (remaining evicted live cluster) == 0
    then (cluster.id ∷ emptied, survivors)
    else (emptied, remaining evicted live cluster ++ survivors)
