-- ===== src/Db.antt =====
-- api/src/db/models.rs and the schema of api/migrations: the tables that the repositories of the
-- cluster and mempool code write. A table with a primary key is a function from the key to a row.
-- Amounts and weights are natural numbers, below 2^63, where the casts to and from `i64` keep them.
use cluster_mempool_observer.Base.{
  ℕ, Bool, true, false, List, [], ◌∷◌, Option, none, Txid, Time, leb, ◌==◌, ◌&&◌, if◌then◌else◌,
}
use cluster_mempool_observer.Ledger.Journal.{DeltaDirection, add, rem}

-- shared/src/models.rs
pub record ClusterChunk : Type 0 where
  pub txids : List Txid
  pub fee_sats : ℕ
  pub weight : ℕ

abbrev pub same_list : List ℕ → List ℕ → Bool
same_list [] [] = true
same_list (x ∷ xs) (y ∷ ys) = x == y && same_list xs ys
same_list _ _ = false

-- `==` on chunk lists, as derived.
abbrev pub same_chunks : List ClusterChunk → List ClusterChunk → Bool
same_chunks [] [] = true
same_chunks (c ∷ cs) (d ∷ ds) =
    (same_list c.txids d.txids && c.fee_sats == d.fee_sats && c.weight == d.weight)
    && same_chunks cs ds
same_chunks _ _ = false

pub data ClusterStatus : Type 0 where
  active confirmed evicted merged : ClusterStatus

abbrev pub is_active : ClusterStatus → Bool
is_active active = true
is_active _ = false

-- The row of a cluster; its id is the key.
pub record ClusterRow : Type 0 where
  pub status : ClusterStatus
  pub version : ℕ
  pub total_weight : ℕ
  pub total_fee : ℕ
  pub first_seen_at : Time
  pub confirmed_at : Option Time
  pub closed_at : Option Time

pub record ClusterChunkRow : Type 0 where
  pub cluster_id : ℕ
  pub version : ℕ
  pub position : ℕ
  pub fee : ℕ
  pub weight : ℕ
  pub txids : List Txid
  pub live : Bool

-- A cluster with the chunks of its current version.
pub record Cluster : Type 0 where
  pub id : ℕ
  pub row : ClusterRow
  pub open row use *
  pub chunks : List ClusterChunk

pub record NewCluster : Type 0 where
  pub chunks : List ClusterChunk
  pub first_seen_at : Time

-- The row of a transaction; its txid is the key.
pub record Transaction : Type 0 where
  pub fee : Option ℕ
  pub weight : ℕ
  pub first_seen_at : Time
  pub confirmed_at : Option Time
  pub cluster_id : Option ℕ
  pub confirmed_at_block : Option ℕ
  pub input_txids : Option (List Txid)

pub data DeltaReason : Type 0 where
  add_mempool remove_confirmed remove_evicted : DeltaReason

abbrev pub reason_direction : DeltaReason → DeltaDirection
reason_direction add_mempool = add
reason_direction remove_confirmed = rem
reason_direction remove_evicted = rem

pub record MempoolDelta : Type 0 where
  pub txid : Txid
  pub reason : DeltaReason
  pub created_at : Time

pub record Database : Type 0 where
  pub next_cluster_id : ℕ
  pub clusters : ℕ → Option ClusterRow
  pub cluster_chunks : List ClusterChunkRow
  pub transactions : Txid → Option Transaction
  pub mempool_deltas : List MempoolDelta

abbrev pub empty_database : Database
empty_database = record {
  next_cluster_id = 0;
  clusters = λ _. none;
  cluster_chunks = [];
  transactions = λ _. none;
  mempool_deltas = [];
}

-- `NewTransaction::hollow`.
unfoldable pub hollow : Time → Transaction
hollow now = record {
  fee = none;
  weight = 0;
  first_seen_at = now;
  confirmed_at = none;
  cluster_id = none;
  confirmed_at_block = none;
  input_txids = none;
}

-- `From<ClusterChunkRow> for ClusterChunk`.
unfoldable pub from_chunk_row : ClusterChunkRow → ClusterChunk
from_chunk_row r = record { txids = r.txids; fee_sats = r.fee; weight = r.weight }

-- `ORDER BY position ASC`.
unfoldable pub insert_by_position : ClusterChunkRow → List ClusterChunkRow → List ClusterChunkRow
insert_by_position r [] = r ∷ []
insert_by_position r (s ∷ rows) =
    if leb r.position s.position then r ∷ s ∷ rows else s ∷ insert_by_position r rows

unfoldable pub order_by_position : List ClusterChunkRow → List ClusterChunkRow
order_by_position [] = []
order_by_position (r ∷ rows) = insert_by_position r (order_by_position rows)

-- api/src/db/repositories/mod.rs
abbrev pub mempool_delta_insert_chunk_size : ℕ
mempool_delta_insert_chunk_size = 10000
