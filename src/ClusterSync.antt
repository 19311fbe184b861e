-- ===== src/ClusterSync.antt =====
-- api/src/services/cluster.rs: the cluster service, which asks the node for the clusters of transactions
-- and keeps the tables, the ledger and the snapshot in step with its answers. Here: what the service
-- works on, and how it reaches the node and the database.
pub mod Upsert
pub mod Queue
pub mod Rounds
pub mod Moves
pub mod Saying
pub mod Writing
pub mod Following
pub mod Queueing
pub mod Closing
pub mod Confirming
pub mod Publishing
pub mod Seeding
pub mod History
pub mod Holding
pub mod Detaching
pub mod Asking
pub mod Draining
use cluster_mempool_observer.Base.{
  ℕ, suc, Bool, List, Option, none, some, Txid, Time, if◌then◌else◌,
}
use cluster_mempool_observer.Db.{ClusterChunk, Database}
use cluster_mempool_observer.Ledger.Journal.{Inner}
use cluster_mempool_observer.Ledger.{Generator, run}
use cluster_mempool_observer.Snapshot.{ClusterSnapshot}

-- `get_mempool_cluster`: the chunks of a cluster, `TxNotFoundInMempool`, or another error.
pub data NodeAnswer : Type 0 where
  grouped : List ClusterChunk → NodeAnswer
  not_found node_error : NodeAnswer

-- What the service meets at each of its calls, which are numbered: the node's answers, whether the
-- database fails, the clocks, and what others feed to the ledger while the service awaits. `blocks` is
-- the height and the time of a stored block.
pub record Outside : Type 0 where
  pub get_mempool_cluster : ℕ → Txid → NodeAnswer
  pub db_fails : ℕ → Bool
  pub now : ℕ → Time
  pub clock : ℕ → ℕ → Time
  pub meanwhile : ℕ → List Generator
  pub blocks : ℕ → Option (ℕ × Time)

pub record World : Type 0 where
  pub calls : ℕ
  pub db : Database
  pub ledger : Inner
  pub snapshot : ClusterSnapshot

abbrev pub committed {ℓ} : {A : Type ℓ} → World → Option (Database × A) → Option A × World
committed w none = (none, w)
committed w (some (db, a)) = (some a, record w { db = db })

module _ (o : Outside) where
  -- What an awaited call leaves, whatever it does itself.
  unfoldable pub awaited : World → World
  awaited w = record w {
    calls = suc w.calls;
    ledger = run (o.clock w.calls) (o.meanwhile w.calls) w.ledger;
  }

  module _ {ℓ} {A : Type ℓ} where
    -- A statement that reads. `none` is its error.
    unfoldable pub query : (Database → A) → World → Option A × World
    query f w = (if o.db_fails w.calls then none else some (f w.db), awaited w)

    -- A transaction. Where it fails nothing of it is written.
    unfoldable pub transact : (Time → Database → Option (Database × A)) → World → Option A × World
    transact f w =
        committed (awaited w) (if o.db_fails w.calls then none else f (o.now w.calls) w.db)
