-- ===== src/Reconciler.antt =====
-- api/src/services/mempool_reconciler.rs: `tick`, which drains the ledger's journal into the database.
-- The gate's lease is BlockGate's; here the tick has it, and what the write meets, the gate and failures of
-- the database, is an input. A tick whose write is preempted and one whose write fails both end there.
pub mod Ticks
pub mod Syncing
use cluster_mempool_observer.Base.{
  ℕ, Bool, true, false, List, [], ◌∷◌, ◌++◌, map, Option, none, some, Txid, Time, TxSet,
  if◌then◌else◌,
}
use cluster_mempool_observer.Db.{Database}
use cluster_mempool_observer.Ledger.Journal.{JournalEntry, Inner}
use cluster_mempool_observer.Ledger.{begin_flush, commit, run, Generator}
use cluster_mempool_observer.Ledger.Batch.{transition_counts, added_txids, residency_delta}
use cluster_mempool_observer.FlushWrite.{
  Interruptions, write_batch, FlushOutcome, BackfillStage, raw, backfill_stage, StoredTxFill,
}

abbrev pub staged : Txid → Option BackfillStage → List (Txid × BackfillStage)
staged x none = []
staged x (some stage) = (x, stage) ∷ []

unfoldable pub existing_to_backfill : List (Txid × StoredTxFill) → List (Txid × BackfillStage)
existing_to_backfill [] = []
existing_to_backfill ((x, fill) ∷ existing) =
    staged x (backfill_stage fill) ++ existing_to_backfill existing

unfoldable pub to_backfill : FlushOutcome → List (Txid × BackfillStage)
to_backfill outcome = map (λ x. (x, raw)) outcome.new_txids ++ existing_to_backfill outcome.existing

-- What a tick hands on: the delta that is broadcast, the requests for backfill, and the txids for the
-- sync of clusters.
pub record TickReport : Type 0 where
  pub added : List Txid
  pub removed : List Txid
  pub counts : ℕ × ℕ
  pub backfill : List (Txid × BackfillStage)
  pub candidates : List Txid
  pub outcome : FlushOutcome

abbrev pub report_of : List JournalEntry → FlushOutcome → TickReport
report_of batch outcome = record {
  added = (residency_delta batch).0;
  removed = (residency_delta batch).1;
  counts = transition_counts batch;
  backfill = to_backfill outcome;
  candidates = added_txids batch;
  outcome = outcome;
}

-- The end of a tick that has read a batch; `meanwhile` is what the ledger is told while the write runs.
unfoldable pub settle :
    (ℕ → Time)
    → List Generator
    → List JournalEntry
    → Inner
    → Database
    → Option (Database × FlushOutcome)
    → Inner × Database × Option TickReport
settle clock meanwhile batch ledger db none = (run clock meanwhile ledger, db, none)
settle clock meanwhile batch ledger db (some (db', outcome)) =
    (commit batch (run clock meanwhile ledger), db', some (report_of batch outcome))

unfoldable pub tick :
    (ℕ → Time)
    → Interruptions
    → Time
    → List Generator
    → Inner
    → Database
    → Inner × Database × Option TickReport
tick clock met now meanwhile ledger db = elim (begin_flush ledger) [
  | none ↦ (run clock meanwhile ledger, db, none)
  | some batch ↦ settle clock meanwhile batch ledger db (write_batch met now batch db)
]
