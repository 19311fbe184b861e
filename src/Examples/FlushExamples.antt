-- ===== src/Examples/FlushExamples.antt =====
-- api/src/db/repositories/mempool_ledger.rs and api/src/services/mempool_reconciler.rs: a batch and a
-- tick, and the theorems at them.
use cluster_mempool_observer.Base.{
  ℕ, ◌+◌, false, ◌≡◌, refl, List, [], ◌∷◌, ◌++◌, none, some, arith, Txid, Time, insert, remove,
  chunks_from, if◌then◌else◌, ◌==◌,
}
use cluster_mempool_observer.Db.{
  Database, empty_database, Transaction, add_mempool, remove_confirmed, remove_evicted,
}
use cluster_mempool_observer.Ledger.Journal.{DeltaDirection, add, rem, JournalEntry, Inner}
use cluster_mempool_observer.Ledger.Replay.{replay}
use cluster_mempool_observer.Ledger.Consistency.{IsConsistent}
use cluster_mempool_observer.Ledger.Batch.{
  distinct_txids, distinct_into, residency_delta, transition_counts, first_last, stayed,
  added_txids, count_from,
}
use cluster_mempool_observer.Ledger.{begin_flush, run, Generator, presents}
use cluster_mempool_observer.Membership.{insert_hollow}
use cluster_mempool_observer.FlushWrite.{
  write_batch, write_all, write_deltas, insert_hollow_transactions, for_chunks, bail_if, attempt,
  Interruptions, evicted_of, select_existing, FlushOutcome, raw,
}
use cluster_mempool_observer.FlushWrite.Runs.{IsCalm, write_batch-succeeds}
use cluster_mempool_observer.FlushWrite.Written.{HasWritten, write_batch-writes}
use cluster_mempool_observer.Reconciler.{
  TickReport, tick, settle, to_backfill, existing_to_backfill,
}
use cluster_mempool_observer.Reconciler.Ticks.{residency, Broadcasts, tick-Broadcasts, tick-drains}

abbrev clock : ℕ → Time
clock n = 100 + n

abbrev calm : Interruptions
calm = record { no_connection = false; preempted = λ n. false; db_fails = λ n. false }

calm-IsCalm : IsCalm calm
calm-IsCalm = (refl, (λ k. refl), (λ k. refl))

abbrev moves : Txid → DeltaDirection → Time → JournalEntry
moves x d t = record { txid = x; direction = d; observed_at = t }

abbrev mined_row : Transaction
mined_row = record {
  fee = none;
  weight = 400;
  first_seen_at = 5;
  confirmed_at = some 50;
  cluster_id = none;
  confirmed_at_block = some 7;
  input_txids = some [];
}

-- 1 and 2 are resident, and 2 was mined since.
abbrev recorded : Database
recorded = record empty_database {
  transactions = λ x. if x == 2 then some mined_row else none;
  mempool_deltas =
      record { txid = 1; reason = add_mempool; created_at = 10 }
      ∷ record { txid = 2; reason = add_mempool; created_at = 11 }
      ∷ [];
}

abbrev pending : List JournalEntry
pending = moves 3 add 20 ∷ moves 2 rem 21 ∷ moves 1 rem 22 ∷ []

abbrev ledger : Inner
ledger = record { live = 3 ∷ []; journal = pending; degraded = false }

ledger-IsConsistent : IsConsistent (residency recorded) ledger
unfolding replay insert remove
ledger-IsConsistent = record {
  distinct = (refl, tt);
  bounded = omega arith;
  leads = λ _. record { agrees = λ x. ground arith; effective = (refl, (refl, (refl, tt))) };
}

-- 3 is new, 2 was mined and 1 evicted.
write_batch-succeeds_example :
    (r : Database × FlushOutcome) × (write_batch calm 30 pending recorded ≡ some r)
write_batch-succeeds_example = write_batch-succeeds calm 30 pending recorded calm-IsCalm

abbrev written : Database × FlushOutcome
written = (
  record recorded {
    mempool_deltas =
        record { txid = 1; reason = add_mempool; created_at = 10 }
        ∷ record { txid = 2; reason = add_mempool; created_at = 11 }
        ∷ record { txid = 3; reason = add_mempool; created_at = 20 }
        ∷ record { txid = 2; reason = remove_confirmed; created_at = 21 }
        ∷ record { txid = 1; reason = remove_evicted; created_at = 22 }
        ∷ [];
    transactions = insert_hollow 30 (3 ∷ []) recorded.transactions;
  },
  record { new_txids = 3 ∷ []; existing = []; confirmed = 2 ∷ []; evicted = 1 ∷ [] },
)

writes : write_batch calm 30 pending recorded ≡ some written
unfolding write_batch write_all write_deltas insert_hollow_transactions for_chunks attempt bail_if
    evicted_of select_existing distinct_txids distinct_into insert chunks_from
writes = refl

write_batch-writes_example : HasWritten 30 pending recorded written
write_batch-writes_example = write_batch-writes calm 30 pending recorded written writes

-- A gate that shuts before the last statement rolls all back.
preempts : write_batch record calm { preempted = λ n. n == 3 } 30 pending recorded ≡ none
unfolding write_batch write_all write_deltas insert_hollow_transactions for_chunks attempt bail_if
    evicted_of select_existing distinct_txids distinct_into insert chunks_from
preempts = refl

-- So does a statement that fails.
rolls_back : write_batch record calm { db_fails = λ n. n == 2 } 30 pending recorded ≡ none
unfolding write_batch write_all write_deltas insert_hollow_transactions for_chunks attempt bail_if
    evicted_of select_existing distinct_txids distinct_into insert chunks_from
rolls_back = refl

abbrev meanwhile : List Generator
meanwhile = presents (4 ∷ []) ∷ []

tick-drains_example :
    let after = tick clock calm 30 meanwhile ledger recorded in
    (report : TickReport) × (after.2 ≡ some report)
    × (residency after.1 ≡ replay (residency recorded) ledger.journal)
    × ((run clock meanwhile ledger).journal ≡ ledger.journal ++ after.0.journal)
unfolding begin_flush
tick-drains_example = tick-drains clock calm 30 meanwhile ledger recorded pending refl calm-IsCalm

abbrev drained : TickReport
drained = record {
  added = 3 ∷ [];
  removed = 2 ∷ 1 ∷ [];
  counts = (1, 2);
  backfill = (3, raw) ∷ [];
  candidates = 3 ∷ [];
  outcome = written.1;
}

ticks : (tick clock calm 30 meanwhile ledger recorded).2 ≡ some drained
unfolding tick settle begin_flush write_batch write_all write_deltas insert_hollow_transactions
    for_chunks attempt bail_if evicted_of select_existing distinct_txids distinct_into insert
    chunks_from residency_delta first_last stayed transition_counts count_from added_txids
    to_backfill existing_to_backfill
ticks = refl

tick-Broadcasts_example :
    Broadcasts recorded (tick clock calm 30 meanwhile ledger recorded).1 drained 3
tick-Broadcasts_example =
    tick-Broadcasts clock calm 30 meanwhile ledger recorded drained 3 ledger-IsConsistent refl ticks
