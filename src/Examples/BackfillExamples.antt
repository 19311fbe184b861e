-- ===== src/Examples/BackfillExamples.antt =====
-- api/src/services/tx_backfill.rs: requests that fail, and the theorems at them.
use cluster_mempool_observer.Base.{
  ◌*◌, ◌^◌, min, true, false, ◌≡◌, refl, [], ◌∷◌, none, some, ◌==◌, if◌then◌else◌,
}
use cluster_mempool_observer.Db.{Database, empty_database, hollow}
use cluster_mempool_observer.FlushWrite.{raw, entry, backfill_stage}
use cluster_mempool_observer.BlockSync.{shift_factor}
use cluster_mempool_observer.Backfill.{
  BackfillRequest, new_request, retry_backoff, retry_backoff_base, max_retry_backoff, Meeting,
  fetched, failed, transient, process, requeues, run_stages, run_rest, run_raw_stage,
  run_entry_stage, backfill_raw, judge, should_retry, next_attempt, max_attempts,
}
use cluster_mempool_observer.Backfill.Retries.{IsRetry, process-IsRetry}
use cluster_mempool_observer.Backfill.Ending.{
  ends_within, ends_within-max_attempts, retry_backoff-doubles,
}

-- The row of 4 is hollow.
abbrev tables : Database
tables = record empty_database { transactions = λ x. if x == 4 then some (hollow 9) else none }

-- The node has the transaction, but fails to give its fee.
abbrev half : Meeting
half = record {
  raw_transaction = fetched (record { input_txids = 2 ∷ []; weight = 400 });
  mempool_entry = failed transient;
  raw_write_fails = false;
  fee_write_fails = false;
  in_mempool = false;
  closes = false;
}

abbrev again : BackfillRequest
again = record { txid = 4; attempts = 1; stage = entry }

requeues_entry : (process half (new_request 4 raw) tables).1 ≡ requeues 250 again
unfolding process run_stages run_rest run_raw_stage run_entry_stage backfill_raw judge should_retry
    next_attempt retry_backoff shift_factor hollow backfill_stage
requeues_entry = refl

process-IsRetry_example :
    IsRetry half (new_request 4 raw) (process half (new_request 4 raw) tables).0 250 again
process-IsRetry_example = process-IsRetry half (new_request 4 raw) tables 250 again requeues_entry

ends_within-max_attempts_example :
    ends_within max_attempts (λ n. (half, tables)) 0 (new_request 4 raw) ≡ true
ends_within-max_attempts_example =
    ends_within-max_attempts (λ n. (half, tables)) (new_request 4 raw) (λ n. refl)

retry_backoff-doubles_example :
    retry_backoff 200 ≡ min (retry_backoff_base * 2 ^ 200) max_retry_backoff
retry_backoff-doubles_example = retry_backoff-doubles 200
