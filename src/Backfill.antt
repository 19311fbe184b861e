-- ===== src/Backfill.antt =====
-- api/src/services/tx_backfill.rs: the enrichment of one transaction from the node, in two stages, and
-- what follows a failure. The queue itself, a channel of a library, and the jitter of the waits are left
-- out: `process` says what is to go back on the queue, and after which wait.
pub mod Retries
pub mod Ending
use cluster_mempool_observer.Base.{
  ℕ, zero, suc, ◌+◌, ◌*◌, ◌^◌, Bool, true, false, not, ◌&&◌, ◌||◌, List, [], ◌∷◌, Option, none,
  some, Txid, leb, ltb, ◌==◌, if◌then◌else◌,
}
use cluster_mempool_observer.Db.{Transaction, Database}
use cluster_mempool_observer.FlushWrite.{StoredTxFill, BackfillStage, raw, entry, backfill_stage}
use cluster_mempool_observer.BlockSync.{shift_factor}

abbrev pub max_attempts : ℕ
max_attempts = 37

-- In milliseconds.
abbrev pub retry_backoff_base : ℕ
retry_backoff_base = 250

abbrev pub max_retry_backoff : ℕ
max_retry_backoff = 60000

pub record BackfillRequest : Type 0 where
  pub txid : Txid
  pub attempts : ℕ
  pub stage : BackfillStage

abbrev pub new_request : Txid → BackfillStage → BackfillRequest
new_request x stage = record { txid = x; attempts = 0; stage = stage }

unfoldable pub should_retry : ℕ → Bool → Bool
should_retry attempts_made in_mempool = in_mempool || ltb attempts_made max_attempts

-- The product is far below the limit of a duration, where the multiplication would saturate.
unfoldable pub retry_backoff : ℕ → ℕ
retry_backoff attempts =
    let delay = retry_backoff_base * shift_factor attempts in
    if leb delay max_retry_backoff then delay else max_retry_backoff

-- `u8::saturating_add(1)`.
unfoldable pub next_attempt : ℕ → ℕ
next_attempt attempts = if ltb attempts 255 then attempts + 1 else 255

-- `TxNotFoundInMempool`, `InvalidParams`, or any other error.
pub data NodeError : Type 0 where
  tx_not_found invalid_params transient : NodeError

pub data Fetch {ℓ} (A : Type ℓ) : Type ℓ where
  fetched : A → Fetch A
  failed : NodeError → Fetch A

pub record RawTx : Type 0 where
  pub input_txids : List Txid
  pub weight : ℕ

-- What a request meets: the node's answers, whether the database fails at either write, whether the
-- ledger has the transaction when it is asked, and whether the queue closes before the wait is over.
pub record Meeting : Type 0 where
  pub raw_transaction : Fetch RawTx
  pub mempool_entry : Fetch ℕ
  pub raw_write_fails : Bool
  pub fee_write_fails : Bool
  pub in_mempool : Bool
  pub closes : Bool

abbrev pub is_known : Option (List Txid) → Bool
is_known none = false
is_known (some xs) = true

abbrev pub has_fee : Option ℕ → Bool
has_fee none = false
has_fee (some fee) = true

abbrev pub fill_of : Transaction → StoredTxFill
fill_of t = record {
  has_parents = is_known t.input_txids;
  weight = t.weight;
  has_fee = has_fee t.fee;
}

abbrev pub write_row : Txid → Transaction → Database → Database
write_row x t db = record db { transactions = λ y. if y == x then some t else db.transactions y }

abbrev pub lacks_raw : Transaction → Bool
lacks_raw t = not (is_known t.input_txids) || t.weight == 0

-- `backfill_raw`: the update of the row, if it is hollow, and what it returns of it.
unfoldable pub backfill_raw : Txid → RawTx → Database → Database × Option StoredTxFill
backfill_raw x tx db = elim (db.transactions x) [
  | none ↦ (db, none)
  | some t ↦
      let filled : Transaction = record t {
        input_txids = some tx.input_txids;
        weight = tx.weight;
      } in
      if lacks_raw t then (write_row x filled db, some (fill_of filled)) else (db, none)
]

unfoldable pub backfill_fee : Txid → ℕ → Database → Database × Option StoredTxFill
backfill_fee x fee db = elim (db.transactions x) [
  | none ↦ (db, none)
  | some t ↦
      let filled : Transaction = record t { fee = some fee } in
      if has_fee t.fee then (db, none) else (write_row x filled db, some (fill_of filled))
]

-- `Ok(next stage)`, or the error that the stage failed with.
pub data StageResult : Type 0 where
  ok : Option BackfillStage → StageResult
  error : NodeError → StageResult

abbrev pub next_of : Option StoredTxFill → Option BackfillStage
next_of none = none
next_of (some fill) = backfill_stage fill

-- A write that fails ends the request as one that found no row to fill does.
abbrev pub write_result : Bool → Database → Database × Option StoredTxFill → Database × StageResult
write_result true db written = (db, ok none)
write_result false db (db', fill) = (db', ok (next_of fill))

unfoldable pub run_raw_stage : Meeting → Txid → Database → Database × StageResult
run_raw_stage m x db = elim m.raw_transaction [
  | failed e ↦ (db, error e)
  | fetched tx ↦ write_result m.raw_write_fails db (backfill_raw x tx db)
]

unfoldable pub run_entry_stage : Meeting → Txid → Database → Database × StageResult
run_entry_stage m x db = elim m.mempool_entry [
  | failed e ↦ (db, error e)
  | fetched fee ↦ write_result m.fee_write_fails db (backfill_fee x fee db)
]

abbrev pub failed_at : BackfillStage → StageResult → Option (BackfillStage × NodeError)
failed_at stage (ok next) = none
failed_at stage (error e) = some (stage, e)

-- The second stage, if the first one left it to do.
unfoldable pub run_rest :
    Meeting → Txid → Option BackfillStage → Database → Database × Option (BackfillStage × NodeError)
run_rest m x (some entry) db =
    let (db', result) = run_entry_stage m x db in (db', failed_at entry result)
run_rest m x (some raw) db = (db, none)
run_rest m x none db = (db, none)

-- `none` is success.
unfoldable pub run_stages :
    Meeting → Txid → BackfillStage → Database → Database × Option (BackfillStage × NodeError)
run_stages m x entry db = run_rest m x (some entry) db
run_stages m x raw db =
    let (db', result) = run_raw_stage m x db in
    elim result [ ok next ↦ run_rest m x next db' | error e ↦ (db', some (raw, e)) ]

pub data Verdict : Type 0 where
  done left_hollow refused gave_up dropped : Verdict
  requeues : ℕ → BackfillRequest → Verdict

unfoldable pub judge : Meeting → BackfillRequest → BackfillStage → NodeError → Verdict
judge m req stage tx_not_found = left_hollow
judge m req stage invalid_params = refused
judge m req stage transient =
    let attempts_made = next_attempt req.attempts in
    if not (should_retry attempts_made m.in_mempool)
    then gave_up
    else if m.closes
    then dropped
    else requeues (retry_backoff req.attempts)
        (record { txid = req.txid; attempts = attempts_made; stage = stage })

unfoldable pub process : Meeting → BackfillRequest → Database → Database × Verdict
process m req db =
    let (db', outcome) = run_stages m req.txid req.stage db in
    elim outcome [ none ↦ (db', done) | some (stage, e) ↦ (db', judge m req stage e) ]
