-- ===== src/FlushWrite.antt =====
-- api/src/db/repositories/mempool_ledger.rs: one journal batch written in one database transaction,
-- which is rolled back once a block has arrived or a statement has failed: `none` is either, which differ
-- only in what is logged.
pub mod Folds
pub mod Hollow
pub mod Written
pub mod Runs
use cluster_mempool_observer.Base.{
  ℕ, zero, suc, ◌+◌, Bool, true, false, not, ◌&&◌, ◌||◌, List, [], ◌∷◌, ◌++◌, map, Option, none,
  some, Txid, Time, TxSet, contains, insert, keep, length, ◌==◌, if◌then◌else◌, in_chunks,
}
use cluster_mempool_observer.Db.{
  Transaction, Database, DeltaReason, add_mempool, remove_confirmed, remove_evicted, MempoolDelta,
  mempool_delta_insert_chunk_size,
}
use cluster_mempool_observer.Ledger.Journal.{DeltaDirection, add, rem, JournalEntry}
use cluster_mempool_observer.Ledger.Batch.{distinct_txids}
use cluster_mempool_observer.Membership.{insert_hollow}

-- api/src/db/models.rs
pub record StoredTxFill : Type 0 where
  pub has_parents : Bool
  pub weight : ℕ
  pub has_fee : Bool

pub data BackfillStage : Type 0 where
  raw entry : BackfillStage

unfoldable pub backfill_stage : StoredTxFill → Option BackfillStage
backfill_stage fill =
    if not fill.has_parents || fill.weight == 0
    then some raw
    else if not fill.has_fee
    then some entry
    else none

pub record FlushOutcome : Type 0 where
  pub new_txids : List Txid
  pub existing : List (Txid × StoredTxFill)
  pub confirmed : List Txid
  pub evicted : List Txid

abbrev pub transaction_insert_chunk_size : ℕ
transaction_insert_chunk_size = 1000

-- What a write meets: whether it gets no connection, and for the n-th time that it asks the gate, what the
-- gate says and whether the statement after it, or the commit, fails.
pub record Interruptions : Type 0 where
  pub no_connection : Bool
  pub preempted : ℕ → Bool
  pub db_fails : ℕ → Bool

-- How often the gate was asked so far.
unfoldable pub bail_if : Interruptions → ℕ → Option ℕ
bail_if met n = if met.preempted n then none else some (suc n)

-- `bail_if(preempted)?`, and the `?` of the statement after it, or of the commit.
unfoldable pub attempt : Interruptions → ℕ → Option ℕ
attempt met n = elim (bail_if met n) [
  | none ↦ none
  | some n' ↦ if met.db_fails n then none else some n'
]

-- `for chunk in chunks { bail_if(preempted)?; … }`.
unfoldable pub for_chunks {κ ℓ} :
    {A : Type κ} {S : Type ℓ}
    → Interruptions
    → (List A → S → S)
    → List (List A)
    → ℕ
    → S
    → Option (ℕ × S)
for_chunks met statement [] n s = some (n, s)
for_chunks met statement (chunk ∷ chunks) n s = elim (attempt met n) [
  | none ↦ none
  | some n' ↦ for_chunks met statement chunks n' (statement chunk s)
]

abbrev pub is_confirmed : Option Transaction → Bool
is_confirmed none = false
is_confirmed (some row) = elim row.confirmed_at [ none ↦ false | some _ ↦ true ]

abbrev pub extend : List Txid → TxSet → TxSet
extend [] s = s
extend (x ∷ xs) s = extend xs (insert x s)

-- The first loop of `write_deltas`.
abbrev pub select_confirmed : (Txid → Option Transaction) → List Txid → TxSet → TxSet
select_confirmed transactions chunk confirmed =
    extend (keep (λ x. is_confirmed (transactions x)) chunk) confirmed

abbrev pub reason_of : TxSet → DeltaDirection → Txid → DeltaReason
reason_of confirmed add x = add_mempool
reason_of confirmed rem x = if contains x confirmed then remove_confirmed else remove_evicted

abbrev pub delta_of : TxSet → JournalEntry → MempoolDelta
delta_of confirmed e = record {
  txid = e.txid;
  reason = reason_of confirmed e.direction e.txid;
  created_at = e.observed_at;
}

abbrev pub note_evicted : DeltaReason → Txid → TxSet → TxSet
note_evicted add_mempool x evicted = evicted
note_evicted remove_confirmed x evicted = evicted
note_evicted remove_evicted x evicted = insert x evicted

-- What the loop over the entries gathers in `evicted`.
unfoldable pub evicted_of : TxSet → List JournalEntry → TxSet → TxSet
evicted_of confirmed [] evicted = evicted
evicted_of confirmed (e ∷ es) evicted =
    evicted_of confirmed es (note_evicted (reason_of confirmed e.direction e.txid) e.txid evicted)

-- The last loop of `write_deltas`.
abbrev pub insert_deltas : List MempoolDelta → Database → Database
insert_deltas chunk db = record db { mempool_deltas = db.mempool_deltas ++ chunk }

-- `write_deltas`: the confirmed and the evicted txids.
unfoldable pub write_deltas :
    Interruptions → List JournalEntry → ℕ → Database → Option (ℕ × Database × TxSet × TxSet)
write_deltas met entries n db =
    let removes = distinct_txids entries rem in
    elim (for_chunks met (select_confirmed db.transactions)
      (in_chunks mempool_delta_insert_chunk_size removes) n []) [
        | none ↦ none
        | some (n', confirmed) ↦
            elim (for_chunks met insert_deltas
              (in_chunks mempool_delta_insert_chunk_size (map (delta_of confirmed) entries)) n'
              db) [
                | none ↦ none
                | some (n'', db') ↦ some (n'', db', confirmed, evicted_of confirmed entries [])
              ]
      ]

abbrev pub has_value {ℓ} : {A : Type ℓ} → Option A → Bool
has_value none = false
has_value (some a) = true

abbrev pub fill_of : Transaction → StoredTxFill
fill_of row = record {
  has_parents = has_value row.input_txids;
  weight = row.weight;
  has_fee = has_value row.fee;
}

abbrev pub found_fill : Txid → Option Transaction → List (Txid × StoredTxFill)
found_fill x none = []
found_fill x (some row) = (x, fill_of row) ∷ []

unfoldable pub select_existing :
    (Txid → Option Transaction) → List Txid → List (Txid × StoredTxFill)
select_existing transactions [] = []
select_existing transactions (x ∷ xs) =
    found_fill x (transactions x) ++ select_existing transactions xs

-- The rows of a chunk; sorting them by txid changes nothing of what they add.
abbrev pub insert_hollow_chunk : Time → List Txid → Database → Database
insert_hollow_chunk now chunk db = record db {
  transactions = insert_hollow now chunk db.transactions;
}

-- `insert_hollow_transactions`: the new and the existing txids.
unfoldable pub insert_hollow_transactions :
    Interruptions
    → Time
    → List JournalEntry
    → ℕ
    → Database
    → Option (ℕ × Database × List Txid × List (Txid × StoredTxFill))
insert_hollow_transactions met now entries n db =
    let adds = distinct_txids entries add in
    elim (for_chunks met (λ chunk existing. existing ++ select_existing db.transactions chunk)
      (in_chunks mempool_delta_insert_chunk_size adds) n []) [
        | none ↦ none
        | some (n', existing) ↦
            let known = map (λ (found : Txid × StoredTxFill). found.0) existing in
            let new_txids = keep (λ x. not (contains x known)) adds in
            elim (for_chunks met (insert_hollow_chunk now)
              (in_chunks transaction_insert_chunk_size new_txids) n' db) [
                | none ↦ none
                | some (n'', db') ↦ some (n'', db', new_txids, existing)
              ]
      ]

abbrev pub no_outcome : FlushOutcome
no_outcome = record { new_txids = []; existing = []; confirmed = []; evicted = [] }

unfoldable pub write_all :
    Interruptions → Time → List JournalEntry → Database → Option (Database × FlushOutcome)
write_all met now entries db = elim (write_deltas met entries 0 db) [
  | none ↦ none
  | some (n, db', confirmed, evicted) ↦ elim (insert_hollow_transactions met now entries n db') [
    | none ↦ none
    | some (n', db'', new_txids, existing) ↦ elim (attempt met n') [
      | none ↦ none
      | some _ ↦ some (
        db'',
        record {
          new_txids = new_txids;
          existing = existing;
          confirmed = confirmed;
          evicted = evicted;
        },
      )
    ]
  ]
]

unfoldable pub write_batch :
    Interruptions → Time → List JournalEntry → Database → Option (Database × FlushOutcome)
write_batch met now entries db =
    if length entries == 0
    then some (db, no_outcome)
    else if met.no_connection
    then none
    else write_all met now entries db
