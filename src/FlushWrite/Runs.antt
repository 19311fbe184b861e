-- ===== src/FlushWrite/Runs.antt =====
-- api/src/db/repositories/mempool_ledger.rs: a batch that nothing interrupts.
use cluster_mempool_observer.Base.{
  ℕ, suc, Bool, false, not, ◌≡◌, refl, ◌∙◌, List, [], ◌∷◌, ◌++◌, map, Option, none, some, arith,
  if◌then◌else◌, Txid, Time, TxSet, contains, keep, length, ◌==◌, in_chunks,
}
use cluster_mempool_observer.Db.{Database, mempool_delta_insert_chunk_size}
use cluster_mempool_observer.Ledger.Journal.{add, rem, JournalEntry}
use cluster_mempool_observer.Ledger.Batch.{distinct_txids}
use cluster_mempool_observer.FlushWrite.{
  Interruptions, bail_if, attempt, for_chunks, select_confirmed, delta_of, evicted_of,
  insert_deltas, write_deltas, insert_hollow_chunk, select_existing, insert_hollow_transactions,
  transaction_insert_chunk_size, FlushOutcome, no_outcome, write_all, write_batch, StoredTxFill,
}

-- There is a connection, the gate stays open, and no statement fails.
abbrev pub IsCalm : Interruptions → Type 0
IsCalm met =
    (met.no_connection ≡ false)
    × ((k : ℕ) → met.preempted k ≡ false)
    × ((k : ℕ) → met.db_fails k ≡ false)

attempt-runs : (met : Interruptions) (n : ℕ) → IsCalm met → attempt met n ≡ some (suc n)
unfolding attempt bail_if
attempt-runs met n calm = go (met.preempted n) (met.db_fails n) (calm.1 n) (calm.2 n)
  where
    go :
        (held fails : Bool)
        → held ≡ false
        → fails ≡ false
        → (elim (if held then none else some (suc n)) [
          | none ↦ none
          | some n' ↦ if fails then none else some n'
        ])
          ≡ some (suc n)
    go held fails calm fine = rw (calm, fine) refl

for_chunks-runs {κ ℓ} :
    {A : Type κ} {S : Type ℓ} (met : Interruptions) (f : List A → S → S) (chunks : List (List A))
    (n : ℕ) (s : S)
    → IsCalm met
    → (r : ℕ × S) × (for_chunks met f chunks n s ≡ some r)
unfolding for_chunks
for_chunks-runs met f [] n s calm = ((n, s), refl)
for_chunks-runs met f (chunk ∷ chunks) n s calm =
    let (r, e) = for_chunks-runs met f chunks (suc n) (f chunk s) calm in
    (r, rw (for_chunks, attempt-runs met n calm) e)

write_deltas-runs :
    (met : Interruptions) (entries : List JournalEntry) (n : ℕ) (db : Database)
    → IsCalm met
    → (r : ℕ × Database × TxSet × TxSet) × (write_deltas met entries n db ≡ some r)
unfolding write_deltas
write_deltas-runs met entries n db calm =
    let chunks = in_chunks mempool_delta_insert_chunk_size (distinct_txids entries rem) in
    let (first, e) = for_chunks-runs met (select_confirmed db.transactions) chunks n [] calm in
    let rows = in_chunks mempool_delta_insert_chunk_size (map (delta_of first.1) entries) in
    let (second, f) = for_chunks-runs met insert_deltas rows first.0 db calm in
    ((second.0, second.1, first.1, evicted_of first.1 entries []), rw (write_deltas, e, f) refl)

insert_hollow_transactions-runs :
    (met : Interruptions) (now : Time) (entries : List JournalEntry) (n : ℕ) (db : Database)
    → IsCalm met
    → (r : ℕ × Database × List Txid × List (Txid × StoredTxFill)) × (insert_hollow_transactions met
          now entries n db
        ≡ some r)
unfolding insert_hollow_transactions
insert_hollow_transactions-runs met now entries n db calm =
    let adds = distinct_txids entries add in
    let look = λ (chunk : List Txid) (existing : List (Txid × StoredTxFill)).
      existing ++ select_existing db.transactions chunk in
    let (first, e) =
      for_chunks-runs met look (in_chunks mempool_delta_insert_chunk_size adds) n [] calm in
    let known = map (λ (found : Txid × StoredTxFill). found.0) first.1 in
    let new_txids = keep (λ x. not (contains x known)) adds in
    let (second, f) =
      for_chunks-runs met (insert_hollow_chunk now)
        (in_chunks transaction_insert_chunk_size new_txids) first.0 db calm in
    ((second.0, second.1, new_txids, first.1), rw (insert_hollow_transactions, e, f) refl)

write_all-runs :
    (met : Interruptions) (now : Time) (entries : List JournalEntry) (db : Database)
    → IsCalm met
    → (r : Database × FlushOutcome) × (write_all met now entries db ≡ some r)
unfolding write_all
write_all-runs met now entries db calm =
    let (first, e) = write_deltas-runs met entries 0 db calm in
    let (second, f) = insert_hollow_transactions-runs met now entries first.0 first.1 calm in
    (
      (
        second.1,
        record {
          new_txids = second.2;
          existing = second.3;
          confirmed = first.2;
          evicted = first.3;
        },
      ),
      rw (write_all, e, f, attempt-runs met second.0 calm) refl,
    )

-- A batch is written if the gate stays open throughout and the database does not fail.
pub write_batch-succeeds :
    (met : Interruptions) (now : Time) (entries : List JournalEntry) (db : Database)
    → IsCalm met
    → (r : Database × FlushOutcome) × (write_batch met now entries db ≡ some r)
unfolding write_batch
write_batch-succeeds met now [] db calm = ((db, no_outcome), refl)
write_batch-succeeds met now (e ∷ es) db calm =
    let busy : (suc (length es) == 0) ≡ false = ground arith in
    let (r, f) = write_all-runs met now (e ∷ es) db calm in
    (r, rw busy (connected met.no_connection (write_all met now (e ∷ es) db) calm.0 ∙ f))
  where
    connected :
        (b : Bool) (written : Option (Database × FlushOutcome))
        → b ≡ false
        → (if b then none else written) ≡ written
    connected b written h = rw h refl
