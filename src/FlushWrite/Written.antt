-- ===== src/FlushWrite/Written.antt =====
-- api/src/db/repositories/mempool_ledger.rs: what a batch that was written has written.
use cluster_mempool_observer.Base.{
  ℕ, suc, Bool, true, false, not, ◌&&◌, ◌||◌, ◌≡◌, refl, sym, ap, ◌∙◌, subst, List, [], ◌∷◌, ◌++◌,
  map, Option, none, if◌then◌else◌, some, arith, Txid, Time, TxSet, contains, length, ◌==◌,
  in_chunks, flatten-chunks_from, Bool-cases, Option-cases, inl, inr,
}
use mathlib.Core.List.{append-nil}
use cluster_mempool_observer.Db.{
  Database, MempoolDelta, reason_direction, mempool_delta_insert_chunk_size,
}
use cluster_mempool_observer.Ledger.Journal.{DeltaDirection, add, rem, JournalEntry}
use cluster_mempool_observer.Ledger.Batch.{distinct_txids, distinct_into}
use cluster_mempool_observer.Membership.{insert_hollow}
use cluster_mempool_observer.Ledger.Counts.{distinct_txids_lem}
use cluster_mempool_observer.FlushWrite.Folds.{
  txids_of, contains-evicted_of, for_chunks-fold, fold_chunks-deltas, contains-fold_confirmed,
  insert_hollow-nil,
}
use cluster_mempool_observer.FlushWrite.Hollow.{insert_hollow_transactions-writes}
use cluster_mempool_observer.FlushWrite.{
  Interruptions, attempt, for_chunks, has_value, is_confirmed, select_confirmed, reason_of,
  delta_of, evicted_of, insert_deltas, write_deltas, insert_hollow_transactions, FlushOutcome,
  no_outcome, write_all, write_batch,
}

-- What a written batch has made of the database.
abbrev pub HasWritten : Time → List JournalEntry → Database → Database × FlushOutcome → Type 0
HasWritten now entries db r =
    (r.0.mempool_deltas ≡ db.mempool_deltas ++ map (delta_of r.1.confirmed) entries)
    × ((x : Txid)
        → contains x r.1.confirmed
          ≡ (contains x (distinct_txids entries rem) && is_confirmed (db.transactions x)))
    × ((x : Txid)
        → r.0.transactions x ≡ insert_hollow now (distinct_txids entries add) db.transactions x)
    × (r.0.clusters ≡ db.clusters)
    × (r.0.cluster_chunks ≡ db.cluster_chunks)
    × (r.0.next_cluster_id ≡ db.next_cluster_id)
    × ((x : Txid)
        → contains x r.1.evicted
          ≡ (contains x (distinct_txids entries rem) && not (is_confirmed (db.transactions x))))
    × ((x : Txid)
        → contains x r.1.new_txids
          ≡ (not (has_value (db.transactions x)) && contains x (distinct_txids entries add)))
    × ((x : Txid)
        → contains x (txids_of r.1.existing)
          ≡ (contains x (distinct_txids entries add) && has_value (db.transactions x)))

abbrev DeltasWritten : List JournalEntry → Database → ℕ × Database × TxSet × TxSet → Type 0
DeltasWritten entries db r =
    (r.1 ≡ record db { mempool_deltas = db.mempool_deltas ++ map (delta_of r.2) entries })
    × ((x : Txid)
        → contains x r.2
          ≡ (contains x (distinct_txids entries rem) && is_confirmed (db.transactions x)))
    × ((x : Txid)
        → contains x r.3
          ≡ (contains x (distinct_txids entries rem) && not (is_confirmed (db.transactions x))))

write_deltas-writes :
    (met : Interruptions) (entries : List JournalEntry) (n : ℕ) (db : Database)
    (r : ℕ × Database × TxSet × TxSet)
    → write_deltas met entries n db ≡ some r
    → DeltasWritten entries db r
unfolding write_deltas
write_deltas-writes met entries n db r h =
    let removes = distinct_txids entries rem in
    let chunks = in_chunks mempool_delta_insert_chunk_size removes in
    elim (Option-cases (for_chunks met (select_confirmed db.transactions) chunks n [])) [
      | inl bailed ↦
          let no : none ≡ some r = rw (write_deltas, bailed) at h in absurd (ground arith)
      | inr (first, e) ↦
          let rows = map (delta_of first.1) entries in
          let row_chunks = in_chunks mempool_delta_insert_chunk_size rows in
          elim (Option-cases (for_chunks met insert_deltas row_chunks first.0 db)) [
            | inl bailed ↦
                let no : none ≡ some r = rw (write_deltas, e, bailed) at h in absurd (ground arith)
            | inr (second, f) ↦
                let all : ℕ × Database × TxSet × TxSet =
                  (second.0, second.1, first.1, evicted_of first.1 entries []) in
                let same : some all ≡ some r = rw (write_deltas, e, f) at h in
                let eq : all ≡ r = cc in
                subst (DeltasWritten entries db) eq (
                  for_chunks-fold met insert_deltas row_chunks first.0 db second f
                      ∙ fold_chunks-deltas row_chunks db
                      ∙ rw (flatten-chunks_from mempool_delta_insert_chunk_size [] rows) refl,
                  found first e,
                  (λ x.
                      contains-evicted_of x first.1 entries []
                      ∙ rw (sym (distinct_txids_lem x rem entries).1, found first e x)
                          (left_out (contains x removes) _)),
                )
          ]
    ]
  where
    left_out : (a b : Bool) → (a && not (a && b)) ≡ (a && not b)
    left_out a b = ground arith

    or_false : (b : Bool) → (b || false) ≡ b
    or_false b = ground arith

    found :
        (first : ℕ × TxSet)
        → for_chunks met
            (select_confirmed db.transactions)
            (in_chunks mempool_delta_insert_chunk_size (distinct_txids entries rem))
            n
            []
          ≡ some first
        → (x : Txid)
        → contains x first.1
          ≡ (contains x (distinct_txids entries rem) && is_confirmed (db.transactions x))
    found first e x =
        let removes = distinct_txids entries rem in
        let chunks = in_chunks mempool_delta_insert_chunk_size removes in
        rw
          (
            for_chunks-fold met (select_confirmed db.transactions) chunks n [] first e,
            contains-fold_confirmed x db.transactions chunks [],
            flatten-chunks_from mempool_delta_insert_chunk_size [] removes,
          )
          (or_false _)

write_all-writes :
    (met : Interruptions) (now : Time) (entries : List JournalEntry) (db : Database)
    (r : Database × FlushOutcome)
    → write_all met now entries db ≡ some r
    → HasWritten now entries db r
unfolding write_all
write_all-writes met now entries db r h = elim (Option-cases (write_deltas met entries 0 db)) [
  | inl bailed ↦ let no : none ≡ some r = rw (write_all, bailed) at h in absurd (ground arith)
  | inr (first, e) ↦
      elim (Option-cases (insert_hollow_transactions met now entries first.0 first.1)) [
        | inl bailed ↦
            let no : none ≡ some r = rw (write_all, e, bailed) at h in absurd (ground arith)
        | inr (second, f) ↦ elim (Option-cases (attempt met second.0)) [
          | inl bailed ↦
              let no : none ≡ some r = rw (write_all, e, f, bailed) at h in absurd (ground arith)
          | inr (m, g) ↦
              let all : Database × FlushOutcome = (
                second.1,
                record {
                  new_txids = second.2;
                  existing = second.3;
                  confirmed = first.2;
                  evicted = first.3;
                },
              ) in
              let same : some all ≡ some r = rw (write_all, e, f, g) at h in
              let eq : all ≡ r = cc in
              let deltas = write_deltas-writes met entries 0 db first e in
              let hollow =
                insert_hollow_transactions-writes met now entries first.0 first.1 second f in
              subst (HasWritten now entries db) eq (
                hollow.1 ∙ ap (λ (d : Database). d.mempool_deltas) deltas.0,
                deltas.1,
                (λ x.
                    hollow.0 x
                    ∙ ap
                        (λ (d : Database).
                          insert_hollow now (distinct_txids entries add) d.transactions x)
                        deltas.0),
                hollow.2 ∙ ap (λ (d : Database). d.clusters) deltas.0,
                hollow.3 ∙ ap (λ (d : Database). d.cluster_chunks) deltas.0,
                hollow.4 ∙ ap (λ (d : Database). d.next_cluster_id) deltas.0,
                deltas.2,
                (λ x.
                    hollow.5 x
                    ∙ ap
                        (λ (d : Database).
                          not (has_value (d.transactions x))
                          && contains x (distinct_txids entries add))
                        deltas.0),
                (λ x.
                    hollow.6 x
                    ∙ ap
                        (λ (d : Database).
                          contains x (distinct_txids entries add) && has_value (d.transactions x))
                        deltas.0),
              )
        ]
      ]
]

abbrev pub entry_of : MempoolDelta → JournalEntry
entry_of d = record {
  txid = d.txid;
  direction = reason_direction d.reason;
  observed_at = d.created_at;
}

reason_direction-reason_of :
    (confirmed : TxSet) (d : DeltaDirection) (x : Txid)
    → reason_direction (reason_of confirmed d x) ≡ d
reason_direction-reason_of confirmed add x = refl
reason_direction-reason_of confirmed rem x = elim (Bool-cases (contains x confirmed)) [
  | inl mined ↦ rw mined refl
  | inr gone ↦ rw gone refl
]

pub entries-deltas :
    (confirmed : TxSet) (es : List JournalEntry) → map entry_of (map (delta_of confirmed) es) ≡ es
entries-deltas confirmed [] = refl
entries-deltas confirmed (e ∷ es) =
    let head : entry_of (delta_of confirmed e) ≡ e =
      λ i. record e { direction = reason_direction-reason_of confirmed e.direction e.txid i } in
    rw (head, entries-deltas confirmed es) refl

connected :
    (b : Bool) (written : Option (Database × FlushOutcome)) (r : Database × FlushOutcome)
    → (if b then none else written) ≡ some r
    → written ≡ some r
connected true written r h = absurd (ground arith)
connected false written r h = h

-- A batch that is written appends a delta for each of its entries, in order, a removal as confirmed
-- exactly if the transaction is stored with the time of its block and as evicted otherwise; it gives a
-- hollow row to exactly the added txids that have no row, reports these as new and the other added ones as
-- existing, and leaves every other row and all clusters as they were.
pub write_batch-writes :
    (met : Interruptions) (now : Time) (entries : List JournalEntry) (db : Database)
    (r : Database × FlushOutcome)
    → write_batch met now entries db ≡ some r
    → HasWritten now entries db r
unfolding write_batch distinct_txids distinct_into
write_batch-writes met now [] db r h =
    let eq : (db, no_outcome) ≡ r = cc in
    subst (HasWritten now [] db) eq (
      sym (append-nil db.mempool_deltas),
      (λ x. refl),
      (λ x. insert_hollow-nil now db.transactions x),
      refl,
      refl,
      refl,
      (λ x. refl),
      (λ x. ground arith),
      (λ x. refl),
    )
write_batch-writes met now (e ∷ es) db r h =
    let busy : (suc (length es) == 0) ≡ false = ground arith in
    write_all-writes met now (e ∷ es) db r
      (connected met.no_connection (write_all met now (e ∷ es) db) r (rw busy at h))
