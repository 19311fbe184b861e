-- ===== src/FlushWrite/Hollow.antt =====
-- api/src/db/repositories/mempool_ledger.rs: the rows that a batch that was written has added to the transactions.
use cluster_mempool_observer.Base.{
  ℕ, Bool, not, ◌&&◌, ◌≡◌, refl, ◌∙◌, subst, List, [], ◌++◌, map, none, some, arith, Txid, Time,
  contains, contains-keep, keep, in_chunks, flatten-chunks_from, Option-cases, inl, inr,
}
use cluster_mempool_observer.Db.{Database, mempool_delta_insert_chunk_size}
use cluster_mempool_observer.Ledger.Journal.{add, JournalEntry}
use cluster_mempool_observer.Ledger.Batch.{distinct_txids}
use cluster_mempool_observer.Membership.{insert_hollow}
use cluster_mempool_observer.FlushWrite.Folds.{
  txids_of, contains-fold_existing, insert_hollow-missing, for_chunks-fold, fold_chunks-hollow,
  fold_chunks-hollow_deltas, fold_chunks-hollow_clusters,
}
use cluster_mempool_observer.FlushWrite.{
  Interruptions, for_chunks, has_value, insert_hollow_chunk, select_existing,
  insert_hollow_transactions, transaction_insert_chunk_size, StoredTxFill,
}

-- What is made of the transactions, and what is reported as new and as existing.
abbrev pub HollowWritten :
    Time
    → List JournalEntry
    → Database
    → ℕ × Database × List Txid × List (Txid × StoredTxFill)
    → Type 0
HollowWritten now entries db r =
    ((x : Txid)
      → r.1.transactions x ≡ insert_hollow now (distinct_txids entries add) db.transactions x)
    × (r.1.mempool_deltas ≡ db.mempool_deltas)
    × (r.1.clusters ≡ db.clusters)
    × (r.1.cluster_chunks ≡ db.cluster_chunks)
    × (r.1.next_cluster_id ≡ db.next_cluster_id)
    × ((x : Txid)
        → contains x r.2
          ≡ (not (has_value (db.transactions x)) && contains x (distinct_txids entries add)))
    × ((x : Txid)
        → contains x (txids_of r.3)
          ≡ (contains x (distinct_txids entries add) && has_value (db.transactions x)))

pub insert_hollow_transactions-writes :
    (met : Interruptions) (now : Time) (entries : List JournalEntry) (n : ℕ) (db : Database)
    (r : ℕ × Database × List Txid × List (Txid × StoredTxFill))
    → insert_hollow_transactions met now entries n db ≡ some r
    → HollowWritten now entries db r
unfolding insert_hollow_transactions
insert_hollow_transactions-writes met now entries n db r h =
    let adds = distinct_txids entries add in
    let look = λ (chunk : List Txid) (existing : List (Txid × StoredTxFill)).
      existing ++ select_existing db.transactions chunk in
    let chunks = in_chunks mempool_delta_insert_chunk_size adds in
    elim (Option-cases (for_chunks met look chunks n [])) [
      | inl bailed ↦
          let no : none ≡ some r = rw (insert_hollow_transactions, bailed) at h in
          absurd (ground arith)
      | inr (first, e) ↦
          let known = map (λ (found : Txid × StoredTxFill). found.0) first.1 in
          let new_txids = keep (λ x. not (contains x known)) adds in
          let new_chunks = in_chunks transaction_insert_chunk_size new_txids in
          elim (Option-cases (for_chunks met (insert_hollow_chunk now) new_chunks first.0 db)) [
            | inl bailed ↦
                let no : none ≡ some r = rw (insert_hollow_transactions, e, bailed) at h in
                absurd (ground arith)
            | inr (second, f) ↦
                let all : ℕ × Database × List Txid × List (Txid × StoredTxFill) =
                  (second.0, second.1, new_txids, first.1) in
                let same : some all ≡ some r = rw (insert_hollow_transactions, e, f) at h in
                let eq : all ≡ r = cc in
                let made =
                  for_chunks-fold met (insert_hollow_chunk now) new_chunks first.0 db second f in
                let kept = fold_chunks-hollow_clusters now new_chunks db in
                subst (HollowWritten now entries db) eq (
                  (λ x.
                      rw (made, fold_chunks-hollow now new_chunks db x)
                        (rw (flatten-chunks_from transaction_insert_chunk_size [] new_txids) (
                          insert_hollow-missing now new_txids adds db.transactions x
                            (fresh first e x)))),
                  rw made (fold_chunks-hollow_deltas now new_chunks db),
                  rw made kept.0,
                  rw made kept.1,
                  rw made kept.2,
                  fresh first e,
                  known_txids first e,
                )
          ]
    ]
  where
    not_both : (a b : Bool) → (not (a && b) && a) ≡ (not b && a)
    not_both a b = ground arith

    known_txids :
        (first : ℕ × List (Txid × StoredTxFill))
        → for_chunks met
            (λ chunk existing. existing ++ select_existing db.transactions chunk)
            (in_chunks mempool_delta_insert_chunk_size (distinct_txids entries add))
            n
            []
          ≡ some first
        → (x : Txid)
        → contains x (txids_of first.1)
          ≡ (contains x (distinct_txids entries add) && has_value (db.transactions x))
    known_txids first e x =
        let adds = distinct_txids entries add in
        let chunks = in_chunks mempool_delta_insert_chunk_size adds in
        rw
          (
            for_chunks-fold met
                (λ chunk existing. existing ++ select_existing db.transactions chunk) chunks n []
                first e,
            contains-fold_existing x db.transactions chunks [],
            flatten-chunks_from mempool_delta_insert_chunk_size [] adds,
          )
          refl

    fresh :
        (first : ℕ × List (Txid × StoredTxFill))
        → for_chunks met
            (λ chunk existing. existing ++ select_existing db.transactions chunk)
            (in_chunks mempool_delta_insert_chunk_size (distinct_txids entries add))
            n
            []
          ≡ some first
        → (x : Txid)
        → contains x (keep (λ x. not (contains x (txids_of first.1))) (distinct_txids entries add))
          ≡ (not (has_value (db.transactions x)) && contains x (distinct_txids entries add))
    fresh first e x =
        let adds = distinct_txids entries add in
        contains-keep x (λ x. not (contains x (txids_of first.1))) adds
        ∙ rw (known_txids first e x) (not_both (contains x adds) _)
