-- ===== src/Reconciler/Ticks.antt =====
-- api/src/services/mempool_reconciler.rs: a tick, the ledger and the residency that the database
-- records.
use cluster_mempool_observer.Base.{
  ℕ, false, not, ◌&&◌, ◌≡◌, refl, sym, ap, subst, ◌∙◌, List, [], ◌∷◌, ◌++◌, map, none, some, arith,
  Txid, Time, TxSet, contains, Option-cases, inl, inr,
}
use cluster_mempool_observer.Db.{Database, MempoolDelta}
use cluster_mempool_observer.Ledger.Journal.{JournalEntry, Inner}
use cluster_mempool_observer.Ledger.Replay.{replay, replay-append, IsEffective}
use cluster_mempool_observer.Ledger.Consistency.{IsConsistent, AreGenerators, run-IsConsistent}
use cluster_mempool_observer.Ledger.Flush.{commit-IsConsistent, commit-keeps_appended}
use cluster_mempool_observer.Ledger.Residency.{residency_delta-difference}
use cluster_mempool_observer.Ledger.{begin_flush, commit, run, Generator}
use cluster_mempool_observer.FlushWrite.{Interruptions, write_batch, FlushOutcome, delta_of}
use cluster_mempool_observer.FlushWrite.Runs.{IsCalm, write_batch-succeeds}
use cluster_mempool_observer.FlushWrite.Written.{write_batch-writes, entry_of, entries-deltas}
use cluster_mempool_observer.Reconciler.{TickReport, report_of, settle, tick}

-- The residency that the recorded deltas add up to.
abbrev pub residency : Database → TxSet
residency db = replay [] (map entry_of db.mempool_deltas)

map-entry_of-append :
    (xs ys : List MempoolDelta) → map entry_of (xs ++ ys) ≡ map entry_of xs ++ map entry_of ys
map-entry_of-append [] ys = refl
map-entry_of-append (x ∷ xs) ys = rw (map-entry_of-append xs ys) refl

residency-write_batch :
    (met : Interruptions) (now : Time) (batch : List JournalEntry) (db : Database)
    (r : Database × FlushOutcome)
    → write_batch met now batch db ≡ some r
    → residency r.0 ≡ replay (residency db) batch
residency-write_batch met now batch db r h =
    let wrote = write_batch-writes met now batch db r h in
    let deltas = map (delta_of r.1.confirmed) batch in
    ap (λ ds. replay [] (map entry_of ds)) wrote.0
    ∙ ap (replay []) (map-entry_of-append db.mempool_deltas deltas)
    ∙ ap (λ es. replay [] (map entry_of db.mempool_deltas ++ es))
        (entries-deltas r.1.confirmed batch)
    ∙ replay-append [] (map entry_of db.mempool_deltas) batch

-- A tick, with any polls and assertions while it writes, leaves the ledger consistent with what the
-- database then records, whether its batch is written, is preempted by a block, fails, or there is none.
pub tick-IsConsistent :
    (clock : ℕ → Time) (met : Interruptions) (now : Time) (meanwhile : List Generator)
    (ledger : Inner) (db : Database)
    → AreGenerators meanwhile
    → IsConsistent (residency db) ledger
    → let after = tick clock met now meanwhile ledger db in IsConsistent (residency after.1) after.0
unfolding tick settle
tick-IsConsistent clock met now meanwhile ledger db d v = elim (Option-cases (begin_flush ledger)) [
  | inl idle ↦ rw (tick, idle) (run-IsConsistent clock (residency db) meanwhile ledger d v)
  | inr (batch, e) ↦ elim (Option-cases (write_batch met now batch db)) [
    | inl bailed ↦
        rw (tick, e, settle, bailed) (run-IsConsistent clock (residency db) meanwhile ledger d v)
    | inr (r, f) ↦
        rw (tick, e, settle, f)
          (subst (λ s. IsConsistent s (commit batch (run clock meanwhile ledger)))
            (sym (residency-write_batch met now batch db r f))
            (commit-IsConsistent clock (residency db) meanwhile ledger batch d v e))
  ]
]

begin_flush-whole :
    (ledger : Inner) (batch : List JournalEntry)
    → begin_flush ledger ≡ some batch
    → ledger.journal ≡ batch
unfolding begin_flush
begin_flush-whole ledger batch h = go ledger.journal h
  where
    go :
        (journal : List JournalEntry)
        → (elim journal [ [] ↦ none | e ∷ es ↦ some (e ∷ es) ]) ≡ some batch
        → journal ≡ batch
    go [] h = absurd (ground arith)
    go (e ∷ es) h = cc

-- What the broadcast of a tick is to say.
abbrev pub Broadcasts : Database → Database → TickReport → Txid → Type 0
Broadcasts before after report x =
    (contains x report.added
      ≡ (contains x (residency after) && not (contains x (residency before))))
    × (contains x report.removed
        ≡ (contains x (residency before) && not (contains x (residency after))))

-- If the ledger is consistent and not degraded, a tick that reports broadcasts as added exactly the
-- transactions that the database has as resident after it and not before, and as removed exactly those
-- it had before and not after.
pub tick-Broadcasts :
    (clock : ℕ → Time) (met : Interruptions) (now : Time) (meanwhile : List Generator)
    (ledger : Inner) (db : Database) (report : TickReport) (x : Txid)
    → IsConsistent (residency db) ledger
    → ledger.degraded ≡ false
    → (tick clock met now meanwhile ledger db).2 ≡ some report
    → Broadcasts db (tick clock met now meanwhile ledger db).1 report x
unfolding tick settle
tick-Broadcasts clock met now meanwhile ledger db report x v fine h =
    elim (Option-cases (begin_flush ledger)) [
      | inl idle ↦ let no : none ≡ some report = rw (tick, idle) at h in absurd (ground arith)
      | inr (batch, e) ↦ elim (Option-cases (write_batch met now batch db)) [
        | inl bailed ↦
            let no : none ≡ some report = rw (tick, e, settle, bailed) at h in absurd (ground arith)
        | inr (r, f) ↦
            let same : some (report_of batch r.1) ≡ some report = rw (tick, e, settle, f) at h in
            let eq : report_of batch r.1 ≡ report = cc in
            let effective =
              subst (IsEffective (residency db)) (begin_flush-whole ledger batch e)
                (v.leads fine).effective in
            let changes = (residency_delta-difference (residency db) batch effective).2 x in
            rw (tick, e, settle, f)
              (subst (λ report. Broadcasts db r.0 report x) eq
                (rw (residency-write_batch met now batch db r f) changes))
      ]
    ]

-- If the journal has entries, the gate stays open and no statement of the database fails, a tick writes
-- them and reports, and the journal keeps exactly what was appended while it wrote.
pub tick-drains :
    (clock : ℕ → Time) (met : Interruptions) (now : Time) (meanwhile : List Generator)
    (ledger : Inner) (db : Database) (batch : List JournalEntry)
    → begin_flush ledger ≡ some batch
    → IsCalm met
    → let after = tick clock met now meanwhile ledger db in
      (report : TickReport) × (after.2 ≡ some report)
      × (residency after.1 ≡ replay (residency db) ledger.journal)
      × ((run clock meanwhile ledger).journal ≡ ledger.journal ++ after.0.journal)
unfolding tick settle
tick-drains clock met now meanwhile ledger db batch e calm =
    let (r, f) = write_batch-succeeds met now batch db calm in
    let (appended, whole, rest) = commit-keeps_appended clock meanwhile ledger batch e in
    let named = begin_flush-whole ledger batch e in
    (
      report_of batch r.1,
      (rw (tick, e, settle, f) refl),
      (rw (tick, e, settle, f)
          (residency-write_batch met now batch db r f ∙ ap (replay (residency db)) (sym named))),
      (rw (tick, e, settle, f)
          (whole ∙ ap (λ b. b ++ appended) (sym named) ∙ ap (λ a. ledger.journal ++ a) (sym rest))),
    )
