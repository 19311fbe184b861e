-- ===== src/Backfill/Retries.antt =====
-- api/src/services/tx_backfill.rs: when a request goes back on the queue, after which wait, and when it
-- does not any more.
use cluster_mempool_observer.Base.{
  ℕ, ◌<◌, Bool, true, false, ◌||◌, ◌≡◌, refl, sym, ◌∙◌, ap, Option, none, some, arith, Txid, ltb,
  ◌==◌, ◌⊎◌, Bool-cases, inl, inr, if◌then◌else◌,
}
use cluster_mempool_observer.Db.{Transaction, Database}
use cluster_mempool_observer.FlushWrite.{StoredTxFill, BackfillStage, raw, entry, backfill_stage}
use cluster_mempool_observer.Backfill.{
  max_attempts, BackfillRequest, should_retry, retry_backoff, next_attempt, NodeError, tx_not_found,
  invalid_params, transient, Fetch, fetched, failed, RawTx, Meeting, fill_of, write_row, lacks_raw,
  backfill_raw, backfill_fee, StageResult, write_result, ok, error, next_of, run_raw_stage,
  run_entry_stage, failed_at, run_rest, run_stages, Verdict, done, gave_up, dropped, requeues,
  judge, process,
}

abbrev error_of {ℓ} : {A : Type ℓ} → Fetch A → Option NodeError
error_of (fetched a) = none
error_of (failed e) = some e

abbrev pub stage_error : Meeting → BackfillStage → Option NodeError
stage_error m raw = error_of m.raw_transaction
stage_error m entry = error_of m.mempool_entry

abbrev pub HasRaw : Txid → Database → Type 0
HasRaw x db = (t : Transaction) × (db.transactions x ≡ some t) × (lacks_raw t ≡ false)

-- The stages before the one to retry are behind: none is, or the raw one is and what it wrote is stored.
abbrev pub IsBehind : Txid → BackfillStage → BackfillStage → Database → Type 0
IsBehind x raw raw db = Unit {0}
IsBehind x raw entry db = HasRaw x db
IsBehind x entry raw db = ⊥
IsBehind x entry entry db = Unit {0}

-- Why and how a request goes back on the queue.
pub record IsRetry (m : Meeting) (req : BackfillRequest) (db : Database) (wait : ℕ)
    (again : BackfillRequest) : Type 0 where
  pub cause : stage_error m again.stage ≡ some transient
  pub behind : IsBehind req.txid req.stage again.stage db
  pub worth : (m.in_mempool ≡ true) ⊎ (again.attempts < max_attempts)
  pub open_queue : m.closes ≡ false
  pub same_tx : again.txid ≡ req.txid
  pub one_more : again.attempts ≡ next_attempt req.attempts
  pub backs_off : wait ≡ retry_backoff req.attempts

judge-IsRetry :
    (m : Meeting) (req : BackfillRequest) (stage : BackfillStage) (e : NodeError) (db : Database)
    (wait : ℕ) (again : BackfillRequest)
    → stage_error m stage ≡ some e
    → IsBehind req.txid req.stage stage db
    → judge m req stage e ≡ requeues wait again
    → IsRetry m req db wait again
unfolding judge
judge-IsRetry m req stage tx_not_found db wait again cause behind h = absurd (ground arith)
judge-IsRetry m req stage invalid_params db wait again cause behind h = absurd (ground arith)
judge-IsRetry m req stage transient db wait again cause behind h =
    let made = next_attempt req.attempts in
    elim (Bool-cases (should_retry made m.in_mempool)) [
      | inr hopeless ↦
          let no : gave_up ≡ requeues wait again = rw hopeless at h in absurd (ground arith)
      | inl worth ↦
          let go : (if m.closes
                then dropped
                else requeues (retry_backoff req.attempts)
                    (record { txid = req.txid; attempts = made; stage = stage }))
              ≡ requeues wait again =
            rw worth at h in
          elim (Bool-cases m.closes) [
            | inl closes ↦
                let no : dropped ≡ requeues wait again = rw closes at go in absurd (ground arith)
            | inr stays ↦
                let retried : BackfillRequest = record {
                  txid = req.txid;
                  attempts = made;
                  stage = stage;
                } in
                let same : requeues (retry_backoff req.attempts) retried ≡ requeues wait again =
                  rw stays at go in
                let e : again ≡ retried = cc in
                let w : wait ≡ retry_backoff req.attempts = cc in
                rw e (record {
                  cause = cause;
                  behind = behind;
                  worth = why m.in_mempool made (unfold should_retry in worth);
                  open_queue = stays;
                  same_tx = refl;
                  one_more = refl;
                  backs_off = w;
                })
          ]
    ]
  where
    why :
        (held : Bool) (made : ℕ)
        → (held || ltb made max_attempts) ≡ true
        → (held ≡ true) ⊎ (made < max_attempts)
    why true made h = inl refl
    why false made h = inr (ground arith)

pair-inj : (p q : BackfillStage × NodeError) → some p ≡ some q → (p.0 ≡ q.0) × (p.1 ≡ q.1)
pair-inj p q h = let e : p ≡ q = cc in (ap (λ r. r.0) e, ap (λ r. r.1) e)

write_result-ok :
    (stage at : BackfillStage) (e : NodeError) (fails : Bool) (db : Database)
    (written : Database × Option StoredTxFill)
    → ¬ (failed_at stage (write_result fails db written).1 ≡ some (at, e))
write_result-ok stage at e true db written h = absurd (ground arith)
write_result-ok stage at e false db written h = absurd (ground arith)

-- A request fails at the entry stage only if the node fails there, and then nothing is written.
run_entry_stage-failure :
    (m : Meeting) (x : Txid) (db : Database) (stage : BackfillStage) (e : NodeError)
    → failed_at entry (run_entry_stage m x db).1 ≡ some (stage, e)
    → (stage ≡ entry) × (stage_error m entry ≡ some e) × ((run_entry_stage m x db).0 ≡ db)
unfolding run_entry_stage
run_entry_stage-failure m x db stage e h = go m.mempool_entry h
  where
    go :
        (answer : Fetch ℕ)
        → let r : Database × StageResult = elim answer [
          | failed d ↦ (db, error d)
          | fetched fee ↦ write_result m.fee_write_fails db (backfill_fee x fee db)
        ] in
          failed_at entry r.1 ≡ some (stage, e)
          → (stage ≡ entry) × (error_of answer ≡ some e) × (r.0 ≡ db)
    go (failed d) h = let (s, t) = pair-inj (entry, d) (stage, e) h in (sym s, ap some t, refl)
    go (fetched fee) h =
        absurd (write_result-ok entry stage e m.fee_write_fails db (backfill_fee x fee db) h)

lacks-filled :
    (t : Transaction) (fill : StoredTxFill)
    → fill ≡ fill_of t
    → backfill_stage fill ≡ some entry
    → lacks_raw t ≡ false
unfolding backfill_stage
lacks-filled t fill e h = ground (arith, rw e at h)

-- Only a row whose parents and weight are filled goes on to the entry stage.
backfill_raw-HasRaw :
    (x : Txid) (tx : RawTx) (db : Database)
    → next_of (backfill_raw x tx db).1 ≡ some entry
    → HasRaw x (backfill_raw x tx db).0
unfolding backfill_raw
backfill_raw-HasRaw x tx db h = go (db.transactions x) h
  where
    filled : Transaction → Transaction
    filled t = record t { input_txids = some tx.input_txids; weight = tx.weight }

    go :
        (o : Option Transaction)
        → let r : Database × Option StoredTxFill = elim o [
          | none ↦ (db, none)
          | some t ↦
              if lacks_raw t
              then (write_row x (filled t) db, some (fill_of (filled t)))
              else (db, none)
        ] in
          next_of r.1 ≡ some entry → HasRaw x r.0
    go none h = absurd (ground arith)
    go (some t) h = elim (Bool-cases (lacks_raw t)) [
      | inr whole ↦ let no : none ≡ some entry = rw whole at h in absurd (ground arith)
      | inl hollow ↦
          let next : backfill_stage (fill_of (filled t)) ≡ some entry = rw hollow at h in
          let here : (x == x) ≡ true = ground arith in
          rw hollow (filled t, rw here refl, lacks-filled (filled t) _ refl next)
    ]

run_raw_stage-HasRaw :
    (m : Meeting) (x : Txid) (db : Database)
    → (run_raw_stage m x db).1 ≡ ok (some entry)
    → HasRaw x (run_raw_stage m x db).0
unfolding run_raw_stage
run_raw_stage-HasRaw m x db h = go m.raw_transaction m.raw_write_fails h
  where
    go :
        (answer : Fetch RawTx) (fails : Bool)
        → let r : Database × StageResult = elim answer [
          | failed e ↦ (db, error e)
          | fetched tx ↦ write_result fails db (backfill_raw x tx db)
        ] in
          r.1 ≡ ok (some entry) → HasRaw x r.0
    go (failed e) fails h = absurd (ground arith)
    go (fetched tx) true h = absurd (ground arith)
    go (fetched tx) false h = backfill_raw-HasRaw x tx db cc

run_raw_stage-failure :
    (m : Meeting) (x : Txid) (db : Database) (e : NodeError)
    → (run_raw_stage m x db).1 ≡ error e
    → stage_error m raw ≡ some e
unfolding run_raw_stage
run_raw_stage-failure m x db e h = go m.raw_transaction m.raw_write_fails h
  where
    go :
        (answer : Fetch RawTx) (fails : Bool)
        → let r : Database × StageResult = elim answer [
          | failed e ↦ (db, error e)
          | fetched tx ↦ write_result fails db (backfill_raw x tx db)
        ] in
          r.1 ≡ error e → error_of answer ≡ some e
    go (failed d) fails h = cc
    go (fetched tx) true h = absurd (ground arith)
    go (fetched tx) false h = absurd (ground arith)

-- The stage that a request fails at, with the node's error there.
run_stages-failure :
    (m : Meeting) (x : Txid) (from at : BackfillStage) (e : NodeError) (db : Database)
    → (run_stages m x from db).1 ≡ some (at, e)
    → (stage_error m at ≡ some e) × IsBehind x from at (run_stages m x from db).0
unfolding run_stages run_rest
run_stages-failure m x entry at e db h =
    let (s, cause, _) = run_entry_stage-failure m x db at e h in rw s (cause, tt)
run_stages-failure m x raw at e db h =
    go (run_raw_stage m x db).0 (run_raw_stage m x db).1 (run_raw_stage-HasRaw m x db)
      (run_raw_stage-failure m x db) h
  where
    go :
        (db' : Database) (result : StageResult)
        → (result ≡ ok (some entry) → HasRaw x db')
        → ((d : NodeError) → result ≡ error d → stage_error m raw ≡ some d)
        → let r : Database × Option (BackfillStage × NodeError) = elim result [
          | ok next ↦ run_rest m x next db'
          | error d ↦ (db', some (raw, d))
        ] in
          r.1 ≡ some (at, e) → (stage_error m at ≡ some e) × IsBehind x raw at r.0
    go db' (error d) filled cause h =
        let (s, t) = pair-inj (raw, d) (at, e) h in rw (← s) (cause d refl ∙ ap some t, tt)
    go db' (ok none) filled cause h = absurd (ground arith)
    go db' (ok (some raw)) filled cause h = absurd (ground arith)
    go db' (ok (some entry)) filled cause h =
        let (s, why, same) = run_entry_stage-failure m x db' at e h in
        rw (s, same) (why, filled refl)

-- A request goes back on the queue only for a failure of the node that may pass, at the stage that
-- failed, with the stages before it done and stored; only if the ledger still has the transaction or
-- fewer than 37 attempts were made, and the queue is open; and it is the same request with one attempt
-- more, after the wait for the attempts before.
pub process-IsRetry :
    (m : Meeting) (req : BackfillRequest) (db : Database) (wait : ℕ) (again : BackfillRequest)
    → (process m req db).1 ≡ requeues wait again
    → IsRetry m req (process m req db).0 wait again
unfolding process
process-IsRetry m req db wait again h =
    go (run_stages m req.txid req.stage db).0 (run_stages m req.txid req.stage db).1
      (λ stage e. run_stages-failure m req.txid req.stage stage e db) h
  where
    go :
        (db' : Database) (outcome : Option (BackfillStage × NodeError))
        → ((stage : BackfillStage) (e : NodeError)
            → outcome ≡ some (stage, e)
            → (stage_error m stage ≡ some e) × IsBehind req.txid req.stage stage db')
        → let r : Database × Verdict = elim outcome [
          | none ↦ (db', done)
          | some (stage, e) ↦ (db', judge m req stage e)
        ] in
          r.1 ≡ requeues wait again → IsRetry m req r.0 wait again
    go db' none why h = absurd (ground arith)
    go db' (some (stage, e)) why h =
        let (cause, behind) = why stage e refl in
        judge-IsRetry m req stage e db' wait again cause behind h
