-- ===== src/Examples/LedgerExamples.antt =====
-- shared/src/snapshot/mempool.rs: runs of the ledger, and its theorems at them.
use cluster_mempool_observer.Base.{
  Txid, Time, ℕ, ◌+◌, true, false, ◌&&◌, not, ◌≡◌, refl, List, [], ◌∷◌, ◌++◌, arith, length,
  contains, Distinct, insert, remove, difference, ◌≤◌, ◌⊎◌,
}
use cluster_mempool_observer.Ledger.Journal.{
  DeltaDirection, add, rem, JournalEntry, Inner, push, push_all, journal_cap,
}
use cluster_mempool_observer.Ledger.Replay.{replay, IsEffective}
use cluster_mempool_observer.Ledger.Consistency.{IsConsistent, run-IsConsistent}
use cluster_mempool_observer.Ledger.Reconcile.{reconcile_against-recovers}
use cluster_mempool_observer.Ledger.Repair.{Grows, reconcile_against-Grows}
use cluster_mempool_observer.Ledger.Flush.{commit-keeps_appended, commit-IsConsistent}
use cluster_mempool_observer.Ledger.Batch.{residency_delta, transition_counts, first_last, stayed}
use cluster_mempool_observer.Ledger.Residency.{residency_delta-difference}
use cluster_mempool_observer.Ledger.Counts.{transition_counts-balance}
use cluster_mempool_observer.Ledger.{
  submit_authoritative, assert_present, assert_present_one, assert_absent, assert_absent_one,
  begin_flush, commit, reconcile_against, step, run, Generator, submits, presents, absents,
}

abbrev clock : ℕ → Time
clock n = 100 + n

abbrev entry : Txid → DeltaDirection → Time → JournalEntry
entry x d t = record { txid = x; direction = d; observed_at = t }

-- Two txids are resident and the database knows of them.
abbrev settled : Inner
settled = record { live = 1 ∷ 2 ∷ []; journal = []; degraded = false }

settled-IsConsistent : IsConsistent (1 ∷ 2 ∷ []) settled
unfolding replay
settled-IsConsistent = record {
  distinct = (refl, (refl, tt));
  bounded = omega arith;
  leads = λ _. record { agrees = λ x. refl; effective = tt };
}

abbrev polls : List Generator
polls = submits (2 ∷ 3 ∷ []) ∷ presents (4 ∷ 2 ∷ []) ∷ absents (3 ∷ []) ∷ []

runs : run clock polls settled ≡ record {
  live = 4 ∷ 2 ∷ [];
  journal = entry 3 add 100 ∷ entry 1 rem 101 ∷ entry 4 add 102 ∷ entry 3 rem 103 ∷ [];
  degraded = false;
}
unfolding run step submit_authoritative assert_present assert_present_one assert_absent
    assert_absent_one push push_all difference insert remove
runs = refl

run-IsConsistent_example : IsConsistent (1 ∷ 2 ∷ []) (run clock polls settled)
run-IsConsistent_example =
    run-IsConsistent clock (1 ∷ 2 ∷ []) polls settled ((refl, (refl, tt)), (tt, (tt, tt)))
      settled-IsConsistent

-- An addition of 3 was lost, and 1 left unseen; the addition of 2 is still pending.
abbrev damaged : Inner
damaged = record { live = 2 ∷ 3 ∷ []; journal = entry 2 add 50 ∷ []; degraded = true }

reconciles : reconcile_against clock (1 ∷ []) damaged ≡ record {
  live = 2 ∷ 3 ∷ [];
  journal = entry 2 add 50 ∷ entry 3 add 101 ∷ entry 1 rem 102 ∷ [];
  degraded = false;
}
unfolding reconcile_against push push_all difference insert remove replay
reconciles = refl

-- The add of 1 was lost, and its removal is in the journal.
abbrev lossy : Inner
lossy = record { live = 3 ∷ []; journal = entry 1 rem 50 ∷ []; degraded = true }

reconcile_against-Grows_example :
    let r = reconcile_against clock [] lossy in
    (r.live ≡ 3 ∷ [])
    × (length r.journal ≤ journal_cap)
    × ((r.degraded ≡ true) ⊎ Grows [] (entry 1 rem 50 ∷ []) r.journal (3 ∷ []))
reconcile_against-Grows_example = reconcile_against-Grows clock [] lossy tt (refl, tt) (omega arith)

reconcile_against-recovers_example : (reconcile_against clock (1 ∷ []) damaged).degraded ≡ false
reconcile_against-recovers_example =
    reconcile_against-recovers clock (1 ∷ []) damaged
      (unfold difference replay insert remove in omega arith)

-- The ledger after the polls, with a batch read before the last two.
abbrev polled : Inner
polled = record {
  live = 2 ∷ 3 ∷ [];
  journal = entry 3 add 100 ∷ entry 1 rem 101 ∷ [];
  degraded = false;
}

polled-IsConsistent : IsConsistent (1 ∷ 2 ∷ []) polled
unfolding replay insert remove
polled-IsConsistent = record {
  distinct = (refl, (refl, tt));
  bounded = omega arith;
  leads = λ _. record { agrees = λ x. ground arith; effective = (refl, (refl, tt)) };
}

abbrev meanwhile : List Generator
meanwhile = presents (4 ∷ []) ∷ absents (3 ∷ []) ∷ []

commit-keeps_appended_example :
    (appended : List JournalEntry) × ((run clock meanwhile polled).journal
      ≡ polled.journal ++ appended)
    × ((commit polled.journal (run clock meanwhile polled)).journal ≡ appended)
unfolding begin_flush
commit-keeps_appended_example = commit-keeps_appended clock meanwhile polled polled.journal refl

commit-IsConsistent_example :
    IsConsistent
      (replay (1 ∷ 2 ∷ []) polled.journal)
      (commit polled.journal (run clock meanwhile polled))
unfolding begin_flush
commit-IsConsistent_example =
    commit-IsConsistent clock (1 ∷ 2 ∷ []) meanwhile polled polled.journal (tt, (tt, tt))
      polled-IsConsistent refl

-- 3 enters and stays, 1 leaves, 4 comes and goes.
abbrev batch : List JournalEntry
batch = entry 3 add 1 ∷ entry 1 rem 2 ∷ entry 4 add 3 ∷ entry 4 rem 4 ∷ []

batch-IsEffective : IsEffective (1 ∷ 2 ∷ []) batch
unfolding insert remove
batch-IsEffective = (refl, (refl, (refl, (refl, tt))))

reports : residency_delta batch ≡ (3 ∷ [], 1 ∷ [])
unfolding residency_delta first_last stayed
reports = refl

residency_delta-difference_example :
    Distinct (residency_delta batch).0
    × Distinct (residency_delta batch).1
    × ((x : Txid)
        → (contains x (residency_delta batch).0
            ≡ (contains x (replay (1 ∷ 2 ∷ []) batch) && not (contains x (1 ∷ 2 ∷ []))))
          × (contains x (residency_delta batch).1
              ≡ (contains x (1 ∷ 2 ∷ []) && not (contains x (replay (1 ∷ 2 ∷ []) batch)))))
residency_delta-difference_example = residency_delta-difference (1 ∷ 2 ∷ []) batch batch-IsEffective

transition_counts-balance_example :
    ((transition_counts batch).0 + (transition_counts batch).1 ≡ 4)
    × (2 + (transition_counts batch).0
        ≡ length (replay (1 ∷ 2 ∷ []) batch) + (transition_counts batch).1)
transition_counts-balance_example =
    transition_counts-balance (1 ∷ 2 ∷ []) batch (refl, (refl, tt)) batch-IsEffective
