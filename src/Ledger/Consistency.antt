-- ===== src/Ledger/Consistency.antt =====
-- shared/src/snapshot/mempool.rs: what each method makes of the account that the journal gives of what
-- the database has yet to see.
use cluster_mempool_observer.Base.{
  Txid, Time, TxSet, ℕ, ◌≤◌, false, ◌≡◌, List, [], ◌∷◌, contains, length, Distinct, Bool-cases, inl,
  inr,
}
use cluster_mempool_observer.Ledger.Journal.{DeltaDirection, add, rem, Inner, push, journal_cap}
use cluster_mempool_observer.Ledger.Replay.{is_rem, Distinct-moved, moved}
use cluster_mempool_observer.Ledger.Sync.{Leads, push-Leads, push-live, push-bounded, push-fitted}
use cluster_mempool_observer.Ledger.{
  submit_authoritative, assert_present_one, assert_present, assert_absent_one, assert_absent, step,
  run, Generator, submits, presents, absents,
}
use cluster_mempool_observer.Ledger.Target.{to_target-Leads, to_target-bounded, to_target-degraded}

-- `live` is a set, the journal within its cap, and, unless entries were lost, the journal leads from
-- the database's residency to `live` without moving a txid twice in one direction.
pub record IsConsistent (db : TxSet) (s : Inner) : Type 0 where
  pub distinct : Distinct s.live
  pub bounded : length s.journal ≤ journal_cap
  pub leads : s.degraded ≡ false → Leads db s.journal s.live

submit_authoritative-IsConsistent :
    (clock : ℕ → Time) (db txids : TxSet) (s : Inner)
    → Distinct txids
    → IsConsistent db s
    → IsConsistent db (submit_authoritative clock txids s)
unfolding submit_authoritative
submit_authoritative-IsConsistent clock db txids s d v = record {
  distinct = d;
  bounded = to_target-bounded clock s.live txids s v.bounded;
  leads = λ fine.
      let kept = to_target-degraded clock s.live txids s fine in
      to_target-Leads clock db s.live txids s v.distinct d (v.leads kept.0) kept.1;
}

-- `live` and the journal move together.
push-IsConsistent :
    (clock : ℕ → Time) (db : TxSet) (x : Txid) (d : DeltaDirection) (s : Inner)
    → contains x s.live ≡ is_rem d
    → IsConsistent db s
    → IsConsistent db (push clock (record s { live = moved d x s.live }) x d).0
push-IsConsistent clock db x d s fresh v =
    let s' = record s { live = moved d x s.live } in
    let e = push-live clock s' x d in
    record {
      distinct = rw e (Distinct-moved d x s.live v.distinct);
      bounded = push-bounded clock s' x d v.bounded;
      leads = λ fine.
          let kept = push-fitted clock s' x d fine in
          rw e (push-Leads clock db s.live s' x d (v.leads kept.0) fresh kept.1);
    }

assert_present_one-IsConsistent :
    (clock : ℕ → Time) (db : TxSet) (x : Txid) (s : Inner)
    → IsConsistent db s
    → IsConsistent db (assert_present_one clock x s)
unfolding assert_present_one
assert_present_one-IsConsistent clock db x s v = elim (Bool-cases (contains x s.live)) [
  | inl old ↦ rw old v
  | inr new ↦ rw new (push-IsConsistent clock db x add s new v)
]

assert_absent_one-IsConsistent :
    (clock : ℕ → Time) (db : TxSet) (x : Txid) (s : Inner)
    → IsConsistent db s
    → IsConsistent db (assert_absent_one clock x s)
unfolding assert_absent_one
assert_absent_one-IsConsistent clock db x s v = elim (Bool-cases (contains x s.live)) [
  | inl held ↦ rw held (push-IsConsistent clock db x rem s held v)
  | inr gone ↦ rw gone v
]

pub assert_present-IsConsistent :
    (clock : ℕ → Time) (db : TxSet) (xs : List Txid) (s : Inner)
    → IsConsistent db s
    → IsConsistent db (assert_present clock xs s)
unfolding assert_present
assert_present-IsConsistent clock db [] s v = v
assert_present-IsConsistent clock db (x ∷ xs) s v =
    assert_present-IsConsistent clock db xs (assert_present_one clock x s)
      (assert_present_one-IsConsistent clock db x s v)

pub assert_absent-IsConsistent :
    (clock : ℕ → Time) (db : TxSet) (xs : List Txid) (s : Inner)
    → IsConsistent db s
    → IsConsistent db (assert_absent clock xs s)
unfolding assert_absent
assert_absent-IsConsistent clock db [] s v = v
assert_absent-IsConsistent clock db (x ∷ xs) s v =
    assert_absent-IsConsistent clock db xs (assert_absent_one clock x s)
      (assert_absent_one-IsConsistent clock db x s v)

-- A poll hands over a set.
abbrev pub IsGenerator : Generator → Type 0
IsGenerator (submits txids) = Distinct txids
IsGenerator (presents txids) = Unit {0}
IsGenerator (absents txids) = Unit {0}

abbrev pub AreGenerators : List Generator → Type 0
AreGenerators [] = Unit {0}
AreGenerators (g ∷ gs) = IsGenerator g × AreGenerators gs

step-IsConsistent :
    (clock : ℕ → Time) (db : TxSet) (g : Generator) (s : Inner)
    → IsGenerator g
    → IsConsistent db s
    → IsConsistent db (step clock g s)
unfolding step
step-IsConsistent clock db (submits txids) s d v =
    submit_authoritative-IsConsistent clock db txids s d v
step-IsConsistent clock db (presents txids) s d v = assert_present-IsConsistent clock db txids s v
step-IsConsistent clock db (absents txids) s d v = assert_absent-IsConsistent clock db txids s v

-- After any sequence of polls and assertions, from a consistent ledger, `live` has no repetition, the
-- journal is within its cap and, unless the ledger is degraded, replaying the journal on the
-- database's residency gives `live`, each entry changing the residency that it meets.
pub run-IsConsistent :
    (clock : ℕ → Time) (db : TxSet) (gs : List Generator) (s : Inner)
    → AreGenerators gs
    → IsConsistent db s
    → IsConsistent db (run clock gs s)
unfolding run
run-IsConsistent clock db [] s d v = v
run-IsConsistent clock db (g ∷ gs) s d v =
    run-IsConsistent clock db gs (step clock g s) d.1 (step-IsConsistent clock db g s d.0 v)
