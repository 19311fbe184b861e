-- ===== src/Ledger.antt =====
-- shared/src/snapshot/mempool.rs: the ledger of what is in the mempool right now, and the journal of
-- the transitions that the database has not seen. The `RwLock` makes each method one step, and a
-- method returns the new state.
pub mod Journal
pub mod Replay
pub mod Sync
pub mod Target
pub mod Consistency
pub mod Reconcile
pub mod Repair
pub mod Flush
pub mod Batch
pub mod Residency
pub mod Counts
use cluster_mempool_observer.Base.{
  Txid, Time, TxSet, ℕ, Bool, true, false, List, [], ◌∷◌, Option, none, some, contains, insert,
  remove, difference, length, drop, if◌then◌else◌,
}
use Journal.{DeltaDirection, add, rem, JournalEntry, Inner, push, push_all}
use Replay.{replay}

unfoldable pub seed : TxSet → Inner → Inner
seed txids s = record s { live = txids }

-- Both differences are read off `live` before any push; whether all entries fitted is not looked at.
unfoldable pub submit_authoritative : (ℕ → Time) → TxSet → Inner → Inner
submit_authoritative clock txids s =
    let to_add = difference txids s.live in
    let to_remove = difference s.live txids in
    let (added, fitted) = push_all clock add to_add s true in
    let (removed, _) = push_all clock rem to_remove added fitted in record removed { live = txids }

unfoldable pub assert_present_one : (ℕ → Time) → Txid → Inner → Inner
assert_present_one clock x s =
    if contains x s.live then s else (push clock (record s { live = insert x s.live }) x add).0

unfoldable pub assert_present : (ℕ → Time) → List Txid → Inner → Inner
assert_present clock [] s = s
assert_present clock (x ∷ xs) s = assert_present clock xs (assert_present_one clock x s)

unfoldable pub assert_absent_one : (ℕ → Time) → Txid → Inner → Inner
assert_absent_one clock x s =
    if contains x s.live then (push clock (record s { live = remove x s.live }) x rem).0 else s

unfoldable pub assert_absent : (ℕ → Time) → List Txid → Inner → Inner
assert_absent clock [] s = s
assert_absent clock (x ∷ xs) s = assert_absent clock xs (assert_absent_one clock x s)

-- The batch is the whole journal, which stays in place until `commit`.
unfoldable pub begin_flush : Inner → Option (List JournalEntry)
begin_flush s = elim s.journal [ [] ↦ none | e ∷ es ↦ some (e ∷ es) ]

-- `journal.drain(..entries.len())`.
unfoldable pub commit : List JournalEntry → Inner → Inner
commit batch s = record s { journal = drop (length batch) s.journal }

unfoldable pub reconcile_against : (ℕ → Time) → TxSet → Inner → Inner
reconcile_against clock db_image s =
    let eventual = replay db_image s.journal in
    let to_add = difference s.live eventual in
    let to_remove = difference eventual s.live in
    let (s1, complete1) = push_all clock add to_add s true in
    let (s2, complete2) = push_all clock rem to_remove s1 complete1 in
    if complete2 then record s2 { degraded = false } else s2

-- A step of whoever feeds the ledger. `db` is the residency that a reconciliation is told.
pub data Generator : Type 0 where
  submits : TxSet → Generator
  presents : List Txid → Generator
  absents : List Txid → Generator

unfoldable pub step : (ℕ → Time) → Generator → Inner → Inner
step clock (submits txids) s = submit_authoritative clock txids s
step clock (presents txids) s = assert_present clock txids s
step clock (absents txids) s = assert_absent clock txids s

unfoldable pub run : (ℕ → Time) → List Generator → Inner → Inner
run clock [] s = s
run clock (g ∷ gs) s = run clock gs (step clock g s)
