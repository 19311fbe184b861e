-- ===== src/Ledger/Batch.antt =====
-- shared/src/snapshot/mempool.rs: `FlushBatch`, what a batch reports. A hash map is an association
-- list with each key once.
use cluster_mempool_observer.Base.{
  Txid, TxSet, ℕ, ◌+◌, Bool, true, false, ◌&&◌, List, [], ◌∷◌, insert, if◌then◌else◌, ◌==◌,
}
use cluster_mempool_observer.Ledger.Journal.{DeltaDirection, add, rem, JournalEntry}

abbrev pub same_direction : DeltaDirection → DeltaDirection → Bool
same_direction add add = true
same_direction rem rem = true
same_direction add rem = false
same_direction rem add = false

-- One step of the fold of `transition_counts`, over `(added, removed)`.
abbrev pub count_up : DeltaDirection → ℕ × ℕ → ℕ × ℕ
count_up add (added, removed) = (added + 1, removed)
count_up rem (added, removed) = (added, removed + 1)

unfoldable pub count_from : ℕ × ℕ → List JournalEntry → ℕ × ℕ
count_from counts [] = counts
count_from counts (e ∷ es) = count_from (count_up e.direction counts) es

unfoldable pub transition_counts : List JournalEntry → ℕ × ℕ
transition_counts es = count_from (0, 0) es

-- `collect::<HashSet<_>>`: each txid once.
unfoldable pub distinct_into : TxSet → DeltaDirection → List JournalEntry → TxSet
distinct_into acc d [] = acc
distinct_into acc d (e ∷ es) =
    distinct_into (if same_direction e.direction d then insert e.txid acc else acc) d es

unfoldable pub distinct_txids : List JournalEntry → DeltaDirection → TxSet
distinct_txids es d = distinct_into [] d es

unfoldable pub added_txids : List JournalEntry → TxSet
added_txids es = distinct_txids es add

-- The first and the last direction of a txid in a batch, by txid.
abbrev pub FirstLast : Type 0
FirstLast = List (Txid × DeltaDirection × DeltaDirection)

-- `.and_modify(|(_, last)| *last = d).or_insert((d, d))`.
abbrev pub note : Txid → DeltaDirection → FirstLast → FirstLast
note x d [] = (x, d, d) ∷ []
note x d ((y, first, last) ∷ m) =
    if x == y then (y, first, d) ∷ m else (y, first, last) ∷ note x d m

unfoldable pub first_last : FirstLast → List JournalEntry → FirstLast
first_last m [] = m
first_last m (e ∷ es) = first_last (note e.txid e.direction m) es

-- The txids whose first and last directions are both the given one.
unfoldable pub stayed : DeltaDirection → FirstLast → List Txid
stayed d [] = []
stayed d ((x, first, last) ∷ m) =
    if same_direction first d && same_direction last d then x ∷ stayed d m else stayed d m

unfoldable pub residency_delta : List JournalEntry → List Txid × List Txid
residency_delta es = let m = first_last [] es in (stayed add m, stayed rem m)
