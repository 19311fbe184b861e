-- ===== src/Ledger/Counts.antt =====
-- shared/src/snapshot/mempool.rs: `transition_counts` and the residency's size.
use cluster_mempool_observer.Base.{
  Txid, TxSet, ℕ, ◌+◌, Bool, true, false, ◌&&◌, ◌||◌, ◌≡◌, refl, List, [], ◌∷◌, contains, insert,
  remove, arith, length, Bool-cases, inl, inr, ◌==◌, contains-insert, Distinct, Distinct-insert,
}
use cluster_mempool_observer.Ledger.Journal.{DeltaDirection, add, rem, JournalEntry}
use cluster_mempool_observer.Ledger.Replay.{replay, moved, is_rem, IsEffective}
use cluster_mempool_observer.Ledger.Replay.{Distinct-moved}
use cluster_mempool_observer.Ledger.Batch.{
  same_direction, count_from, transition_counts, distinct_into, distinct_txids, count_up,
}

same : (x y : Txid) → (x == y) ≡ true → x ≡ y
same x y h = ground arith

length-insert_new : (x : ℕ) (s : TxSet) → contains x s ≡ false → length (insert x s) ≡ length s + 1
unfolding insert
length-insert_new x s h = ground arith

remove_absent : (x : ℕ) (s : TxSet) → contains x s ≡ false → remove x s ≡ s
unfolding remove
remove_absent x [] h = refl
remove_absent x (y ∷ s) h = ground (arith, remove_absent x s)

length-remove_held :
    (x : ℕ) (s : TxSet) → Distinct s → contains x s ≡ true → length (remove x s) + 1 ≡ length s
unfolding remove
length-remove_held x [] d h = cc
length-remove_held x (y ∷ s) d h = elim (Bool-cases (x == y)) [
  | inl hit ↦ rw hit (
      let e : contains x s ≡ false = rw (same x y hit) d.0 in
      rw (remove_absent x s e) (omega arith))
  | inr miss ↦ rw miss (omega (arith, length-remove_held x s d.1 (ground arith)))
]

length-moved :
    (d : DeltaDirection) (x : Txid) (db : TxSet) (c : ℕ × ℕ) (n : ℕ)
    → Distinct db
    → contains x db ≡ is_rem d
    → n + c.0 ≡ length db + c.1
    → n + (count_up d c).0 ≡ length (moved d x db) + (count_up d c).1
length-moved add x db c n u fresh h = omega (arith, length-insert_new x db fresh)
length-moved rem x db c n u held h = omega (arith, length-remove_held x db u held)

count_from-balance :
    (db : TxSet) (c : ℕ × ℕ) (n : ℕ) (es : List JournalEntry)
    → Distinct db
    → IsEffective db es
    → n + c.0 ≡ length db + c.1
    → n + (count_from c es).0 ≡ length (replay db es) + (count_from c es).1
unfolding count_from replay
count_from-balance db c n [] u h e = e
count_from-balance db c n (x ∷ es) u h e =
    count_from-balance (moved x.direction x.txid db) (count_up x.direction c) n es
      (Distinct-moved x.direction x.txid db u) h.1 (length-moved x.direction x.txid db c n u h.0 e)

count_up-total :
    (d : DeltaDirection) (c : ℕ × ℕ) → (count_up d c).0 + (count_up d c).1 ≡ c.0 + c.1 + 1
count_up-total add c = omega arith
count_up-total rem c = omega arith

count_from-total :
    (c : ℕ × ℕ) (es : List JournalEntry)
    → (count_from c es).0 + (count_from c es).1 ≡ c.0 + c.1 + length es
unfolding count_from
count_from-total c [] = omega arith
count_from-total c (e ∷ es) =
    omega (arith, count_from-total (count_up e.direction c) es, count_up-total e.direction c)

-- If the residency before a batch has no repetition and its entries each change the residency that they
-- meet, the counts of the batch sum to its length, and the residency before, and what was added, is as
-- large as the residency after, and what was removed.
pub transition_counts-balance :
    (db : TxSet) (es : List JournalEntry)
    → Distinct db
    → IsEffective db es
    → ((transition_counts es).0 + (transition_counts es).1 ≡ length es)
      × (length db + (transition_counts es).0 ≡ length (replay db es) + (transition_counts es).1)
unfolding transition_counts
transition_counts-balance db es u h = (
  omega (arith, count_from-total (0, 0) es),
  count_from-balance db (0, 0) (length db) es u h refl,
)

abbrev pub moves : Txid → DeltaDirection → List JournalEntry → Bool
moves x d [] = false
moves x d (e ∷ es) = (same_direction e.direction d && x == e.txid) || moves x d es

distinct_into_lem :
    (x : Txid) (acc : TxSet) (d : DeltaDirection) (es : List JournalEntry)
    → Distinct acc
    → Distinct (distinct_into acc d es)
      × (contains x (distinct_into acc d es) ≡ (contains x acc || moves x d es))
unfolding distinct_into
distinct_into_lem x acc d [] u = (u, ground arith)
distinct_into_lem x acc d (e ∷ es) u = elim (Bool-cases (same_direction e.direction d)) [
  | inl hit ↦ rw hit (
      let r = distinct_into_lem x (insert e.txid acc) d es (Distinct-insert e.txid acc u) in
      (r.0, ground (arith, r.1, contains-insert x e.txid acc)))
  | inr miss ↦ rw miss (distinct_into_lem x acc d es u)
]

-- The txids that move in a direction, each once.
pub distinct_txids_lem :
    (x : Txid) (d : DeltaDirection) (es : List JournalEntry)
    → Distinct (distinct_txids es d) × (contains x (distinct_txids es d) ≡ moves x d es)
unfolding distinct_txids
distinct_txids_lem x d es = distinct_into_lem x [] d es tt
