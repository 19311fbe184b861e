-- ===== src/Ledger/Replay.antt =====
-- shared/src/snapshot/mempool.rs: what the database holds once a journal has drained into it, as
-- `reconcile_against` folds it.
use cluster_mempool_observer.Base.{
  TxSet, ℕ, Bool, true, false, ◌≡◌, refl, List, [], ◌∷◌, ◌++◌, contains, insert, remove, Distinct,
  Distinct-insert, Distinct-remove, arith, not, ◌&&◌, ◌||◌, contains-insert, contains-remove,
}
use cluster_mempool_observer.Ledger.Journal.{DeltaDirection, add, rem, JournalEntry}

abbrev pub moved : DeltaDirection → ℕ → TxSet → TxSet
moved add x db = insert x db
moved rem x db = remove x db

unfoldable pub replay : TxSet → List JournalEntry → TxSet
replay db [] = db
replay db (e ∷ es) = replay (moved e.direction e.txid db) es

pub replay-append :
    (db : TxSet) (es fs : List JournalEntry) → replay db (es ++ fs) ≡ replay (replay db es) fs
unfolding replay
replay-append db [] fs = refl
replay-append db (e ∷ es) fs = replay-append (moved e.direction e.txid db) es fs

pub Distinct-moved :
    (d : DeltaDirection) (x : ℕ) (db : TxSet) → Distinct db → Distinct (moved d x db)
Distinct-moved add x db h = Distinct-insert x db h
Distinct-moved rem x db h = Distinct-remove x db h

pub Distinct-replay : (db : TxSet) (es : List JournalEntry) → Distinct db → Distinct (replay db es)
unfolding replay
Distinct-replay db [] h = h
Distinct-replay db (e ∷ es) h =
    Distinct-replay (moved e.direction e.txid db) es (Distinct-moved e.direction e.txid db h)

-- Two images that hold the same elements.
abbrev pub Agrees : TxSet → TxSet → Type 0
Agrees xs ys = (x : ℕ) → contains x xs ≡ contains x ys

-- Each entry changes the image that it meets: nothing is added twice or removed twice.
abbrev pub is_rem : DeltaDirection → Bool
is_rem add = false
is_rem rem = true

abbrev pub IsEffective : TxSet → List JournalEntry → Type 0
IsEffective db [] = Unit {0}
IsEffective db (e ∷ es) =
    (contains e.txid db ≡ is_rem e.direction) × IsEffective (moved e.direction e.txid db) es

pub IsEffective-append :
    (db : TxSet) (es fs : List JournalEntry)
    → IsEffective db es
    → IsEffective (replay db es) fs
    → IsEffective db (es ++ fs)
unfolding replay
IsEffective-append db [] fs h k = k
IsEffective-append db (e ∷ es) fs h k =
    (h.0, IsEffective-append (moved e.direction e.txid db) es fs h.1 k)

pub IsEffective-prefix :
    (db : TxSet) (es fs : List JournalEntry)
    → IsEffective db (es ++ fs)
    → IsEffective db es × IsEffective (replay db es) fs
unfolding replay
IsEffective-prefix db [] fs h = (tt, h)
IsEffective-prefix db (e ∷ es) fs h =
    let r = IsEffective-prefix (moved e.direction e.txid db) es fs h.1 in ((h.0, r.0), r.1)

pub contains-moved :
    (x y : ℕ) (d : DeltaDirection) (xs ys : TxSet)
    → contains x xs ≡ contains x ys
    → contains x (moved d y xs) ≡ contains x (moved d y ys)
contains-moved x y add xs ys h = ground (arith, contains-insert x y xs, contains-insert x y ys)
contains-moved x y rem xs ys h = ground (arith, contains-remove x y xs, contains-remove x y ys)

-- All of a list moved the same way.
unfoldable pub moved_all : DeltaDirection → List ℕ → TxSet → TxSet
moved_all d [] image = image
moved_all d (x ∷ xs) image = moved_all d xs (moved d x image)

pub contains-moved_all_add :
    (x : ℕ) (xs : List ℕ) (image : TxSet)
    → contains x (moved_all add xs image) ≡ (contains x xs || contains x image)
unfolding moved_all
contains-moved_all_add x [] image = refl
contains-moved_all_add x (y ∷ xs) image =
    ground (arith, contains-moved_all_add x xs (insert y image), contains-insert x y image)

pub contains-moved_all_rem :
    (x : ℕ) (xs : List ℕ) (image : TxSet)
    → contains x (moved_all rem xs image) ≡ (not (contains x xs) && contains x image)
unfolding moved_all
contains-moved_all_rem x [] image = refl
contains-moved_all_rem x (y ∷ xs) image =
    ground (arith, contains-moved_all_rem x xs (remove y image), contains-remove x y image)
