-- ===== src/FlushWrite/Folds.antt =====
-- api/src/db/repositories/mempool_ledger.rs: the loops over chunks, where the gate does not
-- stop them.
use cluster_mempool_observer.Base.{
  ℕ, Bool, true, false, not, if◌then◌else◌, none, ◌&&◌, ◌||◌, ◌≡◌, refl, sym, ap, ◌∙◌, List, [],
  ◌∷◌, ◌++◌, Option, some, arith, Txid, Time, TxSet, contains, contains-append, insert,
  contains-insert, contains-keep, map, keep, ◌==◌, flatten, Bool-cases, Option-cases, inl, inr, ◌⊎◌,
}
use mathlib.Core.List.{append_assoc, append-nil}
use cluster_mempool_observer.Db.{Transaction, Database, MempoolDelta, hollow}
use cluster_mempool_observer.Ledger.Journal.{DeltaDirection, add, rem, JournalEntry}
use cluster_mempool_observer.Ledger.Batch.{same_direction}
use cluster_mempool_observer.Ledger.Counts.{moves}
use cluster_mempool_observer.Membership.{insert_hollow}
use cluster_mempool_observer.FlushWrite.{
  Interruptions, attempt, for_chunks, StoredTxFill, has_value, found_fill, select_existing,
  evicted_of, note_evicted, reason_of, is_confirmed, extend, select_confirmed, insert_deltas,
  insert_hollow_chunk,
}

-- A fold over the chunks, without the gate.
abbrev pub fold_chunks {κ ℓ} : {A : Type κ} {S : Type ℓ} → (List A → S → S) → List (List A) → S → S
fold_chunks f [] s = s
fold_chunks f (chunk ∷ chunks) s = fold_chunks f chunks (f chunk s)

pub for_chunks-fold {κ ℓ} :
    {A : Type κ} {S : Type ℓ} (met : Interruptions) (f : List A → S → S) (chunks : List (List A))
    (n : ℕ) (s : S) (r : ℕ × S)
    → for_chunks met f chunks n s ≡ some r
    → r.1 ≡ fold_chunks f chunks s
unfolding for_chunks
for_chunks-fold met f [] n s r h = let e : (n, s) ≡ r = cc in ap (λ x. x.1) (sym e)
for_chunks-fold met f (chunk ∷ chunks) n s r h = elim (Option-cases (attempt met n)) [
  | inl bailed ↦ absurd (ground arith)
  | inr (n', e) ↦ for_chunks-fold met f chunks n' (f chunk s) r (rw (for_chunks, e) at h)
]

pub fold_chunks-deltas :
    (chunks : List (List MempoolDelta)) (db : Database)
    → fold_chunks insert_deltas chunks db
      ≡ record db { mempool_deltas = db.mempool_deltas ++ flatten chunks }
fold_chunks-deltas [] db = λ i. record db { mempool_deltas = sym (append-nil db.mempool_deltas) i }
fold_chunks-deltas (chunk ∷ chunks) db =
    fold_chunks-deltas chunks (insert_deltas chunk db)
    ∙ (λ i. record db { mempool_deltas = append_assoc db.mempool_deltas chunk (flatten chunks) i })

contains-extend :
    (x : Txid) (xs : List Txid) (s : TxSet)
    → contains x (extend xs s) ≡ (contains x xs || contains x s)
contains-extend x [] s = refl
contains-extend x (y ∷ xs) s =
    ground (arith, contains-extend x xs (insert y s), contains-insert x y s)

pub contains-fold_confirmed :
    (x : Txid) (transactions : Txid → Option Transaction) (chunks : List (List Txid)) (s : TxSet)
    → contains x (fold_chunks (select_confirmed transactions) chunks s)
      ≡ ((contains x (flatten chunks) && is_confirmed (transactions x)) || contains x s)
contains-fold_confirmed x transactions [] s = refl
contains-fold_confirmed x transactions (chunk ∷ chunks) s =
    rw
      (
        contains-fold_confirmed x transactions chunks (select_confirmed transactions chunk s),
        contains-extend x (keep (λ y. is_confirmed (transactions y)) chunk) s,
        contains-keep x (λ y. is_confirmed (transactions y)) chunk,
        contains-append x chunk (flatten chunks),
      )
      (regroup (contains x chunk) (contains x (flatten chunks)) _ _)
  where
    regroup : (a b c d : Bool) → (b && c || (c && a || d)) ≡ ((a || b) && c || d)
    regroup a b c d = ground arith

abbrev pub txids_of : List (Txid × StoredTxFill) → List Txid
txids_of = map (λ (found : Txid × StoredTxFill). found.0)

txids_of-append :
    (xs ys : List (Txid × StoredTxFill)) → txids_of (xs ++ ys) ≡ txids_of xs ++ txids_of ys
txids_of-append [] ys = refl
txids_of-append (x ∷ xs) ys = rw (txids_of-append xs ys) refl

contains-found_fill :
    (x y : Txid) (row : Option Transaction)
    → contains x (txids_of (found_fill y row)) ≡ (x == y && has_value row)
contains-found_fill x y none = ground arith
contains-found_fill x y (some row) = ground arith

same_row :
    (x y : Txid) (transactions : Txid → Option Transaction)
    → ((x == y) ≡ true) ⊎ ((x == y) ≡ false)
    → (x == y && has_value (transactions y)) ≡ (x == y && has_value (transactions x))
same_row x y transactions (inl hit) =
    let e : y ≡ x = ground arith in rw hit (ap (λ z. has_value (transactions z)) e)
same_row x y transactions (inr miss) = rw miss refl

contains-select_existing :
    (x : Txid) (transactions : Txid → Option Transaction) (xs : List Txid)
    → contains x (txids_of (select_existing transactions xs))
      ≡ (contains x xs && has_value (transactions x))
unfolding select_existing
contains-select_existing x transactions [] = refl
contains-select_existing x transactions (y ∷ xs) =
    let rest = select_existing transactions xs in
    rw
      (
        txids_of-append (found_fill y (transactions y)) rest,
        contains-append x (txids_of (found_fill y (transactions y))) (txids_of rest),
        contains-found_fill x y (transactions y),
        contains-select_existing x transactions xs,
      )
      (ap (λ b. b || contains x xs && has_value (transactions x))
          (same_row x y transactions (Bool-cases (x == y)))
        ∙ regroup (x == y) (contains x xs) _)
  where
    regroup : (a b c : Bool) → (a && c || b && c) ≡ ((a || b) && c)
    regroup a b c = ground arith

-- The txids that the loop over the added ones finds.
pub contains-fold_existing :
    (x : Txid) (transactions : Txid → Option Transaction) (chunks : List (List Txid))
    (existing : List (Txid × StoredTxFill))
    → contains x (
        txids_of (
          fold_chunks
            (λ chunk existing. existing ++ select_existing transactions chunk)
            chunks
            existing))
      ≡ (contains x (txids_of existing)
          || contains x (flatten chunks) && has_value (transactions x))
contains-fold_existing x transactions [] existing = ground arith
contains-fold_existing x transactions (chunk ∷ chunks) existing =
    rw
      (
        contains-fold_existing x transactions chunks
            (existing ++ select_existing transactions chunk),
        txids_of-append existing (select_existing transactions chunk),
        contains-append x (txids_of existing) (txids_of (select_existing transactions chunk)),
        contains-select_existing x transactions chunk,
        contains-append x chunk (flatten chunks),
      )
      (regroup (contains x chunk) (contains x (flatten chunks)) _ _)
  where
    regroup : (a b c d : Bool) → ((d || a && c) || b && c) ≡ (d || (a || b) && c)
    regroup a b c d = ground arith

-- What the loop over the entries takes for evicted.
pub contains-evicted_of :
    (x : Txid) (confirmed : TxSet) (es : List JournalEntry) (evicted : TxSet)
    → contains x (evicted_of confirmed es evicted)
      ≡ (contains x evicted || moves x rem es && not (contains x confirmed))
unfolding evicted_of
contains-evicted_of x confirmed [] evicted = ground arith
contains-evicted_of x confirmed (e ∷ es) evicted =
    contains-evicted_of x confirmed es
      (note_evicted (reason_of confirmed e.direction e.txid) e.txid evicted)
    ∙ one e.direction e.txid (contains e.txid confirmed) refl
  where
    one :
        (d : DeltaDirection) (y : Txid) (b : Bool)
        → contains y confirmed ≡ b
        → (contains x (note_evicted (reason_of confirmed d y) y evicted)
            || moves x rem es && not (contains x confirmed))
          ≡ (contains x evicted
              || ((same_direction d rem && x == y) || moves x rem es) && not (contains x confirmed))
    one add y b h = refl
    one rem y true h = rw h (held (Bool-cases (x == y)))
      where
        held :
            (x == y ≡ true) ⊎ (x == y ≡ false)
            → (contains x evicted || moves x rem es && not (contains x confirmed))
              ≡ (contains x evicted || (x == y || moves x rem es) && not (contains x confirmed))
        held (inl hit) =
            let e : x ≡ y = ground arith in
            let known : contains x confirmed ≡ true = rw e h in rw known (ground arith)
        held (inr miss) = rw miss refl
    one rem y false h = rw h (gone (Bool-cases (x == y)))
      where
        gone :
            (x == y ≡ true) ⊎ (x == y ≡ false)
            → (contains x (insert y evicted) || moves x rem es && not (contains x confirmed))
              ≡ (contains x evicted || (x == y || moves x rem es) && not (contains x confirmed))
        gone (inl hit) =
            let e : x ≡ y = ground arith in
            let free : contains x confirmed ≡ false = rw e h in
            rw (contains-insert x y evicted, free, hit) (ground arith)
        gone (inr miss) = rw (contains-insert x y evicted, miss) refl

-- Only the txids without a row get one.
pub insert_hollow-missing :
    (now : Time) (xs ys : List Txid) (transactions : Txid → Option Transaction) (x : Txid)
    → contains x xs ≡ (not (has_value (transactions x)) && contains x ys)
    → insert_hollow now xs transactions x ≡ insert_hollow now ys transactions x
unfolding insert_hollow
insert_hollow-missing now xs ys transactions x h = go (transactions x) h
  where
    go :
        (row : Option Transaction)
        → contains x xs ≡ (not (has_value row) && contains x ys)
        → (elim row [
          | some row ↦ some row
          | none ↦ if contains x xs then some (hollow now) else none
        ])
          ≡ (elim row [
            | some row ↦ some row
            | none ↦ if contains x ys then some (hollow now) else none
          ])
    go none h = rw h refl
    go (some row) h = refl

insert_hollow-append :
    (now : Time) (xs ys : List Txid) (transactions : Txid → Option Transaction) (x : Txid)
    → insert_hollow now ys (insert_hollow now xs transactions) x
      ≡ insert_hollow now (xs ++ ys) transactions x
unfolding insert_hollow
insert_hollow-append now xs ys transactions x = ground (arith, contains-append x xs ys)

pub insert_hollow-nil :
    (now : Time) (transactions : Txid → Option Transaction) (x : Txid)
    → transactions x ≡ insert_hollow now [] transactions x
unfolding insert_hollow
insert_hollow-nil now transactions x = ground arith

pub fold_chunks-hollow :
    (now : Time) (chunks : List (List Txid)) (db : Database) (x : Txid)
    → (fold_chunks (insert_hollow_chunk now) chunks db).transactions x
      ≡ insert_hollow now (flatten chunks) db.transactions x
fold_chunks-hollow now [] db x = insert_hollow-nil now db.transactions x
fold_chunks-hollow now (chunk ∷ chunks) db x =
    fold_chunks-hollow now chunks (insert_hollow_chunk now chunk db) x
    ∙ insert_hollow-append now chunk (flatten chunks) db.transactions x

pub fold_chunks-hollow_deltas :
    (now : Time) (chunks : List (List Txid)) (db : Database)
    → (fold_chunks (insert_hollow_chunk now) chunks db).mempool_deltas ≡ db.mempool_deltas
fold_chunks-hollow_deltas now [] db = refl
fold_chunks-hollow_deltas now (chunk ∷ chunks) db =
    fold_chunks-hollow_deltas now chunks (insert_hollow_chunk now chunk db)

pub fold_chunks-hollow_clusters :
    (now : Time) (chunks : List (List Txid)) (db : Database)
    → ((fold_chunks (insert_hollow_chunk now) chunks db).clusters ≡ db.clusters)
      × ((fold_chunks (insert_hollow_chunk now) chunks db).cluster_chunks ≡ db.cluster_chunks)
      × ((fold_chunks (insert_hollow_chunk now) chunks db).next_cluster_id ≡ db.next_cluster_id)
fold_chunks-hollow_clusters now [] db = (refl, refl, refl)
fold_chunks-hollow_clusters now (chunk ∷ chunks) db =
    fold_chunks-hollow_clusters now chunks (insert_hollow_chunk now chunk db)
