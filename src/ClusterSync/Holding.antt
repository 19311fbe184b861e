-- ===== src/ClusterSync/Holding.antt =====
-- api/src/services/cluster.rs: the txids that a round can meet in the tables.
use cluster_mempool_observer.Base.{
  ℕ, zero, suc, ◌+◌, Bool, true, ◌≡◌, refl, List, [], ◌∷◌, ◌++◌, map, Option, none, some, arith,
  Txid, Time, contains, contains-append, keep, length, leb, ◌==◌, Bool-cases, inl, inr,
}
use cluster_mempool_observer.Db.{
  ClusterChunk, ClusterRow, ClusterChunkRow, Cluster, NewCluster, Database, from_chunk_row,
  insert_by_position, order_by_position,
}
use cluster_mempool_observer.Membership.{
  set_dead, of_version, chunk_rows_from, chunk_rows, chunk_txids, chunks_of, ClusterVersionUpdate,
  write_version, replace_row, is_settled, replace_chunks, ClusterClosing, select_active, close_many,
}
use cluster_mempool_observer.Membership.Soundness.{replace_chunks_in-found}
use cluster_mempool_observer.Membership.Insertion.{numbered, new_chunk_rows, insert_in}
use cluster_mempool_observer.Membership.Loading.{load_one, load_below, load_clusters, find_by_ids}
use cluster_mempool_observer.ClusterSync.Upsert.{members_of}

-- Every chunk ever written, of whatever version, has its txids among those of `p`.
abbrev pub row_txids : List ClusterChunkRow → List Txid
row_txids [] = []
row_txids (r ∷ rows) = r.txids ++ row_txids rows

abbrev pub Within : (Txid → Bool) → List Txid → Type 0
Within p xs = (x : Txid) → contains x xs ≡ true → p x ≡ true

abbrev pub Holds : (Txid → Bool) → Database → Type 0
Holds p db = Within p (row_txids db.cluster_chunks)

pub Within-append :
    (p : Txid → Bool) (xs ys : List Txid) → Within p xs → Within p ys → Within p (xs ++ ys)
Within-append p xs ys h k x m = elim (Bool-cases (contains x xs)) [
  | inl left ↦ h x left
  | inr right ↦ k x (ground (arith, contains-append x xs ys))
]

Within-first : (p : Txid → Bool) (xs ys : List Txid) → Within p (xs ++ ys) → Within p xs
Within-first p xs ys h x m = h x (ground (arith, contains-append x xs ys))

Within-second : (p : Txid → Bool) (xs ys : List Txid) → Within p (xs ++ ys) → Within p ys
Within-second p xs ys h x m = h x (ground (arith, contains-append x xs ys))

pub Within-keep : (p q : Txid → Bool) (xs : List Txid) → Within p xs → Within p (keep q xs)
Within-keep p q xs h x m = h x (kept xs m)
  where
    kept : (xs : List Txid) → contains x (keep q xs) ≡ true → contains x xs ≡ true
    kept [] m = m
    kept (y ∷ ys) m = ground (arith, kept ys)

row_txids-append :
    (xs ys : List ClusterChunkRow) → row_txids (xs ++ ys) ≡ row_txids xs ++ row_txids ys
row_txids-append [] ys = refl
row_txids-append (r ∷ rows) ys =
    rw (row_txids-append rows ys) (again r.txids (row_txids rows) (row_txids ys))
  where
    again : (xs ys zs : List Txid) → xs ++ (ys ++ zs) ≡ (xs ++ ys) ++ zs
    again [] ys zs = refl
    again (x ∷ xs) ys zs = rw (again xs ys zs) refl

row_txids-set_dead :
    (test : ClusterChunkRow → Bool) (rows : List ClusterChunkRow)
    → row_txids (map (set_dead test) rows) ≡ row_txids rows
unfolding set_dead
row_txids-set_dead test [] = refl
row_txids-set_dead test (r ∷ rows) = rw (row_txids-set_dead test rows) refl

row_txids-chunk_rows :
    (position id version : ℕ) (cs : List ClusterChunk) (live : Bool)
    → row_txids (chunk_rows_from position id version cs live) ≡ chunk_txids cs
unfolding chunk_rows_from chunk_txids
row_txids-chunk_rows position id version [] live = refl
row_txids-chunk_rows position id version (c ∷ cs) live =
    rw (row_txids-chunk_rows (position + 1) id version cs live) refl

pub close_many-Holds :
    (p : Txid → Bool) (now : Time) (how : ClusterClosing) (ids : List ℕ) (db : Database)
    → Holds p db
    → Holds p (close_many now how ids db).0
unfolding close_many
close_many-Holds p now how ids db h =
    elim (Bool-cases (length (select_active ids db.clusters db.next_cluster_id) == 0)) [
      | inl idle ↦ rw idle h
      | inr busy ↦ rw busy (rw (row_txids-set_dead _ db.cluster_chunks) h)
    ]

pub replace_chunks-Holds :
    (p : Txid → Bool) (now : Time) (update : ClusterVersionUpdate) (db : Database)
    (r : Database × Cluster)
    → Within p (chunk_txids update.chunks)
    → Holds p db
    → replace_chunks now update db ≡ some r
    → Holds p r.0
unfolding replace_chunks replace_row write_version chunk_rows
replace_chunks-Holds p now update db r new h e =
    let (old, found, same) = replace_chunks_in-found now update true db r e in
    rw same (elim (Bool-cases (is_settled update old db)) [
      | inl settled ↦ rw settled h
      | inr moves ↦ rw moves (
          rw
            (
              row_txids-append
                  (map (set_dead (of_version update.cluster_id old.version)) db.cluster_chunks)
                  (chunk_rows_from 0 update.cluster_id (old.version + 1) update.chunks true),
              row_txids-set_dead (of_version update.cluster_id old.version) db.cluster_chunks,
              row_txids-chunk_rows 0 update.cluster_id (old.version + 1) update.chunks true,
            )
            (Within-append p (row_txids db.cluster_chunks) (chunk_txids update.chunks) h new))
    ])

append_empty : (rows : List ClusterChunkRow) → rows ++ [] ≡ rows
append_empty [] = refl
append_empty (r ∷ rows) = rw (append_empty rows) refl

pub insert_in-Holds :
    (p : Txid → Bool) (now : Time) (c : NewCluster) (db : Database)
    → Within p (chunk_txids c.chunks)
    → Holds p db
    → Holds p (insert_in now (c ∷ []) db).0
unfolding insert_in numbered new_chunk_rows chunk_rows
insert_in-Holds p now c db new h =
    let rows = chunk_rows_from 0 db.next_cluster_id 1 c.chunks true in
    rw
      (
        append_empty rows,
        row_txids-append db.cluster_chunks rows,
        row_txids-chunk_rows 0 db.next_cluster_id 1 c.chunks true,
      )
      (Within-append p (row_txids db.cluster_chunks) (chunk_txids c.chunks) h new)

keep-Within :
    (p : Txid → Bool) (test : ClusterChunkRow → Bool) (rows : List ClusterChunkRow)
    → Within p (row_txids rows)
    → Within p (row_txids (keep test rows))
keep-Within p test [] h = h
keep-Within p test (r ∷ rows) h =
    let rest = keep-Within p test rows (Within-second p r.txids (row_txids rows) h) in
    elim (Bool-cases (test r)) [
      | inl hit ↦ rw hit (
          Within-append p r.txids (row_txids (keep test rows))
            (Within-first p r.txids (row_txids rows) h) rest)
      | inr miss ↦ rw miss rest
    ]

insert-Within :
    (p : Txid → Bool) (r : ClusterChunkRow) (rows : List ClusterChunkRow)
    → Within p r.txids
    → Within p (row_txids rows)
    → Within p (row_txids (insert_by_position r rows))
unfolding insert_by_position
insert-Within p r [] h k = Within-append p r.txids [] h k
insert-Within p r (s ∷ rows) h k = elim (Bool-cases (leb r.position s.position)) [
  | inl first ↦ rw first (Within-append p r.txids (row_txids (s ∷ rows)) h k)
  | inr later ↦ rw later (
      Within-append p s.txids (row_txids (insert_by_position r rows))
        (Within-first p s.txids (row_txids rows) k)
        (insert-Within p r rows h (Within-second p s.txids (row_txids rows) k)))
]

order-Within :
    (p : Txid → Bool) (rows : List ClusterChunkRow)
    → Within p (row_txids rows)
    → Within p (row_txids (order_by_position rows))
unfolding order_by_position
order-Within p [] h = h
order-Within p (r ∷ rows) h =
    insert-Within p r (order_by_position rows) (Within-first p r.txids (row_txids rows) h)
      (order-Within p rows (Within-second p r.txids (row_txids rows) h))

chunk_txids-rows :
    (rows : List ClusterChunkRow) → chunk_txids (map from_chunk_row rows) ≡ row_txids rows
unfolding chunk_txids from_chunk_row
chunk_txids-rows [] = refl
chunk_txids-rows (r ∷ rows) = rw (chunk_txids-rows rows) refl

members_of-append : (xs ys : List Cluster) → members_of (xs ++ ys) ≡ members_of xs ++ members_of ys
unfolding members_of
members_of-append [] ys = refl
members_of-append (c ∷ cs) ys =
    rw (members_of-append cs ys) (again (chunk_txids c.chunks) (members_of cs) (members_of ys))
  where
    again : (xs ys zs : List Txid) → xs ++ (ys ++ zs) ≡ (xs ++ ys) ++ zs
    again [] ys zs = refl
    again (x ∷ xs) ys zs = rw (again xs ys zs) refl

load_one-Within :
    (p : Txid → Bool) (test : ℕ → ClusterRow → Bool) (db : Database) (id : ℕ)
    (cluster : Option ClusterRow)
    → Holds p db
    → Within p (members_of (load_one test db id cluster))
unfolding members_of chunks_of
load_one-Within p test db id none h = λ x m. absurd (ground arith)
load_one-Within p test db id (some row) h = elim (Bool-cases (test id row)) [
  | inl hit ↦
      let rows = order_by_position (keep (of_version id row.version) db.cluster_chunks) in
      rw (hit, chunk_txids-rows rows)
        (Within-append p (row_txids rows) []
          (order-Within p _ (keep-Within p (of_version id row.version) db.cluster_chunks h))
          (λ x m. absurd (ground arith)))
  | inr miss ↦ rw miss (λ x m. absurd (ground arith))
]

load_below-Within :
    (p : Txid → Bool) (test : ℕ → ClusterRow → Bool) (db : Database) (n : ℕ)
    → Holds p db
    → Within p (members_of (load_below test db n))
unfolding load_below members_of
load_below-Within p test db zero h = λ x m. absurd (ground arith)
load_below-Within p test db (suc n) h =
    rw (members_of-append (load_below test db n) (load_one test db n (db.clusters n))) (
      Within-append p (members_of (load_below test db n)) _ (load_below-Within p test db n h)
        (load_one-Within p test db n (db.clusters n) h))

-- The members of loaded clusters are among them.
pub find_by_ids-Within :
    (p : Txid → Bool) (ids : List ℕ) (db : Database)
    → Holds p db
    → Within p (members_of (find_by_ids ids db))
unfolding find_by_ids load_clusters
find_by_ids-Within p ids db h = load_below-Within p _ db db.next_cluster_id h
