-- ===== src/Membership/Insertion.antt =====
-- api/src/db/repositories/cluster_membership.rs: the insertion of new clusters, under fresh ids.
use mathlib.Core.List.{append_assoc, append-nil}
use cluster_mempool_observer.Base.{
  ℕ, suc, ◌+◌, true, ◌≡◌, refl, subst, List, [], ◌∷◌, ◌++◌, Option, none, some, arith, All-append,
  ◌==◌, Time, length, Bool-cases, inl, inr, contains, Txid, map, in_chunks, flatten,
  flatten-chunks_from, ◌∙◌,
}
use cluster_mempool_observer.Db.{
  mempool_delta_insert_chunk_size, active, ClusterRow, ClusterChunkRow, Cluster, NewCluster,
  Database, Transaction,
}
use cluster_mempool_observer.Membership.{
  chunk_rows, chunk_txids, total_weight, total_fee, put, insert_hollow, relink,
}
use cluster_mempool_observer.Membership.Rows.{IsRowSound, chunk_rows-IsRowSound}
use cluster_mempool_observer.Membership.Soundness.{RowsSound, IsSound}

-- The ids that `nextval` hands out, each with its cluster.
unfoldable pub numbered : ℕ → List NewCluster → List (ℕ × NewCluster)
numbered id [] = []
numbered id (c ∷ cs) = (id, c) ∷ numbered (suc id) cs

abbrev pub new_row : NewCluster → ClusterRow
new_row c = record {
  status = active;
  version = 1;
  total_weight = total_weight c.chunks;
  total_fee = total_fee c.chunks;
  first_seen_at = c.first_seen_at;
  confirmed_at = none;
  closed_at = none;
}

unfoldable pub insert_rows : List (ℕ × NewCluster) → (ℕ → Option ClusterRow) → ℕ → Option ClusterRow
insert_rows [] clusters = clusters
insert_rows ((id, c) ∷ news) clusters = insert_rows news (put id (new_row c) clusters)

unfoldable pub new_chunk_rows : List (ℕ × NewCluster) → List ClusterChunkRow
new_chunk_rows [] = []
new_chunk_rows ((id, c) ∷ news) = chunk_rows id 1 c.chunks true ++ new_chunk_rows news

unfoldable pub new_members : List (ℕ × NewCluster) → List Txid
new_members [] = []
new_members ((id, c) ∷ news) = chunk_txids c.chunks ++ new_members news

-- `UPDATE transactions SET cluster_id = ch.cluster_id FROM …`: of several rows that hold a txid the
-- statement uses one, here the last.
unfoldable pub link_news :
    List (ℕ × NewCluster) → (Txid → Option Transaction) → Txid → Option Transaction
link_news [] transactions = transactions
link_news ((id, c) ∷ news) transactions =
    link_news news (relink (λ x _. contains x (chunk_txids c.chunks)) (some id) transactions)

-- What is returned for the rows of RETURNING, each with the chunks of its id. The rows are taken in the
-- order in which they were inserted; the source looks the chunks up by id and relies on no order.
unfoldable pub new_clusters : List (ℕ × NewCluster) → List Cluster
new_clusters [] = []
new_clusters ((id, c) ∷ news) =
    record { id = id; row = new_row c; chunks = c.chunks } ∷ new_clusters news

unfoldable pub insert_in : Time → List NewCluster → Database → Database × List Cluster
insert_in now new db =
    let news = numbered db.next_cluster_id new in
    (
      record db {
        next_cluster_id = db.next_cluster_id + length new;
        clusters = insert_rows news db.clusters;
        cluster_chunks = db.cluster_chunks ++ new_chunk_rows news;
        transactions = link_news news (insert_hollow now (new_members news) db.transactions);
      },
      new_clusters news,
    )

abbrev pub inserted : List NewCluster → Database → Database
inserted new db =
    let news = numbered db.next_cluster_id new in
    record db {
      next_cluster_id = db.next_cluster_id + length new;
      clusters = insert_rows news db.clusters;
      cluster_chunks = db.cluster_chunks ++ new_chunk_rows news;
    }

abbrev pub inserted_one : NewCluster → Database → Database
inserted_one c db = record db {
  next_cluster_id = suc db.next_cluster_id;
  clusters = put db.next_cluster_id (new_row c) db.clusters;
  cluster_chunks = db.cluster_chunks ++ chunk_rows db.next_cluster_id 1 c.chunks true;
}

known_elsewhere :
    (db : Database) (row : ClusterRow) (r : ClusterChunkRow)
    → IsSound db
    → IsRowSound [] (db.clusters r.cluster_id) r
    → IsRowSound [] (put db.next_cluster_id row db.clusters r.cluster_id) r
known_elsewhere db row r v h = elim (Bool-cases (r.cluster_id == db.next_cluster_id)) [
  | inl hit ↦
      let missing = v.fresh r.cluster_id (ground arith) in
      let none_sound : IsRowSound [] none r = rw missing at h in absurd (ground arith)
  | inr miss ↦ rw miss h
]

pub inserted_one-IsSound :
    (c : NewCluster) (db : Database) → IsSound db → IsSound (inserted_one c db)
unfolding chunk_rows
inserted_one-IsSound c db v =
    let id = db.next_cluster_id in
    let clusters = put id (new_row c) db.clusters in
    let here : clusters id ≡ some (new_row c) = ground arith in
    record {
      rows =
          All-append (λ r. IsRowSound [] (clusters r.cluster_id) r) db.cluster_chunks _
            (go db.cluster_chunks v.rows)
            (chunk_rows-IsRowSound [] 0 id (new_row c) c.chunks true clusters here refl (inl refl));
      fresh = λ x above. ground (arith, v.fresh x (omega arith));
    }
  where
    go :
        (rows : List ClusterChunkRow)
        → RowsSound [] db.clusters rows
        → RowsSound [] (put db.next_cluster_id (new_row c) db.clusters) rows
    go [] h = tt
    go (r ∷ rows) h = (known_elsewhere db (new_row c) r v h.0, go rows h.1)

inserted-IsSound : (new : List NewCluster) (db : Database) → IsSound db → IsSound (inserted new db)
unfolding numbered insert_rows new_chunk_rows
inserted-IsSound [] db v = record {
  rows = rw (append-nil db.cluster_chunks) v.rows;
  fresh = λ x above. v.fresh x (omega arith);
}
inserted-IsSound (c ∷ new) db v =
    let w = inserted-IsSound new (inserted_one c db) (inserted_one-IsSound c db v) in
    record {
      rows =
          subst (RowsSound [] (inserted (c ∷ new) db).clusters)
            (append_assoc db.cluster_chunks (chunk_rows db.next_cluster_id 1 c.chunks true) _)
            w.rows;
      fresh = λ x above. w.fresh x (omega arith);
    }

pub insert_in-IsSound :
    (now : Time) (new : List NewCluster) (db : Database)
    → IsSound db
    → IsSound (insert_in now new db).0
unfolding insert_in
insert_in-IsSound now new db v =
    let w = inserted-IsSound new db v in record { rows = w.rows; fresh = w.fresh }

-- One cluster, in a transaction of its own.
abbrev pub insert_with_members : Time → NewCluster → Database → Database × List Cluster
insert_with_members now new db = insert_in now (new ∷ []) db

-- The loop of `insert_many_with_members`, a database transaction for each batch.
unfoldable pub insert_batches : Time → List (List NewCluster) → Database → Database × List Cluster
insert_batches now [] db = (db, [])
insert_batches now (batch ∷ batches) db =
    let (db', rows) = insert_in now batch db in
    let (db'', more) = insert_batches now batches db' in (db'', rows ++ more)

unfoldable pub insert_many_with_members :
    Time → List NewCluster → Database → Database × List Cluster
insert_many_with_members now new db =
    insert_batches now (in_chunks mempool_delta_insert_chunk_size new) db

insert_batches-IsSound :
    (now : Time) (batches : List (List NewCluster)) (db : Database)
    → IsSound db
    → IsSound (insert_batches now batches db).0
unfolding insert_batches
insert_batches-IsSound now [] db v = v
insert_batches-IsSound now (batch ∷ batches) db v =
    insert_batches-IsSound now batches (insert_in now batch db).0 (insert_in-IsSound now batch db v)

new_clusters-chunks :
    (id : ℕ) (new : List NewCluster)
    → map (λ (c : Cluster). c.chunks) (new_clusters (numbered id new))
      ≡ map (λ (c : NewCluster). c.chunks) new
unfolding new_clusters numbered
new_clusters-chunks id [] = refl
new_clusters-chunks id (c ∷ new) = rw (new_clusters-chunks (suc id) new) refl

map-append :
    (xs ys : List Cluster)
    → map (λ (c : Cluster). c.chunks) (xs ++ ys)
      ≡ map (λ (c : Cluster). c.chunks) xs ++ map (λ (c : Cluster). c.chunks) ys
map-append [] ys = refl
map-append (x ∷ xs) ys = rw (map-append xs ys) refl

map-append_new :
    (xs ys : List NewCluster)
    → map (λ (c : NewCluster). c.chunks) (xs ++ ys)
      ≡ map (λ (c : NewCluster). c.chunks) xs ++ map (λ (c : NewCluster). c.chunks) ys
map-append_new [] ys = refl
map-append_new (x ∷ xs) ys = rw (map-append_new xs ys) refl

insert_batches-chunks :
    (now : Time) (batches : List (List NewCluster)) (db : Database)
    → map (λ (c : Cluster). c.chunks) (insert_batches now batches db).1
      ≡ map (λ (c : NewCluster). c.chunks) (flatten batches)
unfolding insert_batches insert_in
insert_batches-chunks now [] db = refl
insert_batches-chunks now (batch ∷ batches) db =
    rw
      (
        map-append (insert_in now batch db).1
            (insert_batches now batches (insert_in now batch db).0).1,
        map-append_new batch (flatten batches),
        new_clusters-chunks db.next_cluster_id batch,
        insert_batches-chunks now batches (insert_in now batch db).0,
      )
      refl

-- Inserting clusters, in batches, keeps every chunk live exactly while it belongs to the current version of
-- an active cluster, and the model returns a cluster for each new one, with its chunks, in their order.
pub insert_many_with_members-IsSound :
    (now : Time) (new : List NewCluster) (db : Database)
    → IsSound db
    → IsSound (insert_many_with_members now new db).0
      × (map (λ c. c.chunks) (insert_many_with_members now new db).1 ≡ map (λ c. c.chunks) new)
unfolding insert_many_with_members
insert_many_with_members-IsSound now new db v =
    let batches = in_chunks mempool_delta_insert_chunk_size new in
    (
      insert_batches-IsSound now batches db v,
      insert_batches-chunks now batches db
          ∙ rw (flatten-chunks_from mempool_delta_insert_chunk_size [] new) refl,
    )
