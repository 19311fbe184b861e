-- ===== src/Membership/Arrivals.antt =====
-- api/src/db/repositories/cluster_membership.rs: the back-links of transactions when new clusters are
-- inserted.
use mathlib.Core.List.{append_assoc, append-nil}
use cluster_mempool_observer.Base.{
  ℕ, suc, ◌+◌, ◌≤◌, true, ◌&&◌, ◌≡◌, refl, sym, subst, List, [], ◌∷◌, ◌++◌, Option, none, some,
  arith, contains, any-append, ◌==◌, Txid, Time, length, Bool-cases, inl, inr,
}
use cluster_mempool_observer.Db.{ClusterRow, ClusterChunkRow, NewCluster, Database}
use cluster_mempool_observer.Membership.{
  of_version, chunk_rows, chunk_txids, put, insert_hollow, relink,
}
use cluster_mempool_observer.Membership.Insertion.{
  numbered, new_row, insert_rows, new_chunk_rows, new_members, link_news, insert_in,
}
use cluster_mempool_observer.Membership.Soundness.{IsSound}
use cluster_mempool_observer.Membership.Links.{
  IsLinked, link_holds, link_of, is_known, has_member, link-relink, link-insert_hollow,
  has_member-new, find-put,
}

abbrev IsFresh : Database → Type 0
IsFresh db = (id : ℕ) → db.next_cluster_id ≤ id → db.clusters id ≡ none

abbrev linked_one : NewCluster → Database → Database
linked_one c db = record db {
  next_cluster_id = suc db.next_cluster_id;
  clusters = put db.next_cluster_id (new_row c) db.clusters;
  cluster_chunks = db.cluster_chunks ++ chunk_rows db.next_cluster_id 1 c.chunks true;
  transactions =
      relink (λ x _. contains x (chunk_txids c.chunks)) (some db.next_cluster_id) db.transactions;
}

abbrev linked_all : List NewCluster → Database → Database
linked_all new db =
    let news = numbered db.next_cluster_id new in
    record db {
      next_cluster_id = db.next_cluster_id + length new;
      clusters = insert_rows news db.clusters;
      cluster_chunks = db.cluster_chunks ++ new_chunk_rows news;
      transactions = link_news news db.transactions;
    }

has_member-more :
    (cluster : Option ClusterRow) (rows new : List ClusterChunkRow) (id : ℕ) (x : Txid)
    → has_member cluster rows id x ≡ true
    → has_member cluster (rows ++ new) id x ≡ true
has_member-more none rows new id x h = h
has_member-more (some row) rows new id x h =
    ground (arith, any-append (λ r. of_version id row.version r && contains x r.txids) rows new)

linked_one-IsFresh : (c : NewCluster) (db : Database) → IsFresh db → IsFresh (linked_one c db)
linked_one-IsFresh c db f id above = ground (arith, f id (omega arith))

kept_link :
    (c : NewCluster) (db : Database) (x : Txid) (l : Option ℕ)
    → IsFresh db
    → link_holds db.clusters db.cluster_chunks x l ≡ true
    → link_holds (linked_one c db).clusters (linked_one c db).cluster_chunks x l ≡ true
kept_link c db x none f h = refl
kept_link c db x (some id) f h = elim (Bool-cases (id == db.next_cluster_id)) [
  | inl hit ↦
      let missing = f id (ground arith) in
      let no : has_member none db.cluster_chunks id x ≡ true = rw missing at h in
      absurd (ground arith)
  | inr other ↦ rw other (has_member-more (db.clusters id) db.cluster_chunks _ id x h)
]

linked_one-IsLinked :
    (c : NewCluster) (db : Database) → IsFresh db → IsLinked db → IsLinked (linked_one c db)
linked_one-IsLinked c db f v x =
    let id = db.next_cluster_id in
    let w = linked_one c db in
    let joins = λ (x : Txid) (l : Option ℕ). contains x (chunk_txids c.chunks) in
    let holds = λ (l : Option ℕ). link_holds w.clusters w.cluster_chunks x l ≡ true in
    subst holds (sym (link-relink joins (some id) db.transactions x).0)
      (elim (Bool-cases (is_known (db.transactions x) && contains x (chunk_txids c.chunks))) [
        | inl joined ↦ rw joined (
            rw (find-put id (new_row c) db.clusters)
              (has_member-new (new_row c) db.cluster_chunks c.chunks true id x refl (ground arith)))
        | inr apart ↦ rw apart (kept_link c db x (link_of (db.transactions x)) f (v x))
      ])

linked_all-IsLinked :
    (new : List NewCluster) (db : Database)
    → IsFresh db
    → IsLinked db
    → IsLinked (linked_all new db)
unfolding numbered insert_rows new_chunk_rows link_news
linked_all-IsLinked [] db f v x = rw (append-nil db.cluster_chunks) (v x)
linked_all-IsLinked (c ∷ new) db f v x =
    let w = linked_all (c ∷ new) db in
    subst (λ rows. link_holds w.clusters rows x (link_of (w.transactions x)) ≡ true)
      (append_assoc db.cluster_chunks (chunk_rows db.next_cluster_id 1 c.chunks true) _)
      (linked_all-IsLinked new (linked_one c db) (linked_one-IsFresh c db f)
        (linked_one-IsLinked c db f v) x)

-- Inserting clusters, in a database that is sound, leaves every back-link at a cluster whose current
-- version holds the transaction, be it a new cluster or one from before.
pub insert_in-IsLinked :
    (now : Time) (new : List NewCluster) (db : Database)
    → IsSound db
    → IsLinked db
    → IsLinked (insert_in now new db).0
unfolding insert_in
insert_in-IsLinked now new db s v =
    let members = new_members (numbered db.next_cluster_id new) in
    let known : Database = record db { transactions = insert_hollow now members db.transactions } in
    let linked : IsLinked known =
      λ x. rw (link-insert_hollow now members db.transactions x).0 (v x) in
    λ x. linked_all-IsLinked new known s.fresh linked x
