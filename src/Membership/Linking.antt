-- ===== src/Membership/Linking.antt =====
-- api/src/db/repositories/cluster_membership.rs: the back-links of transactions across the operations.
use mathlib.Core.List.{append-nil}
use cluster_mempool_observer.Base.{
  ℕ, Bool, true, false, ◌&&◌, ◌≡◌, refl, subst, List, [], ◌∷◌, map, Option, none, some, arith,
  contains, ◌==◌, Txid, Time, length, Bool-cases, Option-cases, inl, inr, if◌then◌else◌,
}
use cluster_mempool_observer.Db.{ClusterRow, ClusterChunkRow, Cluster, Transaction, Database}
use cluster_mempool_observer.Membership.{
  set_dead, select_active, live_among, update_rows, changed, ClusterVersionUpdate, replace_row,
  is_settled, replace_chunks_in, replace_chunks, ClusterClosing, closing_status, close_many,
  confirm_many_in, linked_among, replace_all, sort_by_id, trim_and_confirm_many,
}
use cluster_mempool_observer.Membership.Soundness.{replace_chunks_in-found, confirming}
use cluster_mempool_observer.Membership.Links.{
  IsLinked, link_holds, link_of, is_known, has_member, link-relink, has_member-append,
  write_version-IsLinked,
}

replace_row-IsLinked :
    (now : Time) (update : ClusterVersionUpdate) (live : Bool) (old : ClusterRow) (db : Database)
    → IsLinked db
    → IsLinked (replace_row now update live old db).0
unfolding replace_row
replace_row-IsLinked now update live old db v = elim (Bool-cases (is_settled update old db)) [
  | inl settled ↦ rw settled v
  | inr moves ↦ rw moves (write_version-IsLinked now update live old db (ground arith) v)
]

replace_chunks_in-IsLinked :
    (now : Time) (update : ClusterVersionUpdate) (live : Bool) (db : Database)
    (r : Database × Cluster)
    → IsLinked db
    → replace_chunks_in now update live db ≡ some r
    → IsLinked r.0
replace_chunks_in-IsLinked now update live db r v h =
    let (old, found, e) = replace_chunks_in-found now update live db r h in
    rw e (replace_row-IsLinked now update live old db v)

link_of-unknown : (t : Option Transaction) → is_known t ≡ false → link_of t ≡ none
link_of-unknown none h = refl
link_of-unknown (some t) h = absurd (ground arith)

-- Rows that are only retired hold what they held.
has_member-retired :
    (cluster : Option ClusterRow) (test : ClusterChunkRow → Bool) (rows : List ClusterChunkRow)
    (id : ℕ) (x : Txid)
    → has_member cluster rows id x ≡ true
    → has_member cluster (map (set_dead test) rows) id x ≡ true
has_member-retired cluster test rows id x h =
    subst (λ rs. has_member cluster rs id x ≡ true) (append-nil (map (set_dead test) rows))
      (has_member-append cluster test rows [] id x h)

has_member-changed :
    (change : ClusterRow → ClusterRow) (hit : Bool) (cluster : Option ClusterRow)
    (rows : List ClusterChunkRow) (id : ℕ) (x : Txid)
    → hit ≡ false
    → has_member cluster rows id x ≡ true
    → has_member (changed change hit cluster) rows id x ≡ true
has_member-changed change hit none rows id x miss h = h
has_member-changed change hit (some row) rows id x miss h = rw miss h

has_member-confirming :
    (now confirmed_at : Time) (hit : Bool) (cluster : Option ClusterRow)
    (rows : List ClusterChunkRow) (id : ℕ) (x : Txid)
    → has_member cluster rows id x ≡ true
    → has_member (changed (confirming now confirmed_at) hit cluster) rows id x ≡ true
has_member-confirming now confirmed_at hit none rows id x h = h
has_member-confirming now confirmed_at false (some row) rows id x h = h
has_member-confirming now confirmed_at true (some row) rows id x h = ground arith

-- Closing clusters, as evicted or as merged, leaves no back-link to them, and every back-link at a
-- cluster whose current version holds the transaction.
pub close_many-IsLinked :
    (now : Time) (how : ClusterClosing) (ids : List ℕ) (db : Database)
    → IsLinked db
    → IsLinked (close_many now how ids db).0
unfolding close_many update_rows
close_many-IsLinked now how ids db v x =
    let closing = select_active ids db.clusters db.next_cluster_id in
    let change =
      λ (row : ClusterRow). record row { status = closing_status how; closed_at = some now } in
    elim (Bool-cases (length closing == 0)) [
      | inl idle ↦ rw idle (v x)
      | inr busy ↦ rw busy (
          rw (link-relink (λ _ link. linked_among closing link) none db.transactions x).0 (
            go closing change (is_known (db.transactions x)) (link_of (db.transactions x))
              (link_of-unknown (db.transactions x)) (v x)))
    ]
  where
    go :
        (closing : List ℕ) (change : ClusterRow → ClusterRow) (known : Bool) (l : Option ℕ)
        → (known ≡ false → l ≡ none)
        → link_holds db.clusters db.cluster_chunks x l ≡ true
        → link_holds
            (λ id. changed change (contains id closing) (db.clusters id))
            (map (set_dead (live_among closing)) db.cluster_chunks)
            x
            (if known && linked_among closing l then none else l)
          ≡ true
    go closing change known none k h = ground arith
    go closing change false (some c) k h = absurd (ground (arith, k refl))
    go closing change true (some c) k h = elim (Bool-cases (contains c closing)) [
      | inl hit ↦ rw hit refl
      | inr miss ↦ rw miss (
          has_member-changed change (contains c closing) (db.clusters c) _ c x miss
            (has_member-retired (db.clusters c) (live_among closing) db.cluster_chunks c x h))
    ]

-- Confirming clusters does so too: they keep their transactions.
pub confirm_many_in-IsLinked :
    (now confirmed_at : Time) (ids : List ℕ) (db : Database)
    → IsLinked db
    → IsLinked (confirm_many_in now confirmed_at ids db).0
unfolding confirm_many_in update_rows
confirm_many_in-IsLinked now confirmed_at ids db v x =
    let closing = select_active ids db.clusters db.next_cluster_id in
    elim (Bool-cases (length closing == 0)) [
      | inl idle ↦ rw idle (v x)
      | inr busy ↦ rw busy (go closing (link_of (db.transactions x)) (v x))
    ]
  where
    go :
        (closing : List ℕ) (l : Option ℕ)
        → link_holds db.clusters db.cluster_chunks x l ≡ true
        → link_holds
            (λ id. changed (confirming now confirmed_at) (contains id closing) (db.clusters id))
            (map (set_dead (live_among closing)) db.cluster_chunks)
            x
            l
          ≡ true
    go closing none h = refl
    go closing (some c) h =
        has_member-confirming now confirmed_at (contains c closing) (db.clusters c) _ c x
          (has_member-retired (db.clusters c) (live_among closing) db.cluster_chunks c x h)

replace_all-IsLinked :
    (now : Time) (updates : List ClusterVersionUpdate) (db db' : Database)
    → IsLinked db
    → replace_all now updates db ≡ some db'
    → IsLinked db'
unfolding replace_all
replace_all-IsLinked now [] db db' v h = let e : db ≡ db' = cc in subst IsLinked e v
replace_all-IsLinked now (u ∷ us) db db' v h =
    elim (Option-cases (replace_chunks_in now u false db)) [
      | inl failed ↦ absurd (ground arith)
      | inr (r, e) ↦
          replace_all-IsLinked now us r.0 db' (replace_chunks_in-IsLinked now u false db r v e)
            (ground arith)
    ]

-- Writing a new version of a cluster leaves every back-link at a cluster whose current version holds
-- the transaction: members that join are linked, and those that leave are not.
pub replace_chunks-IsLinked :
    (now : Time) (update : ClusterVersionUpdate) (db : Database) (r : Database × Cluster)
    → IsLinked db
    → replace_chunks now update db ≡ some r
    → IsLinked r.0
unfolding replace_chunks
replace_chunks-IsLinked now update db r v h = replace_chunks_in-IsLinked now update true db r v h

-- Trimming clusters to their mined chunks and confirming them leaves every back-link at a cluster
-- whose current version holds the transaction, so what was trimmed off is not linked to it.
pub trim_and_confirm_many-IsLinked :
    (now confirmed_at : Time) (updates : List ClusterVersionUpdate) (db : Database)
    (r : Database × ℕ)
    → IsLinked db
    → trim_and_confirm_many now confirmed_at updates db ≡ some r
    → IsLinked r.0
unfolding trim_and_confirm_many
trim_and_confirm_many-IsLinked now confirmed_at updates db r v h =
    let sorted = sort_by_id updates in
    let ids = map (λ (u : ClusterVersionUpdate). u.cluster_id) sorted in
    elim (Option-cases (replace_all now sorted db)) [
      | inl failed ↦ absurd (ground arith)
      | inr (mid, e) ↦
          let same : r ≡ confirm_many_in now confirmed_at ids mid = ground arith in
          rw same (
            confirm_many_in-IsLinked now confirmed_at ids mid
              (replace_all-IsLinked now sorted db mid v e))
    ]
