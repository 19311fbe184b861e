-- ===== src/Membership/Links.antt =====
-- api/src/db/repositories/cluster_membership.rs: the back-links of transactions to clusters, and what
-- a new version makes of them.
use cluster_mempool_observer.Base.{
  ℕ, ◌+◌, Bool, true, false, not, ◌&&◌, ◌||◌, ◌≡◌, refl, sym, subst, List, [], ◌∷◌, ◌++◌, map,
  Option, none, some, arith, contains, any, any-append, any-map, ◌==◌, Txid, Time, Bool-cases, inl,
  inr, if◌then◌else◌, contains-append,
}
use cluster_mempool_observer.Db.{
  ClusterChunk, ClusterStatus, active, confirmed, evicted, merged, is_active, ClusterRow,
  ClusterChunkRow, Transaction, Database, hollow,
}
use cluster_mempool_observer.Membership.{
  set_dead, of_version, chunk_rows, chunk_rows_from, chunk_txids, put, ClusterVersionUpdate,
  write_version, insert_hollow, relink, linked_to,
}

abbrev pub keeps_members : ClusterStatus → Bool
keeps_members active = true
keeps_members confirmed = true
keeps_members evicted = false
keeps_members merged = false

-- Whether the current version of a cluster that still has members holds a txid.
abbrev pub has_member : Option ClusterRow → List ClusterChunkRow → ℕ → Txid → Bool
has_member none rows id x = false
has_member (some row) rows id x =
    keeps_members row.status && any (λ r. of_version id row.version r && contains x r.txids) rows

abbrev pub link_of : Option Transaction → Option ℕ
link_of none = none
link_of (some t) = t.cluster_id

abbrev pub link_holds : (ℕ → Option ClusterRow) → List ClusterChunkRow → Txid → Option ℕ → Bool
link_holds clusters rows x none = true
link_holds clusters rows x (some id) = has_member (clusters id) rows id x

abbrev pub IsLinked : Database → Type 0
IsLinked db =
    (x : Txid) → link_holds db.clusters db.cluster_chunks x (link_of (db.transactions x)) ≡ true

abbrev pub is_known : Option Transaction → Bool
is_known none = false
is_known (some t) = true

pub link-relink :
    (test : Txid → Option ℕ → Bool) (link : Option ℕ) (transactions : Txid → Option Transaction)
    (x : Txid)
    → (link_of (relink test link transactions x) ≡ (
        if is_known (transactions x) && test x (link_of (transactions x))
        then link
        else link_of (transactions x)))
      × (is_known (relink test link transactions x) ≡ is_known (transactions x))
unfolding relink
link-relink test link transactions x = go (transactions x)
  where
    go :
        (o : Option Transaction)
        → (link_of (elim o [
          | some row ↦
              some (if test x row.cluster_id then record row { cluster_id = link } else row)
          | none ↦ none
        ])
            ≡ (if is_known o && test x (link_of o) then link else link_of o))
          × (is_known (elim o [
            | some row ↦
                some (if test x row.cluster_id then record row { cluster_id = link } else row)
            | none ↦ none
          ])
              ≡ is_known o)
    go none = (refl, refl)
    go (some row) = (ground arith, refl)

pub link-insert_hollow :
    (now : Time) (txids : List Txid) (transactions : Txid → Option Transaction) (x : Txid)
    → (link_of (insert_hollow now txids transactions x) ≡ link_of (transactions x))
      × (is_known (insert_hollow now txids transactions x)
          ≡ (is_known (transactions x) || contains x txids))
unfolding insert_hollow hollow
link-insert_hollow now txids transactions x = ground arith

abbrev member_row : ℕ → ℕ → Txid → ClusterChunkRow → Bool
member_row id version x r = of_version id version r && contains x r.txids

any-dead :
    (id version : ℕ) (x : Txid) (test : ClusterChunkRow → Bool) (rows : List ClusterChunkRow)
    → any (member_row id version x) (map (set_dead test) rows) ≡ any (member_row id version x) rows
unfolding set_dead
any-dead id version x test rows = any-map (member_row id version x) (set_dead test) rows

any-chunk_rows :
    (position id version : ℕ) (x : Txid) (cs : List ClusterChunk) (live : Bool)
    → any (member_row id version x) (chunk_rows_from position id version cs live)
      ≡ contains x (chunk_txids cs)
unfolding chunk_rows_from chunk_txids
any-chunk_rows position id version x [] live = refl
any-chunk_rows position id version x (c ∷ cs) live = ground (
  arith,
  contains-append x c.txids (chunk_txids cs),
  any-chunk_rows (position + 1) id version x cs live,
)

-- What a new version makes of a back-link.
link-write_version :
    (now : Time) (update : ClusterVersionUpdate) (live : Bool) (old : ClusterRow) (db : Database)
    (x : Txid)
    → link_of ((write_version now update live old db).0.transactions x) ≡ (
        if contains x (chunk_txids update.chunks)
        then some update.cluster_id
        else if linked_to update.cluster_id (link_of (db.transactions x))
        then none
        else link_of (db.transactions x))
unfolding write_version
link-write_version now update live old db x =
    let id = update.cluster_id in
    let members = chunk_txids update.chunks in
    let detach = λ (x : Txid) (link : Option ℕ). linked_to id link && not (contains x members) in
    let attach = λ (x : Txid) (link : Option ℕ). contains x members && not (linked_to id link) in
    let detached = relink detach none db.transactions in
    let known = insert_hollow now members detached in
    let first = link-relink detach none db.transactions x in
    let second = link-insert_hollow now members detached x in
    let third = link-relink attach (some id) known x in
    ground (arith, first.0, first.1, second.0, second.1, third.0)

keeps_members-is_active : (s : ClusterStatus) → is_active s ≡ true → keeps_members s ≡ true
keeps_members-is_active s h = ground arith

-- Rows that are only retired, with others after them, still hold what they held.
pub has_member-append :
    (cluster : Option ClusterRow) (test : ClusterChunkRow → Bool) (rows new : List ClusterChunkRow)
    (id : ℕ) (x : Txid)
    → has_member cluster rows id x ≡ true
    → has_member cluster (map (set_dead test) rows ++ new) id x ≡ true
has_member-append none test rows new id x h = h
has_member-append (some row) test rows new id x h =
    rw
      (
        any-append (member_row id row.version x) (map (set_dead test) rows) new,
        any-dead id row.version x test rows,
      )
      (weaken (keeps_members row.status) _ _ h)
  where
    weaken : (a b c : Bool) → (a && b) ≡ true → (a && (b || c)) ≡ true
    weaken a b c h = ground arith

pub has_member-new :
    (row : ClusterRow) (rows : List ClusterChunkRow) (cs : List ClusterChunk) (live : Bool) (id : ℕ)
    (x : Txid)
    → keeps_members row.status ≡ true
    → contains x (chunk_txids cs) ≡ true
    → has_member (some row) (rows ++ chunk_rows id row.version cs live) id x ≡ true
unfolding chunk_rows
has_member-new row rows cs live id x keeps joined =
    rw
      (
        any-append (member_row id row.version x) rows (chunk_rows_from 0 id row.version cs live),
        any-chunk_rows 0 id row.version x cs live,
        keeps,
        joined,
      )
      (ground arith)

pub find-put :
    (id : ℕ) (row : ClusterRow) (clusters : ℕ → Option ClusterRow)
    → put id row clusters id ≡ some row
find-put id row clusters = ground arith

pub write_version-IsLinked :
    (now : Time) (update : ClusterVersionUpdate) (live : Bool) (old : ClusterRow) (db : Database)
    → is_active old.status ≡ true
    → IsLinked db
    → IsLinked (write_version now update live old db).0
write_version-IsLinked now update live old db act v x =
    let id = update.cluster_id in
    let members = chunk_txids update.chunks in
    let w = (write_version now update live old db).0 in
    let row = (write_version now update live old db).1.row in
    let holds = λ (l : Option ℕ). link_holds w.clusters w.cluster_chunks x l ≡ true in
    subst holds (sym (link-write_version now update live old db x))
      (elim (Bool-cases (contains x members)) [
        | inl joined ↦ rw joined (
            unfold write_version in
            rw (find-put id row db.clusters) (
              has_member-new row (map (set_dead (of_version id old.version)) db.cluster_chunks)
                update.chunks live id x (keeps_members-is_active old.status act) joined))
        | inr apart ↦ rw apart (rest (link_of (db.transactions x)) (v x))
      ])
  where
    rest :
        (l : Option ℕ)
        → link_holds db.clusters db.cluster_chunks x l ≡ true
        → link_holds
            (write_version now update live old db).0.clusters
            (write_version now update live old db).0.cluster_chunks
            x
            (if linked_to update.cluster_id l then none else l)
          ≡ true
    rest none h = refl
    rest (some c) h = elim (Bool-cases (c == update.cluster_id)) [
      | inl left ↦ rw left refl
      | inr other ↦ rw other (
          unfold write_version in
          rw other (has_member-append (db.clusters c) _ db.cluster_chunks _ c x h))
    ]
