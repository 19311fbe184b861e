-- ===== src/Membership/Activity.antt =====
-- api/src/db/repositories/cluster_membership.rs: what each operation makes of the active clusters, as
-- `load_clusters` would load them after it.
use cluster_mempool_observer.Base.{
  ℕ, ◌+◌, Bool, true, false, ◌&&◌, ◌≡◌, refl, ◌∙◌, List, [], ◌∷◌, map, Option, none, some, arith,
  contains, leb, Txid, ◌==◌, Time, length, Bool-cases, Option-cases, inl, inr, if◌then◌else◌,
}
use cluster_mempool_observer.Db.{
  Transaction, ClusterChunk, is_active, ClusterRow, ClusterChunkRow, Cluster, Database,
}
use cluster_mempool_observer.Snapshot.{ActiveCluster}
use cluster_mempool_observer.DeltaSet.{from_cluster}
use cluster_mempool_observer.Membership.{
  set_dead, of_version, chunk_rows_from, chunk_rows, chunks_of, is_open, live_among, select_active,
  update_rows, changed, ClusterVersionUpdate, write_version, replace_row, is_settled,
  replace_chunks_in, ClusterClosing, as_evicted, as_merged, closing_status, close_many,
  confirm_many_in, relink, linked_among,
}
use cluster_mempool_observer.Membership.Rows.{contains-select_active}
use cluster_mempool_observer.Membership.Soundness.{
  RowsSound, IsSoundBut, found_below, confirming, replace_chunks_in-found,
}
use cluster_mempool_observer.Membership.Loading.{
  loaded, IsNowhere, picked-set_dead, picked-append_nowhere, picked-nowhere_append,
  picked-chunk_rows,
}

abbrev pub shown : Cluster → Option ActiveCluster
shown c = if is_active c.row.status then some (from_cluster c) else none

abbrev pub activity : Database → ℕ → Option ClusterRow → Option ActiveCluster
activity db id none = none
activity db id (some row) = shown (loaded db id row)

-- The state of a cluster, if it is active.
abbrev pub active_at : Database → ℕ → Option ActiveCluster
active_at db id = activity db id (db.clusters id)

pub activity-chunks :
    (db db' : Database) (id : ℕ) (cluster : Option ClusterRow)
    → ((version : ℕ) → chunks_of db' id version ≡ chunks_of db id version)
    → activity db' id cluster ≡ activity db id cluster
activity-chunks db db' id none same = refl
activity-chunks db db' id (some row) same = rw (same row.version) refl

activity-changed :
    (db db' : Database) (change : ClusterRow → ClusterRow) (id : ℕ) (hit named : Bool)
    (cluster : Option ClusterRow)
    → ((row : ClusterRow) → is_active (change row).status ≡ false)
    → hit ≡ (named && is_open cluster)
    → ((version : ℕ) → chunks_of db' id version ≡ chunks_of db id version)
    → activity db' id (changed change hit cluster)
      ≡ (if named then none else activity db id cluster)
activity-changed db db' change id hit named none closes e same = ground arith
activity-changed db db' change id hit named (some row) closes e same =
    elim (Bool-cases (is_active row.status)) [
      | inl live ↦ elim (Bool-cases named) [
        | inl hold ↦ let h : hit ≡ true = ground arith in rw (h, hold, closes row) refl
        | inr free ↦ let h : hit ≡ false = ground arith in rw (h, free, same row.version) refl
      ]
      | inr closed ↦ let h : hit ≡ false = ground arith in rw (h, closed) (ground arith)
    ]

-- The statements that close clusters.
closing-active_at :
    (pending : List ℕ) (change : ClusterRow → ClusterRow) (ids : List ℕ) (db db' : Database)
    (id : ℕ)
    → ((row : ClusterRow) → is_active (change row).status ≡ false)
    → db'.clusters id
      ≡ changed change
          (contains id (select_active ids db.clusters db.next_cluster_id))
          (db.clusters id)
    → ((version : ℕ) → chunks_of db' id version ≡ chunks_of db id version)
    → IsSoundBut pending db
    → active_at db' id ≡ (if contains id ids then none else active_at db id)
closing-active_at pending change ids db db' id closes row chunks v = rw row (
    activity-changed db db' change id
      (contains id (select_active ids db.clusters db.next_cluster_id)) (contains id ids)
      (db.clusters id) closes
      (elim (Option-cases (db.clusters id)) [
        | inl missing ↦
            rw (contains-select_active id ids db.clusters db.next_cluster_id, missing)
              (ground arith)
        | inr (found, e) ↦
            let below = found_below pending db id found v e in
            rw (contains-select_active id ids db.clusters db.next_cluster_id) (ground arith)
      ])
      chunks)

changed-miss :
    (change : ClusterRow → ClusterRow) (hit : Bool) (cluster : Option ClusterRow)
    → hit ≡ false
    → cluster ≡ changed change hit cluster
changed-miss change hit none h = refl
changed-miss change hit (some row) h = rw h refl

contains-of_empty : (x : ℕ) (xs : List ℕ) → (length xs == 0) ≡ true → contains x xs ≡ false
contains-of_empty x [] h = refl
contains-of_empty x (y ∷ ys) h = absurd (ground arith)

closing_inactive : (how : ClusterClosing) → is_active (closing_status how) ≡ false
closing_inactive as_evicted = refl
closing_inactive as_merged = refl

abbrev closed_in :
    (ClusterRow → ClusterRow) → List ℕ → (Txid → Option Transaction) → Database → Database
closed_in change closing transactions db = record db {
  clusters = update_rows change closing db.clusters;
  cluster_chunks = map (set_dead (live_among closing)) db.cluster_chunks;
  transactions = transactions;
}

closed_in-active_at :
    (pending : List ℕ) (change : ClusterRow → ClusterRow) (ids : List ℕ)
    (transactions : Txid → Option Transaction) (db : Database) (id : ℕ)
    → ((row : ClusterRow) → is_active (change row).status ≡ false)
    → IsSoundBut pending db
    → active_at
        (closed_in change (select_active ids db.clusters db.next_cluster_id) transactions db)
        id
      ≡ (if contains id ids then none else active_at db id)
unfolding update_rows chunks_of
closed_in-active_at pending change ids transactions db id closes v =
    let closing = select_active ids db.clusters db.next_cluster_id in
    closing-active_at pending change ids db (closed_in change closing transactions db) id closes
      refl (λ version. picked-set_dead (live_among closing) id version db.cluster_chunks) v

-- Where no cluster is to be closed nothing is written.
idle-active_at :
    (pending : List ℕ) (change : ClusterRow → ClusterRow) (ids : List ℕ) (db : Database) (id : ℕ)
    → ((row : ClusterRow) → is_active (change row).status ≡ false)
    → (length (select_active ids db.clusters db.next_cluster_id) == 0) ≡ true
    → IsSoundBut pending db
    → active_at db id ≡ (if contains id ids then none else active_at db id)
idle-active_at pending change ids db id closes idle v =
    let closing = select_active ids db.clusters db.next_cluster_id in
    closing-active_at pending change ids db db id closes
      (changed-miss change (contains id closing) (db.clusters id)
        (contains-of_empty id closing idle))
      (λ version. refl) v

pub close_many-active_at :
    (pending : List ℕ) (now : Time) (how : ClusterClosing) (ids : List ℕ) (db : Database) (id : ℕ)
    → IsSoundBut pending db
    → active_at (close_many now how ids db).0 id
      ≡ (if contains id ids then none else active_at db id)
unfolding close_many
close_many-active_at pending now how ids db id v =
    let closing = select_active ids db.clusters db.next_cluster_id in
    let change : ClusterRow → ClusterRow =
      (λ row. record row { status = closing_status how; closed_at = some now }) in
    elim (Bool-cases (length closing == 0)) [
      | inl idle ↦
          rw idle (idle-active_at pending change ids db id (λ row. closing_inactive how) idle v)
      | inr busy ↦ rw busy (
          closed_in-active_at pending change ids
            (relink (λ _ link. linked_among closing link) none db.transactions) db id
            (λ row. closing_inactive how) v)
    ]

pub confirm_many_in-active_at :
    (pending : List ℕ) (now confirmed_at : Time) (ids : List ℕ) (db : Database) (id : ℕ)
    → IsSoundBut pending db
    → active_at (confirm_many_in now confirmed_at ids db).0 id
      ≡ (if contains id ids then none else active_at db id)
unfolding confirm_many_in
confirm_many_in-active_at pending now confirmed_at ids db id v =
    let change = confirming now confirmed_at in
    elim (Bool-cases (length (select_active ids db.clusters db.next_cluster_id) == 0)) [
      | inl idle ↦ rw idle (idle-active_at pending change ids db id (λ row. refl) idle v)
      | inr busy ↦
          rw busy (closed_in-active_at pending change ids db.transactions db id (λ row. refl) v)
    ]

-- No row is of a version that is still to be written.
pub beyond-IsNowhere :
    (pending : List ℕ) (id : ℕ) (old : ClusterRow) (clusters : ℕ → Option ClusterRow)
    (test : ClusterChunkRow → Bool) (rows : List ClusterChunkRow)
    → clusters id ≡ some old
    → RowsSound pending clusters rows
    → IsNowhere id (old.version + 1) (map (set_dead test) rows)
unfolding set_dead
beyond-IsNowhere pending id old clusters test [] found h = tt
beyond-IsNowhere pending id old clusters test (r ∷ rows) found h = (
  elim (Bool-cases (r.cluster_id == id)) [
    | inl hit ↦
        let e : r.cluster_id ≡ id = ground arith in
        let here : clusters r.cluster_id ≡ some old = rw e found in
        let known : leb r.version old.version ≡ true = rw here at (h.0.0) in ground arith
    | inr miss ↦ ground arith
  ],
  beyond-IsNowhere pending id old clusters test rows found h.1,
)

pub other-IsNowhere :
    (position id k version written : ℕ) (cs : List ClusterChunk) (live : Bool)
    → (k == id) ≡ false
    → IsNowhere k version (chunk_rows_from position id written cs live)
unfolding chunk_rows_from
other-IsNowhere position id k version written [] live miss = tt
other-IsNowhere position id k version written (c ∷ cs) live miss =
    (ground arith, other-IsNowhere (position + 1) id k version written cs live miss)

write_version-active_at :
    (pending : List ℕ) (now : Time) (update : ClusterVersionUpdate) (live : Bool) (old : ClusterRow)
    (db : Database) (k : ℕ)
    → db.clusters update.cluster_id ≡ some old
    → IsSoundBut pending db
    → active_at (write_version now update live old db).0 k ≡ (
        if k == update.cluster_id
        then shown (write_version now update live old db).1
        else active_at db k)
unfolding write_version chunks_of chunk_rows
write_version-active_at pending now update live old db k found v =
    let id = update.cluster_id in
    let test = of_version id old.version in
    let rows = chunk_rows id (old.version + 1) update.chunks live in
    elim (Bool-cases (k == id)) [
      | inl hit ↦
          let e : k ≡ id = ground arith in
          rw (hit, e)
            (rw
              (
                picked-nowhere_append id (old.version + 1) (map (set_dead test) db.cluster_chunks)
                    rows
                    (beyond-IsNowhere pending id old db.clusters test db.cluster_chunks found
                      v.rows),
                picked-chunk_rows id (old.version + 1) update.chunks live,
              )
              refl)
      | inr miss ↦ rw miss (
          activity-chunks db (write_version now update live old db).0 k (db.clusters k) (λ version.
            picked-append_nowhere k version (map (set_dead test) db.cluster_chunks) rows
              (other-IsNowhere 0 id k version (old.version + 1) update.chunks live miss)
            ∙ picked-set_dead test k version db.cluster_chunks))
    ]

pub replace_row-active_at :
    (pending : List ℕ) (now : Time) (update : ClusterVersionUpdate) (live : Bool) (old : ClusterRow)
    (db : Database) (k : ℕ)
    → db.clusters update.cluster_id ≡ some old
    → IsSoundBut pending db
    → active_at (replace_row now update live old db).0 k ≡ (
        if k == update.cluster_id
        then shown (replace_row now update live old db).1
        else active_at db k)
unfolding replace_row
replace_row-active_at pending now update live old db k found v =
    elim (Bool-cases (is_settled update old db)) [
      | inr moves ↦ rw moves (write_version-active_at pending now update live old db k found v)
      | inl settled ↦ rw settled (elim (Bool-cases (k == update.cluster_id)) [
        | inl hit ↦ let e : k ≡ update.cluster_id = ground arith in rw hit (rw (e, found) refl)
        | inr miss ↦ rw miss refl
      ])
    ]

-- What a replacement returns is what is loaded after it; other clusters are as they were.
pub replace_chunks_in-active_at :
    (pending : List ℕ) (now : Time) (update : ClusterVersionUpdate) (live : Bool) (db : Database)
    (r : Database × Cluster) (k : ℕ)
    → IsSoundBut pending db
    → replace_chunks_in now update live db ≡ some r
    → active_at r.0 k ≡ (if k == update.cluster_id then shown r.1 else active_at db k)
replace_chunks_in-active_at pending now update live db r k v h =
    let (old, found, e) = replace_chunks_in-found now update live db r h in
    rw e (replace_row-active_at pending now update live old db k found v)
