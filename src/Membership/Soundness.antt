-- ===== src/Membership/Soundness.antt =====
-- api/src/db/repositories/cluster_membership.rs: when a chunk is live, and each operation's part in it.
use cluster_mempool_observer.Base.{
  ℕ, ◌≤◌, ◌<◌, Bool, true, false, ◌&&◌, ◌≡◌, refl, List, [], map, Option, none, some, arith,
  contains, All, All-append, All-map, ltb, ◌==◌, Time, length, Bool-cases, Option-cases, inl, inr,
  ◌⊎◌,
}
use cluster_mempool_observer.Db.{
  confirmed, is_active, ClusterRow, ClusterChunkRow, Cluster, Database,
}
use cluster_mempool_observer.Membership.{
  is_open, set_dead, of_version, active_among, select_active, live_among, update_rows, chunk_rows,
  put, ClusterVersionUpdate, write_version, replace_chunks_in, replace_row, is_settled,
  ClusterClosing, as_evicted, as_merged, closing_status, close_many, confirm_many_in,
}
use cluster_mempool_observer.Membership.Rows.{
  IsRowSound, retired-IsRowSound, closed-IsRowSound, chunk_rows-IsRowSound,
}

abbrev pub RowsSound : List ℕ → (ℕ → Option ClusterRow) → List ClusterChunkRow → Type 0
RowsSound pending clusters = All (λ r. IsRowSound pending (clusters r.cluster_id) r)

-- The clusters of `pending` are those that the transaction at hand has still to close.
pub record IsSoundBut (pending : List ℕ) (db : Database) : Type 0 where
  pub rows : RowsSound pending db.clusters db.cluster_chunks
  pub fresh : (id : ℕ) → db.next_cluster_id ≤ id → db.clusters id ≡ none

-- No chunk row belongs to a version beyond its cluster's, a chunk is live exactly if its cluster is
-- active and at its version, and no cluster has an id that is still to be handed out.
abbrev pub IsSound : Database → Type 0
IsSound = IsSoundBut []

pub found_below :
    (pending : List ℕ) (db : Database) (id : ℕ) (row : ClusterRow)
    → IsSoundBut pending db
    → db.clusters id ≡ some row
    → id < db.next_cluster_id
found_below pending db id row v found = elim (Bool-cases (ltb id db.next_cluster_id)) [
  | inl below ↦ ground arith
  | inr above ↦ absurd (ground (arith, v.fresh id))
]

write_version-IsSoundBut :
    (pending : List ℕ) (now : Time) (update : ClusterVersionUpdate) (live : Bool) (old : ClusterRow)
    (db : Database)
    → db.clusters update.cluster_id ≡ some old
    → is_active old.status ≡ true
    → (live ≡ true) ⊎ (contains update.cluster_id pending ≡ true)
    → IsSoundBut pending db
    → IsSoundBut pending (write_version now update live old db).0
unfolding write_version chunk_rows set_dead
write_version-IsSoundBut pending now update live old db found act why v =
    let id = update.cluster_id in
    let w = (write_version now update live old db).0 in
    let row = (write_version now update live old db).1.row in
    let below = found_below pending db id old v found in
    let here : put id row db.clusters id ≡ some row = ground arith in
    record {
      rows =
          All-append (λ r. IsRowSound pending (w.clusters r.cluster_id) r)
            (map (set_dead (of_version id old.version)) db.cluster_chunks) _
            (All-map (λ r. IsRowSound pending (db.clusters r.cluster_id) r) _
              (set_dead (of_version id old.version)) db.cluster_chunks
              (λ r. retired-IsRowSound pending id old row db.clusters r found refl) v.rows)
            (chunk_rows-IsRowSound pending 0 id row update.chunks live w.clusters here act why);
      fresh = λ c above. ground (arith, v.fresh c above);
    }

replace_row-IsSoundBut :
    (pending : List ℕ) (now : Time) (update : ClusterVersionUpdate) (live : Bool) (old : ClusterRow)
    (db : Database)
    → db.clusters update.cluster_id ≡ some old
    → (live ≡ true) ⊎ (contains update.cluster_id pending ≡ true)
    → IsSoundBut pending db
    → IsSoundBut pending (replace_row now update live old db).0
unfolding replace_row
replace_row-IsSoundBut pending now update live old db found why v =
    elim (Bool-cases (is_settled update old db)) [
      | inl settled ↦ rw settled v
      | inr moves ↦
          rw moves
            (write_version-IsSoundBut pending now update live old db found (ground arith) why v)
    ]

pub replace_chunks_in-found :
    (now : Time) (update : ClusterVersionUpdate) (live : Bool) (db : Database)
    (r : Database × Cluster)
    → replace_chunks_in now update live db ≡ some r
    → (old : ClusterRow) × (db.clusters update.cluster_id ≡ some old)
      × (r ≡ replace_row now update live old db)
unfolding replace_chunks_in
replace_chunks_in-found now update live db r h =
    elim (Option-cases (db.clusters update.cluster_id)) [
      | inl missing ↦ absurd (ground arith)
      | inr (old, found) ↦ (old, found, ground arith)
    ]

pub replace_chunks_in-IsSoundBut :
    (pending : List ℕ) (now : Time) (update : ClusterVersionUpdate) (live : Bool) (db : Database)
    (r : Database × Cluster)
    → (live ≡ true) ⊎ (contains update.cluster_id pending ≡ true)
    → IsSoundBut pending db
    → replace_chunks_in now update live db ≡ some r
    → IsSoundBut pending r.0
replace_chunks_in-IsSoundBut pending now update live db r why v h =
    let (old, found, e) = replace_chunks_in-found now update live db r h in
    rw e (replace_row-IsSoundBut pending now update live old db found why v)

close-IsSoundBut :
    (pending : List ℕ) (change : ClusterRow → ClusterRow) (ids : List ℕ) (db db' : Database)
    → ((row : ClusterRow)
        → (is_active (change row).status ≡ false) × ((change row).version ≡ row.version))
    → db'.next_cluster_id ≡ db.next_cluster_id
    → db'.clusters
      ≡ update_rows change (select_active ids db.clusters db.next_cluster_id) db.clusters
    → db'.cluster_chunks
      ≡ map
          (set_dead (live_among (select_active ids db.clusters db.next_cluster_id)))
          db.cluster_chunks
    → IsSoundBut pending db
    → IsSoundBut pending db'
close-IsSoundBut pending change ids db db' closes same_id clusters chunks v =
    let closing = select_active ids db.clusters db.next_cluster_id in
    record {
      rows =
          rw (clusters, chunks)
            (unfold set_dead in
              All-map (λ r. IsRowSound pending (db.clusters r.cluster_id) r) _
                (set_dead (live_among closing)) db.cluster_chunks
                (λ r. closed-IsRowSound pending closing change db.clusters r closes) v.rows);
      fresh = λ c above.
          rw clusters (unfold update_rows in let e = v.fresh c (rw (← same_id) above) in rw e refl);
    }

pub close_many-IsSoundBut :
    (pending : List ℕ) (now : Time) (how : ClusterClosing) (ids : List ℕ) (db : Database)
    → IsSoundBut pending db
    → IsSoundBut pending (close_many now how ids db).0
unfolding close_many
close_many-IsSoundBut pending now how ids db v =
    elim (Bool-cases (length (select_active ids db.clusters db.next_cluster_id) == 0)) [
      | inl idle ↦ rw idle v
      | inr busy ↦ rw busy (
          close-IsSoundBut pending
            (λ row. record row { status = closing_status how; closed_at = some now }) ids db _
            (λ row. (closing_inactive how, refl)) refl refl refl v)
    ]
  where
    closing_inactive : (how : ClusterClosing) → is_active (closing_status how) ≡ false
    closing_inactive as_evicted = refl
    closing_inactive as_merged = refl

abbrev pub confirming : Time → Time → ClusterRow → ClusterRow
confirming now confirmed_at row = record row {
  confirmed_at = some confirmed_at;
  status = confirmed;
  closed_at = some now;
}

pub confirm_many_in-IsSoundBut :
    (pending : List ℕ) (now confirmed_at : Time) (ids : List ℕ) (db : Database)
    → IsSoundBut pending db
    → IsSoundBut pending (confirm_many_in now confirmed_at ids db).0
unfolding confirm_many_in
confirm_many_in-IsSoundBut pending now confirmed_at ids db v =
    elim (Bool-cases (length (select_active ids db.clusters db.next_cluster_id) == 0)) [
      | inl idle ↦ rw idle v
      | inr busy ↦ rw busy (
          close-IsSoundBut pending (confirming now confirmed_at) ids db _ (λ row. (refl, refl)) refl
            refl refl v)
    ]

-- Once all of the clusters that were to be closed are, nothing is pending.
abbrev pub AllShut : List ℕ → (ℕ → Option ClusterRow) → Type 0
AllShut ids clusters = (id : ℕ) → active_among ids clusters id ≡ false

pub settle-IsRowSound :
    (ids : List ℕ) (clusters : ℕ → Option ClusterRow) (r : ClusterChunkRow)
    → active_among ids clusters r.cluster_id ≡ false
    → IsRowSound ids (clusters r.cluster_id) r
    → IsRowSound [] (clusters r.cluster_id) r
settle-IsRowSound ids clusters r shut h = go (clusters r.cluster_id) shut h
  where
    go :
        (cluster : Option ClusterRow)
        → (contains r.cluster_id ids && is_open cluster) ≡ false
        → IsRowSound ids cluster r
        → IsRowSound [] cluster r
    go none shut h = ground arith
    go (some row) shut h = ground arith
