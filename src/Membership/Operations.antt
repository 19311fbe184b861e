-- ===== src/Membership/Operations.antt =====
-- api/src/db/repositories/cluster_membership.rs: the liveness of chunks across the operations that
-- close, replace or confirm clusters.
use cluster_mempool_observer.Base.{
  ℕ, Bool, true, false, ◌&&◌, ◌≡◌, refl, subst, List, [], ◌∷◌, map, Option, none, some, arith,
  contains, All, ◌==◌, Time, length, Bool-cases, Option-cases, inl, inr,
}
use cluster_mempool_observer.Db.{ClusterRow, ClusterChunkRow, Cluster, Database}
use cluster_mempool_observer.Membership.{
  active_among, select_active, update_rows, changed, ClusterVersionUpdate, replace_chunks_in,
  ClusterClosing, close_many, confirm_many_in, replace_all, sort_by_id, trim_and_confirm_many,
}
use cluster_mempool_observer.Membership.Rows.{contains-select_active}
use cluster_mempool_observer.Membership.Soundness.{
  RowsSound, IsSoundBut, IsSound, found_below, replace_chunks_in-IsSoundBut, close_many-IsSoundBut,
  confirm_many_in-IsSoundBut, settle-IsRowSound, AllShut, confirming,
}
use cluster_mempool_observer.Membership.{replace_chunks, is_open}

not_selected :
    (pending ids : List ℕ) (db : Database) (id : ℕ)
    → IsSoundBut pending db
    → contains id (select_active ids db.clusters db.next_cluster_id) ≡ false
    → active_among ids db.clusters id ≡ false
not_selected pending ids db id v out = elim (Option-cases (db.clusters id)) [
  | inl missing ↦ rw missing (ground arith)
  | inr (row, found) ↦
      let below = found_below pending db id row v found in
      ground (arith, contains-select_active id ids db.clusters db.next_cluster_id)
]

contains-of_empty : (x : ℕ) (xs : List ℕ) → (length xs == 0) ≡ true → contains x xs ≡ false
contains-of_empty x [] h = refl
contains-of_empty x (y ∷ ys) h = absurd (ground arith)

confirming_shut :
    (now confirmed_at : Time) (named hit : Bool) (cluster : Option ClusterRow)
    → (hit ≡ false → (named && is_open cluster) ≡ false)
    → (named && is_open (changed (confirming now confirmed_at) hit cluster)) ≡ false
confirming_shut now confirmed_at named hit none h = ground arith
confirming_shut now confirmed_at named true (some row) h = ground arith
confirming_shut now confirmed_at named false (some row) h = h refl

confirm_many_in-AllShut :
    (pending : List ℕ) (now confirmed_at : Time) (ids : List ℕ) (db : Database)
    → IsSoundBut pending db
    → AllShut ids (confirm_many_in now confirmed_at ids db).0.clusters
unfolding confirm_many_in update_rows
confirm_many_in-AllShut pending now confirmed_at ids db v id =
    let closing = select_active ids db.clusters db.next_cluster_id in
    elim (Bool-cases (length closing == 0)) [
      | inl idle ↦ rw idle (not_selected pending ids db id v (contains-of_empty id closing idle))
      | inr busy ↦ rw busy (
          confirming_shut now confirmed_at (contains id ids) (contains id closing) (db.clusters id)
            (not_selected pending ids db id v))
    ]

pub IsSoundBut-weaken : (pending : List ℕ) (db : Database) → IsSound db → IsSoundBut pending db
IsSoundBut-weaken pending db v = record { rows = go db.cluster_chunks v.rows; fresh = v.fresh }
  where
    go :
        (rows : List ClusterChunkRow)
        → RowsSound [] db.clusters rows
        → RowsSound pending db.clusters rows
    go [] h = tt
    go (r ∷ rows) h = ((h.0.0, h.0.1, λ current _. h.0.2 current refl), go rows h.1)

IsSoundBut-settle :
    (ids : List ℕ) (db : Database) → AllShut ids db.clusters → IsSoundBut ids db → IsSound db
IsSoundBut-settle ids db shut v = record { rows = go db.cluster_chunks v.rows; fresh = v.fresh }
  where
    go :
        (rows : List ClusterChunkRow)
        → RowsSound ids db.clusters rows
        → RowsSound [] db.clusters rows
    go [] h = tt
    go (r ∷ rows) h = (settle-IsRowSound ids db.clusters r (shut r.cluster_id) h.0, go rows h.1)

pub replace_all-IsSoundBut :
    (pending : List ℕ) (now : Time) (updates : List ClusterVersionUpdate) (db db' : Database)
    → All (λ u. contains u.cluster_id pending ≡ true) updates
    → IsSoundBut pending db
    → replace_all now updates db ≡ some db'
    → IsSoundBut pending db'
unfolding replace_all
replace_all-IsSoundBut pending now [] db db' named v h =
    let e : db ≡ db' = cc in subst (IsSoundBut pending) e v
replace_all-IsSoundBut pending now (u ∷ us) db db' named v h =
    elim (Option-cases (replace_chunks_in now u false db)) [
      | inl failed ↦ absurd (ground arith)
      | inr (r, e) ↦
          replace_all-IsSoundBut pending now us r.0 db' named.1
            (replace_chunks_in-IsSoundBut pending now u false db r (inr named.0) v e) (ground arith)
    ]

pub named :
    (us : List ClusterVersionUpdate) (ids : List ℕ)
    → ((x : ℕ) → contains x (map (λ u. u.cluster_id) us) ≡ true → contains x ids ≡ true)
    → All (λ u. contains u.cluster_id ids ≡ true) us
named [] ids h = tt
named (u ∷ us) ids h = (h u.cluster_id (ground arith), named us ids (λ x m. h x (ground arith)))

-- Closing clusters, as evicted or as merged, keeps every chunk live exactly while it belongs to the
-- current version of an active cluster.
pub close_many-IsSound :
    (now : Time) (how : ClusterClosing) (ids : List ℕ) (db : Database)
    → IsSound db
    → IsSound (close_many now how ids db).0
close_many-IsSound now how ids db v = close_many-IsSoundBut [] now how ids db v

-- So does writing a new version of a cluster, where the cluster exists.
pub replace_chunks-IsSound :
    (now : Time) (update : ClusterVersionUpdate) (db : Database) (r : Database × Cluster)
    → IsSound db
    → replace_chunks now update db ≡ some r
    → IsSound r.0
unfolding replace_chunks
replace_chunks-IsSound now update db r v h =
    replace_chunks_in-IsSoundBut [] now update true db r (inl refl) v h

-- Trimming clusters to their mined chunks and confirming them, which writes versions that were never
-- live, keeps every chunk live exactly while it belongs to the current version of an active cluster,
-- and leaves none of the clusters active.
pub trim_and_confirm_many-IsSound :
    (now confirmed_at : Time) (updates : List ClusterVersionUpdate) (db : Database)
    (r : Database × ℕ)
    → IsSound db
    → trim_and_confirm_many now confirmed_at updates db ≡ some r
    → IsSound r.0 × AllShut (map (λ u. u.cluster_id) (sort_by_id updates)) r.0.clusters
unfolding trim_and_confirm_many
trim_and_confirm_many-IsSound now confirmed_at updates db r v h =
    let sorted = sort_by_id updates in
    let ids = map (λ (u : ClusterVersionUpdate). u.cluster_id) sorted in
    elim (Option-cases (replace_all now sorted db)) [
      | inl failed ↦ absurd (ground arith)
      | inr (mid, e) ↦
          let w =
            replace_all-IsSoundBut ids now sorted db mid (named sorted ids (λ x m. m))
              (IsSoundBut-weaken ids db v) e in
          let shut = confirm_many_in-AllShut ids now confirmed_at ids mid w in
          let done = confirm_many_in-IsSoundBut ids now confirmed_at ids mid w in
          let same : r ≡ confirm_many_in now confirmed_at ids mid = ground arith in
          rw same (IsSoundBut-settle ids _ shut done, shut)
    ]
