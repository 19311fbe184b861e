-- ===== src/Membership/Outcome.antt =====
-- api/src/db/repositories/cluster_membership.rs: what inserting clusters, and trimming and confirming
-- them, makes of the active clusters.
use mathlib.Core.List.{append_assoc, append-nil}
use cluster_mempool_observer.Base.{
  ℕ, suc, true, false, ◌||◌, ◌≡◌, refl, sym, ap, ◌∙◌, List, [], ◌∷◌, map, Option, none, some, arith,
  contains, All, ◌==◌, Time, Bool-cases, Option-cases, inl, inr, if◌then◌else◌,
}
use cluster_mempool_observer.Db.{ClusterRow, ClusterChunkRow, Cluster, NewCluster, Database}
use cluster_mempool_observer.Snapshot.{ActiveCluster}
use cluster_mempool_observer.Membership.{
  chunk_rows, chunks_of, ClusterVersionUpdate, replace_chunks_in, confirm_many_in, insert_by_id,
  sort_by_id, replace_all, trim_and_confirm_many,
}
use cluster_mempool_observer.Membership.Rows.{IsRowSound}
use cluster_mempool_observer.Membership.Soundness.{
  RowsSound, IsSoundBut, IsSound, replace_chunks_in-IsSoundBut,
}
use cluster_mempool_observer.Membership.Operations.{
  replace_all-IsSoundBut, IsSoundBut-weaken, named,
}
use cluster_mempool_observer.Membership.Insertion.{
  numbered, new_row, insert_rows, new_chunk_rows, new_clusters, insert_in, inserted, inserted_one,
  inserted_one-IsSound,
}
use cluster_mempool_observer.Membership.Loading.{
  picked, IsNowhere, picked-append_nowhere, picked-nowhere_append, picked-chunk_rows,
}
use cluster_mempool_observer.Membership.Activity.{
  shown, active_at, activity-chunks, other-IsNowhere, replace_chunks_in-active_at,
  confirm_many_in-active_at,
}

-- The state of a cluster once the clusters of a list stand over what was there.
abbrev pub overlay : ℕ → List Cluster → Option ActiveCluster → Option ActiveCluster
overlay k [] a = a
overlay k (c ∷ cs) a = overlay k cs (if k == c.id then shown c else a)

-- No row is of a cluster with an id that was not handed out.
fresh-IsNowhere :
    (id version : ℕ) (clusters : ℕ → Option ClusterRow) (rows : List ClusterChunkRow)
    → clusters id ≡ none
    → RowsSound [] clusters rows
    → IsNowhere id version rows
fresh-IsNowhere id version clusters [] missing h = tt
fresh-IsNowhere id version clusters (r ∷ rows) missing h = (
  elim (Bool-cases (r.cluster_id == id)) [
    | inl hit ↦
        let e : r.cluster_id ≡ id = ground arith in
        let here : clusters r.cluster_id ≡ none = rw e missing in
        let known : IsRowSound [] none r = rw here at (h.0) in absurd (ground arith)
    | inr miss ↦ ground arith
  ],
  fresh-IsNowhere id version clusters rows missing h.1,
)

inserted_one-active_at :
    (c : NewCluster) (db : Database) (k : ℕ)
    → IsSound db
    → active_at (inserted_one c db) k ≡ (
        if k == db.next_cluster_id
        then shown (record { id = db.next_cluster_id; row = new_row c; chunks = c.chunks })
        else active_at db k)
unfolding chunks_of chunk_rows
inserted_one-active_at c db k v =
    let id = db.next_cluster_id in
    elim (Bool-cases (k == id)) [
      | inl hit ↦
          let e : k ≡ id = ground arith in
          let missing : db.clusters id ≡ none = v.fresh id (omega arith) in
          rw (hit, e)
            (rw
              (
                picked-nowhere_append id 1 db.cluster_chunks (chunk_rows id 1 c.chunks true)
                    (fresh-IsNowhere id 1 db.clusters db.cluster_chunks missing v.rows),
                picked-chunk_rows id 1 c.chunks true,
              )
              refl)
      | inr miss ↦ rw miss (
          activity-chunks db (inserted_one c db) k (db.clusters k) (λ version.
            picked-append_nowhere k version db.cluster_chunks (chunk_rows id 1 c.chunks true)
              (other-IsNowhere 0 id k version 1 c.chunks true miss)))
    ]

inserted-active_at :
    (new : List NewCluster) (db : Database) (k : ℕ)
    → IsSound db
    → active_at (inserted new db) k
      ≡ overlay k (new_clusters (numbered db.next_cluster_id new)) (active_at db k)
unfolding numbered insert_rows new_chunk_rows new_clusters chunks_of
inserted-active_at [] db k v =
    activity-chunks db (inserted [] db) k (db.clusters k)
      (λ version. ap (λ rows. picked k version rows) (append-nil db.cluster_chunks))
inserted-active_at (c ∷ new) db k v =
    let id = db.next_cluster_id in
    let one = inserted_one c db in
    activity-chunks (inserted new one) (inserted (c ∷ new) db) k ((inserted new one).clusters k)
      (λ version.
        ap (λ rows. picked k version rows)
          (sym (append_assoc db.cluster_chunks (chunk_rows id 1 c.chunks true) _)))
    ∙ inserted-active_at new one k (inserted_one-IsSound c db v)
    ∙ ap (overlay k (new_clusters (numbered (suc id) new))) (inserted_one-active_at c db k v)

-- Inserting clusters adds those that it returns.
pub insert_in-active_at :
    (now : Time) (new : List NewCluster) (db : Database) (k : ℕ)
    → IsSound db
    → active_at (insert_in now new db).0 k ≡ overlay k (insert_in now new db).1 (active_at db k)
unfolding insert_in chunks_of
insert_in-active_at now new db k v = inserted-active_at new db k v

replace_all-active_at :
    (pending : List ℕ) (now : Time) (updates : List ClusterVersionUpdate) (db db' : Database)
    (k : ℕ)
    → All (λ u. contains u.cluster_id pending ≡ true) updates
    → IsSoundBut pending db
    → contains k (map (λ u. u.cluster_id) updates) ≡ false
    → replace_all now updates db ≡ some db'
    → active_at db' k ≡ active_at db k
unfolding replace_all
replace_all-active_at pending now [] db db' k named v out h =
    let e : db' ≡ db = cc in ap (λ d. active_at d k) e
replace_all-active_at pending now (u ∷ us) db db' k named v out h =
    elim (Option-cases (replace_chunks_in now u false db)) [
      | inl failed ↦ absurd (ground arith)
      | inr (r, e) ↦
          let miss : (k == u.cluster_id) ≡ false = ground arith in
          let first = replace_chunks_in-active_at pending now u false db r k v e in
          replace_all-active_at pending now us r.0 db' k named.1
            (replace_chunks_in-IsSoundBut pending now u false db r (inr named.0) v e) (ground arith)
            (ground arith)
          ∙ first
          ∙ rw miss refl
    ]

contains-insert_by_id :
    (k : ℕ) (u : ClusterVersionUpdate) (us : List ClusterVersionUpdate)
    → contains k (map (λ v. v.cluster_id) (insert_by_id u us))
      ≡ (k == u.cluster_id || contains k (map (λ v. v.cluster_id) us))
unfolding insert_by_id
contains-insert_by_id k u [] = refl
contains-insert_by_id k u (v ∷ us) = ground (arith, contains-insert_by_id k u us)

pub contains-sort_by_id :
    (k : ℕ) (us : List ClusterVersionUpdate)
    → contains k (map (λ v. v.cluster_id) (sort_by_id us)) ≡ contains k (map (λ v. v.cluster_id) us)
unfolding sort_by_id
contains-sort_by_id k [] = refl
contains-sort_by_id k (u ∷ us) =
    rw (contains-insert_by_id k u (sort_by_id us), contains-sort_by_id k us) refl

-- Trimming and confirming clusters leaves none of them active, and the others as they were.
pub trim_and_confirm_many-active_at :
    (now confirmed_at : Time) (updates : List ClusterVersionUpdate) (db : Database)
    (r : Database × ℕ) (k : ℕ)
    → IsSound db
    → trim_and_confirm_many now confirmed_at updates db ≡ some r
    → active_at r.0 k
      ≡ (if contains k (map (λ u. u.cluster_id) updates) then none else active_at db k)
unfolding trim_and_confirm_many
trim_and_confirm_many-active_at now confirmed_at updates db r k v h =
    let sorted = sort_by_id updates in
    let ids = map (λ (u : ClusterVersionUpdate). u.cluster_id) sorted in
    elim (Option-cases (replace_all now sorted db)) [
      | inl failed ↦ absurd (ground arith)
      | inr (mid, e) ↦
          let all_named = named sorted ids (λ x m. m) in
          let w0 = IsSoundBut-weaken ids db v in
          let w = replace_all-IsSoundBut ids now sorted db mid all_named w0 e in
          let done = confirm_many_in-active_at ids now confirmed_at ids mid k w in
          let same : r ≡ confirm_many_in now confirmed_at ids mid = ground arith in
          let sorting : contains k ids ≡ contains k (map (λ u. u.cluster_id) updates) =
            contains-sort_by_id k updates in
          rw (same, done, ← sorting)
            (elim (Bool-cases (contains k ids)) [
              | inl hit ↦ rw hit refl
              | inr out ↦ rw out (replace_all-active_at ids now sorted db mid k all_named w0 out e)
            ])
    ]
