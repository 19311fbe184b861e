-- ===== src/Membership/Ids.antt =====
-- api/src/db/repositories/cluster_membership.rs: the ids that the operations hand out.
use cluster_mempool_observer.Base.{
  ℕ, Bool, false, ◌≡◌, refl, ◌∙◌, ap, List, [], ◌∷◌, map, some, arith, Time, length, ◌==◌,
  Bool-cases, Option-cases, inl, inr,
}
use cluster_mempool_observer.Db.{Cluster, Database}
use cluster_mempool_observer.Membership.{
  ClusterVersionUpdate, write_version, replace_row, is_settled, replace_chunks_in, ClusterClosing,
  select_active, close_many, confirm_many_in, replace_all, sort_by_id, trim_and_confirm_many,
}
use cluster_mempool_observer.Membership.Soundness.{replace_chunks_in-found}

pub close_many-next :
    (now : Time) (how : ClusterClosing) (ids : List ℕ) (db : Database)
    → (close_many now how ids db).0.next_cluster_id ≡ db.next_cluster_id
unfolding close_many
close_many-next now how ids db =
    elim (Bool-cases (length (select_active ids db.clusters db.next_cluster_id) == 0)) [
      | inl idle ↦ rw idle refl
      | inr busy ↦ rw busy refl
    ]

pub confirm_many_in-next :
    (now confirmed_at : Time) (ids : List ℕ) (db : Database)
    → (confirm_many_in now confirmed_at ids db).0.next_cluster_id ≡ db.next_cluster_id
unfolding confirm_many_in
confirm_many_in-next now confirmed_at ids db =
    elim (Bool-cases (length (select_active ids db.clusters db.next_cluster_id) == 0)) [
      | inl idle ↦ rw idle refl
      | inr busy ↦ rw busy refl
    ]

pub replace_chunks_in-next :
    (now : Time) (update : ClusterVersionUpdate) (live : Bool) (db : Database)
    (r : Database × Cluster)
    → replace_chunks_in now update live db ≡ some r
    → (r.0.next_cluster_id ≡ db.next_cluster_id) × (r.1.id ≡ update.cluster_id)
unfolding replace_row write_version
replace_chunks_in-next now update live db r h =
    let (old, found, e) = replace_chunks_in-found now update live db r h in
    rw e (elim (Bool-cases (is_settled update old db)) [
      | inl settled ↦ rw settled (refl, refl)
      | inr moves ↦ rw moves (refl, refl)
    ])

replace_all-next :
    (now : Time) (updates : List ClusterVersionUpdate) (db db' : Database)
    → replace_all now updates db ≡ some db'
    → db'.next_cluster_id ≡ db.next_cluster_id
unfolding replace_all
replace_all-next now [] db db' h =
    let e : db' ≡ db = cc in ap (λ (d : Database). d.next_cluster_id) e
replace_all-next now (u ∷ us) db db' h = elim (Option-cases (replace_chunks_in now u false db)) [
  | inl failed ↦ absurd (ground arith)
  | inr (r, e) ↦
      replace_all-next now us r.0 db' (ground arith) ∙ (replace_chunks_in-next now u false db r e).0
]

pub trim_and_confirm_many-next :
    (now confirmed_at : Time) (updates : List ClusterVersionUpdate) (db : Database)
    (r : Database × ℕ)
    → trim_and_confirm_many now confirmed_at updates db ≡ some r
    → r.0.next_cluster_id ≡ db.next_cluster_id
unfolding trim_and_confirm_many
trim_and_confirm_many-next now confirmed_at updates db r h =
    let sorted = sort_by_id updates in
    let ids = map (λ (u : ClusterVersionUpdate). u.cluster_id) sorted in
    elim (Option-cases (replace_all now sorted db)) [
      | inl failed ↦ absurd (ground arith)
      | inr (mid, e) ↦
          let same : r ≡ confirm_many_in now confirmed_at ids mid = ground arith in
          rw same
            (confirm_many_in-next now confirmed_at ids mid ∙ replace_all-next now sorted db mid e)
    ]
