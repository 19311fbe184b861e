-- ===== src/ClusterSync/Seeding.antt =====
-- api/src/services/cluster.rs: `seed_snapshot`, which loads the active clusters.

use cluster_mempool_observer.Base.{
  ℕ, zero, suc, Bool, true, false, ◌≡◌, refl, sym, ◌∙◌, ap, List, [], ◌∷◌, ◌++◌, map, Option, none,
  some, arith, ltb, ◌==◌, lookup, insert_key, lookup-insert_key, Bool-cases, inl, inr,
  if◌then◌else◌,
}
use cluster_mempool_observer.Db.{is_active, ClusterRow, Cluster, Database}
use cluster_mempool_observer.Snapshot.{
  ActiveCluster, ClusterState, ClusterSnapshot, state, collect, seed,
}
use cluster_mempool_observer.Snapshot.Tracking.{or_else, last_of}
use cluster_mempool_observer.Membership.Soundness.{IsSound}
use cluster_mempool_observer.Membership.Loading.{load_one, load_below, load_clusters, find_active}
use cluster_mempool_observer.Membership.Activity.{activity, active_at}
use cluster_mempool_observer.DeltaSet.{from_cluster}
use cluster_mempool_observer.DeltaSet.Merging.{state_of}

or_else_else : (a b c : Option ClusterState) → or_else a (or_else b c) ≡ or_else (or_else a b) c
or_else_else none b c = refl
or_else_else (some s) b c = refl

or_else-none : (a : Option ClusterState) → or_else a none ≡ a
or_else-none none = refl
or_else-none (some s) = refl

lookup-collect :
    (id : ℕ) (cs : List ActiveCluster) (m : ClusterSnapshot)
    → lookup id (collect m cs) ≡ or_else (last_of id cs) (lookup id m)
unfolding collect
lookup-collect id [] m = refl
lookup-collect id (c ∷ cs) m =
    lookup-collect id cs (insert_key c.id (state c) m)
    ∙ ap (or_else (last_of id cs)) (one (id == c.id) (lookup-insert_key id c.id (state c) m))
    ∙ or_else_else (last_of id cs) (if id == c.id then some (state c) else none) (lookup id m)
  where
    one :
        (b : Bool)
        → lookup id (insert_key c.id (state c) m) ≡ (if b then some (state c) else lookup id m)
        → lookup id (insert_key c.id (state c) m)
          ≡ or_else (if b then some (state c) else none) (lookup id m)
    one true h = h
    one false h = h

last_of-append :
    (id : ℕ) (xs ys : List Cluster)
    → last_of id (map from_cluster (xs ++ ys))
      ≡ or_else (last_of id (map from_cluster ys)) (last_of id (map from_cluster xs))
last_of-append id [] ys = sym (or_else-none (last_of id (map from_cluster ys)))
last_of-append id (x ∷ xs) ys =
    rw (last_of-append id xs ys)
      (sym (or_else_else (last_of id (map from_cluster ys)) (last_of id (map from_cluster xs)) _))

abbrev is_active_row : ℕ → ClusterRow → Bool
is_active_row id row = is_active row.status

last_of-load_one :
    (id n : ℕ) (db : Database) (cluster : Option ClusterRow)
    → last_of id (map from_cluster (load_one is_active_row db n cluster))
      ≡ (if id == n then state_of (activity db n cluster) else none)
last_of-load_one id n db none = elim (Bool-cases (id == n)) [
  | inl hit ↦ rw hit refl
  | inr miss ↦ rw miss refl
]
last_of-load_one id n db (some row) = elim (Bool-cases (is_active row.status)) [
  | inl live ↦ rw live refl
  | inr closed ↦
      rw closed (elim (Bool-cases (id == n)) [ inl hit ↦ rw hit refl | inr miss ↦ rw miss refl ])
]

last_of-load_below :
    (id n : ℕ) (db : Database)
    → last_of id (map from_cluster (load_below is_active_row db n))
      ≡ (if ltb id n then state_of (active_at db id) else none)
unfolding load_below
last_of-load_below id zero db = none_below (ltb id 0) (ground arith)
  where
    none_below : (b : Bool) → b ≡ false → none ≡ (if b then state_of (active_at db id) else none)
    none_below b h = rw h refl
last_of-load_below id (suc n) db =
    last_of-append id (load_below is_active_row db n) (load_one is_active_row db n (db.clusters n))
    ∙ rw (last_of-load_one id n db (db.clusters n), last_of-load_below id n db)
        (elim (Bool-cases (id == n)) [
          | inl hit ↦
              let e : id ≡ n = ground arith in
              let below : ltb id (suc n) ≡ true = ground arith in
              let above : ltb id n ≡ false = ground arith in
              rw (hit, below, above, or_else-none (state_of (active_at db n))) (rw e refl)
          | inr miss ↦ let same : ltb id (suc n) ≡ ltb id n = ground arith in rw (miss, same) refl
        ])

-- What is seeded is the active clusters.
pub lookup-seed :
    (db : Database) (id : ℕ)
    → IsSound db
    → lookup id (seed (map from_cluster (find_active db))) ≡ state_of (active_at db id)
unfolding seed find_active load_clusters
lookup-seed db id v =
    lookup-collect id (map from_cluster (load_below is_active_row db db.next_cluster_id)) []
    ∙ or_else-none _
    ∙ last_of-load_below id db.next_cluster_id db
    ∙ elim (Bool-cases (ltb id db.next_cluster_id)) [
      | inl below ↦ rw below refl
      | inr above ↦
          let missing : db.clusters id ≡ none = v.fresh id (ground arith) in
          rw (above, missing) refl
    ]
