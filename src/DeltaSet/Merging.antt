-- ===== src/DeltaSet/Merging.antt =====
-- api/src/services/cluster.rs: what `mark_upserted`, `mark_removed` and `merge` make of a set, and what
-- publishing it makes of the snapshot.
use cluster_mempool_observer.Base.{
  ℕ, Bool, true, false, ◌&&◌, ◌||◌, ◌≡◌, refl, ◌∙◌, List, [], ◌∷◌, map, Option, none, some, arith,
  All, contains, ◌==◌, if◌then◌else◌, lookup, insert_key, remove_key, lookup-insert_key,
  lookup-remove_key, DistinctKeys, DistinctKeys-insert_key, DistinctKeys-remove_key,
  contains-insert, contains-remove, Bool-cases, inl, inr,
}
use cluster_mempool_observer.Db.{is_active, Cluster}
use cluster_mempool_observer.Snapshot.{ActiveCluster, ClusterState, ClusterSnapshot, state}
use cluster_mempool_observer.Snapshot.Tracking.{last_of, or_else, lookup-publish}
use cluster_mempool_observer.DeltaSet.{
  from_cluster, ClusterDeltaSet, no_changes, mark_removed, record_upserted, mark_upserted,
  merge_upserted, merge_removed, merge, merge_stages, publish_delta,
}

abbrev pub is_none : Option ActiveCluster → Bool
is_none none = true
is_none (some c) = false

abbrev pub or_else_active : Option ActiveCluster → Option ActiveCluster → Option ActiveCluster
or_else_active none b = b
or_else_active (some c) b = some c

-- Every upserted cluster stands under its own id, once, and is not among the removed.
pub record IsCoherent (changes : ClusterDeltaSet) : Type 0 where
  pub distinct : DistinctKeys changes.upserted
  pub keyed : All (λ entry. entry.1.id ≡ entry.0) changes.upserted
  pub disjoint : (id : ℕ) → contains id changes.removed ≡ true → lookup id changes.upserted ≡ none

keyed-remove_key :
    (id : ℕ) (m : List (ℕ × ActiveCluster))
    → All (λ entry. entry.1.id ≡ entry.0) m
    → All (λ entry. entry.1.id ≡ entry.0) (remove_key id m)
unfolding remove_key
keyed-remove_key id [] h = tt
keyed-remove_key id ((i, c) ∷ m) h = elim (Bool-cases (id == i)) [
  | inl hit ↦ rw hit (keyed-remove_key id m h.1)
  | inr miss ↦ rw miss (h.0, keyed-remove_key id m h.1)
]

pub mark_removed-IsCoherent :
    (id : ℕ) (changes : ClusterDeltaSet) → IsCoherent changes → IsCoherent (mark_removed id changes)
unfolding mark_removed
mark_removed-IsCoherent id changes v = record {
  distinct = DistinctKeys-remove_key id changes.upserted v.distinct;
  keyed = keyed-remove_key id changes.upserted v.keyed;
  disjoint = λ k m. ground (
    arith,
    contains-insert k id changes.removed,
    lookup-remove_key k id changes.upserted,
    v.disjoint k,
  );
}

record_upserted-IsCoherent :
    (id : ℕ) (cluster : ActiveCluster) (changes : ClusterDeltaSet)
    → cluster.id ≡ id
    → IsCoherent changes
    → IsCoherent (record_upserted id cluster changes)
unfolding record_upserted
record_upserted-IsCoherent id cluster changes e v = record {
  distinct = DistinctKeys-insert_key id cluster changes.upserted v.distinct;
  keyed = unfold insert_key in (e, keyed-remove_key id changes.upserted v.keyed);
  disjoint = λ k m. ground (
    arith,
    contains-remove k id changes.removed,
    lookup-insert_key k id cluster changes.upserted,
    v.disjoint k,
  );
}

-- Marking a cluster, as upserted or as removed, keeps the set coherent.
pub mark_upserted-IsCoherent :
    (cluster : Cluster) (changes : ClusterDeltaSet)
    → IsCoherent changes
    → IsCoherent (mark_upserted cluster changes)
unfolding mark_upserted
mark_upserted-IsCoherent cluster changes v = elim (Bool-cases (is_active cluster.row.status)) [
  | inl live ↦ rw live (record_upserted-IsCoherent cluster.id (from_cluster cluster) changes refl v)
  | inr closed ↦ rw closed (mark_removed-IsCoherent cluster.id changes v)
]

merge_upserted-IsCoherent :
    (others : List (ℕ × ActiveCluster)) (changes : ClusterDeltaSet)
    → All (λ entry. entry.1.id ≡ entry.0) others
    → IsCoherent changes
    → IsCoherent (merge_upserted others changes)
unfolding merge_upserted
merge_upserted-IsCoherent [] changes h v = v
merge_upserted-IsCoherent ((i, c) ∷ others) changes h v =
    merge_upserted-IsCoherent others (record_upserted i c changes) h.1
      (record_upserted-IsCoherent i c changes h.0 v)

pub merge_removed-IsCoherent :
    (ids : List ℕ) (changes : ClusterDeltaSet)
    → IsCoherent changes
    → IsCoherent (merge_removed ids changes)
unfolding merge_removed
merge_removed-IsCoherent [] changes v = v
merge_removed-IsCoherent (i ∷ ids) changes v =
    merge_removed-IsCoherent ids (mark_removed i changes) (mark_removed-IsCoherent i changes v)

pub merge-IsCoherent :
    (changes other : ClusterDeltaSet)
    → IsCoherent changes
    → IsCoherent other
    → IsCoherent (merge changes other)
unfolding merge
merge-IsCoherent changes other v w =
    merge_removed-IsCoherent other.removed _
      (merge_upserted-IsCoherent other.upserted changes w.keyed v)

lookup-merge_upserted :
    (id : ℕ) (others : List (ℕ × ActiveCluster)) (changes : ClusterDeltaSet)
    → DistinctKeys others
    → (lookup id (merge_upserted others changes).upserted
        ≡ or_else_active (lookup id others) (lookup id changes.upserted))
      × (contains id (merge_upserted others changes).removed
          ≡ (contains id changes.removed && is_none (lookup id others)))
unfolding merge_upserted record_upserted
lookup-merge_upserted id [] changes d = (refl, ground arith)
lookup-merge_upserted id ((i, c) ∷ others) changes d =
    let rest = lookup-merge_upserted id others (record_upserted i c changes) d.1 in
    rw
      (
        rest.0,
        rest.1,
        lookup-insert_key id i c changes.upserted,
        contains-remove id i changes.removed,
      )
      (elim (Bool-cases (id == i)) [
        | inl hit ↦ let e : id ≡ i = ground arith in rw hit (rw (e, d.0) (refl, ground arith))
        | inr miss ↦ rw miss (refl, refl)
      ])

lookup-merge_removed :
    (id : ℕ) (ids : List ℕ) (changes : ClusterDeltaSet)
    → (lookup id (merge_removed ids changes).upserted
        ≡ (if contains id ids then none else lookup id changes.upserted))
      × (contains id (merge_removed ids changes).removed
          ≡ (contains id ids || contains id changes.removed))
unfolding merge_removed mark_removed
lookup-merge_removed id [] changes = (refl, refl)
lookup-merge_removed id (i ∷ ids) changes =
    let rest = lookup-merge_removed id ids (mark_removed i changes) in
    rw
      (
        rest.0,
        rest.1,
        lookup-remove_key id i changes.upserted,
        contains-insert id i changes.removed,
      )
      (ground arith, ground arith)

-- Of a cluster that both sets name the merged set has what the second says, and of any other what the
-- one that names it says: it is upserted if the second upserts it, or the first does and the second
-- does not remove it; and it is removed if the second removes it, or the first does and the second
-- does not upsert it. The second set is coherent.
pub lookup-merge :
    (id : ℕ) (changes other : ClusterDeltaSet)
    → IsCoherent other
    → (lookup id (merge changes other).upserted ≡ (
        if contains id other.removed
        then none
        else or_else_active (lookup id other.upserted) (lookup id changes.upserted)))
      × (contains id (merge changes other).removed ≡ (
          contains id other.removed
          || (contains id changes.removed && is_none (lookup id other.upserted))))
unfolding merge
lookup-merge id changes other w =
    let up = lookup-merge_upserted id other.upserted changes w.distinct in
    let down = lookup-merge_removed id other.removed (merge_upserted other.upserted changes) in
    rw (down.0, down.1, up.0, up.1) (refl, refl)

-- However many stages a round has, what they gather is coherent.
pub merge_stages-IsCoherent :
    (stages : List ClusterDeltaSet)
    → All IsCoherent stages
    → IsCoherent (merge_stages stages no_changes)
unfolding merge_stages
merge_stages-IsCoherent stages h =
    go stages no_changes h (record { distinct = tt; keyed = tt; disjoint = λ id m. refl })
  where
    go :
        (stages : List ClusterDeltaSet) (changes : ClusterDeltaSet)
        → All IsCoherent stages
        → IsCoherent changes
        → IsCoherent (merge_stages stages changes)
    go [] changes h v = v
    go (stage ∷ stages) changes h v =
        go stages (merge changes stage) h.1 (merge-IsCoherent changes stage v h.0)

abbrev pub state_of : Option ActiveCluster → Option ClusterState
state_of none = none
state_of (some c) = some (state c)

or_else-none : (o : Option ClusterState) → or_else o none ≡ o
or_else-none none = refl
or_else-none (some s) = refl

last_of-values :
    (id : ℕ) (m : List (ℕ × ActiveCluster))
    → DistinctKeys m
    → All (λ entry. entry.1.id ≡ entry.0) m
    → last_of id (map (λ entry. entry.1) m) ≡ state_of (lookup id m)
last_of-values id [] d h = refl
last_of-values id ((i, c) ∷ m) d h =
    rw (last_of-values id m d.1 h.1, h.0)
      (elim (Bool-cases (id == i)) [
        | inl hit ↦ let e : id ≡ i = ground arith in rw hit (rw (e, d.0) refl)
        | inr miss ↦ rw miss (or_else-none (state_of (lookup id m)))
      ])

-- After a coherent set of changes is published the snapshot has the state of each upserted cluster,
-- no removed cluster, and every other cluster as it was.
pub publish_delta-follows :
    (to_vbytes_ceil : ℕ → ℕ) (changes : ClusterDeltaSet) (m : ClusterSnapshot) (id : ℕ)
    → IsCoherent changes
    → lookup id (publish_delta to_vbytes_ceil changes m).0 ≡ (
        if contains id changes.removed
        then none
        else or_else (state_of (lookup id changes.upserted)) (lookup id m))
unfolding publish_delta
publish_delta-follows to_vbytes_ceil changes m id v =
    lookup-publish to_vbytes_ceil id (map (λ (e : ℕ × ActiveCluster). e.1) changes.upserted)
      changes.removed m
    ∙ rw (last_of-values id changes.upserted v.distinct v.keyed) refl
