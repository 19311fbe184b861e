-- ===== src/DeltaSet/Told.antt =====
-- api/src/services/cluster.rs: what a `ClusterDeltaSet` says of one cluster, and how marks and merges
-- change what it says.
use cluster_mempool_observer.Base.{
  ℕ, Bool, true, false, ◌&&◌, ◌||◌, ◌≡◌, refl, ◌∙◌, ap, List, [], ◌∷◌, Option, none, some, contains,
  ◌==◌, lookup, lookup-insert_key, lookup-remove_key, contains-insert, contains-remove, Bool-cases,
  inl, inr, if◌then◌else◌,
}
use cluster_mempool_observer.Db.{is_active, Cluster}
use cluster_mempool_observer.Snapshot.{ActiveCluster}
use cluster_mempool_observer.DeltaSet.{
  from_cluster, ClusterDeltaSet, mark_removed, record_upserted, mark_upserted, merge_removed, merge,
}
use cluster_mempool_observer.DeltaSet.Merging.{IsCoherent, is_none, or_else_active, lookup-merge}

pub data Told : Type 0 where
  silent gone : Told
  now_is : ActiveCluster → Told

abbrev pub told_of : Bool → Option ActiveCluster → Told
told_of true o = gone
told_of false none = silent
told_of false (some c) = now_is c

abbrev pub told : ClusterDeltaSet → ℕ → Told
told changes id = told_of (contains id changes.removed) (lookup id changes.upserted)

-- What is said last counts.
abbrev pub later : Told → Told → Told
later a silent = a
later a gone = gone
later a (now_is c) = now_is c

pub later-silent : (t : Told) → later silent t ≡ t
later-silent silent = refl
later-silent gone = refl
later-silent (now_is c) = refl

-- What a cluster is, after what it was.
abbrev pub value : Told → Option ActiveCluster → Option ActiveCluster
value silent a = a
value gone a = none
value (now_is c) a = some c

pub value-later :
    (s t : Told) (a : Option ActiveCluster) → value (later s t) a ≡ value t (value s a)
value-later s silent a = refl
value-later s gone a = refl
value-later s (now_is c) a = refl

abbrev pub at_id : ℕ → Told → ℕ → Told
at_id i t id = if id == i then t else silent

pub told-mark_removed :
    (i : ℕ) (changes : ClusterDeltaSet) (id : ℕ)
    → told (mark_removed i changes) id ≡ later (told changes id) (at_id i gone id)
unfolding mark_removed
told-mark_removed i changes id =
    rw (contains-insert id i changes.removed, lookup-remove_key id i changes.upserted)
      (elim (Bool-cases (id == i)) [ inl hit ↦ rw hit refl | inr miss ↦ rw miss refl ])

told-record_upserted :
    (i : ℕ) (c : ActiveCluster) (changes : ClusterDeltaSet) (id : ℕ)
    → told (record_upserted i c changes) id ≡ later (told changes id) (at_id i (now_is c) id)
unfolding record_upserted
told-record_upserted i c changes id =
    rw (contains-remove id i changes.removed, lookup-insert_key id i c changes.upserted)
      (elim (Bool-cases (id == i)) [
        | inl hit ↦ rw hit (gone_none (contains id changes.removed))
        | inr miss ↦ rw miss (kept (contains id changes.removed) (lookup id changes.upserted))
      ])
  where
    gone_none : (b : Bool) → told_of (false && b) (some c) ≡ now_is c
    gone_none b = refl

    kept : (b : Bool) (o : Option ActiveCluster) → told_of (true && b) o ≡ told_of b o
    kept b o = refl

-- The verdict of `mark_upserted` on a cluster.
abbrev pub verdict : Cluster → Told
verdict c = if is_active c.row.status then now_is (from_cluster c) else gone

pub told-mark_upserted :
    (c : Cluster) (changes : ClusterDeltaSet) (id : ℕ)
    → told (mark_upserted c changes) id ≡ later (told changes id) (at_id c.id (verdict c) id)
unfolding mark_upserted
told-mark_upserted c changes id = elim (Bool-cases (is_active c.row.status)) [
  | inl live ↦ rw live (told-record_upserted c.id (from_cluster c) changes id)
  | inr closed ↦ rw closed (told-mark_removed c.id changes id)
]

abbrev pub among : List ℕ → ℕ → Told
among ids id = if contains id ids then gone else silent

later-gone :
    (t : Told) (a b : Bool)
    → later (later t (if a then gone else silent)) (if b then gone else silent)
      ≡ later t (if a || b then gone else silent)
later-gone t true true = refl
later-gone t true false = refl
later-gone t false true = refl
later-gone t false false = refl

pub told-merge_removed :
    (ids : List ℕ) (changes : ClusterDeltaSet) (id : ℕ)
    → told (merge_removed ids changes) id ≡ later (told changes id) (among ids id)
unfolding merge_removed
told-merge_removed [] changes id = refl
told-merge_removed (i ∷ ids) changes id =
    told-merge_removed ids (mark_removed i changes) id
    ∙ ap (λ t. later t (among ids id)) (told-mark_removed i changes id)
    ∙ later-gone (told changes id) (id == i) (contains id ids)

-- A merge says what the second set says, and what the first says where the second is silent.
pub told-merge :
    (changes other : ClusterDeltaSet) (id : ℕ)
    → IsCoherent other
    → told (merge changes other) id ≡ later (told changes id) (told other id)
told-merge changes other id w =
    rw ((lookup-merge id changes other w).0, (lookup-merge id changes other w).1)
      (go (contains id other.removed) (lookup id other.upserted) (contains id changes.removed)
        (lookup id changes.upserted))
  where
    go :
        (b : Bool) (o : Option ActiveCluster) (a : Bool) (p : Option ActiveCluster)
        → told_of (b || (a && is_none o)) (if b then none else or_else_active o p)
          ≡ later (told_of a p) (told_of b o)
    go true o a p = refl
    go false (some c) true p = refl
    go false (some c) false p = refl
    go false none true p = refl
    go false none false none = refl
    go false none false (some c) = refl
