-- ===== src/ClusterSync/Saying.antt =====
-- api/src/services/cluster.rs: what the marks of a whole list say, and what that makes of a cluster.
use cluster_mempool_observer.Base.{
  ℕ, suc, ◌+◌, ◌<◌, true, false, ◌≡◌, refl, sym, ◌∙◌, ap, List, [], ◌∷◌, ◌++◌, Option, none, arith,
  contains, length, ◌==◌, Bool-cases, inl, inr, ◌⊎◌, if◌then◌else◌,
}
use cluster_mempool_observer.Db.{is_active, Cluster, NewCluster}
use cluster_mempool_observer.Snapshot.{ActiveCluster}
use cluster_mempool_observer.Membership.Insertion.{numbered, new_row, new_clusters}
use cluster_mempool_observer.Membership.Activity.{shown}
use cluster_mempool_observer.Membership.Outcome.{overlay}
use cluster_mempool_observer.DeltaSet.{ClusterDeltaSet, mark_upserted}
use cluster_mempool_observer.DeltaSet.Merging.{IsCoherent, mark_upserted-IsCoherent}
use cluster_mempool_observer.DeltaSet.Told.{
  Told, silent, gone, now_is, told, later, later-silent, value, value-later, at_id, verdict, among,
  told-mark_upserted,
}
use cluster_mempool_observer.ClusterSync.Upsert.{mark_all}
use cluster_mempool_observer.ClusterSync.Moves.{is_loud}

pub value-among :
    (ids : List ℕ) (id : ℕ) (a : Option ActiveCluster)
    → value (among ids id) a ≡ (if contains id ids then none else a)
value-among ids id a = elim (Bool-cases (contains id ids)) [
  | inl hit ↦ rw hit refl
  | inr miss ↦ rw miss refl
]

pub loud-among : (ids : List ℕ) (id : ℕ) → is_loud (among ids id) ≡ true → contains id ids ≡ true
loud-among ids id h = elim (Bool-cases (contains id ids)) [
  | inl hit ↦ hit
  | inr miss ↦ let l : is_loud silent ≡ true = rw miss at h in absurd (ground arith)
]

pub value-verdict :
    (c : Cluster) (id : ℕ) (a : Option ActiveCluster)
    → value (at_id c.id (verdict c) id) a ≡ (if id == c.id then shown c else a)
value-verdict c id a = elim (Bool-cases (id == c.id)) [
  | inl hit ↦ rw hit (elim (Bool-cases (is_active c.row.status)) [
    | inl live ↦ rw live refl
    | inr closed ↦ rw closed refl
  ])
  | inr miss ↦ rw miss refl
]

pub loud-at_id : (i id : ℕ) (t : Told) → is_loud (at_id i t id) ≡ true → (id == i) ≡ true
loud-at_id i id t h = elim (Bool-cases (id == i)) [
  | inl hit ↦ hit
  | inr miss ↦ let l : is_loud silent ≡ true = rw miss at h in absurd (ground arith)
]

pub later-later : (s t u : Told) → later (later s t) u ≡ later s (later t u)
later-later s t silent = refl
later-later s t gone = refl
later-later s t (now_is c) = refl

-- What marking the rows of a list says.
abbrev pub rows_told : List Cluster → ℕ → Told
rows_told [] id = silent
rows_told (c ∷ cs) id = later (at_id c.id (verdict c) id) (rows_told cs id)

pub told-mark_all :
    (rows : List Cluster) (changes : ClusterDeltaSet) (id : ℕ)
    → told (mark_all rows changes) id ≡ later (told changes id) (rows_told rows id)
unfolding mark_all
told-mark_all [] changes id = refl
told-mark_all (c ∷ cs) changes id =
    told-mark_all cs (mark_upserted c changes) id
    ∙ ap (λ t. later t (rows_told cs id)) (told-mark_upserted c changes id)
    ∙ later-later (told changes id) (at_id c.id (verdict c) id) (rows_told cs id)

pub mark_all-IsCoherent :
    (rows : List Cluster) (changes : ClusterDeltaSet)
    → IsCoherent changes
    → IsCoherent (mark_all rows changes)
unfolding mark_all
mark_all-IsCoherent [] changes v = v
mark_all-IsCoherent (c ∷ cs) changes v =
    mark_all-IsCoherent cs (mark_upserted c changes) (mark_upserted-IsCoherent c changes v)

pub value-rows_told :
    (rows : List Cluster) (id : ℕ) (a : Option ActiveCluster)
    → value (rows_told rows id) a ≡ overlay id rows a
value-rows_told [] id a = refl
value-rows_told (c ∷ cs) id a =
    value-later (at_id c.id (verdict c) id) (rows_told cs id) a
    ∙ value-rows_told cs id (value (at_id c.id (verdict c) id) a)
    ∙ ap (overlay id cs) (value-verdict c id a)

pub rows_told-append :
    (xs ys : List Cluster) (id : ℕ)
    → rows_told (xs ++ ys) id ≡ later (rows_told xs id) (rows_told ys id)
rows_told-append [] ys id = sym (later-silent (rows_told ys id))
rows_told-append (c ∷ cs) ys id =
    ap (later (at_id c.id (verdict c) id)) (rows_told-append cs ys id)
    ∙ sym (later-later (at_id c.id (verdict c) id) (rows_told cs id) (rows_told ys id))

-- New clusters have ids of their own.
pub rows_told-fresh :
    (id n : ℕ) (new : List NewCluster)
    → id < n
    → rows_told (new_clusters (numbered n new)) id ≡ silent
unfolding numbered new_clusters
rows_told-fresh id n [] below = refl
rows_told-fresh id n (c ∷ new) below =
    let miss : (id == n) ≡ false = ground arith in
    rw (miss, rows_told-fresh id (suc n) new (omega arith)) refl

loud-later : (s t : Told) → is_loud (later s t) ≡ true → (is_loud s ≡ true) ⊎ (is_loud t ≡ true)
loud-later s silent h = inl h
loud-later s gone h = inr refl
loud-later s (now_is c) h = inr refl

pub loud-rows_told :
    (id n : ℕ) (new : List NewCluster)
    → is_loud (rows_told (new_clusters (numbered n new)) id) ≡ true
    → id < n + length new
unfolding numbered new_clusters
loud-rows_told id n [] h = absurd (ground arith)
loud-rows_told id n (c ∷ new) h =
    let here : Cluster = record { id = n; row = new_row c; chunks = c.chunks } in
    elim (loud-later (at_id n (verdict here) id) _ h) [
      | inl mine ↦ let hit = loud-at_id n id (verdict here) mine in ground arith
      | inr later_one ↦ let below = loud-rows_told id (suc n) new later_one in omega arith
    ]
