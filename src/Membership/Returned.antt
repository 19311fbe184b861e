-- ===== src/Membership/Returned.antt =====
-- api/src/db/repositories/cluster_membership.rs: the clusters that an insertion returns.
use mathlib.Core.List.{Perm}
use mathlib.Core.List.Perm
use cluster_mempool_observer.Base.{
  ℕ, suc, ◌+◌, ◌≤◌, true, false, ◌&&◌, ◌≡◌, refl, sym, ◌∙◌, ap, subst, List, [], ◌∷◌, ◌++◌, map,
  Option, arith, Time, length, leb, ltb, contains, contains-append, Distinct, in_chunks,
}
use cluster_mempool_observer.Db.{Cluster, NewCluster, Database, mempool_delta_insert_chunk_size}
use cluster_mempool_observer.Snapshot.{ActiveCluster}
use cluster_mempool_observer.Membership.Soundness.{IsSound}
use cluster_mempool_observer.Membership.Insertion.{
  numbered, new_clusters, insert_in, insert_in-IsSound, insert_batches, insert_many_with_members,
  insert_many_with_members-IsSound,
}
use cluster_mempool_observer.Membership.Activity.{active_at}
use cluster_mempool_observer.Membership.Outcome.{overlay, insert_in-active_at}

abbrev pub ids_of : List Cluster → List ℕ
ids_of = map (λ (c : Cluster). c.id)

ids_of-append : (xs ys : List Cluster) → ids_of (xs ++ ys) ≡ ids_of xs ++ ids_of ys
ids_of-append [] ys = refl
ids_of-append (x ∷ xs) ys = rw (ids_of-append xs ys) refl

-- The ids from `a` up to `b`, each once.
abbrev pub Are : ℕ → ℕ → List ℕ → Type 0
Are a b ids = (a ≤ b) × ((x : ℕ) → contains x ids ≡ (leb a x && ltb x b)) × Distinct ids

Distinct-append :
    (xs ys : List ℕ)
    → Distinct xs
    → Distinct ys
    → ((x : ℕ) → contains x xs ≡ true → contains x ys ≡ false)
    → Distinct (xs ++ ys)
Distinct-append [] ys dx dy apart = dy
Distinct-append (x ∷ xs) ys dx dy apart = (
  (contains-append x xs ys ∙ rw (dx.0, apart x (ground arith)) refl),
  Distinct-append xs ys dx.1 dy (λ z h. apart z (ground arith)),
)

Are-append : (a b c : ℕ) (xs ys : List ℕ) → Are a b xs → Are b c ys → Are a c (xs ++ ys)
Are-append a b c xs ys h k = (
  omega (arith, h.0, k.0),
  (λ x. contains-append x xs ys ∙ rw (h.1 x, k.1 x) (ground (arith, h.0, k.0))),
  Distinct-append xs ys h.2 k.2 (λ x here. k.1 x ∙ ground (arith, h.1 x)),
)

new_clusters-Are :
    (id : ℕ) (new : List NewCluster)
    → Are id (id + length new) (ids_of (new_clusters (numbered id new)))
unfolding numbered new_clusters
new_clusters-Are id [] = (omega arith, (λ x. ground arith), tt)
new_clusters-Are id (c ∷ new) =
    let rest = new_clusters-Are (suc id) new in
    (omega arith, (λ x. ground (arith, rest.1 x)), (ground (arith, rest.1 id), rest.2))

insert_batches-Are :
    (now : Time) (batches : List (List NewCluster)) (db : Database)
    → let r = insert_batches now batches db in
      Are db.next_cluster_id r.0.next_cluster_id (ids_of r.1)
unfolding insert_batches insert_in
insert_batches-Are now [] db = (omega arith, (λ x. ground arith), tt)
insert_batches-Are now (batch ∷ batches) db =
    let first = insert_in now batch db in
    let rest = insert_batches now batches first.0 in
    rw (ids_of-append first.1 rest.1) (
      Are-append db.next_cluster_id first.0.next_cluster_id rest.0.next_cluster_id (ids_of first.1)
        (ids_of rest.1) (new_clusters-Are db.next_cluster_id batch)
        (insert_batches-Are now batches first.0))

overlay-append :
    (k : ℕ) (xs ys : List Cluster) (a : Option ActiveCluster)
    → overlay k (xs ++ ys) a ≡ overlay k ys (overlay k xs a)
overlay-append k [] ys a = refl
overlay-append k (x ∷ xs) ys a = overlay-append k xs ys _

insert_batches-active_at :
    (now : Time) (batches : List (List NewCluster)) (db : Database) (k : ℕ)
    → IsSound db
    → let r = insert_batches now batches db in active_at r.0 k ≡ overlay k r.1 (active_at db k)
unfolding insert_batches
insert_batches-active_at now [] db k v = refl
insert_batches-active_at now (batch ∷ batches) db k v =
    let first = insert_in now batch db in
    let rest = insert_batches now batches first.0 in
    insert_batches-active_at now batches first.0 k (insert_in-IsSound now batch db v)
    ∙ ap (overlay k rest.1) (insert_in-active_at now batch db k v)
    ∙ sym (overlay-append k first.1 rest.1 (active_at db k))

-- What an insertion returns, and what it leaves in the tables: the ids are those from the next one on,
-- each once; the chunks are those of the new clusters, in some order; and under each id the tables have
-- the returned cluster, and otherwise what they had.
abbrev pub HasInserted : List NewCluster → Database → Database × List Cluster → Type 0
HasInserted new db r =
    Are db.next_cluster_id r.0.next_cluster_id (ids_of r.1)
    × Perm (map (λ (c : Cluster). c.chunks) r.1) (map (λ (c : NewCluster). c.chunks) new)
    × ((id : ℕ) → active_at r.0 id ≡ overlay id r.1 (active_at db id))

-- Where chunks are live exactly while current, inserting clusters, in batches, keeps this so; it hands out
-- the ids from the next one on, each to one cluster; it returns a cluster for each new one, with its chunks;
-- and then each returned cluster is what the tables have as active under its id, and under every other id
-- what they had before.
pub insert_many_with_members-HasInserted :
    (now : Time) (new : List NewCluster) (db : Database)
    → IsSound db
    → let r = insert_many_with_members now new db in IsSound r.0 × HasInserted new db r
unfolding insert_many_with_members
insert_many_with_members-HasInserted now new db v =
    let batches = in_chunks mempool_delta_insert_chunk_size new in
    let sound = insert_many_with_members-IsSound now new db v in
    (
      sound.0,
      (
        insert_batches-Are now batches db,
        subst (λ chunks. Perm chunks (map (λ (c : NewCluster). c.chunks) new)) (sym sound.1)
            (Perm.refl _),
        (λ id. insert_batches-active_at now batches db id v),
      ),
    )
