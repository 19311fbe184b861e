-- ===== src/ClusterSync/Closing.antt =====
-- api/src/services/cluster.rs: what the rounds for evicted and for mined transactions say of the changes
-- that they make.
use cluster_mempool_observer.Base.{
  ℕ, Bool, true, false, ◌&&◌, ◌≡◌, sym, ◌∙◌, List, [], ◌∷◌, Option, none, some, arith, Txid, TxSet,
  any, contains, length, ◌==◌, Bool-cases, inl, inr, if◌then◌else◌,
}
use cluster_mempool_observer.Db.{Cluster}
use cluster_mempool_observer.Membership.{as_evicted, close_many}
use cluster_mempool_observer.Membership.Lookup.{find_active_ids_by_txids}
use cluster_mempool_observer.Membership.Loading.{find_by_ids, ids_of, find_by_ids-below}
use cluster_mempool_observer.DeltaSet.{ClusterDeltaSet, no_changes, merge_removed}
use cluster_mempool_observer.DeltaSet.Told.{silent, among}
use cluster_mempool_observer.Mined.{remaining, split_evicted}
use cluster_mempool_observer.Mined.Eviction.{is_shrunk, split_evicted-exact}
use cluster_mempool_observer.ClusterSync.{Outside, World, awaited, query, transact}
use cluster_mempool_observer.ClusterSync.Queue.{handle_candidates_covering}
use cluster_mempool_observer.ClusterSync.Rounds.{
  load_containing, close_emptied, shrink, handle_evicted,
}
use cluster_mempool_observer.ClusterSync.Moves.{
  IsSetting, IsKept, Moves, Moves-later, Follows, Follows-after, Follows-quiet, Follows-merge,
  Follows-none, awaited-Moves,
}
use cluster_mempool_observer.ClusterSync.Writing.{AllBelow, outcome, close-Moves}
use cluster_mempool_observer.ClusterSync.Following.{Follows-closed}
use cluster_mempool_observer.ClusterSync.Queueing.{handle_candidates_covering-Follows}

contains-any :
    (id : ℕ) (p : Cluster → Bool) (cs : List Cluster)
    → any (λ c. id == c.id && p c) cs ≡ true
    → contains id (ids_of cs) ≡ true
contains-any id p [] h = h
contains-any id p (c ∷ cs) h = ground (arith, contains-any id p cs)

emptied-found :
    (evicted live : TxSet) (clusters : List Cluster) (id : ℕ)
    → contains id (split_evicted evicted live clusters).0 ≡ true
    → contains id (ids_of clusters) ≡ true
emptied-found evicted live clusters id h =
    let e = (split_evicted-exact evicted live clusters 0 id).1 in
    contains-any id (λ c. is_shrunk evicted c && length (remaining evicted live c) == 0) clusters
      (sym e ∙ h)

abbrev pub LoadedBelow : ℕ → Option (List Cluster) → Type 0
LoadedBelow n none = Unit {0}
LoadedBelow n (some clusters) = AllBelow n (ids_of clusters)

module _ {base : TxSet} {whole : Type 0} (o : Outside) (setting : IsSetting o whole) where
  pub load_containing-Moves :
      (txids : List Txid) (w : World)
      → IsKept base w
      → let r = load_containing o txids w in
        Moves base whole w (λ id. silent) r.1 × LoadedBelow r.1.db.next_cluster_id r.0
  unfolding load_containing query
  load_containing-Moves txids w v =
      let one = awaited-Moves o setting w v in
      go (o.db_fails w.calls) (o.db_fails (awaited o w).calls) one (
        Moves-later w (awaited o w) (awaited o (awaited o w)) (λ id. silent) (λ id. silent) one
          (awaited-Moves o setting (awaited o w) one.kept))
    where
      w1 : World
      w1 = awaited o w

      ids : List ℕ
      ids = find_active_ids_by_txids txids w.db

      go :
          (fails again_fails : Bool)
          → Moves base whole w (λ id. silent) w1
          → Moves base whole w (λ id. silent) (awaited o w1)
          → let r : Option (List Cluster) × World = elim (if fails then none else some ids) [
            | none ↦ (none, w1)
            | some found ↦
                if length found == 0
                then (some [], w1)
                else (if again_fails then none else some (find_by_ids found w1.db), awaited o w1)
          ] in
            Moves base whole w (λ id. silent) r.1 × LoadedBelow r.1.db.next_cluster_id r.0
      go true again_fails one two = (one, tt)
      go false again_fails one two = elim (Bool-cases (length ids == 0)) [
        | inl nobody ↦ rw nobody (one, λ id m. absurd (ground arith))
        | inr busy ↦ rw busy (second again_fails two)
      ]
        where
          second :
              (again_fails : Bool)
              → Moves base whole w (λ id. silent) (awaited o w1)
              → Moves base whole w (λ id. silent) (awaited o w1)
                × LoadedBelow
                    (awaited o w1).db.next_cluster_id
                    (if again_fails then none else some (find_by_ids ids w1.db))
          second true two = (two, tt)
          second false two = (two, unfold awaited in find_by_ids-below ids w1.db)

  close_emptied-Follows :
      (emptied : List ℕ) (w : World)
      → IsKept base w
      → AllBelow w.db.next_cluster_id emptied
      → let p = close_emptied o emptied w in Follows base whole w p.0 p.1
  unfolding close_emptied
  close_emptied-Follows emptied w v below =
      let r = transact o (λ now db. some (close_many now as_evicted emptied db)) w in
      elim (Bool-cases (length emptied == 0)) [
        | inl nobody ↦ rw nobody (Follows-none w v)
        | inr busy ↦ rw busy (go r.0 r.1 (close-Moves o setting as_evicted emptied w v below))
      ]
    where
      go :
          (closed : Option ℕ) (w' : World)
          → Moves base whole w (outcome (λ _. among emptied) closed) w'
          → let p : ClusterDeltaSet × World = elim closed [
            | none ↦ (no_changes, w')
            | some _ ↦ (merge_removed emptied no_changes, w')
          ] in
            Follows base whole w p.0 p.1
      go none w' m = Follows-quiet w w w' no_changes (Follows-none w v) m
      go (some _) w' m = Follows-closed w w w' emptied no_changes (Follows-none w v) m

  shrink-Follows :
      (fuel : ℕ) (evicted : List Txid) (clusters : List Cluster) (w : World)
      → IsKept base w
      → AllBelow w.db.next_cluster_id (ids_of clusters)
      → let p = shrink o fuel evicted clusters w in Follows base whole w p.0 p.1
  unfolding shrink
  shrink-Follows fuel evicted clusters w v below =
      let split = split_evicted evicted w.ledger.live clusters in
      let closed = close_emptied o split.0 w in
      let first =
        close_emptied-Follows split.0 w v
          (λ id m. below id (emptied-found evicted w.ledger.live clusters id m)) in
      elim (Bool-cases (length split.1 == 0)) [
        | inl nobody ↦ rw nobody first
        | inr left ↦
            let again = handle_candidates_covering o fuel split.1 evicted closed.1 in
            rw left (
              Follows-merge w closed.1 again.1 closed.0 again.0 first (
                handle_candidates_covering-Follows o setting fuel split.1 evicted closed.1
                  first.moves.kept))
      ]

  -- What a round says that first loads clusters and goes on with them.
  loaded-Follows :
      (txids : List Txid) (w : World) (next : List Cluster → World → ClusterDeltaSet × World)
      → IsKept base w
      → ((clusters : List Cluster) (w' : World)
          → IsKept base w'
          → AllBelow w'.db.next_cluster_id (ids_of clusters)
          → let p = next clusters w' in Follows base whole w' p.0 p.1)
      → let r = load_containing o txids w in
        let p : ClusterDeltaSet × World = elim r.0 [
          | none ↦ (no_changes, r.1)
          | some clusters ↦ next clusters r.1
        ] in
        Follows base whole w p.0 p.1
  loaded-Follows txids w next v step =
      let r = load_containing o txids w in
      let (m, below) = load_containing-Moves txids w v in go r.0 r.1 m below
    where
      go :
          (clusters : Option (List Cluster)) (w' : World)
          → Moves base whole w (λ id. silent) w'
          → LoadedBelow w'.db.next_cluster_id clusters
          → let p : ClusterDeltaSet × World = elim clusters [
            | none ↦ (no_changes, w')
            | some loaded ↦ next loaded w'
          ] in
            Follows base whole w p.0 p.1
      go none w' m below = Follows-quiet w w w' no_changes (Follows-none w v) m
      go (some loaded) w' m below =
          Follows-after w w' (next loaded w').1 (next loaded w').0 m (step loaded w' m.kept below)

  pub handle_evicted-Follows :
      (fuel : ℕ) (evicted : List Txid) (w : World)
      → IsKept base w
      → let p = handle_evicted o fuel evicted w in Follows base whole w p.0 p.1
  unfolding handle_evicted
  handle_evicted-Follows fuel evicted w v = elim (Bool-cases (length evicted == 0)) [
    | inl nobody ↦ rw nobody (Follows-none w v)
    | inr busy ↦
        rw busy (loaded-Follows evicted w (shrink o fuel evicted) v (shrink-Follows fuel evicted))
  ]
