-- ===== src/ClusterSync/Following.antt =====
-- api/src/services/cluster.rs: what `upsert` says of the changes that it makes.
use cluster_mempool_observer.Base.{
  ℕ, ◌<◌, Bool, true, false, not, ◌≡◌, List, [], ◌∷◌, Option, none, some, arith, Txid, TxSet,
  contains, keep, length, ltb, ◌==◌, Bool-cases, inl, inr, if◌then◌else◌,
}
use cluster_mempool_observer.Db.{ClusterChunk, Cluster}
use cluster_mempool_observer.Membership.{
  ClusterVersionUpdate, as_merged, close_many, replace_chunks, chunk_txids,
}
use cluster_mempool_observer.Membership.Insertion.{insert_in}
use cluster_mempool_observer.Membership.Loading.{find_by_ids, ids_of, find_by_ids-below}
use cluster_mempool_observer.DeltaSet.{ClusterDeltaSet, no_changes, mark_upserted, merge_removed}
use cluster_mempool_observer.DeltaSet.Merging.{mark_upserted-IsCoherent, merge_removed-IsCoherent}
use cluster_mempool_observer.DeltaSet.Told.{
  at_id, verdict, among, told-mark_upserted, told-merge_removed,
}
use cluster_mempool_observer.ClusterSync.{Outside, World, awaited, query, transact}
use cluster_mempool_observer.ClusterSync.Upsert.{
  UpsertOutcome, untouched, new_cluster, mark_all, earliest, members_of, other_ids, replace_into,
  merge_into, upsert,
}
use cluster_mempool_observer.ClusterSync.Moves.{
  IsSetting, IsKept, Moves, Follows, Follows-step, Follows-quiet, Follows-none, awaited-Moves,
}
use cluster_mempool_observer.ClusterSync.Saying.{rows_told, told-mark_all, mark_all-IsCoherent}
use cluster_mempool_observer.ClusterSync.Writing.{
  AllBelow, outcome, close-Moves, replace-Moves, insert-Moves,
}

contains-keep :
    (p : ℕ → Bool) (id : ℕ) (xs : List ℕ) → contains id (keep p xs) ≡ true → contains id xs ≡ true
contains-keep p id [] h = h
contains-keep p id (x ∷ xs) h = ground (arith, contains-keep p id xs)

earliest-found :
    (c : Cluster) (cs : List Cluster) → contains (earliest c cs).id (ids_of (c ∷ cs)) ≡ true
unfolding earliest
earliest-found c [] = ground arith
earliest-found c (d ∷ ds) =
    go (ltb d.row.first_seen_at c.row.first_seen_at) (earliest-found d ds) (earliest-found c ds)
  where
    go :
        (older : Bool)
        → contains (earliest d ds).id (ids_of (d ∷ ds)) ≡ true
        → contains (earliest c ds).id (ids_of (c ∷ ds)) ≡ true
        → contains (earliest (if older then d else c) ds).id (ids_of (c ∷ d ∷ ds)) ≡ true
    go true h k = ground arith
    go false h k = ground arith

module _ {base : TxSet} {whole : Type 0} where
  -- Clusters that were closed are marked.
  pub Follows-closed :
      (w0 w w1 : World) (ids : List ℕ) (changes : ClusterDeltaSet)
      → Follows base whole w0 changes w
      → Moves base whole w (among ids) w1
      → Follows base whole w0 (merge_removed ids changes) w1
  Follows-closed w0 w w1 ids changes h m =
      Follows-step w0 w w1 changes (merge_removed ids changes) (among ids) h m
        (merge_removed-IsCoherent ids changes h.coherent) (told-merge_removed ids changes)

  -- So are rows that were written.
  pub Follows-marked :
      (w0 w w1 : World) (rows : List Cluster) (changes : ClusterDeltaSet)
      → Follows base whole w0 changes w
      → Moves base whole w (rows_told rows) w1
      → Follows base whole w0 (mark_all rows changes) w1
  Follows-marked w0 w w1 rows changes h m =
      Follows-step w0 w w1 changes (mark_all rows changes) (rows_told rows) h m
        (mark_all-IsCoherent rows changes h.coherent) (told-mark_all rows changes)

  module _ (o : Outside) (setting : IsSetting o whole) where
    replace_into-Follows :
        (w0 w : World) (chunks : List ClusterChunk) (keep_id : ℕ) (detached : List Txid)
        (changes : ClusterDeltaSet)
        → Follows base whole w0 changes w
        → keep_id < w.db.next_cluster_id
        → let r = replace_into o chunks keep_id detached changes w in
          Follows base whole w0 r.0.changes r.1
    unfolding replace_into
    replace_into-Follows w0 w chunks keep_id detached changes h below =
        let update : ClusterVersionUpdate = record { cluster_id = keep_id; chunks = chunks } in
        let r = transact o (λ now db. replace_chunks now update db) w in
        go r.0 r.1 (replace-Moves o setting update w h.moves.kept below)
      where
        go :
            (updated : Option Cluster) (w' : World)
            → Moves base whole w (outcome (λ row. at_id row.id (verdict row)) updated) w'
            → let r : UpsertOutcome × World = elim updated [
              | none ↦ (record { changes = changes; detached = detached }, w')
              | some row ↦ (record { changes = mark_upserted row changes; detached = detached }, w')
            ] in
              Follows base whole w0 r.0.changes r.1
        go none w' m = Follows-quiet w0 w w' changes h m
        go (some row) w' m =
            Follows-step w0 w w' changes (mark_upserted row changes) (at_id row.id (verdict row)) h
              m (mark_upserted-IsCoherent row changes h.coherent) (told-mark_upserted row changes)

    merge_into-Follows :
        (chunks : List ClusterChunk) (existing : List Cluster) (w0 w : World)
        → Follows base whole w0 no_changes w
        → AllBelow w.db.next_cluster_id (ids_of existing)
        → let r = merge_into o chunks existing w in Follows base whole w0 r.0.changes r.1
    unfolding merge_into
    merge_into-Follows chunks [] w0 w h below = h
    merge_into-Follows chunks (c ∷ cs) w0 w h below =
        let keep_id = (earliest c cs).id in
        let others = other_ids keep_id (c ∷ cs) in
        let kept_below = below keep_id (earliest-found c cs) in
        let detached = keep (λ x. not (contains x (chunk_txids chunks))) (members_of (c ∷ cs)) in
        elim (Bool-cases (length others == 0)) [
          | inl alone ↦
              rw alone (replace_into-Follows w0 w chunks keep_id detached no_changes h kept_below)
          | inr several ↦
              let r = transact o (λ now db. some (close_many now as_merged others db)) w in
              rw several (
                go keep_id others detached kept_below r.0 r.1 (
                  close-Moves o setting as_merged others w h.moves.kept (λ id m.
                    below id (contains-keep (λ i. not (i == keep_id)) id (ids_of (c ∷ cs)) m))))
        ]
      where
        go :
            (keep_id : ℕ) (others : List ℕ) (detached : List Txid)
            → keep_id < w.db.next_cluster_id
            → (closed : Option ℕ) (w' : World)
            → Moves base whole w (outcome (λ _. among others) closed) w'
            → let r : UpsertOutcome × World = elim closed [
              | none ↦ (untouched no_changes, w')
              | some _ ↦ replace_into o chunks keep_id detached (merge_removed others no_changes) w'
            ] in
              Follows base whole w0 r.0.changes r.1
        go keep_id others detached below none w' m = Follows-quiet w0 w w' no_changes h m
        go keep_id others detached below (some _) w' m =
            replace_into-Follows w0 w' chunks keep_id detached (merge_removed others no_changes)
              (Follows-closed w0 w w' others no_changes h m) (let up = m.grows in omega arith)

    pub upsert-Follows :
        (chunks : List ClusterChunk) (existing_ids : List ℕ) (w : World)
        → IsKept base w
        → let r = upsert o chunks existing_ids w in Follows base whole w r.0.changes r.1
    unfolding upsert query
    upsert-Follows chunks [] w v =
        let new = new_cluster (o.now w.calls) chunks ∷ [] in
        let r = transact o (λ now db. some (insert_in now new db)) w in
        go r.0 r.1 (insert-Moves o setting new w v)
      where
        go :
            (inserted : Option (List Cluster)) (w' : World)
            → Moves base whole w (outcome rows_told inserted) w'
            → let r : UpsertOutcome × World = elim inserted [
              | none ↦ (untouched no_changes, w')
              | some rows ↦ (untouched (mark_all rows no_changes), w')
            ] in
              Follows base whole w r.0.changes r.1
        go none w' m = Follows-quiet w w w' no_changes (Follows-none w v) m
        go (some rows) w' m = Follows-marked w w w' rows no_changes (Follows-none w v) m
    upsert-Follows chunks (id ∷ ids) w v = go (o.db_fails w.calls) (
        Follows-quiet w w (awaited o w) no_changes (Follows-none w v) (awaited-Moves o setting w v))
      where
        go :
            (fails : Bool)
            → Follows base whole w no_changes (awaited o w)
            → let r : UpsertOutcome × World =
                elim (if fails then none else some (find_by_ids (id ∷ ids) w.db)) [
                  | none ↦ (untouched no_changes, awaited o w)
                  | some clusters ↦ merge_into o chunks clusters (awaited o w)
                ] in
              Follows base whole w r.0.changes r.1
        go true quiet = quiet
        go false quiet =
            merge_into-Follows chunks (find_by_ids (id ∷ ids) w.db) w (awaited o w) quiet
              (unfold awaited in find_by_ids-below (id ∷ ids) w.db)
