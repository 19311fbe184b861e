-- ===== src/ClusterSync/Queueing.antt =====
-- api/src/services/cluster.rs: what the work queue says of the changes that it makes.
use cluster_mempool_observer.Base.{
  ℕ, zero, suc, Bool, true, false, ◌&&◌, List, [], ◌∷◌, map, Option, none, some, Txid, TxSet,
  contains, length, ◌==◌, Bool-cases, inl, inr, if◌then◌else◌, in_chunks,
}
use cluster_mempool_observer.Db.{ClusterChunk, Cluster, NewCluster, mempool_delta_insert_chunk_size}
use cluster_mempool_observer.Membership.{chunk_txids}
use cluster_mempool_observer.Membership.Lookup.{find_active_ids_by_txids}
use cluster_mempool_observer.DeltaSet.{ClusterDeltaSet}
use cluster_mempool_observer.ClusterSync.{
  Outside, World, NodeAnswer, grouped, not_found, node_error, awaited, query,
}
use cluster_mempool_observer.ClusterSync.Upsert.{mark_all, upsert, insert_each}
use cluster_mempool_observer.FlushWrite.{extend}
use cluster_mempool_observer.ClusterSync.Queue.{
  Round, asserting_absent, asserting_present, left_mempool, buffer, regroup, place, answered,
  ask_for, drain, insert_singletons, first_round, handle_candidates_covering,
}
use cluster_mempool_observer.ClusterSync.Moves.{
  IsSetting, IsKept, Moves, Follows, Follows-quiet, Follows-merge, Follows-none, awaited-Moves,
  asserting_absent-Moves, asserting_present-Moves,
}
use cluster_mempool_observer.ClusterSync.Saying.{rows_told}
use cluster_mempool_observer.ClusterSync.Writing.{outcome, insert_each-Moves}
use cluster_mempool_observer.ClusterSync.Following.{Follows-marked, upsert-Follows}

-- A round that has followed what happened since `w0`.
abbrev pub RoundFollows : TxSet → Type 0 → World → Round → Type 0
RoundFollows base whole w0 r = Follows base whole w0 r.changes r.world

module _ {base : TxSet} {whole : Type 0} (o : Outside) (setting : IsSetting o whole) where
  left_mempool-Follows :
      (w0 : World) (x : Txid) (r : Round)
      → RoundFollows base whole w0 r
      → RoundFollows base whole w0 (left_mempool o x r)
  unfolding left_mempool
  left_mempool-Follows w0 x r h =
      Follows-quiet w0 r.world (asserting_absent o x r.world) r.changes h
        (asserting_absent-Moves o x r.world h.moves.kept)

  buffer-Follows :
      (w0 : World) (txids : List Txid) (chunks : List ClusterChunk) (r : Round)
      → RoundFollows base whole w0 r
      → RoundFollows base whole w0 (buffer o txids chunks r)
  unfolding buffer
  buffer-Follows w0 [] chunks r h = h
  buffer-Follows w0 (x ∷ txids) chunks r h = h

  regroup-Follows :
      (w0 : World) (chunks : List ClusterChunk) (ids : List ℕ) (r : Round)
      → RoundFollows base whole w0 r
      → RoundFollows base whole w0 (regroup o chunks ids r)
  unfolding regroup
  regroup-Follows w0 chunks ids r h =
      Follows-merge w0 r.world (upsert o chunks ids r.world).1 r.changes
        (upsert o chunks ids r.world).0.changes h
        (upsert-Follows o setting chunks ids r.world h.moves.kept)

  place-Follows :
      (w0 : World) (chunks : List ClusterChunk) (r : Round)
      → RoundFollows base whole w0 r
      → RoundFollows base whole w0 (place o chunks r)
  unfolding place query
  place-Follows w0 chunks r h =
      let txids = chunk_txids chunks in
      let r' : Round = record r { world = awaited o r.world } in
      let h' : RoundFollows base whole w0 r' =
        Follows-quiet w0 r.world (awaited o r.world) r.changes h
          (awaited-Moves o setting r.world h.moves.kept) in
      let ids = find_active_ids_by_txids txids r.world.db in go r' ids (o.db_fails r.world.calls) h'
    where
      go :
          (r' : Round) (ids : List ℕ) (fails : Bool)
          → RoundFollows base whole w0 r'
          → RoundFollows base whole w0 (elim (if fails then none else some ids) [
            | none ↦ r'
            | some existing_ids ↦
                if length existing_ids == 0 && length (chunk_txids chunks) == 1
                then buffer o (chunk_txids chunks) chunks r'
                else regroup o chunks existing_ids r'
          ])
      go r' ids true h = h
      go r' ids false h = elim (Bool-cases (length ids == 0 && length (chunk_txids chunks) == 1)) [
        | inl single ↦ rw single (buffer-Follows w0 (chunk_txids chunks) chunks r' h)
        | inr group ↦ rw group (regroup-Follows w0 chunks ids r' h)
      ]

  answered-Follows :
      (w0 : World) (x : Txid) (answer : NodeAnswer) (r : Round)
      → RoundFollows base whole w0 r
      → RoundFollows base whole w0 (answered o x answer r)
  unfolding answered
  answered-Follows w0 x node_error r h = h
  answered-Follows w0 x not_found r h = left_mempool-Follows w0 x r h
  answered-Follows w0 x (grouped chunks) r h =
      let txids = chunk_txids chunks in
      elim (Bool-cases (length txids == 0)) [
        | inl empty ↦ rw empty (left_mempool-Follows w0 x r h)
        | inr group ↦ rw group (
            place-Follows w0 chunks
              (record r {
                out_of_mempool = extend txids r.out_of_mempool;
                world = asserting_present o txids r.world;
              })
              (Follows-quiet w0 r.world (asserting_present o txids r.world) r.changes h
                (asserting_present-Moves o txids r.world h.moves.kept)))
      ]

  pub ask_for-Follows :
      (w0 : World) (x : Txid) (r : Round)
      → RoundFollows base whole w0 r
      → RoundFollows base whole w0 (ask_for o x r)
  unfolding ask_for
  ask_for-Follows w0 x r h = elim (Bool-cases (contains x r.out_of_mempool)) [
    | inl out ↦ rw out h
    | inr unknown ↦ rw unknown (
        answered-Follows w0 x (o.get_mempool_cluster r.world.calls x)
          (record r { world = awaited o r.world })
          (Follows-quiet w0 r.world (awaited o r.world) r.changes h
            (awaited-Moves o setting r.world h.moves.kept)))
  ]

  drain-Follows :
      (w0 : World) (fuel : ℕ) (r : Round)
      → RoundFollows base whole w0 r
      → RoundFollows base whole w0 (drain o fuel r)
  unfolding drain
  drain-Follows w0 zero r h = h
  drain-Follows w0 (suc fuel) r h = go r.pending (λ x rest.
      drain-Follows w0 fuel (ask_for o x (record r { pending = rest }))
        (ask_for-Follows w0 x (record r { pending = rest }) h))
    where
      go :
          (pending : List Txid)
          → ((x : Txid) (rest : List Txid)
              → RoundFollows base whole w0
                  (drain o fuel (ask_for o x (record r { pending = rest }))))
          → RoundFollows base whole w0 (elim pending [
            | [] ↦ r
            | x ∷ rest ↦ drain o fuel (ask_for o x (record r { pending = rest }))
          ])
      go [] next = h
      go (x ∷ rest) next = next x rest

  insert_singletons-Follows :
      (w0 : World) (r : Round)
      → RoundFollows base whole w0 r
      → let p = insert_singletons o r in Follows base whole w0 p.0 p.1
  unfolding insert_singletons
  insert_singletons-Follows w0 r h =
      let batches =
        in_chunks mempool_delta_insert_chunk_size
          (map (λ (entry : Txid × NewCluster). entry.1) r.fresh_singletons) in
      let done = insert_each o batches r.world in
      go done.0 done.1 (insert_each-Moves o setting batches r.world h.moves.kept)
    where
      go :
          (rows : Option (List Cluster)) (w : World)
          → Moves base whole r.world (outcome rows_told rows) w
          → let p : ClusterDeltaSet × World = elim rows [
            | none ↦ (r.changes, w)
            | some clusters ↦ (mark_all clusters r.changes, w)
          ] in
            Follows base whole w0 p.0 p.1
      go none w m = Follows-quiet w0 r.world w r.changes h m
      go (some rows) w m = Follows-marked w0 r.world w rows r.changes h m

  pub handle_candidates_covering-Follows :
      (fuel : ℕ) (candidates : List Txid) (out_of_mempool : TxSet) (w : World)
      → IsKept base w
      → let p = handle_candidates_covering o fuel candidates out_of_mempool w in
        Follows base whole w p.0 p.1
  unfolding handle_candidates_covering
  handle_candidates_covering-Follows fuel candidates out_of_mempool w v =
      let r = first_round o candidates out_of_mempool w in
      insert_singletons-Follows w (drain o fuel r) (drain-Follows w fuel r (Follows-none w v))
