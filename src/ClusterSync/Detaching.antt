-- ===== src/ClusterSync/Detaching.antt =====
-- api/src/services/cluster.rs: the txids that `upsert` writes and detaches.
use cluster_mempool_observer.Base.{
  ℕ, Bool, true, false, not, ◌≡◌, List, [], ◌∷◌, Option, none, some, arith, Txid, Time, contains,
  keep, length, ◌==◌, Bool-cases, inl, inr, if◌then◌else◌,
}
use cluster_mempool_observer.Db.{ClusterChunk, Cluster, Database}
use cluster_mempool_observer.Membership.{
  ClusterVersionUpdate, as_merged, close_many, replace_chunks, chunk_txids,
}
use cluster_mempool_observer.Membership.Insertion.{insert_in}
use cluster_mempool_observer.Membership.Loading.{find_by_ids}
use cluster_mempool_observer.DeltaSet.{ClusterDeltaSet, no_changes, merge_removed, mark_upserted}
use cluster_mempool_observer.ClusterSync.{Outside, World, awaited, query, transact}
use cluster_mempool_observer.ClusterSync.Upsert.{
  UpsertOutcome, untouched, new_cluster, mark_all, earliest, members_of, other_ids, replace_into,
  merge_into, upsert,
}
use cluster_mempool_observer.ClusterSync.Moves.{transact-cases}
use cluster_mempool_observer.ClusterSync.Holding.{
  Within, Holds, Within-keep, close_many-Holds, replace_chunks-Holds, insert_in-Holds,
  find_by_ids-Within,
}

module _ (o : Outside) (p : Txid → Bool) where
  transact-Holds {ℓ} :
      {A : Type ℓ} (f : Time → Database → Option (Database × A)) (w : World)
      → Holds p w.db
      → ((now : Time) (r : Database × A) → f now w.db ≡ some r → Holds p r.0)
      → Holds p (transact o f w).1.db
  unfolding awaited
  transact-Holds f w h step = elim (transact-cases o f w) [
    | inl failed ↦ rw failed h
    | inr (r, e, done) ↦ rw done (step (o.now w.calls) r e)
  ]

  pub awaited-Holds : (w : World) → Holds p w.db → Holds p (awaited o w).db
  unfolding awaited
  awaited-Holds w h = h

  replace_into-Holds :
      (chunks : List ClusterChunk) (keep_id : ℕ) (detached : List Txid) (changes : ClusterDeltaSet)
      (w : World)
      → Within p (chunk_txids chunks)
      → Within p detached
      → Holds p w.db
      → let r = replace_into o chunks keep_id detached changes w in
        Holds p r.1.db × Within p r.0.detached
  unfolding replace_into
  replace_into-Holds chunks keep_id detached changes w new d h =
      let update : ClusterVersionUpdate = record { cluster_id = keep_id; chunks = chunks } in
      let r = transact o (λ now db. replace_chunks now update db) w in
      go r.0 r.1 (
        transact-Holds (λ now db. replace_chunks now update db) w h
          (λ now q e. replace_chunks-Holds p now update w.db q new h e))
    where
      go :
          (updated : Option Cluster) (w' : World)
          → Holds p w'.db
          → let r : UpsertOutcome × World = elim updated [
            | none ↦ (record { changes = changes; detached = detached }, w')
            | some row ↦ (record { changes = mark_upserted row changes; detached = detached }, w')
          ] in
            Holds p r.1.db × Within p r.0.detached
      go none w' k = (k, d)
      go (some row) w' k = (k, d)

  merge_into-Holds :
      (chunks : List ClusterChunk) (existing : List Cluster) (w : World)
      → Within p (chunk_txids chunks)
      → Within p (members_of existing)
      → Holds p w.db
      → let r = merge_into o chunks existing w in Holds p r.1.db × Within p r.0.detached
  unfolding merge_into
  merge_into-Holds chunks [] w new old h = (h, λ x m. absurd (ground arith))
  merge_into-Holds chunks (c ∷ cs) w new old h =
      let keep_id = (earliest c cs).id in
      let others = other_ids keep_id (c ∷ cs) in
      let r = transact o (λ now db. some (close_many now as_merged others db)) w in
      elim (Bool-cases (length others == 0)) [
        | inl alone ↦ rw alone (replace_into-Holds chunks keep_id _ no_changes w new d h)
        | inr several ↦ rw several (
            go keep_id others r.0 r.1 (
              transact-Holds (λ now db. some (close_many now as_merged others db)) w h
                (λ now q e.
                  let same : q ≡ close_many now as_merged others w.db = cc in
                  rw same (close_many-Holds p now as_merged others w.db h))))
      ]
    where
      detached : List Txid
      detached = keep (λ x. not (contains x (chunk_txids chunks))) (members_of (c ∷ cs))

      d : Within p detached
      d = Within-keep p (λ x. not (contains x (chunk_txids chunks))) (members_of (c ∷ cs)) old

      go :
          (keep_id : ℕ) (others : List ℕ) (closed : Option ℕ) (w' : World)
          → Holds p w'.db
          → let r : UpsertOutcome × World = elim closed [
            | none ↦ (untouched no_changes, w')
            | some _ ↦ replace_into o chunks keep_id detached (merge_removed others no_changes) w'
          ] in
            Holds p r.1.db × Within p r.0.detached
      go keep_id others none w' k = (k, λ x m. absurd (ground arith))
      go keep_id others (some _) w' k =
          replace_into-Holds chunks keep_id detached (merge_removed others no_changes) w' new d k

  pub upsert-Holds :
      (chunks : List ClusterChunk) (ids : List ℕ) (w : World)
      → Within p (chunk_txids chunks)
      → Holds p w.db
      → let r = upsert o chunks ids w in Holds p r.1.db × Within p r.0.detached
  unfolding upsert query
  upsert-Holds chunks [] w new h =
      let c = new_cluster (o.now w.calls) chunks in
      let r = transact o (λ now db. some (insert_in now (c ∷ []) db)) w in
      go r.0 r.1 (
        transact-Holds (λ now db. some (insert_in now (c ∷ []) db)) w h
          (λ now q e.
            let same : q ≡ insert_in now (c ∷ []) w.db = cc in
            rw same (insert_in-Holds p now c w.db new h)))
    where
      go :
          (inserted : Option (List Cluster)) (w' : World)
          → Holds p w'.db
          → let r : UpsertOutcome × World = elim inserted [
            | none ↦ (untouched no_changes, w')
            | some rows ↦ (untouched (mark_all rows no_changes), w')
          ] in
            Holds p r.1.db × Within p r.0.detached
      go none w' k = (k, λ x m. absurd (ground arith))
      go (some rows) w' k = (k, λ x m. absurd (ground arith))
  upsert-Holds chunks (id ∷ ids) w new h = go (o.db_fails w.calls) (awaited-Holds w h)
    where
      go :
          (fails : Bool)
          → Holds p (awaited o w).db
          → let r : UpsertOutcome × World =
              elim (if fails then none else some (find_by_ids (id ∷ ids) w.db)) [
                | none ↦ (untouched no_changes, awaited o w)
                | some clusters ↦ merge_into o chunks clusters (awaited o w)
              ] in
            Holds p r.1.db × Within p r.0.detached
      go true k = (k, λ x m. absurd (ground arith))
      go false k =
          merge_into-Holds chunks (find_by_ids (id ∷ ids) w.db) (awaited o w) new
            (find_by_ids-Within p (id ∷ ids) w.db h) k
