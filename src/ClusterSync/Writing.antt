-- ===== src/ClusterSync/Writing.antt =====
-- api/src/services/cluster.rs: the transactions of a round, one by one.
use cluster_mempool_observer.Base.{
  ℕ, ◌<◌, Bool, true, false, ◌≡◌, refl, sym, ◌∙◌, ap, List, [], ◌∷◌, map, Option, none, some, arith,
  Time, TxSet, contains, ◌==◌, inl, inr, if◌then◌else◌,
}
use cluster_mempool_observer.Db.{Cluster, NewCluster, Database}
use cluster_mempool_observer.Membership.{
  ClusterVersionUpdate, replace_chunks, ClusterClosing, close_many, confirm_many_in,
  trim_and_confirm_many,
}
use cluster_mempool_observer.Membership.Soundness.{confirm_many_in-IsSoundBut}
use cluster_mempool_observer.Membership.Operations.{
  close_many-IsSound, replace_chunks-IsSound, trim_and_confirm_many-IsSound,
}
use cluster_mempool_observer.Membership.Linking.{
  close_many-IsLinked, replace_chunks-IsLinked, trim_and_confirm_many-IsLinked,
  confirm_many_in-IsLinked,
}
use cluster_mempool_observer.Membership.Arrivals.{insert_in-IsLinked}
use cluster_mempool_observer.Membership.Insertion.{insert_in, insert_in-IsSound}
use cluster_mempool_observer.Membership.Activity.{
  shown, active_at, close_many-active_at, confirm_many_in-active_at, replace_chunks_in-active_at,
}
use cluster_mempool_observer.Membership.Outcome.{
  insert_in-active_at, trim_and_confirm_many-active_at,
}
use cluster_mempool_observer.Membership.Ids.{
  close_many-next, confirm_many_in-next, replace_chunks_in-next, trim_and_confirm_many-next,
}
use cluster_mempool_observer.DeltaSet.Told.{Told, silent, at_id, verdict, among, value}
use cluster_mempool_observer.ClusterSync.{Outside, World, awaited, committed, transact}
use cluster_mempool_observer.ClusterSync.Upsert.{with_rows, after_batch, insert_each}
use cluster_mempool_observer.ClusterSync.Moves.{
  IsSetting, IsKept, IsTrue, Moves, Moves-later, Moves-same, Moves-told, commit-Moves,
  awaited-Moves, transact-cases,
}
use cluster_mempool_observer.ClusterSync.Saying.{
  value-among, loud-among, value-verdict, loud-at_id, rows_told, rows_told-append, value-rows_told,
  rows_told-fresh, loud-rows_told,
}

-- Every id was handed out.
abbrev pub AllBelow : ℕ → List ℕ → Type 0
AllBelow n ids = (id : ℕ) → contains id ids ≡ true → id < n

abbrev is_some {ℓ} : {A : Type ℓ} → Option A → Bool
is_some none = false
is_some (some a) = true

-- A transaction that gives clusters says `says` of them.
abbrev pub outcome {ℓ} : {A : Type ℓ} → (A → ℕ → Told) → Option A → ℕ → Told
outcome says none id = silent
outcome says (some a) id = says a id

insert_each-completes :
    (o : Outside) (batches : List (List NewCluster)) (w : World)
    → ((n : ℕ) → o.db_fails n ≡ false)
    → is_some (insert_each o batches w).0 ≡ true
unfolding insert_each transact insert_in
insert_each-completes o [] w all = refl
insert_each-completes o (batch ∷ batches) w all =
    go (o.db_fails w.calls) (all w.calls) (λ w'. insert_each-completes o batches w' all)
  where
    go :
        (fails : Bool)
        → fails ≡ false
        → ((w' : World) → is_some (insert_each o batches w').0 ≡ true)
        → let r =
            committed
              (awaited o w)
              (if fails then none else some (insert_in (o.now w.calls) batch w.db)) in
          is_some (after_batch r.0 r.1 (insert_each o batches r.1)).0 ≡ true
    go true e next = absurd (ground arith)
    go false e next = some_more _ _ (next _)
      where
        some_more :
            (rows : List Cluster) (more : Option (List Cluster))
            → is_some more ≡ true
            → is_some (with_rows rows more) ≡ true
        some_more rows none h = h
        some_more rows (some more) h = h

module _ {base : TxSet} {whole : Type 0} (o : Outside) (setting : IsSetting o whole) where
  transact-Moves {ℓ} :
      {A : Type ℓ} (f : Time → Database → Option (Database × A)) (says : A → ℕ → Told) (w : World)
      → IsKept base w
      → ((now : Time) (r : Database × A)
          → f now w.db ≡ some r
          → Moves base whole w (says r.1) (record (awaited o w) { db = r.0 }))
      → Moves base whole w (outcome says (transact o f w).0) (transact o f w).1
  transact-Moves f says w v step = elim (transact-cases o f w) [
    | inl failed ↦ rw failed (awaited-Moves o setting w v)
    | inr (r, e, done) ↦ rw done (step (o.now w.calls) r e)
  ]

  pub close-Moves :
      (how : ClusterClosing) (ids : List ℕ) (w : World)
      → IsKept base w
      → AllBelow w.db.next_cluster_id ids
      → Moves base whole w
          (outcome (λ _. among ids) (transact o (λ now db. some (close_many now how ids db)) w).0)
          (transact o (λ now db. some (close_many now how ids db)) w).1
  close-Moves how ids w v below =
      transact-Moves (λ now db. some (close_many now how ids db)) (λ _. among ids) w v
        (λ now r e.
          let same : r ≡ close_many now how ids w.db = cc in
          let next = close_many-next now how ids w.db in
          rw same (
            commit-Moves o setting w (close_many now how ids w.db).0 (among ids) v
              (close_many-IsSound now how ids w.db v.sound)
              (close_many-IsLinked now how ids w.db v.linked) (rw next (omega arith))
              (λ id.
                close_many-active_at [] now how ids w.db id v.sound
                ∙ sym (value-among ids id (active_at w.db id)))
              (λ id loud. rw next (below id (loud-among ids id loud)))))

  pub confirm-Moves :
      (confirmed_at : Time) (ids : List ℕ) (w : World)
      → IsKept base w
      → AllBelow w.db.next_cluster_id ids
      → Moves base whole w
          (outcome
            (λ _. among ids)
            (transact o (λ now db. some (confirm_many_in now confirmed_at ids db)) w).0)
          (transact o (λ now db. some (confirm_many_in now confirmed_at ids db)) w).1
  confirm-Moves confirmed_at ids w v below =
      transact-Moves (λ now db. some (confirm_many_in now confirmed_at ids db)) (λ _. among ids) w v
        (λ now r e.
          let same : r ≡ confirm_many_in now confirmed_at ids w.db = cc in
          let next = confirm_many_in-next now confirmed_at ids w.db in
          rw same (
            commit-Moves o setting w (confirm_many_in now confirmed_at ids w.db).0 (among ids) v
              (confirm_many_in-IsSoundBut [] now confirmed_at ids w.db v.sound)
              (confirm_many_in-IsLinked now confirmed_at ids w.db v.linked) (rw next (omega arith))
              (λ id.
                confirm_many_in-active_at [] now confirmed_at ids w.db id v.sound
                ∙ sym (value-among ids id (active_at w.db id)))
              (λ id loud. rw next (below id (loud-among ids id loud)))))

  pub trim-Moves :
      (confirmed_at : Time) (updates : List ClusterVersionUpdate) (w : World)
      → IsKept base w
      → AllBelow w.db.next_cluster_id (map (λ u. u.cluster_id) updates)
      → Moves base whole w
          (outcome
            (λ _. among (map (λ u. u.cluster_id) updates))
            (transact o (λ now db. trim_and_confirm_many now confirmed_at updates db) w).0)
          (transact o (λ now db. trim_and_confirm_many now confirmed_at updates db) w).1
  trim-Moves confirmed_at updates w v below =
      let ids = map (λ (u : ClusterVersionUpdate). u.cluster_id) updates in
      transact-Moves (λ now db. trim_and_confirm_many now confirmed_at updates db) (λ _. among ids)
        w v
        (λ now r e.
          let next = trim_and_confirm_many-next now confirmed_at updates w.db r e in
          commit-Moves o setting w r.0 (among ids) v
            (trim_and_confirm_many-IsSound now confirmed_at updates w.db r v.sound e).0
            (trim_and_confirm_many-IsLinked now confirmed_at updates w.db r v.linked e)
            (rw next (omega arith))
            (λ id.
              trim_and_confirm_many-active_at now confirmed_at updates w.db r id v.sound e
              ∙ sym (value-among ids id (active_at w.db id)))
            (λ id loud. rw next (below id (loud-among ids id loud))))

  pub replace-Moves :
      (update : ClusterVersionUpdate) (w : World)
      → IsKept base w
      → update.cluster_id < w.db.next_cluster_id
      → Moves base whole w
          (outcome
            (λ row. at_id row.id (verdict row))
            (transact o (λ now db. replace_chunks now update db) w).0)
          (transact o (λ now db. replace_chunks now update db) w).1
  unfolding replace_chunks
  replace-Moves update w v below =
      transact-Moves (λ now db. replace_chunks now update db) (λ row. at_id row.id (verdict row)) w
        v
        (λ now r e.
          let next = replace_chunks_in-next now update true w.db r e in
          commit-Moves o setting w r.0 (at_id r.1.id (verdict r.1)) v
            (replace_chunks-IsSound now update w.db r v.sound e)
            (replace_chunks-IsLinked now update w.db r v.linked e) (rw next.0 (omega arith))
            (λ id.
              replace_chunks_in-active_at [] now update true w.db r id v.sound e
              ∙ ap (λ i. if id == i then shown r.1 else active_at w.db id) (sym next.1)
              ∙ sym (value-verdict r.1 id (active_at w.db id)))
            (λ id loud.
              let hit = loud-at_id r.1.id id (verdict r.1) loud in
              let e1 = next.0 in let e2 = next.1 in ground arith))

  pub insert-Moves :
      (new : List NewCluster) (w : World)
      → IsKept base w
      → Moves base whole w
          (outcome rows_told (transact o (λ now db. some (insert_in now new db)) w).0)
          (transact o (λ now db. some (insert_in now new db)) w).1
  unfolding insert_in
  insert-Moves new w v =
      transact-Moves (λ now db. some (insert_in now new db)) rows_told w v
        (λ now r e.
          let same : r ≡ insert_in now new w.db = cc in
          rw same (
            commit-Moves o setting w (insert_in now new w.db).0
              (rows_told (insert_in now new w.db).1) v (insert_in-IsSound now new w.db v.sound)
              (insert_in-IsLinked now new w.db v.sound v.linked) (omega arith)
              (λ id.
                insert_in-active_at now new w.db id v.sound
                ∙ sym (value-rows_told (insert_in now new w.db).1 id (active_at w.db id)))
              (λ id loud. loud-rows_told id w.db.next_cluster_id new loud)))

  -- Of the clusters that were there, an insertion says nothing.
  forget_news :
      (new : List NewCluster) (w w1 : World)
      → ¬ whole
      → Moves base whole w
          (outcome rows_told (transact o (λ now db. some (insert_in now new db)) w).0)
          w1
      → Moves base whole w (λ id. silent) w1
  unfolding insert_in
  forget_news new w w1 failing h = record {
    kept = h.kept;
    grows = h.grows;
    tells = λ id. record {
      old = λ known. elim (transact-cases o (λ now db. some (insert_in now new db)) w) [
        | inl failed ↦ (rw failed at (h.tells id)).old known
        | inr (r, e, done) ↦
            let t : IsTrue whole w.db w1.db id (rows_told r.1 id) = rw done at (h.tells id) in
            let same : r ≡ insert_in (o.now w.calls) new w.db = cc in
            let below : id < w.db.next_cluster_id = elim known [
              | inl there ↦ there
              | inr all ↦ absurd (failing all)
            ] in
            let fresh = rows_told-fresh id w.db.next_cluster_id new below in
            t.old known
            ∙ ap (λ s. value s (active_at w.db id))
                (ap (λ (p : Database × List Cluster). rows_told p.1 id) same ∙ fresh)
      ];
      loud = λ l. absurd (ground arith);
    };
    same_snapshot = h.same_snapshot;
  }

  pub insert_each-Moves :
      (batches : List (List NewCluster)) (w : World)
      → IsKept base w
      → Moves base whole w
          (outcome rows_told (insert_each o batches w).0)
          (insert_each o batches w).1
  unfolding insert_each
  insert_each-Moves [] w v = Moves-same w w v refl refl v.consistent
  insert_each-Moves (batch ∷ batches) w v =
      let first = transact o (λ now db. some (insert_in now batch db)) w in
      let one = insert-Moves batch w v in
      let rest = insert_each-Moves batches first.1 one.kept in
      go first.0 (insert_each o batches first.1).0 one rest
        (λ all. insert_each-completes o batches first.1 (setting.reliable all))
        (λ failing. forget_news batch w first.1 failing one)
    where
      w1 : World
      w1 = (transact o (λ now db. some (insert_in now batch db)) w).1

      w2 : World
      w2 = (insert_each o batches w1).1

      go :
          (a b : Option (List Cluster))
          → Moves base whole w (outcome rows_told a) w1
          → Moves base whole w1 (outcome rows_told b) w2
          → (whole → is_some b ≡ true)
          → (¬ whole → Moves base whole w (λ id. silent) w1)
          → let r : Option (List Cluster) × World = after_batch a w1 (b, w2) in
            Moves base whole w (outcome rows_told r.0) r.1
      go none b one rest completes quiet = one
      go (some rows) none one rest completes quiet =
          Moves-later w w1 w2 (λ id. silent) (λ id. silent)
            (quiet (λ all. let c : false ≡ true = completes all in absurd (ground arith))) rest
      go (some rows) (some more) one rest completes quiet =
          Moves-told w w2 _ _ (λ id. sym (rows_told-append rows more id))
            (Moves-later w w1 w2 (rows_told rows) (rows_told more) one rest)
