-- ===== src/ClusterSync/Draining.antt =====
-- api/src/services/cluster.rs: the end of the work queue of `handle_candidates_covering`.
use cluster_mempool_observer.Base.{
  ℕ, zero, suc, ◌<◌, ◌≤◌, ◌≡◌, refl, sym, ◌∙◌, ap, List, [], ◌∷◌, ◌++◌, arith, Txid, TxSet,
  contains-append, length, inl, inr,
}
use cluster_mempool_observer.ClusterSync.{Outside, World}
use cluster_mempool_observer.ClusterSync.Queue.{Round, ask_for, drain, first_round}
use cluster_mempool_observer.ClusterSync.Holding.{row_txids, Within}
use cluster_mempool_observer.ClusterSync.Asking.{
  AnswersHold, known, left, IsCovered, ask_for-Progress,
}

-- Enough fuel empties the queue, and more of it changes nothing.
pub record Ends (o : Outside) (r : Round) : Type 0 where
  pub fuel : ℕ
  pub emptied : (drain o fuel r).pending ≡ []
  pub stable : (more : ℕ) → fuel ≤ more → drain o more r ≡ drain o fuel r

drain-unmoved : (o : Outside) (fuel : ℕ) (r : Round) → r.pending ≡ [] → drain o fuel r ≡ r
unfolding drain
drain-unmoved o zero r empty = refl
drain-unmoved o (suc fuel) r empty = rw empty refl

drain-step :
    (o : Outside) (fuel : ℕ) (r : Round) (x : Txid) (rest : List Txid)
    → r.pending ≡ x ∷ rest
    → drain o (suc fuel) r ≡ drain o fuel (ask_for o x (record r { pending = rest }))
unfolding drain
drain-step o fuel r x rest e = rw e refl

idle-Ends : (o : Outside) (r : Round) → r.pending ≡ [] → Ends o r
idle-Ends o r empty = record {
  fuel = 0;
  emptied = ap (λ (q : Round). q.pending) (drain-unmoved o 0 r empty) ∙ empty;
  stable = λ m enough. drain-unmoved o m r empty ∙ sym (drain-unmoved o 0 r empty);
}

step-Ends :
    (o : Outside) (r : Round) (x : Txid) (rest : List Txid)
    → r.pending ≡ x ∷ rest
    → Ends o (ask_for o x (record r { pending = rest }))
    → Ends o r
step-Ends o r x rest e next = record {
  fuel = suc next.fuel;
  emptied = ap (λ (q : Round). q.pending) (drain-step o next.fuel r x rest e) ∙ next.emptied;
  stable = go;
}
  where
    go : (m : ℕ) → suc next.fuel ≤ m → drain o m r ≡ drain o (suc next.fuel) r
    go zero enough = absurd (omega arith)
    go (suc m) enough =
        drain-step o m r x rest e
        ∙ next.stable m (omega arith)
        ∙ sym (drain-step o next.fuel r x rest e)

module _ (o : Outside) (universe : List Txid) (holds : AnswersHold o) where
  abbrev EndsBelow : ℕ → Type 0
  EndsBelow k = (r : Round) → left r.out_of_mempool universe < k → IsCovered universe r → Ends o r

  -- By the length of the queue, while as much is left to ask for.
  queue-Ends :
      (k m : ℕ) (r : Round)
      → EndsBelow k
      → left r.out_of_mempool universe ≤ k
      → length r.pending ≤ m
      → IsCovered universe r
      → Ends o r
  queue-Ends k zero r below few short c = idle-Ends o r (nobody r.pending short)
    where
      nobody : (xs : List Txid) → length xs ≤ 0 → xs ≡ []
      nobody [] h = refl
      nobody (x ∷ xs) h = absurd (omega arith)
  queue-Ends k (suc m) r below few short c = go r.pending refl (λ r'. queue-Ends k m r' below)
    where
      go :
          (pending : List Txid)
          → r.pending ≡ pending
          → ((r' : Round)
              → left r'.out_of_mempool universe ≤ k
              → length r'.pending ≤ m
              → IsCovered universe r'
              → Ends o r')
          → Ends o r
      go [] e next = idle-Ends o r e
      go (x ∷ rest) e next =
          let waits : Within (known universe r.out_of_mempool) (x ∷ rest) = rw e at c.queue in
          let room : suc (length rest) ≤ suc m = rw e at short in
          let popped : Round = record r { pending = rest } in
          let step =
            ask_for-Progress o universe x popped holds
              (record { tables = c.tables; queue = λ y h. waits y (ground arith) })
              (waits x (ground arith)) in
          step-Ends o r x rest e (elim step.moves [
            | inl (same, queue) ↦
                next (ask_for o x popped) (rw same few) (rw queue (omega arith)) step.covered
            | inr less ↦ below (ask_for o x popped) (omega arith) step.covered
          ])

  all-EndsBelow : (k : ℕ) → EndsBelow k
  all-EndsBelow zero r less c = absurd (omega arith)
  all-EndsBelow (suc k) r less c =
      queue-Ends k (length r.pending) r (all-EndsBelow k) (omega arith) (omega arith) c

-- If the node's answers hold the transaction asked for, the queue of a round ends, whatever the tables
-- hold, whatever the database refuses and whoever else the node names: some fuel empties it, and more
-- fuel gives the same round.
pub drain-Ends :
    (o : Outside) (candidates : List Txid) (out_of_mempool : TxSet) (w : World)
    → AnswersHold o
    → Ends o (first_round o candidates out_of_mempool w)
drain-Ends o candidates out_of_mempool w holds =
    let rows = row_txids w.db.cluster_chunks in
    let r = first_round o candidates out_of_mempool w in
    all-EndsBelow o (candidates ++ rows) holds (suc (left out_of_mempool (candidates ++ rows))) r
      (omega arith)
      (record {
        tables = λ y m. ground (arith, contains-append y candidates rows);
        queue = λ y m. ground (arith, contains-append y candidates rows);
      })
