-- ===== src/ClusterSync/Confirming.antt =====
-- api/src/services/cluster.rs: what the rounds for mined transactions say of the changes that they make.
use cluster_mempool_observer.Base.{
  ℕ, Bool, true, false, not, ◌||◌, ◌≡◌, refl, List, [], ◌∷◌, map, Option, none, some, arith, Txid,
  TxSet, contains, keep, length, ◌==◌, Bool-cases, inl, inr, if◌then◌else◌,
}
use cluster_mempool_observer.Db.{Cluster}
use cluster_mempool_observer.Membership.{confirm_many_in, trim_and_confirm_many}
use cluster_mempool_observer.Membership.Loading.{ids_of}
use cluster_mempool_observer.DeltaSet.{ClusterDeltaSet, no_changes, merge_removed, merge}
use cluster_mempool_observer.DeltaSet.Told.{silent, among}
use cluster_mempool_observer.Mined.{MinedBlock, MinedTrim, mined_trim, as_update, is_full, by_block}
use cluster_mempool_observer.ClusterSync.{Outside, World, awaited, query, transact}
use cluster_mempool_observer.ClusterSync.Upsert.{members_of}
use cluster_mempool_observer.ClusterSync.Queue.{handle_candidates}
use cluster_mempool_observer.ClusterSync.Rounds.{
  load_containing, confirm_full, confirm_partial, confirm_mined_inner, confirm_blocks,
  handle_confirmed, pending_of, find_mined_by_txids,
}
use cluster_mempool_observer.ClusterSync.Moves.{
  IsSetting, IsKept, Moves, Follows, Follows-after, Follows-quiet, Follows-merge, Follows-none,
  awaited-Moves,
}
use cluster_mempool_observer.ClusterSync.Writing.{AllBelow, outcome, confirm-Moves, trim-Moves}
use cluster_mempool_observer.ClusterSync.Following.{Follows-closed}
use cluster_mempool_observer.ClusterSync.Queueing.{handle_candidates_covering-Follows}
use cluster_mempool_observer.ClusterSync.Closing.{LoadedBelow, load_containing-Moves}

keep-found :
    (p : Cluster → Bool) (cs : List Cluster) (id : ℕ)
    → contains id (ids_of (keep p cs)) ≡ true
    → contains id (ids_of cs) ≡ true
keep-found p [] id h = h
keep-found p (c ∷ cs) id h = elim (Bool-cases (p c)) [
  | inl hit ↦
      let m : (id == c.id || contains id (ids_of (keep p cs))) ≡ true = rw hit at h in
      ground (arith, keep-found p cs id)
  | inr miss ↦
      let m : contains id (ids_of (keep p cs)) ≡ true = rw miss at h in
      ground (arith, keep-found p cs id m)
]

trims-ids :
    (block : MinedBlock) (cs : List Cluster)
    → map (λ (t : MinedTrim). t.cluster_id) (map (λ c. mined_trim c block) cs) ≡ ids_of cs
unfolding mined_trim
trims-ids block [] = refl
trims-ids block (c ∷ cs) = rw (trims-ids block cs) refl

updates-ids :
    (trims : List MinedTrim)
    → map (λ u. u.cluster_id) (map as_update trims) ≡ map (λ (t : MinedTrim). t.cluster_id) trims
updates-ids [] = refl
updates-ids (t ∷ ts) = rw (updates-ids ts) refl

module _ {base : TxSet} {whole : Type 0} (o : Outside) (setting : IsSetting o whole) where
  confirm_full-Follows :
      (block : MinedBlock) (ids : List ℕ) (w : World)
      → IsKept base w
      → AllBelow w.db.next_cluster_id ids
      → let p = confirm_full o block ids w in Follows base whole w p.0 p.1
  unfolding confirm_full
  confirm_full-Follows block ids w v below =
      let r = transact o (λ now db. some (confirm_many_in now block.confirmed_at ids db)) w in
      elim (Bool-cases (length ids == 0)) [
        | inl nobody ↦ rw nobody (Follows-none w v)
        | inr busy ↦ rw busy (go r.0 r.1 (confirm-Moves o setting block.confirmed_at ids w v below))
      ]
    where
      go :
          (done : Option ℕ) (w' : World)
          → Moves base whole w (outcome (λ _. among ids) done) w'
          → let p : ClusterDeltaSet × World = elim done [
            | none ↦ (no_changes, w')
            | some _ ↦ (merge_removed ids no_changes, w')
          ] in
            Follows base whole w p.0 p.1
      go none w' m = Follows-quiet w w w' no_changes (Follows-none w v) m
      go (some _) w' m = Follows-closed w w w' ids no_changes (Follows-none w v) m

  confirm_partial-Follows :
      (fuel : ℕ) (block : MinedBlock) (trims : List MinedTrim) (changes : ClusterDeltaSet)
      (w0 w : World)
      → Follows base whole w0 changes w
      → AllBelow w.db.next_cluster_id (map (λ t. t.cluster_id) trims)
      → let p = confirm_partial o fuel block trims changes w in Follows base whole w0 p.0 p.1
  unfolding confirm_partial
  confirm_partial-Follows fuel block trims changes w0 w h below =
      let updates = map as_update trims in
      let r = transact o (λ now db. trim_and_confirm_many now block.confirmed_at updates db) w in
      let m =
        trim-Moves o setting block.confirmed_at updates w h.moves.kept
          (rw (updates-ids trims) below) in
      elim (Bool-cases (length trims == 0)) [
        | inl nobody ↦ rw nobody h
        | inr busy ↦ rw busy (go r.0 r.1 (rw (updates-ids trims) at m))
      ]
    where
      ids : List ℕ
      ids = map (λ (t : MinedTrim). t.cluster_id) trims

      go :
          (done : Option ℕ) (w' : World)
          → Moves base whole w (outcome (λ _. among ids) done) w'
          → let again = handle_candidates o fuel (pending_of trims) w' in
            let p : ClusterDeltaSet × World = elim done [
              | none ↦ (changes, w')
              | some _ ↦ (merge (merge_removed ids changes) again.0, again.1)
            ] in
            Follows base whole w0 p.0 p.1
      go none w' m = Follows-quiet w0 w w' changes h m
      go (some _) w' m =
          let again = handle_candidates o fuel (pending_of trims) w' in
          Follows-merge w0 w' again.1 (merge_removed ids changes) again.0
            (Follows-closed w0 w w' ids changes h m)
            (handle_candidates_covering-Follows o setting fuel (pending_of trims) [] w' m.kept)

  pub confirm_mined_inner-Follows :
      (fuel : ℕ) (block : MinedBlock) (w : World)
      → IsKept base w
      → let p = confirm_mined_inner o fuel block w in Follows base whole w p.0 p.1
  unfolding confirm_mined_inner
  confirm_mined_inner-Follows fuel block w v =
      let r = load_containing o block.txids w in
      let (m, below) = load_containing-Moves o setting block.txids w v in go r.0 r.1 m below
    where
      split :
          (clusters : List Cluster) (w1 : World)
          → Moves base whole w (λ id. silent) w1
          → AllBelow w1.db.next_cluster_id (ids_of clusters)
          → let full = confirm_full o block (ids_of (keep (is_full block) clusters)) w1 in
            let partial = keep (λ c. not (is_full block c)) clusters in
            let p =
              confirm_partial o fuel block (map (λ c. mined_trim c block) partial) full.0 full.1 in
            Follows base whole w p.0 p.1
      split clusters w1 m below =
          let full = confirm_full o block (ids_of (keep (is_full block) clusters)) w1 in
          let partial = keep (λ c. not (is_full block c)) clusters in
          let first =
            confirm_full-Follows block (ids_of (keep (is_full block) clusters)) w1 m.kept
              (λ id k. below id (keep-found (is_full block) clusters id k)) in
          let up = first.moves.grows in
          confirm_partial-Follows fuel block (map (λ c. mined_trim c block) partial) full.0 w full.1
            (Follows-after w w1 full.1 full.0 m first)
            (rw (trims-ids block partial) (λ id k.
              let low = below id (keep-found (λ c. not (is_full block c)) clusters id k) in
              omega arith))

      go :
          (clusters : Option (List Cluster)) (w1 : World)
          → Moves base whole w (λ id. silent) w1
          → LoadedBelow w1.db.next_cluster_id clusters
          → let found : List Cluster = elim clusters [ none ↦ [] | some loaded ↦ loaded ] in
            let full = confirm_full o block (ids_of (keep (is_full block) found)) w1 in
            let partial = keep (λ c. not (is_full block c)) found in
            let p =
              confirm_partial o fuel block (map (λ c. mined_trim c block) partial) full.0 full.1 in
            Follows base whole w p.0 p.1
      go none w1 m below = split [] w1 m (λ id k. absurd (ground arith))
      go (some loaded) w1 m below = split loaded w1 m below

  confirm_blocks-Follows :
      (fuel : ℕ) (blocks : List MinedBlock) (changes : ClusterDeltaSet) (w0 w : World)
      → Follows base whole w0 changes w
      → let p = confirm_blocks o fuel blocks changes w in Follows base whole w0 p.0 p.1
  unfolding confirm_blocks
  confirm_blocks-Follows fuel [] changes w0 w h = h
  confirm_blocks-Follows fuel (block ∷ blocks) changes w0 w h =
      let r = confirm_mined_inner o fuel block w in
      confirm_blocks-Follows fuel blocks (merge changes r.0) w0 r.1 (
        Follows-merge w0 w r.1 changes r.0 h
          (confirm_mined_inner-Follows fuel block w h.moves.kept))

  pub handle_confirmed-Follows :
      (fuel : ℕ) (confirmed : List Txid) (w : World)
      → IsKept base w
      → let p = handle_confirmed o fuel confirmed w in Follows base whole w p.0 p.1
  unfolding handle_confirmed query
  handle_confirmed-Follows fuel confirmed w v =
      let r = load_containing o confirmed w in
      let (m, _) = load_containing-Moves o setting confirmed w v in go r.0 r.1 m
    where
      rows :
          (members : List Txid) (fails : Bool) (w1 : World)
          → Follows base whole w no_changes w1
          → let p : ClusterDeltaSet × World =
              elim (if fails then none else some (find_mined_by_txids o.blocks members w1.db)) [
                | none ↦ (no_changes, awaited o w1)
                | some found ↦ confirm_blocks o fuel (by_block found) no_changes (awaited o w1)
              ] in
            Follows base whole w p.0 p.1
      rows members true w1 h =
          Follows-quiet w w1 (awaited o w1) no_changes h (awaited-Moves o setting w1 h.moves.kept)
      rows members false w1 h =
          confirm_blocks-Follows fuel (by_block (find_mined_by_txids o.blocks members w1.db))
            no_changes w (awaited o w1)
            (Follows-quiet w w1 (awaited o w1) no_changes h
              (awaited-Moves o setting w1 h.moves.kept))

      go :
          (clusters : Option (List Cluster)) (w1 : World)
          → Moves base whole w (λ id. silent) w1
          → let p : ClusterDeltaSet × World = elim clusters [
            | none ↦ (no_changes, w1)
            | some [] ↦ (no_changes, w1)
            | some (c ∷ cs) ↦
                elim (if o.db_fails w1.calls
                  then none
                  else some (find_mined_by_txids o.blocks (members_of (c ∷ cs)) w1.db)) [
                    | none ↦ (no_changes, awaited o w1)
                    | some found ↦ confirm_blocks o fuel (by_block found) no_changes (awaited o w1)
                  ]
          ] in
            Follows base whole w p.0 p.1
      go none w1 m = Follows-quiet w w w1 no_changes (Follows-none w v) m
      go (some []) w1 m = Follows-quiet w w w1 no_changes (Follows-none w v) m
      go (some (c ∷ cs)) w1 m =
          rows (members_of (c ∷ cs)) (o.db_fails w1.calls) w1
            (Follows-quiet w w w1 no_changes (Follows-none w v) m)
