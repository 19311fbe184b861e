-- ===== src/ClusterSync/Publishing.antt =====
-- api/src/services/cluster.rs: the snapshot and the tables after `sync_clusters`.
use cluster_mempool_observer.Base.{
  ℕ, ◌<◌, Bool, true, false, ◌&&◌, ◌≡◌, refl, sym, ◌∙◌, ap, List, [], ◌∷◌, Option, none, some,
  arith, Txid, TxSet, contains, length, ltb, ◌==◌, ◌⊎◌, lookup, Bool-cases, inl, inr, if◌then◌else◌,
}
use cluster_mempool_observer.Db.{Database}
use cluster_mempool_observer.Ledger.Consistency.{AreGenerators}
use cluster_mempool_observer.Snapshot.{ActiveCluster, ClusterState, state}
use cluster_mempool_observer.Snapshot.Tracking.{or_else}
use cluster_mempool_observer.Membership.Soundness.{IsSound}
use cluster_mempool_observer.Membership.Activity.{active_at}
use cluster_mempool_observer.DeltaSet.{ClusterDeltaSet, no_changes, is_empty}
use cluster_mempool_observer.DeltaSet.Merging.{state_of, publish_delta-follows}
use cluster_mempool_observer.DeltaSet.Told.{Told, silent, gone, now_is, told_of, told, value}
use cluster_mempool_observer.ClusterSync.{Outside, World}
use cluster_mempool_observer.ClusterSync.Queue.{handle_candidates}
use cluster_mempool_observer.ClusterSync.Rounds.{
  run_stage, handle_evicted, handle_confirmed, gather_changes, publish_in, sync_clusters,
}
use cluster_mempool_observer.ClusterSync.Moves.{
  IsSetting, IsKept, Moves, Follows, Follows-merge, Follows-none,
}
use cluster_mempool_observer.ClusterSync.Queueing.{handle_candidates_covering-Follows}
use cluster_mempool_observer.ClusterSync.Closing.{handle_evicted-Follows}
use cluster_mempool_observer.ClusterSync.Confirming.{handle_confirmed-Follows}

-- The snapshot has the active clusters of the tables, each in its current state, and no other.
abbrev pub IsMirror : World → Type 0
IsMirror w = (id : ℕ) → lookup id w.snapshot ≡ state_of (active_at w.db id)

abbrev pub NeverFails : Outside → Type 0
NeverFails o = (n : ℕ) → o.db_fails n ≡ false

-- Whatever the snapshot has of a cluster is so.
abbrev pub IsHonest : World → Type 0
IsHonest w =
    (id : ℕ) (s : ClusterState)
    → lookup id w.snapshot ≡ some s
    → state_of (active_at w.db id) ≡ some s

-- The snapshot has a cluster as the tables have it.
abbrev pub IsRight : World → ℕ → Type 0
IsRight w id = lookup id w.snapshot ≡ state_of (active_at w.db id)

-- After a round that started from `w`: the tables and the ledger are in order, whatever the snapshot has of
-- a cluster is so, it has right each cluster from before that it had right before, and, if the database
-- never fails, each new cluster.
pub record IsPublished (o : Outside) (base : TxSet) (w w' : World) : Type 0 where
  pub kept : IsKept base w'
  pub honest : IsHonest w'
  pub carried : (id : ℕ) → id < w.db.next_cluster_id → IsRight w id → IsRight w' id
  pub complete : NeverFails o → (id : ℕ) → ltb id w.db.next_cluster_id ≡ false → IsRight w' id

pub fresh-active_at :
    (db : Database) (id : ℕ)
    → IsSound db
    → ltb id db.next_cluster_id ≡ false
    → active_at db id ≡ none
fresh-active_at db id v above =
    let missing : db.clusters id ≡ none = v.fresh id (ground arith) in rw missing refl

-- What a round makes of the state of a cluster that the snapshot has.
abbrev pub viewed : Told → Option ClusterState → Option ClusterState
viewed silent s = s
viewed gone s = none
viewed (now_is c) s = some (state c)

pub told-viewed :
    (b : Bool) (o : Option ActiveCluster) (s : Option ClusterState)
    → (if b then none else or_else (state_of o) s) ≡ viewed (told_of b o) s
told-viewed true o s = refl
told-viewed false none s = refl
told-viewed false (some c) s = refl

viewed-state_of :
    (t : Told) (a : Option ActiveCluster) → viewed t (state_of a) ≡ state_of (value t a)
viewed-state_of silent a = refl
viewed-state_of gone a = refl
viewed-state_of (now_is c) a = refl

module _ {base : TxSet} (o : Outside) (w w' : World) (t : ℕ → Told) where
  -- A snapshot that was changed as the round says.
  published :
      IsSound w.db
      → IsHonest w
      → Moves base (NeverFails o) w t w'
      → (w'' : World) → w''.db ≡ w'.db
      → w''.ledger ≡ w'.ledger
      → ((id : ℕ) → lookup id w''.snapshot ≡ viewed (t id) (lookup id w.snapshot))
      → IsPublished o base w w''
  published sound honest m w'' db ledger changed = record {
    kept = record {
      sound = rw db m.kept.sound;
      linked = rw db m.kept.linked;
      consistent = rw ledger m.kept.consistent;
    };
    honest = λ id s h. rw db (still id s (t id) refl (sym (changed id) ∙ h));
    carried = λ id below right. told_right id (inl below) right;
    complete =
        λ never id above. told_right id (inr never) (absent id above (lookup id w.snapshot) refl);
  }
    where
      still :
          (id : ℕ) (s : ClusterState) (say : Told)
          → t id ≡ say
          → viewed (t id) (lookup id w.snapshot) ≡ some s
          → state_of (active_at w'.db id) ≡ some s
      still id s silent e h =
          let was = honest id s (rw e at h) in
          elim (Bool-cases (ltb id w.db.next_cluster_id)) [
            | inl below ↦
                let kept = (m.tells id).old (inl (ground arith)) in ap state_of (rw e at kept) ∙ was
            | inr above ↦
                let nothing = fresh-active_at w.db id sound above in
                let n : none ≡ some s = rw nothing at was in absurd (ground arith)
          ]
      still id s gone e h = let n : none ≡ some s = rw e at h in absurd (ground arith)
      still id s (now_is c) e h =
          ap state_of (rw e at ((m.tells id).loud (rw e refl))).1 ∙ (rw e at h)

      told_right :
          (id : ℕ) → (id < w.db.next_cluster_id) ⊎ NeverFails o → IsRight w id → IsRight w'' id
      told_right id known right = rw db (
          changed id
          ∙ ap (viewed (t id)) right
          ∙ viewed-state_of (t id) (active_at w.db id)
          ∙ ap state_of (sym ((m.tells id).old known)))

      absent :
          (id : ℕ)
          → ltb id w.db.next_cluster_id ≡ false
          → (s : Option ClusterState) → lookup id w.snapshot ≡ s
          → IsRight w id
      absent id above none e = e ∙ ap state_of (sym (fresh-active_at w.db id sound above))
      absent id above (some s) e =
          let was = honest id s e in
          let nothing = fresh-active_at w.db id sound above in
          let n : none ≡ some s = rw nothing at was in absurd (ground arith)

pub told-nothing :
    (changes : ClusterDeltaSet) (id : ℕ) → is_empty changes ≡ true → told changes id ≡ silent
told-nothing changes id h = go changes.upserted changes.removed h
  where
    go :
        (upserted : List (ℕ × ActiveCluster)) (removed : List ℕ)
        → (length upserted == 0 && length removed == 0) ≡ true
        → told_of (contains id removed) (lookup id upserted) ≡ silent
    go [] [] h = refl
    go [] (x ∷ xs) h = absurd (ground arith)
    go (x ∷ xs) removed h = absurd (ground arith)

module _ (o : Outside) (polls : (n : ℕ) → AreGenerators (o.meanwhile n)) where
  pub setting : IsSetting o (NeverFails o)
  setting = record { polls = polls; reliable = λ all. all }

  module _ {base : TxSet} where
    run_stage-Follows :
        (handle : List Txid → World → ClusterDeltaSet × World) (txids : List Txid) (w0 : World)
        (p : ClusterDeltaSet × World)
        → Follows base (NeverFails o) w0 p.0 p.1
        → ((w : World)
            → IsKept base w
            → Follows base (NeverFails o) w (handle txids w).0 (handle txids w).1)
        → let q = run_stage o handle txids p in Follows base (NeverFails o) w0 q.0 q.1
    run_stage-Follows handle [] w0 p h step = h
    run_stage-Follows handle (x ∷ xs) w0 p h step =
        let q = handle (x ∷ xs) p.1 in Follows-merge w0 p.1 q.1 p.0 q.0 h (step p.1 h.moves.kept)

    pub gather_changes-Follows :
        (fuel : ℕ) (candidates confirmed evicted : List Txid) (w : World)
        → IsKept base w
        → let p = gather_changes o fuel candidates confirmed evicted w in
          Follows base (NeverFails o) w p.0 p.1
    unfolding gather_changes
    gather_changes-Follows fuel candidates confirmed evicted w v =
        let one = run_stage o (handle_confirmed o fuel) confirmed (no_changes, w) in
        let two = run_stage o (handle_evicted o fuel) evicted one in
        run_stage-Follows (handle_candidates o fuel) candidates w two
          (run_stage-Follows (handle_evicted o fuel) evicted w one
            (run_stage-Follows (handle_confirmed o fuel) confirmed w (no_changes, w)
              (Follows-none w v) (handle_confirmed-Follows o setting fuel confirmed))
            (handle_evicted-Follows o setting fuel evicted))
          (handle_candidates_covering-Follows o setting fuel candidates [])

    publish_in-IsPublished :
        (to_vbytes_ceil : ℕ → ℕ) (changes : ClusterDeltaSet) (w w' : World)
        → IsSound w.db
        → IsHonest w
        → Follows base (NeverFails o) w changes w'
        → IsPublished o base w (publish_in o to_vbytes_ceil changes w').0
    unfolding publish_in
    publish_in-IsPublished to_vbytes_ceil changes w w' sound honest h =
        published o w w' (told changes) sound honest h.moves
          (publish_in o to_vbytes_ceil changes w').0 refl refl
          (λ id.
            publish_delta-follows to_vbytes_ceil changes w'.snapshot id h.coherent
            ∙ told-viewed (contains id changes.removed) (lookup id changes.upserted) _
            ∙ ap (λ m. viewed (told changes id) (lookup id m)) h.moves.same_snapshot)

    -- A round of changes, from candidates, flushed confirmations and evictions, from a state in which the
    -- tables and the ledger are in order and whatever the snapshot has of a cluster is so, whatever the
    -- node answers, the database refuses and others feed to the ledger meanwhile: all that is so again
    -- after it, and the snapshot has as they now are, if active, the clusters from before that it had
    -- right before, and if the database never fails the new ones.
    pub sync_clusters-IsPublished :
        (to_vbytes_ceil : ℕ → ℕ) (fuel : ℕ) (candidates confirmed evicted : List Txid) (w : World)
        → IsKept base w
        → IsHonest w
        → IsPublished o base w
            (sync_clusters o to_vbytes_ceil fuel candidates confirmed evicted w).0
    unfolding sync_clusters
    sync_clusters-IsPublished to_vbytes_ceil fuel candidates confirmed evicted w v honest =
        let p = gather_changes o fuel candidates confirmed evicted w in
        let h = gather_changes-Follows fuel candidates confirmed evicted w v in
        elim (Bool-cases (is_empty p.0)) [
          | inl nothing ↦ rw nothing (
              published o w p.1 (told p.0) v.sound honest h.moves p.1 refl refl (λ id.
                ap (lookup id) h.moves.same_snapshot
                ∙ ap (λ t. viewed t (lookup id w.snapshot)) (sym (told-nothing p.0 id nothing))))
          | inr changed ↦
              rw changed (publish_in-IsPublished to_vbytes_ceil p.0 w p.1 v.sound honest h)
        ]
