-- ===== src/ClusterSync/History.antt =====
-- api/src/services/cluster.rs: the service from its start on, through any rounds that others call for.
use cluster_mempool_observer.Base.{
  ℕ, Bool, true, false, ◌≡◌, refl, sym, ◌∙◌, ap, List, [], ◌∷◌, map, none, some, arith, Txid, TxSet,
  lookup, contains, ltb, Bool-cases, inl, inr, if◌then◌else◌,
}
use cluster_mempool_observer.Ledger.Consistency.{AreGenerators}
use cluster_mempool_observer.Snapshot.{ClusterState, seed}
use cluster_mempool_observer.Membership.Activity.{active_at}
use cluster_mempool_observer.Membership.Loading.{find_active}
use cluster_mempool_observer.DeltaSet.{from_cluster, ClusterDeltaSet, is_empty}
use cluster_mempool_observer.DeltaSet.Merging.{state_of, publish_delta-follows}
use cluster_mempool_observer.DeltaSet.Told.{Told, silent, gone, now_is, told}
use cluster_mempool_observer.Mined.{MinedBlock}
use cluster_mempool_observer.ClusterSync.{Outside, World, awaited, query}
use cluster_mempool_observer.ClusterSync.Rounds.{
  gather_changes, publish_in, sync_clusters, confirm_mined, confirm_mined_inner, seed_snapshot,
}
use cluster_mempool_observer.ClusterSync.Moves.{IsKept, Moves, Follows, awaited-Moves}
use cluster_mempool_observer.ClusterSync.Confirming.{confirm_mined_inner-Follows}
use cluster_mempool_observer.ClusterSync.Publishing.{
  IsMirror, IsHonest, NeverFails, viewed, told-viewed, fresh-active_at, told-nothing, setting,
  gather_changes-Follows,
}
use cluster_mempool_observer.ClusterSync.Seeding.{lookup-seed}

-- A call of the service, with the fuel of its queues.
pub data Request : Type 0 where
  seeds : Request
  syncs : ℕ → List Txid → List Txid → List Txid → Request
  confirms_mined : ℕ → MinedBlock → Request

module _ (o : Outside) (to_vbytes_ceil : ℕ → ℕ) where
  unfoldable pub serve : Request → World → World
  serve seeds w = seed_snapshot o w
  serve (syncs fuel candidates confirmed evicted) w =
      (sync_clusters o to_vbytes_ceil fuel candidates confirmed evicted w).0
  serve (confirms_mined fuel block) w = (confirm_mined o to_vbytes_ceil fuel block w).0

  unfoldable pub serve_all : List Request → World → World
  serve_all [] w = w
  serve_all (call ∷ calls) w = serve_all calls (serve call w)

pub record IsServed (o : Outside) (base : TxSet) (w : World) : Type 0 where
  pub kept : IsKept base w
  pub honest : IsHonest w
  pub mirrors : NeverFails o → IsMirror w

module _ {base : TxSet} (o : Outside) (w w' w'' : World) (t : ℕ → Told) where
  -- A snapshot that was changed as the round says.
  viewed-IsServed :
      IsServed o base w
      → Moves base (NeverFails o) w t w'
      → w''.db ≡ w'.db
      → w''.ledger ≡ w'.ledger
      → ((id : ℕ) → lookup id w''.snapshot ≡ viewed (t id) (lookup id w.snapshot))
      → IsServed o base w''
  viewed-IsServed v m db ledger changed = record {
    kept = record {
      sound = rw db m.kept.sound;
      linked = rw db m.kept.linked;
      consistent = rw ledger m.kept.consistent;
    };
    honest = λ id s h. rw db (honest id s (t id) refl (sym (changed id) ∙ h));
    mirrors = λ never id. rw db (mirrors never id (t id) refl (changed id));
  }
    where
      honest :
          (id : ℕ) (s : ClusterState) (say : Told)
          → t id ≡ say
          → viewed (t id) (lookup id w.snapshot) ≡ some s
          → state_of (active_at w'.db id) ≡ some s
      honest id s silent e h =
          let was = v.honest id s (rw e at h) in
          elim (Bool-cases (ltb id w.db.next_cluster_id)) [
            | inl below ↦
                let kept = (m.tells id).old (inl (ground arith)) in ap state_of (rw e at kept) ∙ was
            | inr above ↦
                let nothing = fresh-active_at w.db id v.kept.sound above in
                let n : none ≡ some s = rw nothing at was in absurd (ground arith)
          ]
      honest id s gone e h = let n : none ≡ some s = rw e at h in absurd (ground arith)
      honest id s (now_is c) e h =
          ap state_of (rw e at ((m.tells id).loud (rw e refl))).1 ∙ (rw e at h)

      mirrors :
          NeverFails o
          → (id : ℕ) (say : Told) → t id ≡ say
          → lookup id w''.snapshot ≡ viewed (t id) (lookup id w.snapshot)
          → lookup id w''.snapshot ≡ state_of (active_at w'.db id)
      mirrors never id silent e h =
          let kept = (m.tells id).old (inr never) in
          (rw e at h) ∙ v.mirrors never id ∙ ap state_of (sym (rw e at kept))
      mirrors never id gone e h =
          (rw e at h) ∙ ap state_of (sym (rw e at ((m.tells id).loud (rw e refl))).1)
      mirrors never id (now_is c) e h =
          (rw e at h) ∙ ap state_of (sym (rw e at ((m.tells id).loud (rw e refl))).1)

module _ {base : TxSet} (o : Outside) (to_vbytes_ceil : ℕ → ℕ)
    (polls : (n : ℕ) → AreGenerators (o.meanwhile n)) where
  publish_in-IsServed :
      (changes : ClusterDeltaSet) (w w' : World)
      → IsServed o base w
      → Follows base (NeverFails o) w changes w'
      → IsServed o base (publish_in o to_vbytes_ceil changes w').0
  unfolding publish_in
  publish_in-IsServed changes w w' v h =
      viewed-IsServed o w w' (publish_in o to_vbytes_ceil changes w').0 (told changes) v h.moves
        refl refl
        (λ id.
          publish_delta-follows to_vbytes_ceil changes w'.snapshot id h.coherent
          ∙ told-viewed (contains id changes.removed) (lookup id changes.upserted) _
          ∙ ap (λ m. viewed (told changes id) (lookup id m)) h.moves.same_snapshot)

  seed_snapshot-IsServed : (w : World) → IsServed o base w → IsServed o base (seed_snapshot o w)
  unfolding seed_snapshot query awaited
  seed_snapshot-IsServed w v = go (o.db_fails w.calls)
    where
      moved : IsKept base (awaited o w)
      moved = (awaited-Moves o (setting o polls) w v.kept).kept

      seeded : World → World
      seeded w' = record w' { snapshot = seed (map from_cluster (find_active w.db)) }

      exact : IsMirror (seeded (awaited o w))
      exact id = lookup-seed w.db id v.kept.sound

      go :
          (fails : Bool)
          → IsServed o base (elim (if fails then none else some (find_active w.db)) [
            | none ↦ awaited o w
            | some clusters ↦ record (awaited o w) { snapshot = seed (map from_cluster clusters) }
          ])
      go true = record { kept = moved; honest = v.honest; mirrors = v.mirrors }
      go false = record {
        kept = record { sound = moved.sound; linked = moved.linked; consistent = moved.consistent };
        honest = λ id s h. sym (exact id) ∙ h;
        mirrors = λ never. exact;
      }

  sync_clusters-IsServed :
      (fuel : ℕ) (candidates confirmed evicted : List Txid) (w : World)
      → IsServed o base w
      → IsServed o base (sync_clusters o to_vbytes_ceil fuel candidates confirmed evicted w).0
  unfolding sync_clusters
  sync_clusters-IsServed fuel candidates confirmed evicted w v =
      let p = gather_changes o fuel candidates confirmed evicted w in
      let h = gather_changes-Follows o polls fuel candidates confirmed evicted w v.kept in
      elim (Bool-cases (is_empty p.0)) [
        | inl nothing ↦ rw nothing (
            viewed-IsServed o w p.1 p.1 (told p.0) v h.moves refl refl (λ id.
              ap (lookup id) h.moves.same_snapshot
              ∙ ap (λ t. viewed t (lookup id w.snapshot)) (sym (told-nothing p.0 id nothing))))
        | inr changed ↦ rw changed (publish_in-IsServed p.0 w p.1 v h)
      ]

  serve-IsServed :
      (call : Request) (w : World)
      → IsServed o base w
      → IsServed o base (serve o to_vbytes_ceil call w)
  unfolding serve confirm_mined
  serve-IsServed seeds w v = seed_snapshot-IsServed w v
  serve-IsServed (syncs fuel candidates confirmed evicted) w v =
      sync_clusters-IsServed fuel candidates confirmed evicted w v
  serve-IsServed (confirms_mined fuel block) w v =
      let p = confirm_mined_inner o fuel block w in
      publish_in-IsServed p.0 w p.1 v
        (confirm_mined_inner-Follows o (setting o polls) fuel block w v.kept)

  -- From a state in which the tables and the ledger are in order and the snapshot mirrors the tables,
  -- after any rounds of the service, in any order and whatever the node answers, the database refuses
  -- and others feed to the ledger: the tables and the ledger are in order, whatever the snapshot has of
  -- a cluster is so, and if the database never fails the snapshot mirrors the tables.
  pub serve_all-IsServed :
      (calls : List Request) (w : World)
      → IsKept base w
      → IsMirror w
      → IsServed o base (serve_all o to_vbytes_ceil calls w)
  unfolding serve_all
  serve_all-IsServed calls w v mirror =
      go calls w
        (record { kept = v; honest = λ id s h. sym (mirror id) ∙ h; mirrors = λ never. mirror })
    where
      go :
          (calls : List Request) (w : World)
          → IsServed o base w
          → IsServed o base (serve_all o to_vbytes_ceil calls w)
      go [] w v = v
      go (call ∷ calls) w v = go calls (serve o to_vbytes_ceil call w) (serve-IsServed call w v)
