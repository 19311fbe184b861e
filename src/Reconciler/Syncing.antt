-- ===== src/Reconciler/Syncing.antt =====
-- api/src/services/mempool_reconciler.rs: a tick together with the sync of clusters that it ends with, over
-- the tables, the ledger and the snapshot.
use cluster_mempool_observer.Base.{
  ℕ, ◌≡◌, refl, sym, ◌∙◌, ap, List, Option, none, some, Time, TxSet, inl, inr, Option-cases, lookup,
  ltb, false, arith,
}
use cluster_mempool_observer.Db.{Database, ClusterRow}
use cluster_mempool_observer.Ledger.{Generator, begin_flush}
use cluster_mempool_observer.Ledger.Journal.{Inner, JournalEntry}
use cluster_mempool_observer.Ledger.Consistency.{AreGenerators}
use cluster_mempool_observer.FlushWrite.{Interruptions, write_batch, FlushOutcome}
use cluster_mempool_observer.Ledger.Journal.{add}
use cluster_mempool_observer.Ledger.Batch.{distinct_txids}
use cluster_mempool_observer.Snapshot.{ClusterState}
use cluster_mempool_observer.FlushWrite.Written.{HasWritten, write_batch-writes}
use cluster_mempool_observer.Membership.{chunks_of}
use cluster_mempool_observer.Membership.Soundness.{IsSound}
use cluster_mempool_observer.Membership.Links.{IsLinked, link-insert_hollow}
use cluster_mempool_observer.Membership.Activity.{active_at, activity, activity-chunks}
use cluster_mempool_observer.DeltaSet.Merging.{state_of}
use cluster_mempool_observer.ClusterSync.{Outside, World}
use cluster_mempool_observer.ClusterSync.Rounds.{sync_clusters}
use cluster_mempool_observer.ClusterSync.Moves.{IsKept}
use cluster_mempool_observer.ClusterSync.Publishing.{
  IsHonest, IsRight, IsPublished, fresh-active_at, sync_clusters-IsPublished,
}
use cluster_mempool_observer.Reconciler.{TickReport, tick, settle}
use cluster_mempool_observer.Reconciler.Ticks.{residency, tick-IsConsistent}

-- The world after the part of a tick before the sync, and what it hands on.
abbrev pub ticked :
    (ℕ → Time) → Interruptions → Time → List Generator → World → World × Option TickReport
ticked clock met now meanwhile w =
    let r = tick clock met now meanwhile w.ledger w.db in (record w { ledger = r.0; db = r.1 }, r.2)

-- `sync_clusters_after_flush`, if the tick gets there.
abbrev pub sync_clusters_after_flush : Outside → (ℕ → ℕ) → ℕ → Option TickReport → World → World
sync_clusters_after_flush o to_vbytes_ceil fuel none w = w
sync_clusters_after_flush o to_vbytes_ceil fuel (some report) w =
    (sync_clusters o to_vbytes_ceil fuel report.candidates report.outcome.confirmed
      report.outcome.evicted w).0

abbrev HasKept : Database → Database → Type 0
HasKept db db' =
    (IsSound db → IsSound db')
    × (IsLinked db → IsLinked db')
    × ((id : ℕ) → active_at db' id ≡ active_at db id)

HasWritten-HasKept :
    (now : Time) (batch : List JournalEntry) (db : Database) (r : Database × FlushOutcome)
    → HasWritten now batch db r
    → HasKept db r.0
unfolding chunks_of
HasWritten-HasKept now batch db r h = (
  (λ sound. record {
    rows = rw (h.3, h.4) sound.rows;
    fresh = λ id above. rw h.3 (sound.fresh id (rw h.5 at above));
  }),
  (λ linked x.
      rw (h.3, h.4, h.2 x, (link-insert_hollow now (distinct_txids batch add) db.transactions x).0)
        (linked x)),
  (λ id.
      ap (activity r.0 id) (ap (λ (f : ℕ → Option ClusterRow). f id) h.3)
      ∙ activity-chunks db r.0 id (db.clusters id) (λ version. rw h.4 refl)),
)

tick-HasKept :
    (clock : ℕ → Time) (met : Interruptions) (now : Time) (meanwhile : List Generator)
    (ledger : Inner) (db : Database)
    → HasKept db (tick clock met now meanwhile ledger db).1
unfolding tick settle
tick-HasKept clock met now meanwhile ledger db = elim (Option-cases (begin_flush ledger)) [
  | inl idle ↦ rw (tick, idle) (same db)
  | inr (batch, e) ↦ elim (Option-cases (write_batch met now batch db)) [
    | inl bailed ↦ rw (tick, e, settle, bailed) (same db)
    | inr (r, f) ↦
        rw (tick, e, settle, f)
          (HasWritten-HasKept now batch db r (write_batch-writes met now batch db r f))
  ]
]
  where
    same : (db : Database) → HasKept db db
    same db = ((λ sound. sound), (λ linked. linked), (λ id. refl))

ticked-IsKept :
    (clock : ℕ → Time) (met : Interruptions) (now : Time) (meanwhile : List Generator) (w : World)
    → AreGenerators meanwhile
    → IsKept (residency w.db) w
    → let w' = (ticked clock met now meanwhile w).0 in IsKept (residency w'.db) w'
ticked-IsKept clock met now meanwhile w d v =
    let kept = tick-HasKept clock met now meanwhile w.ledger w.db in
    record {
      sound = kept.0 v.sound;
      linked = kept.1 v.linked;
      consistent = tick-IsConsistent clock met now meanwhile w.ledger w.db d v.consistent;
    }

kept-IsPublished :
    (o : Outside) (base : TxSet) (w : World) → IsKept base w → IsHonest w → IsPublished o base w w
kept-IsPublished o base w v honest = record {
  kept = v;
  honest = honest;
  carried = λ id below right. right;
  complete = λ never id above. absent id above (lookup id w.snapshot) refl;
}
  where
    absent :
        (id : ℕ)
        → ltb id w.db.next_cluster_id ≡ false
        → (s : Option ClusterState) → lookup id w.snapshot ≡ s
        → IsRight w id
    absent id above none e = e ∙ ap state_of (sym (fresh-active_at w.db id v.sound above))
    absent id above (some s) e =
        let was = honest id s e in
        let nothing = fresh-active_at w.db id v.sound above in
        let n : none ≡ some s = rw nothing at was in absurd (ground arith)

-- A tick and the sync that it ends with, from a state in which the tables and the ledger are in order and
-- whatever the snapshot has of a cluster is so, whether the tick writes a batch, has none, or is stopped by
-- a block or a failure of the database, and whatever fails in the sync: after it the tables are in order,
-- and the ledger for the residency that the tick has written, whatever the snapshot has of a cluster is
-- so, and it has as they now are, if active, the clusters from before that it had right before, and if the
-- database never fails in the sync the new ones.
pub tick-IsPublished :
    (o : Outside) (to_vbytes_ceil : ℕ → ℕ) (fuel : ℕ) (clock : ℕ → Time) (met : Interruptions)
    (now : Time) (meanwhile : List Generator) (w : World)
    → ((n : ℕ) → AreGenerators (o.meanwhile n))
    → AreGenerators meanwhile
    → IsKept (residency w.db) w
    → IsHonest w
    → let r = ticked clock met now meanwhile w in
      ((id : ℕ) → IsRight w id → IsRight r.0 id)
      × IsPublished o
          (residency r.0.db)
          r.0
          (sync_clusters_after_flush o to_vbytes_ceil fuel r.1 r.0)
tick-IsPublished o to_vbytes_ceil fuel clock met now meanwhile w polls d v honest =
    let r = ticked clock met now meanwhile w in
    let kept = tick-HasKept clock met now meanwhile w.ledger w.db in
    (
      (λ id right. right ∙ ap state_of (sym (kept.2 id))),
      go r.1 r.0 (ticked-IsKept clock met now meanwhile w d v)
          (λ id s h. ap state_of (kept.2 id) ∙ honest id s h),
    )
  where
    go :
        (report : Option TickReport) (w' : World)
        → IsKept (residency w'.db) w'
        → IsHonest w'
        → IsPublished o
            (residency w'.db)
            w'
            (sync_clusters_after_flush o to_vbytes_ceil fuel report w')
    go none w' v honest = kept-IsPublished o (residency w'.db) w' v honest
    go (some report) w' v honest =
        sync_clusters-IsPublished o polls to_vbytes_ceil fuel report.candidates
          report.outcome.confirmed report.outcome.evicted w' v honest
