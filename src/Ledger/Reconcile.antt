-- ===== src/Ledger/Reconcile.antt =====
-- shared/src/snapshot/mempool.rs: `reconcile_against`, the repair of a journal that lost entries.
use cluster_mempool_observer.Base.{
  Time, TxSet, true, difference, ◌+◌, ℕ, ◌≤◌, false, ◌≡◌, refl, arith, length, Distinct, Bool-cases,
  inl, inr, if◌then◌else◌,
}
use cluster_mempool_observer.Ledger.Journal.{Inner, journal_cap}
use cluster_mempool_observer.Ledger.Replay.{replay, IsEffective, Distinct-replay}
use cluster_mempool_observer.Ledger.{reconcile_against}
use cluster_mempool_observer.Ledger.Target.{
  to_target, to_target-Leads, to_target-live, to_target-bounded, to_target-incomplete,
}
use cluster_mempool_observer.Ledger.Sync.{push_all-room}
use cluster_mempool_observer.Ledger.Journal.{push_all, add, rem}
use cluster_mempool_observer.Ledger.Consistency.{IsConsistent}

pub reconcile-unfold :
    (clock : ℕ → Time) (db : TxSet) (s : Inner)
    → let (s2, complete) = to_target clock (replay db s.journal) s.live s in
      reconcile_against clock db s ≡ (if complete then record s2 { degraded = false } else s2)
unfolding reconcile_against
reconcile-unfold clock db s = refl

-- A reconciliation leaves `live` alone and, if the ledger is not degraded afterwards, a journal that,
-- replayed on the image, gives exactly `live`, each entry changing the residency that it meets, if the
-- image and `live` have no repetition, the journal was within its cap and its entries each changed the
-- residency that they met, on the image.
reconcile_against-IsConsistent :
    (clock : ℕ → Time) (db : TxSet) (s : Inner)
    → Distinct db
    → Distinct s.live
    → length s.journal ≤ journal_cap
    → IsEffective db s.journal
    → IsConsistent db (reconcile_against clock db s)
      × ((reconcile_against clock db s).live ≡ s.live)
reconcile_against-IsConsistent clock db s dd dl bound eff =
    let now = replay db s.journal in
    let r = to_target clock now s.live s in
    let live = to_target-live clock now s.live s in
    let bounded = to_target-bounded clock now s.live s bound in
    rw (reconcile-unfold clock db s) (elim (Bool-cases r.1) [
      | inl complete ↦ rw complete (
        record {
          distinct = rw live dl;
          bounded = bounded;
          leads = λ _. rw live (
              to_target-Leads clock db now s.live s (Distinct-replay db s.journal dd) dl
                (record { agrees = λ x. refl; effective = eff }) complete);
        },
        live,
      )
      | inr partial ↦ rw partial (
        record {
          distinct = rw live dl;
          bounded = bounded;
          leads = λ fine. absurd (ground (arith, to_target-incomplete clock now s.live s partial));
        },
        live,
      )
    ])

-- If the journal has room for every difference between `live` and what the image will be once the
-- journal has drained, a reconciliation ends with the ledger no longer degraded.
pub reconcile_against-recovers :
    (clock : ℕ → Time) (db : TxSet) (s : Inner)
    → length s.journal
        + length (difference s.live (replay db s.journal))
        + length (difference (replay db s.journal) s.live)
      ≤ journal_cap
    → (reconcile_against clock db s).degraded ≡ false
reconcile_against-recovers clock db s room =
    let now = replay db s.journal in
    let (all, grown) = push_all-room clock add (difference s.live now) s true refl (omega arith) in
    let (s1, c1) = push_all clock add (difference s.live now) s true in
    let last = push_all-room clock rem (difference now s.live) s1 c1 all (omega (arith, grown)) in
    rw (reconcile-unfold clock db s) (rw last.0 refl)
