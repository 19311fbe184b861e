-- ===== src/Ledger/Repair.antt =====
-- shared/src/snapshot/mempool.rs: what `reconcile_against` makes of a journal, whatever the journal was.
use mathlib.Core.List.{append_assoc, append-nil}
use cluster_mempool_observer.Base.{
  Txid, Time, TxSet, ℕ, ◌≤◌, Bool, true, ◌&&◌, ◌≡◌, refl, sym, ◌∙◌, ap, List, [], ◌∷◌, ◌++◌,
  contains, difference, arith, length, Distinct, Distinct-difference, contains-difference,
  Bool-cases, inl, inr, ◌⊎◌,
}
use cluster_mempool_observer.Ledger.Journal.{
  DeltaDirection, add, rem, JournalEntry, Inner, push, push_all, journal_cap, entry_at,
}
use cluster_mempool_observer.Ledger.Replay.{
  moved, replay, replay-append, Agrees, is_rem, IsEffective, IsEffective-append, contains-moved,
  moved_all, contains-moved_all_add, Distinct-replay,
}
use cluster_mempool_observer.Ledger.Sync.{
  and_right, AllFresh, AllFresh-moved, AllFresh-of_contains, push-accepted, push_all_complete,
}
use cluster_mempool_observer.Ledger.Target.{
  to_target, moved-to_target, to_target-live, to_target-bounded, to_target-incomplete,
}
use cluster_mempool_observer.Ledger.{reconcile_against}
use cluster_mempool_observer.Ledger.Reconcile.{reconcile-unfold}

-- A journal, over a database image, that leads to another image, and has grown from `old` by entries that
-- each change the residency that they meet.
pub record Grows (db : TxSet) (old journal : List JournalEntry) (image : TxSet) : Type 0 where
  pub agrees : Agrees (replay db journal) image
  pub added : List JournalEntry
  pub whole : journal ≡ old ++ added
  pub effective : IsEffective (replay db old) added

push-Grows :
    (clock : ℕ → Time) (db image : TxSet) (old : List JournalEntry) (s : Inner) (x : Txid)
    (d : DeltaDirection)
    → Grows db old s.journal image
    → contains x image ≡ is_rem d
    → (push clock s x d).1 ≡ true
    → Grows db old (push clock s x d).0.journal (moved d x image)
unfolding replay
push-Grows clock db image old s x d h fresh accepted =
    let e = entry_at clock s x d in
    rw (push-accepted clock s x d accepted) (record {
      agrees = λ y.
          rw (replay-append db s.journal (e ∷ []))
            (contains-moved y x d (replay db s.journal) image (h.agrees y));
      added = h.added ++ e ∷ [];
      whole = ap (λ j. j ++ e ∷ []) h.whole ∙ append_assoc old h.added (e ∷ []);
      effective = IsEffective-append (replay db old) h.added (e ∷ []) h.effective (
        ap (contains x) (sym (replay-append db old h.added) ∙ ap (replay db) (sym h.whole))
            ∙ h.agrees x
            ∙ fresh,
        tt,
      );
    })

-- A loop of pushes that all fitted.
push_all-Grows :
    (clock : ℕ → Time) (db : TxSet) (old : List JournalEntry) (d : DeltaDirection) (xs : List Txid)
    (image : TxSet) (s : Inner) (c : Bool)
    → Grows db old s.journal image
    → Distinct xs
    → AllFresh d image xs
    → (push_all clock d xs s c).1 ≡ true
    → Grows db old (push_all clock d xs s c).0.journal (moved_all d xs image)
unfolding push_all moved_all
push_all-Grows clock db old d [] image s c h distinct fresh all = h
push_all-Grows clock db old d (x ∷ xs) image s c h distinct fresh all =
    let s' = (push clock s x d).0 in
    let c' = c && (push clock s x d).1 in
    let accepted : (push clock s x d).1 ≡ true =
      and_right c (push clock s x d).1 (push_all_complete clock d xs s' c' all) in
    push_all-Grows clock db old d xs (moved d x image) s' c'
      (push-Grows clock db image old s x d h fresh.0 accepted) distinct.1
      (AllFresh-moved d image x xs distinct.0 fresh.1) all

-- The two loops of `reconcile_against`, from what the journal leads to.
to_target-Grows :
    (clock : ℕ → Time) (db target : TxSet) (s : Inner)
    → Distinct db
    → Distinct target
    → (to_target clock (replay db s.journal) target s).1 ≡ true
    → Grows db s.journal (to_target clock (replay db s.journal) target s).0.journal target
to_target-Grows clock db target s dd dt all =
    let image = replay db s.journal in
    let (s1, c1) = push_all clock add (difference target image) s true in
    let middle = moved_all add (difference target image) image in
    let none_yet : Grows db s.journal s.journal image = record {
      agrees = λ x. refl;
      added = [];
      whole = sym (append-nil s.journal);
      effective = tt;
    } in
    let grown =
      push_all-Grows clock db s.journal rem (difference image target) middle s1 c1
        (push_all-Grows clock db s.journal add (difference target image) image s true none_yet
          (Distinct-difference target image dt)
          (AllFresh-of_contains add image (difference target image)
            (λ x m. ground (arith, contains-difference x target image)))
          (push_all_complete clock rem (difference image target) s1 c1 all))
        (Distinct-difference image target (Distinct-replay db s.journal dd))
        (AllFresh-of_contains rem middle (difference image target) (λ x m. ground (
          arith,
          contains-difference x image target,
          contains-moved_all_add x (difference target image) image,
        )))
        all in
    record {
      agrees = λ x. grown.agrees x ∙ moved-to_target image target x;
      added = grown.added;
      whole = grown.whole;
      effective = grown.effective;
    }

-- Whatever the journal was, and whether it lost entries, if it was within its cap and neither the image nor
-- `live` has a repetition: a reconciliation leaves `live` alone and the journal within its cap, and either
-- the ledger is degraded afterwards, or the journal, replayed on the image, gives exactly `live`, and it has
-- grown by entries that each change the residency that they meet.
pub reconcile_against-Grows :
    (clock : ℕ → Time) (db : TxSet) (s : Inner)
    → Distinct db
    → Distinct s.live
    → length s.journal ≤ journal_cap
    → let r = reconcile_against clock db s in
      (r.live ≡ s.live)
      × (length r.journal ≤ journal_cap)
      × ((r.degraded ≡ true) ⊎ Grows db s.journal r.journal s.live)
reconcile_against-Grows clock db s dd dl bound =
    let now = replay db s.journal in
    let r = to_target clock now s.live s in
    let live = to_target-live clock now s.live s in
    let bounded = to_target-bounded clock now s.live s bound in
    rw (reconcile-unfold clock db s) (elim (Bool-cases r.1) [
      | inl complete ↦
          rw complete (live, bounded, inr (to_target-Grows clock db s.live s dd dl complete))
      | inr partial ↦
          rw partial (live, bounded, inl (to_target-incomplete clock now s.live s partial))
    ])
