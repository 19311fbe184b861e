-- ===== src/Ledger/Target.antt =====
-- shared/src/snapshot/mempool.rs: the two loops that `submit_authoritative` and `reconcile_against`
-- share, which queue what leads from one set of txids to another.
use cluster_mempool_observer.Base.{
  Time, TxSet, ℕ, ◌≤◌, Bool, true, false, ◌≡◌, refl, ◌∙◌, difference, arith, length, Distinct,
  Distinct-difference, contains-difference,
}
use cluster_mempool_observer.Ledger.Journal.{add, rem, Inner, push_all, journal_cap}
use cluster_mempool_observer.Ledger.Replay.{
  Agrees, moved_all, contains-moved_all_add, contains-moved_all_rem,
}
use cluster_mempool_observer.Ledger.Sync.{
  Leads, push_all-Leads, push_all_complete, push_all-live, push_all-bounded, push_all-degraded,
  push_all-incomplete, AllFresh-of_contains,
}

Leads-Agrees :
    (db image image' : TxSet) (s : Inner)
    → Agrees image image'
    → Leads db s.journal image
    → Leads db s.journal image'
Leads-Agrees db image image' s a h = record {
  agrees = λ x. h.agrees x ∙ a x;
  effective = h.effective;
}

-- The two loops of `submit_authoritative` and `reconcile_against`: from an image to a target.
abbrev pub to_target : (ℕ → Time) → TxSet → TxSet → Inner → Inner × Bool
to_target clock image target s =
    let (s1, c1) = push_all clock add (difference target image) s true in
    push_all clock rem (difference image target) s1 c1

pub moved-to_target :
    (image target : TxSet)
    → Agrees
        (moved_all rem (difference image target) (moved_all add (difference target image) image))
        target
moved-to_target image target x = ground (
  arith,
  contains-moved_all_rem x (difference image target)
      (moved_all add (difference target image) image),
  contains-moved_all_add x (difference target image) image,
  contains-difference x image target,
  contains-difference x target image,
)

pub to_target-Leads :
    (clock : ℕ → Time) (db image target : TxSet) (s : Inner)
    → Distinct image
    → Distinct target
    → Leads db s.journal image
    → (to_target clock image target s).1 ≡ true
    → Leads db (to_target clock image target s).0.journal target
to_target-Leads clock db image target s di dt h all =
    let (s1, c1) = push_all clock add (difference target image) s true in
    let middle = moved_all add (difference target image) image in
    Leads-Agrees db _ target (to_target clock image target s).0 (moved-to_target image target) (
      push_all-Leads clock db rem (difference image target) middle s1 c1
        (push_all-Leads clock db add (difference target image) image s true h
          (Distinct-difference target image dt)
          (AllFresh-of_contains add image (difference target image)
            (λ x m. ground (arith, contains-difference x target image)))
          (push_all_complete clock rem (difference image target) s1 c1 all))
        (Distinct-difference image target di)
        (AllFresh-of_contains rem middle (difference image target) (λ x m. ground (
          arith,
          contains-difference x image target,
          contains-moved_all_add x (difference target image) image,
        )))
        all)

pub to_target-live :
    (clock : ℕ → Time) (image target : TxSet) (s : Inner)
    → (to_target clock image target s).0.live ≡ s.live
to_target-live clock image target s =
    let (s1, c1) = push_all clock add (difference target image) s true in
    push_all-live clock rem (difference image target) s1 c1
    ∙ push_all-live clock add (difference target image) s true

pub to_target-bounded :
    (clock : ℕ → Time) (image target : TxSet) (s : Inner)
    → length s.journal ≤ journal_cap
    → length (to_target clock image target s).0.journal ≤ journal_cap
to_target-bounded clock image target s h =
    let (s1, c1) = push_all clock add (difference target image) s true in
    push_all-bounded clock rem (difference image target) s1 c1
      (push_all-bounded clock add (difference target image) s true h)

pub to_target-degraded :
    (clock : ℕ → Time) (image target : TxSet) (s : Inner)
    → (to_target clock image target s).0.degraded ≡ false
    → (s.degraded ≡ false) × ((to_target clock image target s).1 ≡ true)
to_target-degraded clock image target s h =
    let (s1, c1) = push_all clock add (difference target image) s true in
    let late = push_all-degraded clock rem (difference image target) s1 c1 h in
    let early = push_all-degraded clock add (difference target image) s true late.0 in
    (early.0, late.1 (early.1 refl))

pub to_target-incomplete :
    (clock : ℕ → Time) (image target : TxSet) (s : Inner)
    → (to_target clock image target s).1 ≡ false
    → (to_target clock image target s).0.degraded ≡ true
to_target-incomplete clock image target s h =
    let (s1, c1) = push_all clock add (difference target image) s true in
    push_all-incomplete clock rem (difference image target) s1 c1
      (push_all-incomplete clock add (difference target image) s true (λ e. cc)) h
