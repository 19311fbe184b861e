-- ===== src/ClusterSync/Moves.antt =====
-- api/src/services/cluster.rs: how a part of a round moves the tables, the ledger and the snapshot, and
-- what it may say of it.
use cluster_mempool_observer.Base.{
  ℕ, ◌<◌, ◌≤◌, Bool, true, false, ◌≡◌, refl, sym, ◌∙◌, subst, List, [], ◌∷◌, Option, none, some,
  arith, Txid, Time, TxSet, Bool-cases, Option-cases, inl, inr, ◌⊎◌,
}
use cluster_mempool_observer.Db.{Database}
use cluster_mempool_observer.Ledger.Consistency.{
  IsConsistent, AreGenerators, run-IsConsistent, assert_present-IsConsistent,
  assert_absent-IsConsistent,
}
use cluster_mempool_observer.Snapshot.{ActiveCluster}
use cluster_mempool_observer.Membership.Soundness.{IsSound}
use cluster_mempool_observer.Membership.Links.{IsLinked}
use cluster_mempool_observer.Membership.Activity.{active_at}
use cluster_mempool_observer.DeltaSet.{ClusterDeltaSet, no_changes, merge}
use cluster_mempool_observer.DeltaSet.Merging.{IsCoherent, merge-IsCoherent}
use cluster_mempool_observer.DeltaSet.Told.{
  Told, silent, gone, now_is, told, later, later-silent, value, told-merge,
}
use cluster_mempool_observer.ClusterSync.{Outside, World, awaited, query, transact}
use cluster_mempool_observer.ClusterSync.Queue.{asserting_absent, asserting_present}

-- What others feed to the ledger is as it should be, and where `whole` holds the database never fails.
pub record IsSetting (o : Outside) (whole : Type 0) : Type 0 where
  pub polls : (n : ℕ) → AreGenerators (o.meanwhile n)
  pub reliable : whole → (n : ℕ) → o.db_fails n ≡ false

-- The tables and the ledger are in order. `base` is the residency that the journal starts from.
pub record IsKept (base : TxSet) (w : World) : Type 0 where
  pub sound : IsSound w.db
  pub linked : IsLinked w.db
  pub consistent : IsConsistent base w.ledger

abbrev pub is_loud : Told → Bool
is_loud silent = false
is_loud gone = true
is_loud (now_is c) = true

-- What is said of a cluster is so, whatever it was; and a cluster that was there and of which nothing is
-- said is as it was. So is every other where `whole` holds.
pub record IsTrue (whole : Type 0) (db db' : Database) (id : ℕ) (t : Told) : Type 0 where
  pub old : (id < db.next_cluster_id) ⊎ whole → active_at db' id ≡ value t (active_at db id)
  pub loud : is_loud t ≡ true → (id < db'.next_cluster_id) × (active_at db' id ≡ value t none)

pub record Moves (base : TxSet) (whole : Type 0) (w : World) (t : ℕ → Told) (w' : World)
    : Type 0 where
  pub kept : IsKept base w'
  pub grows : w.db.next_cluster_id ≤ w'.db.next_cluster_id
  pub tells : (id : ℕ) → IsTrue whole w.db w'.db id (t id)
  pub same_snapshot : w'.snapshot ≡ w.snapshot

-- A set of changes says what happened from one state to another.
pub record Follows (base : TxSet) (whole : Type 0) (w : World) (changes : ClusterDeltaSet)
    (w' : World) : Type 0 where
  pub coherent : IsCoherent changes
  pub moves : Moves base whole w (told changes) w'

IsTrue-later :
    (whole : Type 0) (db db1 db2 : Database) (id : ℕ) (s t : Told)
    → db.next_cluster_id ≤ db1.next_cluster_id
    → db1.next_cluster_id ≤ db2.next_cluster_id
    → IsTrue whole db db1 id s
    → IsTrue whole db1 db2 id t
    → IsTrue whole db db2 id (later s t)
IsTrue-later whole db db1 db2 id s silent up up' h k = record {
  old = λ known. k.old (still known) ∙ h.old known;
  loud = λ l. let (below, e) = h.loud l in (omega arith, k.old (inl below) ∙ e);
}
  where
    still : (id < db.next_cluster_id) ⊎ whole → (id < db1.next_cluster_id) ⊎ whole
    still (inl below) = inl (omega arith)
    still (inr all) = inr all
IsTrue-later whole db db1 db2 id s gone up up' h k = record {
  old = λ known. (k.loud refl).1;
  loud = λ l. k.loud refl;
}
IsTrue-later whole db db1 db2 id s (now_is c) up up' h k = record {
  old = λ known. (k.loud refl).1;
  loud = λ l. k.loud refl;
}

module _ {base : TxSet} {whole : Type 0} where
  pub Moves-later :
      (w w1 w2 : World) (s t : ℕ → Told)
      → Moves base whole w s w1
      → Moves base whole w1 t w2
      → Moves base whole w (λ id. later (s id) (t id)) w2
  Moves-later w w1 w2 s t h k = record {
    kept = k.kept;
    grows = let a = h.grows in let b = k.grows in omega arith;
    tells = λ id.
        IsTrue-later whole w.db w1.db w2.db id (s id) (t id) h.grows k.grows (h.tells id)
          (k.tells id);
    same_snapshot = k.same_snapshot ∙ h.same_snapshot;
  }

  pub Moves-told :
      (w w' : World) (s t : ℕ → Told)
      → ((id : ℕ) → s id ≡ t id)
      → Moves base whole w s w'
      → Moves base whole w t w'
  Moves-told w w' s t e h = record {
    kept = h.kept;
    grows = h.grows;
    tells = λ id. subst (IsTrue whole w.db w'.db id) (e id) (h.tells id);
    same_snapshot = h.same_snapshot;
  }

  pub Follows-step :
      (w w1 w2 : World) (changes changes' : ClusterDeltaSet) (t : ℕ → Told)
      → Follows base whole w changes w1
      → Moves base whole w1 t w2
      → IsCoherent changes'
      → ((id : ℕ) → told changes' id ≡ later (told changes id) (t id))
      → Follows base whole w changes' w2
  Follows-step w w1 w2 changes changes' t h k c e = record {
    coherent = c;
    moves =
        Moves-told w w2 _ (told changes') (λ id. sym (e id))
          (Moves-later w w1 w2 (told changes) t h.moves k);
  }

  -- A part of a round that says nothing.
  pub Follows-quiet :
      (w w1 w2 : World) (changes : ClusterDeltaSet)
      → Follows base whole w changes w1
      → Moves base whole w1 (λ id. silent) w2
      → Follows base whole w changes w2
  Follows-quiet w w1 w2 changes h k =
      Follows-step w w1 w2 changes changes (λ id. silent) h k h.coherent (λ id. refl)

  pub Follows-merge :
      (w w1 w2 : World) (changes more : ClusterDeltaSet)
      → Follows base whole w changes w1
      → Follows base whole w1 more w2
      → Follows base whole w (merge changes more) w2
  Follows-merge w w1 w2 changes more h k =
      Follows-step w w1 w2 changes (merge changes more) (told more) h k.moves
        (merge-IsCoherent changes more h.coherent k.coherent)
        (λ id. told-merge changes more id k.coherent)

  -- What follows a part of a round that said nothing.
  pub Follows-after :
      (w w1 w2 : World) (changes : ClusterDeltaSet)
      → Moves base whole w (λ id. silent) w1
      → Follows base whole w1 changes w2
      → Follows base whole w changes w2
  Follows-after w w1 w2 changes m h = record {
    coherent = h.coherent;
    moves =
        Moves-told w w2 _ (told changes) (λ id. later-silent (told changes id))
          (Moves-later w w1 w2 (λ id. silent) (told changes) m h.moves);
  }

  -- Nothing moves but the ledger.
  pub Moves-same :
      (w w' : World)
      → IsKept base w
      → w'.db ≡ w.db
      → w'.snapshot ≡ w.snapshot
      → IsConsistent base w'.ledger
      → Moves base whole w (λ id. silent) w'
  Moves-same w w' v db snapshot c = record {
    kept = record { sound = rw db v.sound; linked = rw db v.linked; consistent = c };
    grows = rw db (omega arith);
    tells = λ id. record { old = λ below. rw db refl; loud = λ l. absurd (ground arith) };
    same_snapshot = snapshot;
  }

  pub Follows-none : (w : World) → IsKept base w → Follows base whole w no_changes w
  Follows-none w v = record {
    coherent = record { distinct = tt; keyed = tt; disjoint = λ id m. refl };
    moves = Moves-same w w v refl refl v.consistent;
  }

  module _ (o : Outside) (setting : IsSetting o whole) where
    pub awaited-Moves :
        (w : World) → IsKept base w → Moves base whole w (λ id. silent) (awaited o w)
    unfolding awaited
    awaited-Moves w v = Moves-same w (awaited o w) v refl refl (
        run-IsConsistent (o.clock w.calls) base (o.meanwhile w.calls) w.ledger
          (setting.polls w.calls) v.consistent)

    -- What a transaction that succeeds has to give.
    pub commit-Moves :
        (w : World) (db' : Database) (t : ℕ → Told)
        → IsKept base w
        → IsSound db'
        → IsLinked db'
        → w.db.next_cluster_id ≤ db'.next_cluster_id
        → ((id : ℕ) → active_at db' id ≡ value (t id) (active_at w.db id))
        → ((id : ℕ) → is_loud (t id) ≡ true → id < db'.next_cluster_id)
        → Moves base whole w t (record (awaited o w) { db = db' })
    unfolding awaited
    commit-Moves w db' t v s l up effect below = record {
      kept = record { sound = s; linked = l; consistent = (awaited-Moves w v).kept.consistent };
      grows = up;
      tells = λ id. record {
        old = λ b. effect id;
        loud = λ b. (below id b, effect id ∙ value-loud (t id) (active_at w.db id) b);
      };
      same_snapshot = refl;
    }
      where
        value-loud :
            (t : Told) (a : Option ActiveCluster) → is_loud t ≡ true → value t a ≡ value t none
        value-loud silent a h = absurd (ground arith)
        value-loud gone a h = refl
        value-loud (now_is c) a h = refl

  pub asserting_absent-Moves :
      (o : Outside) (x : Txid) (w : World)
      → IsKept base w
      → Moves base whole w (λ id. silent) (asserting_absent o x w)
  asserting_absent-Moves o x w v =
      Moves-same w (asserting_absent o x w) v refl refl
        (assert_absent-IsConsistent (o.clock w.calls) base (x ∷ []) w.ledger v.consistent)

  pub asserting_present-Moves :
      (o : Outside) (xs : List Txid) (w : World)
      → IsKept base w
      → Moves base whole w (λ id. silent) (asserting_present o xs w)
  asserting_present-Moves o xs w v =
      Moves-same w (asserting_present o xs w) v refl refl
        (assert_present-IsConsistent (o.clock w.calls) base xs w.ledger v.consistent)

-- A transaction fails and writes nothing, or writes what it gives.
pub transact-cases {ℓ} :
    {A : Type ℓ} (o : Outside) (f : Time → Database → Option (Database × A)) (w : World)
    → (transact o f w ≡ (none, awaited o w))
      ⊎ ((r : Database × A) × (f (o.now w.calls) w.db ≡ some r)
          × (transact o f w ≡ (some r.1, record (awaited o w) { db = r.0 })))
unfolding transact
transact-cases o f w = elim (Bool-cases (o.db_fails w.calls)) [
  | inl fails ↦ inl (rw fails refl)
  | inr works ↦ elim (Option-cases (f (o.now w.calls) w.db)) [
    | inl failed ↦ inl (rw (works, failed) refl)
    | inr (r, e) ↦ inr (r, e, rw (works, e) refl)
  ]
]

pub query-cases {ℓ} :
    {A : Type ℓ} (o : Outside) (f : Database → A) (w : World)
    → (query o f w ≡ (none, awaited o w)) ⊎ (query o f w ≡ (some (f w.db), awaited o w))
unfolding query
query-cases o f w = elim (Bool-cases (o.db_fails w.calls)) [
  | inl fails ↦ inl (rw fails refl)
  | inr works ↦ inr (rw works refl)
]
