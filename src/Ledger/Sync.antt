-- ===== src/Ledger/Sync.antt =====
-- shared/src/snapshot/mempool.rs: how a journal leads from the database's residency to `live`, and what
-- pushing entries does to that.
use cluster_mempool_observer.Base.{
  Txid, Time, TxSet, ℕ, ◌+◌, ◌≤◌, Bool, true, false, not, ◌&&◌, ◌||◌, ◌≡◌, refl, ◌∙◌, List, [], ◌∷◌,
  ◌++◌, contains, arith, length, length-append, Distinct, contains-insert, contains-remove,
  contains_self,
}
use cluster_mempool_observer.Ledger.Journal.{
  DeltaDirection, add, rem, JournalEntry, Inner, push, push_all, journal_cap, entry_at,
}
use cluster_mempool_observer.Ledger.Replay.{
  moved, replay, replay-append, Agrees, is_rem, IsEffective, IsEffective-append, contains-moved,
  moved_all,
}

-- A journal, over a database image, that leads to another image.
pub record Leads (db : TxSet) (journal : List JournalEntry) (image : TxSet) : Type 0 where
  pub agrees : Agrees (replay db journal) image
  pub effective : IsEffective db journal

Leads-snoc :
    (db image : TxSet) (es : List JournalEntry) (e : JournalEntry)
    → Leads db es image
    → contains e.txid image ≡ is_rem e.direction
    → Leads db (es ++ e ∷ []) (moved e.direction e.txid image)
unfolding replay
Leads-snoc db image es e h fresh = record {
  agrees = λ y.
      rw (replay-append db es (e ∷ []))
        (contains-moved y e.txid e.direction (replay db es) image (h.agrees y));
  effective = IsEffective-append db es (e ∷ []) h.effective ((h.agrees e.txid ∙ fresh), tt);
}

pub push-accepted :
    (clock : ℕ → Time) (s : Inner) (x : Txid) (d : DeltaDirection)
    → (push clock s x d).1 ≡ true
    → (push clock s x d).0.journal ≡ s.journal ++ entry_at clock s x d ∷ []
unfolding push
push-accepted clock s x d h = ground arith

push-degraded :
    (clock : ℕ → Time) (s : Inner) (x : Txid) (d : DeltaDirection)
    → (push clock s x d).0.degraded ≡ (s.degraded || not (push clock s x d).1)
unfolding push
push-degraded clock s x d = ground arith

pub push-fitted :
    (clock : ℕ → Time) (s : Inner) (x : Txid) (d : DeltaDirection)
    → (push clock s x d).0.degraded ≡ false
    → (s.degraded ≡ false) × ((push clock s x d).1 ≡ true)
push-fitted clock s x d h = ground (arith, push-degraded clock s x d)

pub push-live :
    (clock : ℕ → Time) (s : Inner) (x : Txid) (d : DeltaDirection)
    → (push clock s x d).0.live ≡ s.live
unfolding push
push-live clock s x d = ground arith

pub push-bounded :
    (clock : ℕ → Time) (s : Inner) (x : Txid) (d : DeltaDirection)
    → length s.journal ≤ journal_cap
    → length (push clock s x d).0.journal ≤ journal_cap
unfolding push
push-bounded clock s x d h = ground (arith, length-append s.journal (entry_at clock s x d ∷ []))

pub push-Leads :
    (clock : ℕ → Time) (db image : TxSet) (s : Inner) (x : Txid) (d : DeltaDirection)
    → Leads db s.journal image
    → contains x image ≡ is_rem d
    → (push clock s x d).1 ≡ true
    → Leads db (push clock s x d).0.journal (moved d x image)
push-Leads clock db image s x d h fresh accepted =
    rw (push-accepted clock s x d accepted)
      (Leads-snoc db image s.journal (entry_at clock s x d) h fresh)

-- Every txid of a list is yet to move in the direction.
abbrev pub AllFresh : DeltaDirection → TxSet → List Txid → Type 0
AllFresh d image [] = Unit {0}
AllFresh d image (x ∷ xs) = (contains x image ≡ is_rem d) × AllFresh d image xs

pub AllFresh-moved :
    (d : DeltaDirection) (image : TxSet) (x : Txid) (xs : List Txid)
    → contains x xs ≡ false
    → AllFresh d image xs
    → AllFresh d (moved d x image) xs
AllFresh-moved d image x [] n h = tt
AllFresh-moved add image x (y ∷ xs) n h =
    (ground (arith, contains-insert y x image), AllFresh-moved add image x xs (ground arith) h.1)
AllFresh-moved rem image x (y ∷ xs) n h =
    (ground (arith, contains-remove y x image), AllFresh-moved rem image x xs (ground arith) h.1)

and_left : (a b : Bool) → (a && b) ≡ true → a ≡ true
and_left a b h = ground arith

pub and_right : (a b : Bool) → (a && b) ≡ true → b ≡ true
and_right a b h = ground arith

pub push_all_complete :
    (clock : ℕ → Time) (d : DeltaDirection) (xs : List Txid) (s : Inner) (c : Bool)
    → (push_all clock d xs s c).1 ≡ true
    → c ≡ true
unfolding push_all
push_all_complete clock d [] s c h = h
push_all_complete clock d (x ∷ xs) s c h =
    and_left c _ (push_all_complete clock d xs (push clock s x d).0 (c && (push clock s x d).1) h)

-- A loop of pushes that all fitted leads to the image with all of the list moved.
pub push_all-Leads :
    (clock : ℕ → Time) (db : TxSet) (d : DeltaDirection) (xs : List Txid) (image : TxSet)
    (s : Inner) (c : Bool)
    → Leads db s.journal image
    → Distinct xs
    → AllFresh d image xs
    → (push_all clock d xs s c).1 ≡ true
    → Leads db (push_all clock d xs s c).0.journal (moved_all d xs image)
unfolding push_all moved_all
push_all-Leads clock db d [] image s c h distinct fresh all = h
push_all-Leads clock db d (x ∷ xs) image s c h distinct fresh all =
    let s' = (push clock s x d).0 in
    let c' = c && (push clock s x d).1 in
    let accepted : (push clock s x d).1 ≡ true =
      and_right c (push clock s x d).1 (push_all_complete clock d xs s' c' all) in
    push_all-Leads clock db d xs (moved d x image) s' c'
      (push-Leads clock db image s x d h fresh.0 accepted) distinct.1
      (AllFresh-moved d image x xs distinct.0 fresh.1) all

pub push_all-live :
    (clock : ℕ → Time) (d : DeltaDirection) (xs : List Txid) (s : Inner) (c : Bool)
    → (push_all clock d xs s c).0.live ≡ s.live
unfolding push_all
push_all-live clock d [] s c = refl
push_all-live clock d (x ∷ xs) s c =
    push_all-live clock d xs (push clock s x d).0 (c && (push clock s x d).1)
    ∙ push-live clock s x d

pub push_all-bounded :
    (clock : ℕ → Time) (d : DeltaDirection) (xs : List Txid) (s : Inner) (c : Bool)
    → length s.journal ≤ journal_cap
    → length (push_all clock d xs s c).0.journal ≤ journal_cap
unfolding push_all
push_all-bounded clock d [] s c h = h
push_all-bounded clock d (x ∷ xs) s c h =
    push_all-bounded clock d xs (push clock s x d).0 (c && (push clock s x d).1)
      (push-bounded clock s x d h)

-- A loop that started complete says in its flag whether it degraded the ledger.
pub push_all-degraded :
    (clock : ℕ → Time) (d : DeltaDirection) (xs : List Txid) (s : Inner) (c : Bool)
    → (push_all clock d xs s c).0.degraded ≡ false
    → (s.degraded ≡ false) × (c ≡ true → (push_all clock d xs s c).1 ≡ true)
unfolding push_all
push_all-degraded clock d [] s c h = (h, λ e. e)
push_all-degraded clock d (x ∷ xs) s c h =
    let r = push_all-degraded clock d xs (push clock s x d).0 (c && (push clock s x d).1) h in
    ground (arith, push-degraded clock s x d, r.0, r.1)

pub push_all-incomplete :
    (clock : ℕ → Time) (d : DeltaDirection) (xs : List Txid) (s : Inner) (c : Bool)
    → (c ≡ false → s.degraded ≡ true)
    → (push_all clock d xs s c).1 ≡ false
    → (push_all clock d xs s c).0.degraded ≡ true
unfolding push_all
push_all-incomplete clock d [] s c k h = k h
push_all-incomplete clock d (x ∷ xs) s c k h =
    push_all-incomplete clock d xs (push clock s x d).0 (c && (push clock s x d).1)
      (λ e. ground (arith, push-degraded clock s x d, k)) h

pub AllFresh-of_contains :
    (d : DeltaDirection) (image : TxSet) (xs : List Txid)
    → ((x : ℕ) → contains x xs ≡ true → contains x image ≡ is_rem d)
    → AllFresh d image xs
AllFresh-of_contains d image [] h = tt
AllFresh-of_contains d image (x ∷ xs) h =
    (h x (contains_self x xs), AllFresh-of_contains d image xs (λ y m. h y (ground arith)))

push-room :
    (clock : ℕ → Time) (s : Inner) (x : Txid) (d : DeltaDirection)
    → length s.journal + 1 ≤ journal_cap
    → ((push clock s x d).1 ≡ true) × (length (push clock s x d).0.journal ≡ length s.journal + 1)
unfolding push
push-room clock s x d h = ground (arith, length-append s.journal (entry_at clock s x d ∷ []))

-- Where there is room for all of a list, all of it is queued.
pub push_all-room :
    (clock : ℕ → Time) (d : DeltaDirection) (xs : List Txid) (s : Inner) (c : Bool)
    → c ≡ true
    → length s.journal + length xs ≤ journal_cap
    → ((push_all clock d xs s c).1 ≡ true)
      × (length (push_all clock d xs s c).0.journal ≡ length s.journal + length xs)
unfolding push_all
push_all-room clock d [] s c e h = (e, omega arith)
push_all-room clock d (x ∷ xs) s c e h =
    let (fits, longer) = push-room clock s x d (omega arith) in
    let (all, grown) =
      push_all-room clock d xs (push clock s x d).0 (c && (push clock s x d).1)
        (ground (arith, fits)) (omega (arith, longer)) in
    (all, omega (arith, grown, longer))
