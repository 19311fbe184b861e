-- ===== src/Ledger/Flush.antt =====
-- shared/src/snapshot/mempool.rs: `begin_flush` and `commit`, with whatever the generators append
-- between them.
use cluster_mempool_observer.Base.{
  Txid, Time, TxSet, ℕ, Bool, true, ◌&&◌, ◌≡◌, refl, sym, ap, List, [], ◌∷◌, ◌++◌, some, contains,
  arith, length, drop, drop-append, length-append, subst, Bool-cases, inl, inr, leb, insert, remove,
  difference,
}
use mathlib.Core.List.{append_assoc, append-nil}
use cluster_mempool_observer.Ledger.Journal.{
  DeltaDirection, add, rem, JournalEntry, Inner, push, push_all, entry_at, journal_cap,
}
use cluster_mempool_observer.Ledger.Replay.{replay, replay-append, IsEffective-prefix}
use cluster_mempool_observer.Ledger.Sync.{Leads}
use cluster_mempool_observer.Ledger.Consistency.{IsConsistent, AreGenerators, run-IsConsistent}
use cluster_mempool_observer.Ledger.{
  submit_authoritative, assert_present_one, assert_present, assert_absent_one, assert_absent,
  begin_flush, commit, step, run, Generator, submits, presents, absents,
}

-- One journal is the other with entries after it.
abbrev Extends : List JournalEntry → List JournalEntry → Type 0
Extends old new = (es : List JournalEntry) × (new ≡ old ++ es)

Extends-refl : (es : List JournalEntry) → Extends es es
Extends-refl es = ([], sym (append-nil es))

Extends-trans : (a b c : List JournalEntry) → Extends a b → Extends b c → Extends a c
Extends-trans a b c (es, p) (fs, q) = (es ++ fs, rw (q, p) (append_assoc a es fs))

push-Extends :
    (clock : ℕ → Time) (s : Inner) (x : Txid) (d : DeltaDirection)
    → Extends s.journal (push clock s x d).0.journal
unfolding push
push-Extends clock s x d = elim (Bool-cases (leb journal_cap (length s.journal))) [
  | inl full ↦ rw full (Extends-refl s.journal)
  | inr room ↦ rw room (entry_at clock s x d ∷ [], refl)
]

push_all-Extends :
    (clock : ℕ → Time) (d : DeltaDirection) (xs : List Txid) (s : Inner) (c : Bool)
    → Extends s.journal (push_all clock d xs s c).0.journal
unfolding push_all
push_all-Extends clock d [] s c = Extends-refl s.journal
push_all-Extends clock d (x ∷ xs) s c =
    let s' = (push clock s x d).0 in
    let c' = c && (push clock s x d).1 in
    Extends-trans s.journal s'.journal (push_all clock d xs s' c').0.journal
      (push-Extends clock s x d) (push_all-Extends clock d xs s' c')

assert_present_one-Extends :
    (clock : ℕ → Time) (x : Txid) (s : Inner)
    → Extends s.journal (assert_present_one clock x s).journal
unfolding assert_present_one
assert_present_one-Extends clock x s = elim (Bool-cases (contains x s.live)) [
  | inl old ↦ rw old (Extends-refl s.journal)
  | inr new ↦ rw new (push-Extends clock (record s { live = insert x s.live }) x add)
]

assert_present-Extends :
    (clock : ℕ → Time) (xs : List Txid) (s : Inner)
    → Extends s.journal (assert_present clock xs s).journal
unfolding assert_present
assert_present-Extends clock [] s = Extends-refl s.journal
assert_present-Extends clock (x ∷ xs) s =
    let s' = assert_present_one clock x s in
    Extends-trans s.journal s'.journal _ (assert_present_one-Extends clock x s)
      (assert_present-Extends clock xs s')

assert_absent_one-Extends :
    (clock : ℕ → Time) (x : Txid) (s : Inner)
    → Extends s.journal (assert_absent_one clock x s).journal
unfolding assert_absent_one
assert_absent_one-Extends clock x s = elim (Bool-cases (contains x s.live)) [
  | inl held ↦ rw held (push-Extends clock (record s { live = remove x s.live }) x rem)
  | inr gone ↦ rw gone (Extends-refl s.journal)
]

assert_absent-Extends :
    (clock : ℕ → Time) (xs : List Txid) (s : Inner)
    → Extends s.journal (assert_absent clock xs s).journal
unfolding assert_absent
assert_absent-Extends clock [] s = Extends-refl s.journal
assert_absent-Extends clock (x ∷ xs) s =
    let s' = assert_absent_one clock x s in
    Extends-trans s.journal s'.journal _ (assert_absent_one-Extends clock x s)
      (assert_absent-Extends clock xs s')

step-Extends :
    (clock : ℕ → Time) (g : Generator) (s : Inner) → Extends s.journal (step clock g s).journal
unfolding step submit_authoritative
step-Extends clock (submits txids) s =
    let (added, fitted) = push_all clock add (difference txids s.live) s true in
    Extends-trans s.journal added.journal _
      (push_all-Extends clock add (difference txids s.live) s true)
      (push_all-Extends clock rem (difference s.live txids) added fitted)
step-Extends clock (presents txids) s = assert_present-Extends clock txids s
step-Extends clock (absents txids) s = assert_absent-Extends clock txids s

run-Extends :
    (clock : ℕ → Time) (gs : List Generator) (s : Inner)
    → Extends s.journal (run clock gs s).journal
unfolding run
run-Extends clock [] s = Extends-refl s.journal
run-Extends clock (g ∷ gs) s =
    Extends-trans s.journal (step clock g s).journal _ (step-Extends clock g s)
      (run-Extends clock gs (step clock g s))

begin_flush-all :
    (s : Inner) (batch : List JournalEntry) → begin_flush s ≡ some batch → s.journal ≡ batch
unfolding begin_flush
begin_flush-all s batch h = ground arith

-- A batch that was read before any polls and assertions, and is committed after them, takes exactly
-- its own entries off the journal: what was appended meanwhile stays, in order, and nothing else.
pub commit-keeps_appended :
    (clock : ℕ → Time) (gs : List Generator) (s : Inner) (batch : List JournalEntry)
    → begin_flush s ≡ some batch
    → (appended : List JournalEntry) × ((run clock gs s).journal ≡ batch ++ appended)
      × ((commit batch (run clock gs s)).journal ≡ appended)
unfolding commit
commit-keeps_appended clock gs s batch h =
    let (es, e) = run-Extends clock gs s in
    let whole : (run clock gs s).journal ≡ batch ++ es = rw (← begin_flush-all s batch h) e in
    (es, whole, rw whole (drop-append batch es))

Leads-rest :
    (db image : TxSet) (batch es : List JournalEntry)
    → Leads db (batch ++ es) image
    → Leads (replay db batch) es image
Leads-rest db image batch es h = record {
  agrees = rw (← replay-append db batch es) h.agrees;
  effective = (IsEffective-prefix db batch es h.effective).1;
}

commit_prefix-IsConsistent :
    (db : TxSet) (t : Inner) (batch es : List JournalEntry)
    → t.journal ≡ batch ++ es
    → IsConsistent db t
    → IsConsistent (replay db batch) (commit batch t)
unfolding commit
commit_prefix-IsConsistent db t batch es whole v =
    let e : drop (length batch) t.journal ≡ es = rw whole (drop-append batch es) in
    record {
      distinct = v.distinct;
      bounded = rw e (omega (arith, v.bounded, ap length whole, length-append batch es));
      leads = λ fine.
          rw e
            (Leads-rest db t.live batch es (subst (λ j. Leads db j t.live) whole (v.leads fine)));
    }

-- If the database writes the batch, which takes its residency from `db` to the batch replayed on
-- `db`, then committing the batch, whatever happened since it was read, leaves a ledger that is
-- consistent with what the database holds now.
pub commit-IsConsistent :
    (clock : ℕ → Time) (db : TxSet) (gs : List Generator) (s : Inner) (batch : List JournalEntry)
    → AreGenerators gs
    → IsConsistent db s
    → begin_flush s ≡ some batch
    → IsConsistent (replay db batch) (commit batch (run clock gs s))
commit-IsConsistent clock db gs s batch d v h =
    let (es, whole, rest) = commit-keeps_appended clock gs s batch h in
    commit_prefix-IsConsistent db (run clock gs s) batch es whole
      (run-IsConsistent clock db gs s d v)
