-- ===== src/Ledger/Journal.antt =====
-- shared/src/snapshot/mempool.rs: the ledger's state, and `Inner::push`. `clock n` is what
-- `now_utc()` reads when n entries are queued: the theorems range over all readings.
use cluster_mempool_observer.Base.{
  Txid, Time, TxSet, ℕ, Bool, true, false, ◌&&◌, List, [], ◌∷◌, ◌++◌, length, leb, if◌then◌else◌,
}

pub data DeltaDirection : Type 0 where
  add rem : DeltaDirection

pub record JournalEntry : Type 0 where
  pub txid : Txid
  pub direction : DeltaDirection
  pub observed_at : Time

pub record Inner : Type 0 where
  pub live : TxSet
  pub journal : List JournalEntry
  pub degraded : Bool

abbrev pub journal_cap : ℕ
journal_cap = 250000

abbrev pub empty_ledger : Inner
empty_ledger = record { live = []; journal = []; degraded = false }

abbrev pub entry_at : (ℕ → Time) → Inner → Txid → DeltaDirection → JournalEntry
entry_at clock s x d = record { txid = x; direction = d; observed_at = clock (length s.journal) }

-- The second part is whether the entry was accepted.
unfoldable pub push : (ℕ → Time) → Inner → Txid → DeltaDirection → Inner × Bool
push clock s x d =
    if leb journal_cap (length s.journal)
    then (record s { degraded = true }, false)
    else (record s { journal = s.journal ++ entry_at clock s x d ∷ [] }, true)

-- `for txid in xs { complete &= inner.push(txid, d) }`.
unfoldable pub push_all : (ℕ → Time) → DeltaDirection → List Txid → Inner → Bool → Inner × Bool
push_all clock d [] s complete = (s, complete)
push_all clock d (x ∷ xs) s complete =
    let (s', accepted) = push clock s x d in push_all clock d xs s' (complete && accepted)
