-- ===== src/Membership/Lookup.antt =====
-- api/src/db/repositories/cluster.rs: `find_active_ids_by_txids` and its two queries.
use cluster_mempool_observer.Base.{
  ℕ, Bool, true, false, ◌&&◌, ◌||◌, ◌≡◌, refl, List, [], ◌∷◌, Option, none, some, arith, contains,
  insert, any, ltb, ◌==◌, Txid, length, Bool-cases, inl, inr, if◌then◌else◌, contains-insert,
}
use cluster_mempool_observer.Db.{is_active, ClusterRow, ClusterChunkRow, Database}
use cluster_mempool_observer.Membership.Rows.{is_current, IsRowSound}
use cluster_mempool_observer.Membership.Soundness.{RowsSound, IsSound}

abbrev pub active_ids_join_min_txids : ℕ
active_ids_join_min_txids = 64

-- `txids && $1`, and the join of the unnested texts.
abbrev pub overlaps : List Txid → ClusterChunkRow → Bool
overlaps txids r = any (λ x. contains x txids) r.txids

-- The join on the cluster's row.
abbrev pub joins_active : Option ClusterRow → ClusterChunkRow → Bool
joins_active none r = false
joins_active (some row) r = (r.version == row.version) && is_active row.status

-- `SELECT DISTINCT cluster_id … WHERE test`.
unfoldable pub distinct_ids : (ClusterChunkRow → Bool) → List ClusterChunkRow → List ℕ
distinct_ids test [] = []
distinct_ids test (r ∷ rows) =
    let ids = distinct_ids test rows in if test r then insert r.cluster_id ids else ids

unfoldable pub find_active_ids_by_txids : List Txid → Database → List ℕ
find_active_ids_by_txids txids db =
    if length txids == 0
    then []
    else if ltb (length txids) active_ids_join_min_txids
    then distinct_ids (λ r. overlaps txids r && r.live) db.cluster_chunks
    else distinct_ids (λ r. joins_active (db.clusters r.cluster_id) r && overlaps txids r)
        db.cluster_chunks

contains-distinct_ids :
    (id : ℕ) (test : ClusterChunkRow → Bool) (rows : List ClusterChunkRow)
    → contains id (distinct_ids test rows) ≡ any (λ r. id == r.cluster_id && test r) rows
unfolding distinct_ids
contains-distinct_ids id test [] = refl
contains-distinct_ids id test (r ∷ rows) = ground (
  arith,
  contains-distinct_ids id test rows,
  contains-insert id r.cluster_id (distinct_ids test rows),
)

-- What both queries are to find: a current chunk of the cluster, holding one of the txids.
abbrev pub holds_current : List Txid → (ℕ → Option ClusterRow) → ℕ → ClusterChunkRow → Bool
holds_current txids clusters id r =
    id == r.cluster_id && (is_current (clusters r.cluster_id) r && overlaps txids r)

joins-is_current :
    (cluster : Option ClusterRow) (r : ClusterChunkRow)
    → joins_active cluster r ≡ is_current cluster r
joins-is_current none r = refl
joins-is_current (some row) r = ground arith

live-is_current :
    (cluster : Option ClusterRow) (r : ClusterChunkRow)
    → IsRowSound [] cluster r
    → r.live ≡ is_current cluster r
live-is_current cluster r h = elim (Bool-cases r.live) [
  | inl live ↦ ground (arith, h.1 live)
  | inr dead ↦ ground (arith, h.2)
]

any-live :
    (txids : List Txid) (clusters : ℕ → Option ClusterRow) (id : ℕ) (rows : List ClusterChunkRow)
    → RowsSound [] clusters rows
    → any (λ r. id == r.cluster_id && (overlaps txids r && r.live)) rows
      ≡ any (holds_current txids clusters id) rows
any-live txids clusters id [] h = refl
any-live txids clusters id (r ∷ rows) h =
    swap (id == r.cluster_id) (overlaps txids r) r.live (is_current (clusters r.cluster_id) r) _ _
      (live-is_current (clusters r.cluster_id) r h.0) (any-live txids clusters id rows h.1)
  where
    swap : (a b l c d e : Bool) → l ≡ c → d ≡ e → (a && (b && l) || d) ≡ (a && (c && b) || e)
    swap a b l c d e p q = ground arith

any-joined :
    (txids : List Txid) (clusters : ℕ → Option ClusterRow) (id : ℕ) (rows : List ClusterChunkRow)
    → any
        (λ r. id == r.cluster_id && (joins_active (clusters r.cluster_id) r && overlaps txids r))
        rows
      ≡ any (holds_current txids clusters id) rows
any-joined txids clusters id [] = refl
any-joined txids clusters id (r ∷ rows) =
    rw (joins-is_current (clusters r.cluster_id) r, any-joined txids clusters id rows) refl

any-empty : (xs : List Txid) → any (λ x. contains x []) xs ≡ false
any-empty [] = refl
any-empty (x ∷ xs) = any-empty xs

any-none :
    (txids : List Txid) (clusters : ℕ → Option ClusterRow) (id : ℕ) (rows : List ClusterChunkRow)
    → (length txids == 0) ≡ true
    → any (holds_current txids clusters id) rows ≡ false
any-none txids clusters id [] h = refl
any-none [] clusters id (r ∷ rows) h =
    ground (arith, any-empty r.txids, any-none [] clusters id rows h)
any-none (x ∷ txids) clusters id (r ∷ rows) h = absurd (ground arith)

-- Whichever query runs, an id is found exactly if a chunk of that cluster's current version holds one
-- of the txids and the cluster is active.
pub find_active_ids_by_txids-exact :
    (txids : List Txid) (db : Database) (id : ℕ)
    → IsSound db
    → contains id (find_active_ids_by_txids txids db)
      ≡ any (holds_current txids db.clusters id) db.cluster_chunks
unfolding find_active_ids_by_txids
find_active_ids_by_txids-exact txids db id v = elim (Bool-cases (length txids == 0)) [
  | inl empty ↦ rw (empty, any-none txids db.clusters id db.cluster_chunks empty) refl
  | inr some_txids ↦
      rw some_txids (elim (Bool-cases (ltb (length txids) active_ids_join_min_txids)) [
        | inl few ↦
            rw (few, contains-distinct_ids id (λ r. overlaps txids r && r.live) db.cluster_chunks)
              (any-live txids db.clusters id db.cluster_chunks v.rows)
        | inr many ↦
            rw
              (
                many,
                contains-distinct_ids id
                    (λ r. joins_active (db.clusters r.cluster_id) r && overlaps txids r)
                    db.cluster_chunks,
              )
              (any-joined txids db.clusters id db.cluster_chunks)
      ])
]
