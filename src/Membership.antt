-- ===== src/Membership.antt =====
-- api/src/db/repositories/cluster_membership.rs: the statements that write clusters, their chunks and
-- the links of their transactions. Each function is one database transaction: all of it or, when a
-- statement fails, nothing. `now` is the database's clock.
pub mod Rows
pub mod Soundness
pub mod Operations
pub mod Insertion
pub mod Lookup
pub mod Loading
pub mod Activity
pub mod Outcome
pub mod Returned
pub mod Ids
pub mod ReadBack
pub mod Links
pub mod Linking
pub mod Arrivals
pub mod History
use cluster_mempool_observer.Base.{
  ℕ, zero, suc, ◌+◌, ◌≡◌, Bool, true, false, not, ◌&&◌, ◌||◌, leb, List, [], ◌∷◌, ◌++◌, map, Option,
  none, some, Txid, Time, TxSet, contains, keep, any, length, ◌==◌, if◌then◌else◌,
}
use cluster_mempool_observer.Db.{
  ClusterChunk, ClusterStatus, active, confirmed, evicted, merged, is_active, ClusterRow,
  ClusterChunkRow, Cluster, NewCluster, Transaction, Database, hollow, from_chunk_row,
  order_by_position, same_chunks,
}

unfoldable pub total_weight : List ClusterChunk → ℕ
total_weight [] = 0
total_weight (c ∷ cs) = c.weight + total_weight cs

unfoldable pub total_fee : List ClusterChunk → ℕ
total_fee [] = 0
total_fee (c ∷ cs) = c.fee_sats + total_fee cs

-- `chunk_rows`, from a position on. The source stores `position as i16`, which is the position up to 2^15
-- chunks and negative beyond; here the position is kept whole.
unfoldable pub chunk_rows_from : ℕ → ℕ → ℕ → List ClusterChunk → Bool → List ClusterChunkRow
chunk_rows_from position cluster_id version [] live = []
chunk_rows_from position cluster_id version (c ∷ cs) live =
    record {
      cluster_id = cluster_id;
      version = version;
      position = position;
      fee = c.fee_sats;
      weight = c.weight;
      txids = c.txids;
      live = live;
    }
    ∷ chunk_rows_from (position + 1) cluster_id version cs live

unfoldable pub chunk_rows : ℕ → ℕ → List ClusterChunk → Bool → List ClusterChunkRow
chunk_rows = chunk_rows_from 0

unfoldable pub chunk_txids : List ClusterChunk → List Txid
chunk_txids [] = []
chunk_txids (c ∷ cs) = c.txids ++ chunk_txids cs

abbrev pub of_version : ℕ → ℕ → ClusterChunkRow → Bool
of_version cluster_id version r = r.cluster_id == cluster_id && r.version == version

-- The chunks of one version, in mining order.
unfoldable pub chunks_of : Database → ℕ → ℕ → List ClusterChunk
chunks_of db cluster_id version =
    map from_chunk_row (order_by_position (keep (of_version cluster_id version) db.cluster_chunks))

-- `UPDATE cluster_chunks SET live = false WHERE …`.
unfoldable pub set_dead : (ClusterChunkRow → Bool) → ClusterChunkRow → ClusterChunkRow
set_dead test r = record r { live = if test r then false else r.live }

-- `INSERT … ON CONFLICT (txid) DO NOTHING`, of hollow rows.
unfoldable pub insert_hollow :
    Time → List Txid → (Txid → Option Transaction) → Txid → Option Transaction
insert_hollow now txids transactions x = elim (transactions x) [
  | some row ↦ some row
  | none ↦ if contains x txids then some (hollow now) else none
]

-- `UPDATE transactions SET cluster_id = … WHERE …`, the test on the txid and the link.
unfoldable pub relink :
    (Txid → Option ℕ → Bool) → Option ℕ → (Txid → Option Transaction) → Txid → Option Transaction
relink test link transactions x = elim (transactions x) [
  | some row ↦ some (if test x row.cluster_id then record row { cluster_id = link } else row)
  | none ↦ none
]

abbrev pub linked_to : ℕ → Option ℕ → Bool
linked_to id none = false
linked_to id (some c) = c == id

abbrev pub linked_among : List ℕ → Option ℕ → Bool
linked_among ids none = false
linked_among ids (some c) = contains c ids

abbrev pub put : ℕ → ClusterRow → (ℕ → Option ClusterRow) → ℕ → Option ClusterRow
put id row clusters c = if c == id then some row else clusters c

pub record ClusterVersionUpdate : Type 0 where
  pub cluster_id : ℕ
  pub chunks : List ClusterChunk

-- The part of `replace_chunks_in` after its early return, for the active row `old`.
unfoldable pub write_version :
    Time → ClusterVersionUpdate → Bool → ClusterRow → Database → Database × Cluster
write_version now update live old db =
    let id = update.cluster_id in
    let version = old.version + 1 in
    let retired = map (set_dead (of_version id old.version)) db.cluster_chunks in
    let row = record old {
      version = version;
      total_weight = total_weight update.chunks;
      total_fee = total_fee update.chunks;
    } in
    let members = chunk_txids update.chunks in
    let detached =
      relink (λ x link. linked_to id link && not (contains x members)) none db.transactions in
    let known = insert_hollow now members detached in
    let attached =
      relink (λ x link. contains x members && not (linked_to id link)) (some id) known in
    (
      record db {
        clusters = put id row db.clusters;
        cluster_chunks = retired ++ chunk_rows id version update.chunks live;
        transactions = attached;
      },
      record { id = id; row = row; chunks = update.chunks },
    )

-- A cluster that is closed, or whose chunks did not change, stays as it is.
abbrev pub is_settled : ClusterVersionUpdate → ClusterRow → Database → Bool
is_settled update old db =
    not (is_active old.status)
    || same_chunks (chunks_of db update.cluster_id old.version) update.chunks

unfoldable pub replace_row :
    Time → ClusterVersionUpdate → Bool → ClusterRow → Database → Database × Cluster
replace_row now update live old db =
    if is_settled update old db
    then (
      db,
      record {
        id = update.cluster_id;
        row = old;
        chunks = chunks_of db update.cluster_id old.version;
      },
    )
    else write_version now update live old db

-- `none` is the error of a cluster that does not exist.
unfoldable pub replace_chunks_in :
    Time → ClusterVersionUpdate → Bool → Database → Option (Database × Cluster)
replace_chunks_in now update live db = elim (db.clusters update.cluster_id) [
  | none ↦ none
  | some old ↦ some (replace_row now update live old db)
]

unfoldable pub replace_chunks : Time → ClusterVersionUpdate → Database → Option (Database × Cluster)
replace_chunks now update db = replace_chunks_in now update true db

abbrev pub is_open : Option ClusterRow → Bool
is_open none = false
is_open (some row) = is_active row.status

-- Which of `ids` are active: what `SELECT … FOR UPDATE` locks and the statements after it write.
abbrev pub active_among : List ℕ → (ℕ → Option ClusterRow) → ℕ → Bool
active_among ids clusters id = contains id ids && is_open (clusters id)

-- `closing`, in id order.
unfoldable pub select_active : List ℕ → (ℕ → Option ClusterRow) → ℕ → List ℕ
select_active ids clusters zero = []
select_active ids clusters (suc n) =
    select_active ids clusters n ++ (if active_among ids clusters n then n ∷ [] else [])

abbrev pub changed : (ClusterRow → ClusterRow) → Bool → Option ClusterRow → Option ClusterRow
changed change hit none = none
changed change hit (some row) = some (if hit then change row else row)

-- `UPDATE clusters SET … WHERE id = ANY(closing)`.
unfoldable pub update_rows :
    (ClusterRow → ClusterRow) → List ℕ → (ℕ → Option ClusterRow) → ℕ → Option ClusterRow
update_rows change ids clusters id = changed change (contains id ids) (clusters id)

-- `retire_chunks`.
abbrev pub live_among : List ℕ → ClusterChunkRow → Bool
live_among ids r = contains r.cluster_id ids && r.live

pub data ClusterClosing : Type 0 where
  as_evicted as_merged : ClusterClosing

abbrev pub closing_status : ClusterClosing → ClusterStatus
closing_status as_evicted = evicted
closing_status as_merged = merged

-- The second part is how many clusters were closed. The early return for no ids needs no case: they
-- select nothing.
unfoldable pub close_many : Time → ClusterClosing → List ℕ → Database → Database × ℕ
close_many now how ids db =
    let closing = select_active ids db.clusters db.next_cluster_id in
    if length closing == 0 then (db, 0) else (
      record db {
        clusters =
            update_rows (λ row. record row { status = closing_status how; closed_at = some now })
              closing db.clusters;
        cluster_chunks = map (set_dead (live_among closing)) db.cluster_chunks;
        transactions = relink (λ _ link. linked_among closing link) none db.transactions;
      },
      length closing,
    )

unfoldable pub confirm_many_in : Time → Time → List ℕ → Database → Database × ℕ
confirm_many_in now confirmed_at ids db =
    let pending = select_active ids db.clusters db.next_cluster_id in
    if length pending == 0 then (db, 0) else (
      record db {
        clusters =
            update_rows
              (λ row. record row {
                confirmed_at = some confirmed_at;
                status = confirmed;
                closed_at = some now;
              })
              pending db.clusters;
        cluster_chunks = map (set_dead (live_among pending)) db.cluster_chunks;
      },
      length pending,
    )

-- `updates.sort_by_key(|update| update.cluster_id)`, a stable sort.
unfoldable pub insert_by_id :
    ClusterVersionUpdate → List ClusterVersionUpdate → List ClusterVersionUpdate
insert_by_id u [] = u ∷ []
insert_by_id u (v ∷ us) =
    if leb u.cluster_id v.cluster_id then u ∷ v ∷ us else v ∷ insert_by_id u us

unfoldable pub sort_by_id : List ClusterVersionUpdate → List ClusterVersionUpdate
sort_by_id [] = []
sort_by_id (u ∷ us) = insert_by_id u (sort_by_id us)

-- The loop of `trim_and_confirm_many`; a failed update rolls all back.
unfoldable pub replace_all : Time → List ClusterVersionUpdate → Database → Option Database
replace_all now [] db = some db
replace_all now (u ∷ us) db = elim (replace_chunks_in now u false db) [
  | none ↦ none
  | some (db', _) ↦ replace_all now us db'
]

unfoldable pub trim_and_confirm_many :
    Time → Time → List ClusterVersionUpdate → Database → Option (Database × ℕ)
trim_and_confirm_many now confirmed_at updates db =
    let sorted = sort_by_id updates in
    let ids = map (λ u. u.cluster_id) sorted in
    elim (replace_all now sorted db) [
      | none ↦ none
      | some db' ↦ some (confirm_many_in now confirmed_at ids db')
    ]
