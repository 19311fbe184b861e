-- ===== src/Membership/ReadBack.antt =====
-- api/src/db/repositories/cluster.rs and cluster_membership.rs: clusters that are written and then loaded.
use cluster_mempool_observer.Base.{
  ℕ, zero, suc, ◌+◌, map, ◌<◌, ◌≤◌, ◌⊎◌, List, length, Bool, true, false, ◌||◌, ◌≡◌, refl, ◌∙◌, ap,
  [], ◌∷◌, ◌++◌, Option, none, some, arith, contains, ltb, ◌==◌, Time, Bool-cases, inl, inr,
  if◌then◌else◌,
}
use cluster_mempool_observer.Db.{
  ClusterChunk, ClusterRow, ClusterChunkRow, Cluster, Database, is_active,
}
use cluster_mempool_observer.Membership.{
  ClusterVersionUpdate, set_dead, of_version, chunk_rows, chunks_of, replace_row, write_version,
  is_settled, is_open, chunk_rows_from, replace_chunks,
}
use cluster_mempool_observer.Snapshot.Tracking.{same_chunks-≡}
use cluster_mempool_observer.Membership.Soundness.{IsSound, found_below, replace_chunks_in-found}
use cluster_mempool_observer.Membership.Loading.{
  loaded, load_one, load_below, load_clusters, find_by_ids, picked-nowhere_append,
  picked-chunk_rows,
}
use cluster_mempool_observer.Membership.Activity.{beyond-IsNowhere}
use cluster_mempool_observer.Membership.Ids.{replace_chunks_in-next}

abbrev is_id : ℕ → ℕ → ClusterRow → Bool
is_id id k row = contains k (id ∷ [])

load_one-is_id :
    (id n : ℕ) (db : Database) (row : ClusterRow)
    → db.clusters id ≡ some row
    → load_one (is_id id) db n (db.clusters n) ≡ (if n == id then loaded db id row ∷ [] else [])
load_one-is_id id n db row found = elim (Bool-cases (n == id)) [
  | inl hit ↦
      let e : n ≡ id = ground arith in
      let same : (id == id) ≡ true = ground arith in rw (hit, e) (rw (found, same) refl)
  | inr miss ↦ rw miss (other (db.clusters n) (n == id || false) (ground arith))
]
  where
    other :
        (cluster : Option ClusterRow) (b : Bool) → b ≡ false → load_one (λ _ _. b) db n cluster ≡ []
    other none b h = refl
    other (some r) b h = rw h refl

load_below-is_id :
    (id n : ℕ) (db : Database) (row : ClusterRow)
    → db.clusters id ≡ some row
    → load_below (is_id id) db n ≡ (if ltb id n then loaded db id row ∷ [] else [])
unfolding load_below
load_below-is_id id zero db row found = let above : ltb id 0 ≡ false = ground arith in rw above refl
load_below-is_id id (suc n) db row found =
    rw (load_below-is_id id n db row found, load_one-is_id id n db row found)
      (elim (Bool-cases (n == id)) [
        | inl hit ↦
            let above : ltb id n ≡ false = ground arith in
            let below : ltb id (suc n) ≡ true = ground arith in rw (hit, above, below) refl
        | inr miss ↦
            let same : ltb id (suc n) ≡ ltb id n = ground arith in
            rw (miss, same) (no_more (ltb id n) (loaded db id row))
      ])
  where
    no_more :
        (b : Bool) (c : Cluster) → (if b then c ∷ [] else []) ++ [] ≡ (if b then c ∷ [] else [])
    no_more true c = refl
    no_more false c = refl

find_by_ids-one :
    (id : ℕ) (db : Database) (row : ClusterRow)
    → db.clusters id ≡ some row
    → id < db.next_cluster_id
    → find_by_ids (id ∷ []) db ≡ loaded db id row ∷ []
unfolding find_by_ids load_clusters
find_by_ids-one id db row found below =
    let low : ltb id db.next_cluster_id ≡ true = ground arith in
    load_below-is_id id db.next_cluster_id db row found ∙ rw low refl

-- Where the written row stands, and what is loaded there.
abbrev IsThere : ℕ → Database → Cluster → Type 0
IsThere id db c = (db.clusters id ≡ some c.row) × (loaded db id c.row ≡ c)

replace_row-IsThere :
    (now : Time) (update : ClusterVersionUpdate) (old : ClusterRow) (db : Database)
    → db.clusters update.cluster_id ≡ some old
    → IsSound db
    → let r = replace_row now update true old db in IsThere update.cluster_id r.0 r.1
unfolding replace_row write_version chunks_of chunk_rows
replace_row-IsThere now update old db found v =
    let id = update.cluster_id in
    let test = of_version id old.version in
    let rows = chunk_rows id (old.version + 1) update.chunks true in
    elim (Bool-cases (is_settled update old db)) [
      | inl settled ↦ rw settled (found, refl)
      | inr moves ↦ rw moves (
        ground arith,
        rw
            (
              picked-nowhere_append id (old.version + 1) (map (set_dead test) db.cluster_chunks)
                  rows (beyond-IsNowhere [] id old db.clusters test db.cluster_chunks found v.rows),
              picked-chunk_rows id (old.version + 1) update.chunks true,
            )
            refl,
      )
    ]

-- The chunks of the update are there afterwards, unless the cluster is no longer active: then nothing is
-- written.
abbrev pub TakesChunks : ClusterVersionUpdate → Database → Database × Cluster → Type 0
TakesChunks update db r =
    (r.1.chunks ≡ update.chunks) ⊎ ((is_open (db.clusters update.cluster_id) ≡ false) × (r.0 ≡ db))

replace_row-TakesChunks :
    (now : Time) (update : ClusterVersionUpdate) (old : ClusterRow) (db : Database)
    → db.clusters update.cluster_id ≡ some old
    → TakesChunks update db (replace_row now update true old db)
unfolding replace_row write_version
replace_row-TakesChunks now update old db found = elim (Bool-cases (is_active old.status)) [
  | inl open_now ↦ elim (Bool-cases (is_settled update old db)) [
    | inl settled ↦
        let same = chunks_of db update.cluster_id old.version in
        rw settled (inl (same_chunks-≡ same update.chunks (ground arith)))
    | inr moves ↦ rw moves (inl refl)
  ]
  | inr closed ↦
      let settled : is_settled update old db ≡ true = rw closed refl in
      rw (settled, found) (inr (closed, refl))
]

-- `i16::MAX` is 2^15 - 1.
abbrev i16_limit : ℕ
i16_limit = 32768

-- The positions stay below the limit of the 16 bits that they are stored in.
abbrev pub PositionsFit : List ClusterChunkRow → Type 0
PositionsFit [] = Unit {0}
PositionsFit (row ∷ rows) = (row.position < i16_limit) × PositionsFit rows

chunk_rows_from-PositionsFit :
    (position id version : ℕ) (chunks : List ClusterChunk) (live : Bool)
    → position + length chunks ≤ i16_limit
    → PositionsFit (chunk_rows_from position id version chunks live)
unfolding chunk_rows_from
chunk_rows_from-PositionsFit position id version [] live h = tt
chunk_rows_from-PositionsFit position id version (c ∷ cs) live h =
    (omega arith, chunk_rows_from-PositionsFit (position + 1) id version cs live (omega arith))

-- Where chunks are live exactly while current, an update of at most 2^15 chunks leaves the cluster that it
-- returns as what is then loaded under the cluster's id; this has the chunks of the update, in their order,
-- unless the cluster is no longer active, and then nothing was written; and no position that the update
-- writes exceeds 16 bits.
pub find_by_ids-replace_chunks :
    (now : Time) (update : ClusterVersionUpdate) (db : Database) (r : Database × Cluster)
    → IsSound db
    → length update.chunks ≤ i16_limit
    → replace_chunks now update db ≡ some r
    → (find_by_ids (update.cluster_id ∷ []) r.0 ≡ r.1 ∷ [])
      × TakesChunks update db r
      × ((version : ℕ) → PositionsFit (chunk_rows update.cluster_id version update.chunks true))
unfolding replace_chunks chunk_rows
find_by_ids-replace_chunks now update db r v few h =
    let (old, found, e) = replace_chunks_in-found now update true db r h in
    let next = (replace_chunks_in-next now update true db r h).0 in
    let below = found_below [] db update.cluster_id old v found in
    let there : IsThere update.cluster_id r.0 r.1 =
      rw e (replace_row-IsThere now update old db found v) in
    (
      find_by_ids-one update.cluster_id r.0 r.1.row there.0 (rw next below)
          ∙ ap (λ c. c ∷ []) there.1,
      rw e (replace_row-TakesChunks now update old db found),
      (λ version.
          chunk_rows_from-PositionsFit 0 update.cluster_id version update.chunks true
            (omega arith)),
    )
