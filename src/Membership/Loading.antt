-- ===== src/Membership/Loading.antt =====
-- api/src/db/repositories/cluster.rs: `load_clusters`, and the queries that load clusters by it.
use cluster_mempool_observer.Base.{
  ℕ, zero, suc, ◌+◌, ◌<◌, Bool, true, false, ◌||◌, ◌≡◌, refl, ap, ◌∙◌, List, [], ◌∷◌, ◌++◌, map,
  Option, none, some, arith, contains, contains-append, keep, leb, ◌==◌, Bool-cases, inl, inr,
  if◌then◌else◌,
}
use cluster_mempool_observer.Db.{
  ClusterChunk, is_active, ClusterRow, ClusterChunkRow, Cluster, Database, from_chunk_row,
  insert_by_position, order_by_position,
}
use cluster_mempool_observer.Membership.{
  set_dead, of_version, chunk_rows_from, chunk_rows, chunks_of,
}

abbrev pub loaded : Database → ℕ → ClusterRow → Cluster
loaded db id row = record { id = id; row = row; chunks = chunks_of db id row.version }

abbrev pub load_one : (ℕ → ClusterRow → Bool) → Database → ℕ → Option ClusterRow → List Cluster
load_one test db id none = []
load_one test db id (some row) = if test id row then loaded db id row ∷ [] else []

-- The clusters with ids below `n`, in id order.
unfoldable pub load_below : (ℕ → ClusterRow → Bool) → Database → ℕ → List Cluster
load_below test db zero = []
load_below test db (suc n) = load_below test db n ++ load_one test db n (db.clusters n)

unfoldable pub load_clusters : (ℕ → ClusterRow → Bool) → Database → List Cluster
load_clusters test db = load_below test db db.next_cluster_id

unfoldable pub find_by_ids : List ℕ → Database → List Cluster
find_by_ids ids db = load_clusters (λ id _. contains id ids) db

unfoldable pub find_active : Database → List Cluster
find_active db = load_clusters (λ _ row. is_active row.status) db

abbrev pub ids_of : List Cluster → List ℕ
ids_of = map (λ (c : Cluster). c.id)

ids_of-append : (xs ys : List Cluster) → ids_of (xs ++ ys) ≡ ids_of xs ++ ids_of ys
ids_of-append [] ys = refl
ids_of-append (x ∷ xs) ys = rw (ids_of-append xs ys) refl

load_one-id :
    (test : ℕ → ClusterRow → Bool) (db : Database) (n id : ℕ) (cluster : Option ClusterRow)
    → contains id (ids_of (load_one test db n cluster)) ≡ true
    → (id == n) ≡ true
load_one-id test db n id none h = absurd (ground arith)
load_one-id test db n id (some row) h = elim (Bool-cases (test n row)) [
  | inl hit ↦ let m : (id == n || false) ≡ true = rw hit at h in ground arith
  | inr miss ↦ let m : false ≡ true = rw miss at h in absurd (ground arith)
]

load_below-ids :
    (test : ℕ → ClusterRow → Bool) (db : Database) (n id : ℕ)
    → contains id (ids_of (load_below test db n)) ≡ true
    → id < n
unfolding load_below
load_below-ids test db zero id h = absurd (ground arith)
load_below-ids test db (suc n) id h =
    let one = load_one test db n (db.clusters n) in
    let join =
      ap (contains id) (ids_of-append (load_below test db n) one)
      ∙ contains-append id (ids_of (load_below test db n)) (ids_of one) in
    elim (Bool-cases (contains id (ids_of (load_below test db n)))) [
      | inl low ↦ let below = load_below-ids test db n id low in omega arith
      | inr above ↦
          let m : contains id (ids_of one) ≡ true = ground (arith, join) in
          let hit = load_one-id test db n id (db.clusters n) m in ground arith
    ]

pub find_by_ids-below :
    (ids : List ℕ) (db : Database) (id : ℕ)
    → contains id (ids_of (find_by_ids ids db)) ≡ true
    → id < db.next_cluster_id
unfolding find_by_ids load_clusters
find_by_ids-below ids db id h = load_below-ids _ db db.next_cluster_id id h

-- The chunks of one version among some rows, as `chunks_of` takes them from a database.
abbrev pub picked : ℕ → ℕ → List ClusterChunkRow → List ClusterChunk
picked id version rows = map from_chunk_row (order_by_position (keep (of_version id version) rows))

abbrev pub IsNowhere : ℕ → ℕ → List ClusterChunkRow → Type 0
IsNowhere id version [] = Unit {0}
IsNowhere id version (r ∷ rows) = (of_version id version r ≡ false) × IsNowhere id version rows

keep-IsNowhere :
    (id version : ℕ) (rows : List ClusterChunkRow)
    → IsNowhere id version rows
    → keep (of_version id version) rows ≡ []
keep-IsNowhere id version [] h = refl
keep-IsNowhere id version (r ∷ rows) h = rw h.0 (keep-IsNowhere id version rows h.1)

keep-append :
    (p : ClusterChunkRow → Bool) (xs ys : List ClusterChunkRow)
    → keep p (xs ++ ys) ≡ keep p xs ++ keep p ys
keep-append p [] ys = refl
keep-append p (x ∷ xs) ys = elim (Bool-cases (p x)) [
  | inl hit ↦ rw (hit, keep-append p xs ys) refl
  | inr miss ↦ rw (miss, keep-append p xs ys) refl
]

append_empty : (rows : List ClusterChunkRow) → rows ++ [] ≡ rows
append_empty [] = refl
append_empty (r ∷ rows) = rw (append_empty rows) refl

keep-set_dead :
    (test : ClusterChunkRow → Bool) (id version : ℕ) (rows : List ClusterChunkRow)
    → keep (of_version id version) (map (set_dead test) rows)
      ≡ map (set_dead test) (keep (of_version id version) rows)
unfolding set_dead
keep-set_dead test id version [] = refl
keep-set_dead test id version (r ∷ rows) = elim (Bool-cases (of_version id version r)) [
  | inl hit ↦ rw (hit, keep-set_dead test id version rows) refl
  | inr miss ↦ rw (miss, keep-set_dead test id version rows) refl
]

insert-set_dead :
    (test : ClusterChunkRow → Bool) (r : ClusterChunkRow) (rows : List ClusterChunkRow)
    → insert_by_position (set_dead test r) (map (set_dead test) rows)
      ≡ map (set_dead test) (insert_by_position r rows)
unfolding set_dead insert_by_position
insert-set_dead test r [] = refl
insert-set_dead test r (s ∷ rows) = elim (Bool-cases (leb r.position s.position)) [
  | inl first ↦ rw first refl
  | inr later ↦ rw (later, insert-set_dead test r rows) refl
]

order-set_dead :
    (test : ClusterChunkRow → Bool) (rows : List ClusterChunkRow)
    → order_by_position (map (set_dead test) rows) ≡ map (set_dead test) (order_by_position rows)
unfolding order_by_position
order-set_dead test [] = refl
order-set_dead test (r ∷ rows) =
    rw (order-set_dead test rows) (insert-set_dead test r (order_by_position rows))

from-set_dead :
    (test : ClusterChunkRow → Bool) (rows : List ClusterChunkRow)
    → map from_chunk_row (map (set_dead test) rows) ≡ map from_chunk_row rows
unfolding set_dead from_chunk_row
from-set_dead test [] = refl
from-set_dead test (r ∷ rows) = rw (from-set_dead test rows) refl

-- Retiring rows changes no chunk.
pub picked-set_dead :
    (test : ClusterChunkRow → Bool) (id version : ℕ) (rows : List ClusterChunkRow)
    → picked id version (map (set_dead test) rows) ≡ picked id version rows
picked-set_dead test id version rows =
    rw (keep-set_dead test id version rows, order-set_dead test (keep (of_version id version) rows))
      (from-set_dead test (order_by_position (keep (of_version id version) rows)))

pub picked-append_nowhere :
    (id version : ℕ) (rows more : List ClusterChunkRow)
    → IsNowhere id version more
    → picked id version (rows ++ more) ≡ picked id version rows
picked-append_nowhere id version rows more h =
    rw
      (
        keep-append (of_version id version) rows more,
        keep-IsNowhere id version more h,
        append_empty (keep (of_version id version) rows),
      )
      refl

pub picked-nowhere_append :
    (id version : ℕ) (rows more : List ClusterChunkRow)
    → IsNowhere id version rows
    → picked id version (rows ++ more) ≡ picked id version more
picked-nowhere_append id version rows more h =
    rw (keep-append (of_version id version) rows more, keep-IsNowhere id version rows h) refl

keep-chunk_rows :
    (position id version : ℕ) (cs : List ClusterChunk) (live : Bool)
    → keep (of_version id version) (chunk_rows_from position id version cs live)
      ≡ chunk_rows_from position id version cs live
unfolding chunk_rows_from
keep-chunk_rows position id version [] live = refl
keep-chunk_rows position id version (c ∷ cs) live =
    rw (same id, same version, keep-chunk_rows (position + 1) id version cs live) refl
  where
    same : (n : ℕ) → (n == n) ≡ true
    same n = ground arith

insert-chunk_rows :
    (r : ClusterChunkRow) (id version : ℕ) (cs : List ClusterChunk) (live : Bool)
    → insert_by_position r (chunk_rows_from (r.position + 1) id version cs live)
      ≡ r ∷ chunk_rows_from (r.position + 1) id version cs live
unfolding chunk_rows_from insert_by_position
insert-chunk_rows r id version [] live = refl
insert-chunk_rows r id version (c ∷ cs) live =
    let first : leb r.position (r.position + 1) ≡ true = ground arith in rw first refl

order-chunk_rows :
    (position id version : ℕ) (cs : List ClusterChunk) (live : Bool)
    → order_by_position (chunk_rows_from position id version cs live)
      ≡ chunk_rows_from position id version cs live
unfolding chunk_rows_from order_by_position
order-chunk_rows position id version [] live = refl
order-chunk_rows position id version (c ∷ cs) live =
    rw (order-chunk_rows (position + 1) id version cs live) (insert-chunk_rows _ id version cs live)

from-chunk_rows :
    (position id version : ℕ) (cs : List ClusterChunk) (live : Bool)
    → map from_chunk_row (chunk_rows_from position id version cs live) ≡ cs
unfolding chunk_rows_from from_chunk_row
from-chunk_rows position id version [] live = refl
from-chunk_rows position id version (c ∷ cs) live =
    rw (from-chunk_rows (position + 1) id version cs live) refl

-- The chunks written as one version are read back as they were.
pub picked-chunk_rows :
    (id version : ℕ) (cs : List ClusterChunk) (live : Bool)
    → picked id version (chunk_rows id version cs live) ≡ cs
unfolding chunk_rows
picked-chunk_rows id version cs live =
    rw (keep-chunk_rows 0 id version cs live, order-chunk_rows 0 id version cs live)
      (from-chunk_rows 0 id version cs live)
