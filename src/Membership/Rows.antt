-- ===== src/Membership/Rows.antt =====
-- api/src/db/repositories/cluster_membership.rs: what the statements keep of one row of a chunk.
use cluster_mempool_observer.Base.{
  ℕ, suc, ◌+◌, Bool, true, false, ◌&&◌, ◌||◌, ◌≡◌, List, [], ◌∷◌, Option, none, some, arith,
  contains, All, leb, ◌==◌, if◌then◌else◌, contains-append, Bool-cases, inl, inr, ◌⊎◌, ltb, zero,
}
use cluster_mempool_observer.Db.{ClusterChunk, is_active, ClusterRow, ClusterChunkRow}
use cluster_mempool_observer.Membership.{
  set_dead, of_version, active_among, select_active, live_among, update_rows, changed,
  chunk_rows_from, put,
}

-- Whether a chunk belongs to the current version of a cluster that is active.
abbrev pub is_current : Option ClusterRow → ClusterChunkRow → Bool
is_current none r = false
is_current (some row) r = is_active row.status && r.version == row.version

abbrev pub is_known : Option ClusterRow → ClusterChunkRow → Bool
is_known none r = false
is_known (some row) r = leb r.version row.version

-- A chunk of a known version; live only if current, and current only if live, but for the clusters
-- of which a transaction has still to close.
abbrev pub IsRowSound : List ℕ → Option ClusterRow → ClusterChunkRow → Type 0
IsRowSound pending cluster r =
    (is_known cluster r ≡ true)
    × (r.live ≡ true → is_current cluster r ≡ true)
    × (is_current cluster r ≡ true → contains r.cluster_id pending ≡ false → r.live ≡ true)

-- A new version retires the chunks of the one before it.
pub retired-IsRowSound :
    (pending : List ℕ) (id : ℕ) (old row : ClusterRow) (clusters : ℕ → Option ClusterRow)
    (r : ClusterChunkRow)
    → clusters id ≡ some old
    → row.version ≡ old.version + 1
    → IsRowSound pending (clusters r.cluster_id) r
    → IsRowSound pending (put id row clusters r.cluster_id) (set_dead (of_version id old.version) r)
unfolding set_dead
retired-IsRowSound pending id old row clusters r found next h =
    elim (Bool-cases (r.cluster_id == id)) [
      | inl hit ↦
          let here : clusters r.cluster_id ≡ some old =
            (let e : r.cluster_id ≡ id = ground arith in rw e found) in
          let sound : IsRowSound pending (some old) r = rw here at h in ground arith
      | inr miss ↦ ground arith
    ]

changed-IsRowSound :
    (pending closing : List ℕ) (change : ClusterRow → ClusterRow) (cluster : Option ClusterRow)
    (r : ClusterChunkRow)
    → ((row : ClusterRow)
        → (is_active (change row).status ≡ false) × ((change row).version ≡ row.version))
    → IsRowSound pending cluster r
    → IsRowSound pending
        (changed change (contains r.cluster_id closing) cluster)
        (set_dead (live_among closing) r)
unfolding set_dead
changed-IsRowSound pending closing change none r closes h = ground arith
changed-IsRowSound pending closing change (some row) r closes h = ground (arith, closes row)

-- Closing clusters retires their live chunks.
pub closed-IsRowSound :
    (pending closing : List ℕ) (change : ClusterRow → ClusterRow) (clusters : ℕ → Option ClusterRow)
    (r : ClusterChunkRow)
    → ((row : ClusterRow)
        → (is_active (change row).status ≡ false) × ((change row).version ≡ row.version))
    → IsRowSound pending (clusters r.cluster_id) r
    → IsRowSound pending
        (update_rows change closing clusters r.cluster_id)
        (set_dead (live_among closing) r)
unfolding update_rows
closed-IsRowSound pending closing change clusters r closes h =
    changed-IsRowSound pending closing change (clusters r.cluster_id) r closes h

-- What the chunks of a new version are, in a transaction that leaves them live or goes on to close
-- their cluster.
pub chunk_rows-IsRowSound :
    (pending : List ℕ) (position id : ℕ) (row : ClusterRow) (cs : List ClusterChunk) (live : Bool)
    (clusters : ℕ → Option ClusterRow)
    → clusters id ≡ some row
    → is_active row.status ≡ true
    → (live ≡ true) ⊎ (contains id pending ≡ true)
    → All
        (λ r. IsRowSound pending (clusters r.cluster_id) r)
        (chunk_rows_from position id row.version cs live)
unfolding chunk_rows_from
chunk_rows-IsRowSound pending position id row [] live clusters found act why = tt
chunk_rows-IsRowSound pending position id row (c ∷ cs) live clusters found act why = (
  rw found (ground arith),
  chunk_rows-IsRowSound pending (position + 1) id row cs live clusters found act why,
)

contains-one : (x y : ℕ) (b : Bool) → contains x (if b then y ∷ [] else []) ≡ (x == y && b)
contains-one x y b = ground arith

pub contains-select_active :
    (id : ℕ) (ids : List ℕ) (clusters : ℕ → Option ClusterRow) (n : ℕ)
    → contains id (select_active ids clusters n) ≡ (ltb id n && active_among ids clusters id)
unfolding select_active
contains-select_active id ids clusters zero = ground arith
contains-select_active id ids clusters (suc n) =
    rw
      (
        contains-append id (select_active ids clusters n)
            (if active_among ids clusters n then n ∷ [] else []),
        contains-one id n (active_among ids clusters n),
        contains-select_active id ids clusters n,
      )
      (elim (Bool-cases (id == n)) [
        | inl hit ↦ let e : id ≡ n = ground arith in rw e (last n (active_among ids clusters n))
        | inr miss ↦ other id n (active_among ids clusters id) (active_among ids clusters n) miss
      ])
  where
    last : (n : ℕ) (b : Bool) → ((ltb n n && b) || (n == n && b)) ≡ (ltb n (suc n) && b)
    last n b = ground arith

    other :
        (id n : ℕ) (b c : Bool)
        → (id == n) ≡ false
        → ((ltb id n && b) || (id == n && c)) ≡ (ltb id (suc n) && b)
    other id n b c miss = ground arith
