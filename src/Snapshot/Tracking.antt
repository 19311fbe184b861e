-- ===== src/Snapshot/Tracking.antt =====
-- shared/src/snapshot/cluster.rs: what the snapshot holds after a publication, and what its frames are.
use cluster_mempool_observer.Base.{
  ℕ, ◌<◌, Bool, true, false, ◌≡◌, refl, ap, List, [], ◌∷◌, ◌++◌, map, Option, none, some, arith,
  All, leb, contains, ◌==◌, if◌then◌else◌, lookup, remove_key, in_chunks, flatten,
  flatten-chunks_from, chunks_from-IsFrame, IsFrame, Bool-cases, inl, inr, lookup-insert_key,
  lookup-remove_key, All-map,
}
use cluster_mempool_observer.Db.{ClusterChunk, same_list, same_chunks}
use cluster_mempool_observer.Snapshot.{
  ClusterState, ActiveCluster, state, ClusterRef, ClusterDeltaEvent, ClusterSnapshot, same_state,
  is_unchanged, remove, reference, upsert, get_current_chunked, upsert_all, remove_all, publish,
}

same_list-≡ : (xs ys : List ℕ) → same_list xs ys ≡ true → xs ≡ ys
same_list-≡ [] [] h = refl
same_list-≡ [] (y ∷ ys) h = absurd (ground arith)
same_list-≡ (x ∷ xs) [] h = absurd (ground arith)
same_list-≡ (x ∷ xs) (y ∷ ys) h =
    let e : x ≡ y = ground arith in
    let es : xs ≡ ys = same_list-≡ xs ys (ground arith) in rw (e, es) refl

pub same_chunks-≡ : (cs ds : List ClusterChunk) → same_chunks cs ds ≡ true → cs ≡ ds
same_chunks-≡ [] [] h = refl
same_chunks-≡ [] (d ∷ ds) h = absurd (ground arith)
same_chunks-≡ (c ∷ cs) [] h = absurd (ground arith)
same_chunks-≡ (c ∷ cs) (d ∷ ds) h =
    let txids = same_list-≡ c.txids d.txids (ground arith) in
    let fee : c.fee_sats ≡ d.fee_sats = ground arith in
    let weight : c.weight ≡ d.weight = ground arith in
    let rest = same_chunks-≡ cs ds (ground arith) in
    let head : c ≡ d = λ i. record { txids = txids i; fee_sats = fee i; weight = weight i } in
    rw (head, rest) refl

same_state-≡ : (s t : ClusterState) → same_state s t ≡ true → s ≡ t
same_state-≡ s t h =
    let chunks = same_chunks-≡ s.chunks t.chunks (ground arith) in
    let weight : s.total_weight ≡ t.total_weight = ground arith in
    let fee : s.total_fee ≡ t.total_fee = ground arith in
    let seen : s.first_seen_at ≡ t.first_seen_at = ground arith in
    λ i. record {
      chunks = chunks i;
      total_weight = weight i;
      total_fee = fee i;
      first_seen_at = seen i;
    }

is_unchanged-≡ : (o : Option ClusterState) (s : ClusterState) → is_unchanged o s ≡ true → o ≡ some s
is_unchanged-≡ none s h = absurd (ground arith)
is_unchanged-≡ (some prev) s h = ap some (same_state-≡ prev s h)

abbrev pub or_else : Option ClusterState → Option ClusterState → Option ClusterState
or_else none b = b
or_else (some s) b = some s

-- The state of the last cluster of a list that has the id.
abbrev pub last_of : ℕ → List ActiveCluster → Option ClusterState
last_of id [] = none
last_of id (c ∷ cs) = or_else (last_of id cs) (if id == c.id then some (state c) else none)

or_else-if :
    (a : Option ClusterState) (b : Bool) (s : ClusterState) (o : Option ClusterState)
    → or_else a (if b then some s else o) ≡ or_else (or_else a (if b then some s else none)) o
or_else-if (some t) b s o = refl
or_else-if none true s o = refl
or_else-if none false s o = refl

module _ (to_vbytes_ceil : ℕ → ℕ) where
  lookup-upsert :
      (id : ℕ) (c : ActiveCluster) (m : ClusterSnapshot)
      → lookup id (upsert to_vbytes_ceil c m).0
        ≡ (if id == c.id then some (state c) else lookup id m)
  unfolding upsert
  lookup-upsert id c m = elim (Bool-cases (is_unchanged (lookup c.id m) (state c))) [
    | inl same ↦ rw same (elim (Bool-cases (id == c.id)) [
      | inl hit ↦
          let e : id ≡ c.id = ground arith in
          rw hit (rw e (is_unchanged-≡ (lookup c.id m) (state c) same))
      | inr miss ↦ rw miss refl
    ])
    | inr new ↦ rw new (lookup-insert_key id c.id (state c) m)
  ]

  lookup-upsert_all :
      (id : ℕ) (cs : List ActiveCluster) (m : ClusterSnapshot)
      → lookup id (upsert_all to_vbytes_ceil cs m).0 ≡ or_else (last_of id cs) (lookup id m)
  unfolding upsert_all
  lookup-upsert_all id [] m = refl
  lookup-upsert_all id (c ∷ cs) m =
      rw (lookup-upsert_all id cs (upsert to_vbytes_ceil c m).0, lookup-upsert id c m)
        (or_else-if (last_of id cs) (id == c.id) (state c) (lookup id m))

  lookup-remove_all :
      (id : ℕ) (ids : List ℕ) (m : ClusterSnapshot)
      → lookup id (remove_all to_vbytes_ceil ids m).0
        ≡ (if contains id ids then none else lookup id m)
  unfolding remove_all remove
  lookup-remove_all id [] m = refl
  lookup-remove_all id (i ∷ ids) m =
      ground (arith, lookup-remove_all id ids (remove_key i m), lookup-remove_key id i m)

  -- After a publication the snapshot holds no cluster that was removed, the last state of each other
  -- cluster that was upserted, and every other cluster as it was.
  pub lookup-publish :
      (id : ℕ) (upserted : List ActiveCluster) (removed : List ℕ) (m : ClusterSnapshot)
      → lookup id (publish to_vbytes_ceil upserted removed m).0
        ≡ (if contains id removed then none else or_else (last_of id upserted) (lookup id m))
  unfolding publish
  lookup-publish id upserted removed m =
      rw
        (
          lookup-remove_all id removed (upsert_all to_vbytes_ceil upserted m).0,
          lookup-upsert_all id upserted m,
        )
        refl

  abbrev pub upserted_of : List ClusterDeltaEvent → List ClusterRef
  upserted_of [] = []
  upserted_of (event ∷ events) = event.upserted ++ upserted_of events

  upserted_of-map :
      (chunks : List (List ClusterRef))
      → upserted_of (map (λ refs. record { upserted = refs; removed = [] }) chunks) ≡ flatten chunks
  upserted_of-map [] = refl
  upserted_of-map (refs ∷ chunks) = rw (upserted_of-map chunks) refl

  -- The frames of a snapshot tell of each of its clusters once, in its order, and of no removal; each
  -- has at least one cluster and at most the chunk size, or one where that is 0.
  pub get_current_chunked-covers :
      (chunk_size : ℕ) (m : ClusterSnapshot)
      → (upserted_of (get_current_chunked to_vbytes_ceil chunk_size m)
          ≡ map (λ entry. reference to_vbytes_ceil entry.0 entry.1) m)
        × All
            (λ event.
              (event.removed ≡ [])
              × IsFrame (if leb 1 chunk_size then chunk_size else 1) event.upserted)
            (get_current_chunked to_vbytes_ceil chunk_size m)
  unfolding get_current_chunked
  get_current_chunked-covers chunk_size m =
      let size = if leb 1 chunk_size then chunk_size else 1 in
      let refs = map (λ (e : ℕ × ClusterState). reference to_vbytes_ceil e.0 e.1) m in
      let positive : 0 < size = ground arith in
      (
        rw (upserted_of-map (in_chunks size refs)) (flatten-chunks_from size [] refs),
        All-map (IsFrame size) _
            (λ (refs : List ClusterRef). record { upserted = refs; removed = [] })
            (in_chunks size refs) (λ x h. (refl, h)) (chunks_from-IsFrame size [] refs positive),
      )
