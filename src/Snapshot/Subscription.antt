-- ===== src/Snapshot/Subscription.antt =====
-- api/src/controllers/websocket/streams.rs: a subscriber joins the stream, is sent the frames of the
-- snapshot, and then every event since it joined, those that the snapshot already shows included.
use cluster_mempool_observer.Base.{
  ℕ, suc, false, ◌≡◌, refl, sym, ◌∙◌, List, [], ◌∷◌, ◌++◌, map, Option, none, some, arith, length,
  ◌==◌, if◌then◌else◌, lookup, remove_key, in_chunks, flatten, flatten-chunks_from, Bool-cases, inl,
  inr, ◌⊎◌, DistinctKeys, DistinctKeys-insert_key, DistinctKeys-remove_key,
}
use cluster_mempool_observer.Snapshot.{
  ClusterState, ActiveCluster, state, ClusterRef, ClusterDeltaEvent, ClusterSnapshot, is_unchanged,
  remove, reference, upsert, get_current_chunked, get_current_snapshot, snapshot_chunk_size,
  upsert_all, remove_all, publish, publish_rounds,
}
use cluster_mempool_observer.Snapshot.Client.{
  View, apply_upserted, apply_removed, apply_event, shown, Shows, publish-Shows,
}

-- A step that leaves what a view has for a cluster, or that does not depend on it.
abbrev Settles : (View → View) → ℕ → Type 0
Settles f id = ((v : View) → f v id ≡ v id) ⊎ ((v w : View) → f v id ≡ f w id)

Settles-compose :
    (f g : View → View) (id : ℕ) → Settles f id → Settles g id → Settles (λ v. g (f v)) id
Settles-compose f g id hf (inr ignores) = inr (λ v w. ignores (f v) (f w))
Settles-compose f g id (inl leaves) (inl keeps) = inl (λ v. keeps (f v) ∙ leaves v)
Settles-compose f g id (inr ignores) (inl keeps) =
    inr (λ v w. keeps (f v) ∙ ignores v w ∙ sym (keeps (f w)))

Settles-set :
    (i : ℕ) (o : Option ClusterRef) (id : ℕ) → Settles (λ v id. if id == i then o else v id) id
Settles-set i o id = elim (Bool-cases (id == i)) [
  | inl hit ↦ inr (λ v w. rw hit refl)
  | inr miss ↦ inl (λ v. rw miss refl)
]

apply_upserted-Settles : (refs : List ClusterRef) (id : ℕ) → Settles (apply_upserted refs) id
apply_upserted-Settles [] id = inl (λ v. refl)
apply_upserted-Settles (r ∷ refs) id =
    Settles-compose (λ v id. if id == r.id then some r else v id) (apply_upserted refs) id
      (Settles-set r.id (some r) id) (apply_upserted-Settles refs id)

apply_removed-Settles : (ids : List ℕ) (id : ℕ) → Settles (apply_removed ids) id
apply_removed-Settles [] id = inl (λ v. refl)
apply_removed-Settles (i ∷ ids) id =
    Settles-compose (λ v id. if id == i then none else v id) (apply_removed ids) id
      (Settles-set i none id) (apply_removed-Settles ids id)

apply_event-Settles : (event : Option ClusterDeltaEvent) (id : ℕ) → Settles (apply_event event) id
apply_event-Settles none id = inl (λ v. refl)
apply_event-Settles (some event) id =
    Settles-compose (apply_upserted event.upserted) (apply_removed event.removed) id
      (apply_upserted-Settles event.upserted id) (apply_removed-Settles event.removed id)

abbrev pub apply_events : List (Option ClusterDeltaEvent) → View → View
apply_events [] view = view
apply_events (event ∷ events) view = apply_events events (apply_event event view)

apply_events-Settles :
    (events : List (Option ClusterDeltaEvent)) (id : ℕ) → Settles (apply_events events) id
apply_events-Settles [] id = inl (λ v. refl)
apply_events-Settles (event ∷ events) id =
    Settles-compose (apply_event event) (apply_events events) id (apply_event-Settles event id)
      (apply_events-Settles events id)

abbrev pub empty_view : View
empty_view id = none

abbrev pub apply_frames : List ClusterDeltaEvent → View → View
apply_frames [] view = view
apply_frames (frame ∷ frames) view = apply_frames frames (apply_event (some frame) view)

module _ (to_vbytes_ceil : ℕ → ℕ) where
  pub publish_rounds-Shows :
      (rounds : List (List ActiveCluster × List ℕ)) (m : ClusterSnapshot) (view : View)
      → Shows to_vbytes_ceil m view
      → Shows to_vbytes_ceil
          (publish_rounds to_vbytes_ceil rounds m).0
          (apply_events (publish_rounds to_vbytes_ceil rounds m).1 view)
  unfolding publish_rounds
  publish_rounds-Shows [] m view h = h
  publish_rounds-Shows ((upserted, removed) ∷ rounds) m view h =
      publish_rounds-Shows rounds (publish to_vbytes_ceil upserted removed m).0 _
        (publish-Shows to_vbytes_ceil upserted removed m view h)

  -- Events that the view already shows change nothing.
  publish_rounds-again :
      (rounds : List (List ActiveCluster × List ℕ)) (m : ClusterSnapshot) (view : View)
      → Shows to_vbytes_ceil (publish_rounds to_vbytes_ceil rounds m).0 view
      → Shows to_vbytes_ceil
          (publish_rounds to_vbytes_ceil rounds m).0
          (apply_events (publish_rounds to_vbytes_ceil rounds m).1 view)
  publish_rounds-again rounds m view h id =
      let run = publish_rounds to_vbytes_ceil rounds m in
      let before = λ (i : ℕ). shown to_vbytes_ceil i (lookup i m) in
      let after = publish_rounds-Shows rounds m before (λ i. refl) id in
      elim (apply_events-Settles run.1 id) [
        | inl leaves ↦ leaves view ∙ h id
        | inr ignores ↦ ignores view before ∙ after
      ]

  upsert-DistinctKeys :
      (c : ActiveCluster) (m : ClusterSnapshot)
      → DistinctKeys m
      → DistinctKeys (upsert to_vbytes_ceil c m).0
  unfolding upsert
  upsert-DistinctKeys c m d = elim (Bool-cases (is_unchanged (lookup c.id m) (state c))) [
    | inl same ↦ rw same d
    | inr new ↦ rw new (DistinctKeys-insert_key c.id (state c) m d)
  ]

  upsert_all-DistinctKeys :
      (cs : List ActiveCluster) (m : ClusterSnapshot)
      → DistinctKeys m
      → DistinctKeys (upsert_all to_vbytes_ceil cs m).0
  unfolding upsert_all
  upsert_all-DistinctKeys [] m d = d
  upsert_all-DistinctKeys (c ∷ cs) m d =
      upsert_all-DistinctKeys cs (upsert to_vbytes_ceil c m).0 (upsert-DistinctKeys c m d)

  remove_all-DistinctKeys :
      (ids : List ℕ) (m : ClusterSnapshot)
      → DistinctKeys m
      → DistinctKeys (remove_all to_vbytes_ceil ids m).0
  unfolding remove_all remove
  remove_all-DistinctKeys [] m d = d
  remove_all-DistinctKeys (i ∷ ids) m d =
      remove_all-DistinctKeys ids (remove_key i m) (DistinctKeys-remove_key i m d)

  publish_rounds-DistinctKeys :
      (rounds : List (List ActiveCluster × List ℕ)) (m : ClusterSnapshot)
      → DistinctKeys m
      → DistinctKeys (publish_rounds to_vbytes_ceil rounds m).0
  unfolding publish_rounds publish
  publish_rounds-DistinctKeys [] m d = d
  publish_rounds-DistinctKeys ((upserted, removed) ∷ rounds) m d =
      let up = upsert_all to_vbytes_ceil upserted m in
      publish_rounds-DistinctKeys rounds (remove_all to_vbytes_ceil removed up.0).0
        (remove_all-DistinctKeys removed up.0 (upsert_all-DistinctKeys upserted m d))

  apply_upserted-append :
      (xs ys : List ClusterRef) (view : View)
      → apply_upserted (xs ++ ys) view ≡ apply_upserted ys (apply_upserted xs view)
  apply_upserted-append [] ys view = refl
  apply_upserted-append (x ∷ xs) ys view = apply_upserted-append xs ys _

  apply_frames-flatten :
      (chunks : List (List ClusterRef)) (view : View)
      → apply_frames (map (λ refs. record { upserted = refs; removed = [] }) chunks) view
        ≡ apply_upserted (flatten chunks) view
  apply_frames-flatten [] view = refl
  apply_frames-flatten (refs ∷ chunks) view =
      rw (apply_upserted-append refs (flatten chunks) view)
        (apply_frames-flatten chunks (apply_upserted refs view))

  abbrev or_else : Option ClusterRef → Option ClusterRef → Option ClusterRef
  or_else none b = b
  or_else (some r) b = some r

  apply_upserted-references :
      (m : ClusterSnapshot) (view : View) (id : ℕ)
      → DistinctKeys m
      → apply_upserted (map (λ entry. reference to_vbytes_ceil entry.0 entry.1) m) view id
        ≡ or_else (shown to_vbytes_ceil id (lookup id m)) (view id)
  unfolding reference
  apply_upserted-references [] view id d = refl
  apply_upserted-references ((i, s) ∷ m) view id d =
      rw (apply_upserted-references m _ id d.1) (elim (Bool-cases (id == i)) [
        | inl hit ↦ let e : id ≡ i = ground arith in rw hit (rw (e, d.0) refl)
        | inr miss ↦ rw miss refl
      ])

  apply_frames-default :
      (frames : List ClusterDeltaEvent) (view : View)
      → apply_frames
          (if length frames == 0 then record { upserted = []; removed = [] } ∷ [] else frames)
          view
        ≡ apply_frames frames view
  apply_frames-default [] view = refl
  apply_frames-default (frame ∷ frames) view =
      let busy : (suc (length frames) == 0) ≡ false = ground arith in rw busy refl

  or_else-none : (o : Option ClusterRef) → or_else o none ≡ o
  or_else-none none = refl
  or_else-none (some r) = refl

  frames-Shows :
      (m : ClusterSnapshot)
      → DistinctKeys m
      → Shows to_vbytes_ceil m (apply_frames (get_current_snapshot to_vbytes_ceil m) empty_view)
  unfolding get_current_snapshot get_current_chunked
  frames-Shows m d id =
      let refs = map (λ (e : ℕ × ClusterState). reference to_vbytes_ceil e.0 e.1) m in
      let chunks = in_chunks snapshot_chunk_size refs in
      rw
        (
          apply_frames-default (get_current_chunked to_vbytes_ceil snapshot_chunk_size m)
              empty_view,
          apply_frames-flatten chunks empty_view,
          flatten-chunks_from snapshot_chunk_size [] refs,
          apply_upserted-references m empty_view id d,
        )
        (or_else-none (shown to_vbytes_ceil id (lookup id m)))

  -- A subscriber that applies the frames of the snapshot, then the events published before the snapshot
  -- was read but after it joined, then those published after, shows the snapshot at the end: an event
  -- that arrives twice does no harm, and none is lost.
  pub subscription-Shows :
      (before after : List (List ActiveCluster × List ℕ)) (m : ClusterSnapshot)
      → DistinctKeys m
      → let mid = publish_rounds to_vbytes_ceil before m in
        let end = publish_rounds to_vbytes_ceil after mid.0 in
        let view = apply_frames (get_current_snapshot to_vbytes_ceil mid.0) empty_view in
        Shows to_vbytes_ceil end.0 (apply_events end.1 (apply_events mid.1 view))
  subscription-Shows before after m d =
      let mid = publish_rounds to_vbytes_ceil before m in
      publish_rounds-Shows after mid.0 _ (
        publish_rounds-again before m _
          (frames-Shows mid.0 (publish_rounds-DistinctKeys before m d)))
