-- ===== src/Snapshot/Client.antt =====
-- api/src/services/cluster_delta.rs and api/src/controllers/websocket/streams.rs: what a subscriber that
-- applies the events knows of the clusters.
use cluster_mempool_observer.Base.{
  ℕ, suc, Bool, true, false, ◌&&◌, ◌≡◌, refl, List, [], ◌∷◌, Option, none, some, arith, length,
  ◌==◌, if◌then◌else◌, lookup, remove_key, Bool-cases, inl, inr, lookup-insert_key,
  lookup-remove_key,
}
use cluster_mempool_observer.Snapshot.{
  ClusterState, ActiveCluster, state, ClusterRef, ClusterDeltaEvent, ClusterSnapshot, is_tracked,
  is_unchanged, remove, reference, upsert, reported, upsert_all, remove_all, publish,
}

abbrev pub View : Type 0
View = ℕ → Option ClusterRef

abbrev pub apply_upserted : List ClusterRef → View → View
apply_upserted [] view = view
apply_upserted (r ∷ refs) view = apply_upserted refs (λ id. if id == r.id then some r else view id)

abbrev pub apply_removed : List ℕ → View → View
apply_removed [] view = view
apply_removed (i ∷ ids) view = apply_removed ids (λ id. if id == i then none else view id)

-- What a client makes of an event.
abbrev pub apply_event : Option ClusterDeltaEvent → View → View
apply_event none view = view
apply_event (some event) view = apply_removed event.removed (apply_upserted event.upserted view)

module _ (to_vbytes_ceil : ℕ → ℕ) where
  abbrev pub shown : ℕ → Option ClusterState → Option ClusterRef
  shown id none = none
  shown id (some s) = some (reference to_vbytes_ceil id s)

  -- The view has a reference to each cluster of the snapshot, as it is there, and no other.
  abbrev pub Shows : ClusterSnapshot → View → Type 0
  Shows m view = (id : ℕ) → view id ≡ shown id (lookup id m)

  shown-if :
      (id i : ℕ) (s : ClusterState) (o : Option ClusterState)
      → (if id == i then some (reference to_vbytes_ceil i s) else shown id o)
        ≡ shown id (if id == i then some s else o)
  shown-if id i s o = elim (Bool-cases (id == i)) [
    | inl hit ↦
        let e : id ≡ i = ground arith in
        rw e (elim (Bool-cases (i == i)) [
          | inl same ↦ rw same refl
          | inr other ↦ absurd (ground arith)
        ])
    | inr miss ↦ rw miss refl
  ]

  upsert-Shows :
      (c : ActiveCluster) (m : ClusterSnapshot) (view : View)
      → Shows m view
      → Shows
          (upsert to_vbytes_ceil c m).0
          (apply_upserted (reported (upsert to_vbytes_ceil c m).1 []) view)
  unfolding upsert reference
  upsert-Shows c m view h id = elim (Bool-cases (is_unchanged (lookup c.id m) (state c))) [
    | inl same ↦ rw same (h id)
    | inr new ↦
        rw (new, lookup-insert_key id c.id (state c) m, h id)
          (shown-if id c.id (state c) (lookup id m))
  ]

  apply_upserted-reported :
      (ref : Option ClusterRef) (refs : List ClusterRef) (view : View)
      → apply_upserted (reported ref refs) view
        ≡ apply_upserted refs (apply_upserted (reported ref []) view)
  apply_upserted-reported none refs view = refl
  apply_upserted-reported (some r) refs view = refl

  upsert_all-Shows :
      (cs : List ActiveCluster) (m : ClusterSnapshot) (view : View)
      → Shows m view
      → Shows
          (upsert_all to_vbytes_ceil cs m).0
          (apply_upserted (upsert_all to_vbytes_ceil cs m).1 view)
  unfolding upsert_all
  upsert_all-Shows [] m view h = h
  upsert_all-Shows (c ∷ cs) m view h =
      let up = upsert to_vbytes_ceil c m in
      rw (apply_upserted-reported up.1 (upsert_all to_vbytes_ceil cs up.0).1 view)
        (upsert_all-Shows cs up.0 _ (upsert-Shows c m view h))

  remove-Shows :
      (i : ℕ) (m : ClusterSnapshot) (view : View)
      → Shows m view
      → Shows (remove i m).0 (apply_removed (if (remove i m).1 then i ∷ [] else []) view)
  unfolding remove
  remove-Shows i m view h id = go (lookup i m) refl
    where
      go :
          (o : Option ClusterState)
          → lookup i m ≡ o
          → apply_removed (if is_tracked o then i ∷ [] else []) view id
            ≡ shown id (lookup id (remove_key i m))
      go none e =
          rw (lookup-remove_key id i m, h id)
            (elim (Bool-cases (id == i)) [
              | inl hit ↦
                  let same : id ≡ i = ground arith in
                  rw (same, e)
                    (elim (Bool-cases (i == i)) [
                      | inl here ↦ rw here refl
                      | inr other ↦ rw other refl
                    ])
              | inr miss ↦ rw miss refl
            ])
      go (some s) e =
          rw (lookup-remove_key id i m, h id)
            (elim (Bool-cases (id == i)) [ inl hit ↦ rw hit refl | inr miss ↦ rw miss refl ])

  apply_removed-if :
      (tracked : Bool) (i : ℕ) (ids : List ℕ) (view : View)
      → apply_removed (if tracked then i ∷ ids else ids) view
        ≡ apply_removed ids (apply_removed (if tracked then i ∷ [] else []) view)
  apply_removed-if true i ids view = refl
  apply_removed-if false i ids view = refl

  remove_all-Shows :
      (ids : List ℕ) (m : ClusterSnapshot) (view : View)
      → Shows m view
      → Shows
          (remove_all to_vbytes_ceil ids m).0
          (apply_removed (remove_all to_vbytes_ceil ids m).1 view)
  unfolding remove_all
  remove_all-Shows [] m view h = h
  remove_all-Shows (i ∷ ids) m view h =
      let down = remove i m in
      rw (apply_removed-if down.1 i (remove_all to_vbytes_ceil ids down.0).1 view)
        (remove_all-Shows ids down.0 _ (remove-Shows i m view h))

  apply_event-silent :
      (refs : List ClusterRef) (ids : List ℕ) (view : View)
      → apply_event
          (if length refs == 0 && length ids == 0
            then none
            else some (record { upserted = refs; removed = ids }))
          view
        ≡ apply_removed ids (apply_upserted refs view)
  apply_event-silent [] [] view = refl
  apply_event-silent [] (i ∷ ids) view =
      let busy : (suc (length ids) == 0) ≡ false = ground arith in rw busy refl
  apply_event-silent (r ∷ refs) ids view =
      let busy : (suc (length refs) == 0) ≡ false = ground arith in rw busy refl

  -- A client whose view shows the snapshot, and that applies the event of a publication, if there is
  -- one, shows the snapshot after it.
  pub publish-Shows :
      (upserted : List ActiveCluster) (removed : List ℕ) (m : ClusterSnapshot) (view : View)
      → Shows m view
      → Shows
          (publish to_vbytes_ceil upserted removed m).0
          (apply_event (publish to_vbytes_ceil upserted removed m).1 view)
  unfolding publish
  publish-Shows upserted removed m view h =
      let up = upsert_all to_vbytes_ceil upserted m in
      let down = remove_all to_vbytes_ceil removed up.0 in
      rw (apply_event-silent up.1 down.1 view)
        (remove_all-Shows removed up.0 _ (upsert_all-Shows upserted m view h))
