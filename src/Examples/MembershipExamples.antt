-- ===== src/Examples/MembershipExamples.antt =====
-- api/src/db/repositories/cluster_membership.rs and cluster.rs: a small database, and the theorems at it.
use cluster_mempool_observer.Base.{
  Time, Txid, ℕ, true, false, ◌≡◌, refl, List, [], ◌∷◌, map, none, some, arith, contains, any,
  insert, chunks_from,
}
use cluster_mempool_observer.Db.{
  ClusterChunk, NewCluster, Database, Cluster, empty_database, active, hollow, insert_by_position,
  order_by_position, from_chunk_row,
}
use cluster_mempool_observer.Membership.{
  ClusterVersionUpdate, as_evicted, close_many, replace_chunks, replace_chunks_in,
  trim_and_confirm_many, sort_by_id, insert_by_id, replace_row, write_version, replace_all,
  chunk_rows, chunk_rows_from, chunk_txids, total_fee, total_weight, insert_hollow, relink,
  select_active, confirm_many_in, chunks_of,
}
use cluster_mempool_observer.Membership.Soundness.{IsSound, AllShut}
use cluster_mempool_observer.Membership.Operations.{
  close_many-IsSound, replace_chunks-IsSound, trim_and_confirm_many-IsSound,
}
use cluster_mempool_observer.Membership.Returned.{HasInserted, insert_many_with_members-HasInserted}
use cluster_mempool_observer.Membership.Insertion.{
  insert_in, insert_many_with_members, insert_batches, insert_many_with_members-IsSound, numbered,
  insert_rows, new_chunk_rows, new_members, link_news,
}
use cluster_mempool_observer.Membership.Links.{IsLinked, link_of}
use cluster_mempool_observer.Membership.Linking.{trim_and_confirm_many-IsLinked}
use cluster_mempool_observer.Membership.History.{
  Call, inserts, replaces, closes, trims, perform_all, perform_all-IsSound,
}
use cluster_mempool_observer.Membership.Loading.{find_by_ids}
use cluster_mempool_observer.Membership.ReadBack.{
  TakesChunks, PositionsFit, find_by_ids-replace_chunks,
}
use cluster_mempool_observer.Membership.Lookup.{
  find_active_ids_by_txids, find_active_ids_by_txids-exact, distinct_ids, holds_current,
}

abbrev chunk : List Txid → ℕ → ClusterChunk
chunk txids fee = record { txids = txids; fee_sats = fee; weight = 400 }

-- Cluster 0 holds 1, 2 and 3; cluster 1 holds 4.
abbrev observed : List NewCluster
observed =
    record { chunks = chunk (1 ∷ 2 ∷ []) 90 ∷ chunk (3 ∷ []) 10 ∷ []; first_seen_at = 5 }
    ∷ record { chunks = chunk (4 ∷ []) 70 ∷ []; first_seen_at = 5 }
    ∷ []

empty-IsSound : IsSound empty_database
empty-IsSound = record { rows = tt; fresh = λ id above. refl }

abbrev stored : Database
stored = (insert_many_with_members 7 observed empty_database).0

insert_many_with_members-HasInserted_example :
    let r = insert_many_with_members 7 observed empty_database in
    IsSound r.0 × HasInserted observed empty_database r
insert_many_with_members-HasInserted_example =
    insert_many_with_members-HasInserted 7 observed empty_database empty-IsSound

stored-IsSound : IsSound stored
stored-IsSound = (insert_many_with_members-IsSound 7 observed empty_database empty-IsSound).0

stored-IsLinked : IsLinked stored
unfolding insert_many_with_members insert_batches chunks_from insert_in numbered insert_rows
    new_chunk_rows new_members link_news relink insert_hollow hollow chunk_rows chunk_rows_from
    chunk_txids
stored-IsLinked x = ground arith

close_many-IsSound_example : IsSound (close_many 8 as_evicted (1 ∷ 6 ∷ []) stored).0
close_many-IsSound_example = close_many-IsSound 8 as_evicted (1 ∷ 6 ∷ []) stored stored-IsSound

-- Cluster 0 loses 2 and gains 5.
abbrev moved : ClusterVersionUpdate
moved = record { cluster_id = 0; chunks = chunk (1 ∷ 5 ∷ []) 80 ∷ chunk (3 ∷ []) 10 ∷ [] }

abbrev rewritten : Database × Cluster
rewritten =
    write_version 9 moved true
      (record {
        status = active;
        version = 1;
        total_weight = 800;
        total_fee = 100;
        first_seen_at = 5;
        confirmed_at = none;
        closed_at = none;
      })
      stored

rewrites : replace_chunks 9 moved stored ≡ some rewritten
unfolding replace_chunks replace_chunks_in replace_row chunks_of insert_many_with_members
    insert_batches chunks_from insert_in numbered insert_rows new_chunk_rows chunk_rows
    chunk_rows_from order_by_position insert_by_position from_chunk_row total_weight total_fee
rewrites = refl

replace_chunks-IsSound_example : IsSound rewritten.0
replace_chunks-IsSound_example =
    replace_chunks-IsSound 9 moved stored rewritten stored-IsSound rewrites

find_by_ids-replace_chunks_example :
    (find_by_ids (0 ∷ []) rewritten.0 ≡ rewritten.1 ∷ [])
    × TakesChunks moved stored rewritten
    × ((version : ℕ) → PositionsFit (chunk_rows 0 version moved.chunks true))
find_by_ids-replace_chunks_example =
    find_by_ids-replace_chunks 9 moved stored rewritten stored-IsSound (omega arith) rewrites

-- A block mines 1 and 2.
abbrev mined : ClusterVersionUpdate
mined = record { cluster_id = 0; chunks = chunk (1 ∷ 2 ∷ []) 90 ∷ [] }

abbrev trimmed : Database × ℕ
trimmed =
    confirm_many_in 9 9 (0 ∷ [])
      (write_version 9 mined false
        (record {
          status = active;
          version = 1;
          total_weight = 800;
          total_fee = 100;
          first_seen_at = 5;
          confirmed_at = none;
          closed_at = none;
        })
        stored).0

trims_mined : trim_and_confirm_many 9 9 (mined ∷ []) stored ≡ some trimmed
unfolding trim_and_confirm_many replace_all sort_by_id insert_by_id replace_chunks_in replace_row
    chunks_of insert_many_with_members insert_batches chunks_from insert_in numbered insert_rows
    new_chunk_rows chunk_rows chunk_rows_from order_by_position insert_by_position from_chunk_row
    total_weight total_fee
trims_mined = refl

trim_and_confirm_many-IsSound_example :
    IsSound trimmed.0
    × AllShut (map (λ u. u.cluster_id) (sort_by_id (mined ∷ []))) trimmed.0.clusters
trim_and_confirm_many-IsSound_example =
    trim_and_confirm_many-IsSound 9 9 (mined ∷ []) stored trimmed stored-IsSound trims_mined

trim_and_confirm_many-IsLinked_example : IsLinked trimmed.0
trim_and_confirm_many-IsLinked_example =
    trim_and_confirm_many-IsLinked 9 9 (mined ∷ []) stored trimmed stored-IsLinked trims_mined

-- The transactions that no block took are not linked any more.
unlinks : link_of (trimmed.0.transactions 3) ≡ none
unfolding confirm_many_in write_version insert_many_with_members insert_batches chunks_from
    insert_in numbered insert_rows new_chunk_rows new_members link_news relink insert_hollow hollow
    chunk_rows chunk_rows_from chunk_txids select_active
unlinks = refl

finds : find_active_ids_by_txids (3 ∷ 4 ∷ 8 ∷ []) stored ≡ 0 ∷ 1 ∷ []
unfolding find_active_ids_by_txids distinct_ids insert_many_with_members insert_batches chunks_from
    insert_in numbered insert_rows new_chunk_rows chunk_rows chunk_rows_from insert
finds = refl

find_active_ids_by_txids-exact_example :
    contains 1 (find_active_ids_by_txids (3 ∷ 4 ∷ []) stored)
    ≡ any (holds_current (3 ∷ 4 ∷ []) stored.clusters 1) stored.cluster_chunks
find_active_ids_by_txids-exact_example =
    find_active_ids_by_txids-exact (3 ∷ 4 ∷ []) stored 1 stored-IsSound

abbrev calls : List (Time × Call)
calls =
    (7, inserts observed)
    ∷ (8, replaces moved)
    ∷ (9, trims 9 (mined ∷ []))
    ∷ (10, closes as_evicted (1 ∷ []))
    ∷ []

perform_all-IsSound_example :
    IsSound (perform_all calls empty_database) × IsLinked (perform_all calls empty_database)
perform_all-IsSound_example = perform_all-IsSound calls
