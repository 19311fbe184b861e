-- ===== src/Examples/ClusterSyncExamples.antt =====
-- api/src/services/cluster.rs: a service from its start on, and the theorems at it.
use cluster_mempool_observer.Base.{
  ℕ, zero, suc, Bool, true, false, ◌≡◌, refl, List, [], ◌∷◌, Option, none, arith, Txid, ltb,
  if◌then◌else◌, ◌+◌, ◌==◌, length, contains,
}
use cluster_mempool_observer.Db.{ClusterChunk, empty_database}
use cluster_mempool_observer.Ledger.Journal.{empty_ledger}
use cluster_mempool_observer.Ledger.{presents, run}
use cluster_mempool_observer.Ledger.Replay.{replay}
use cluster_mempool_observer.Ledger.Consistency.{AreGenerators, run-IsConsistent}
use cluster_mempool_observer.Membership.{chunk_txids}
use cluster_mempool_observer.Mined.{MinedBlock}
use cluster_mempool_observer.ClusterSync.{Outside, World, NodeAnswer, grouped}
use cluster_mempool_observer.ClusterSync.Queue.{first_round}
use cluster_mempool_observer.ClusterSync.Rounds.{sync_clusters}
use cluster_mempool_observer.ClusterSync.Moves.{IsKept}
use cluster_mempool_observer.ClusterSync.Publishing.{
  IsRight, IsPublished, sync_clusters-IsPublished,
}
use cluster_mempool_observer.ClusterSync.History.{
  Request, seeds, syncs, confirms_mined, serve_all, IsServed, serve_all-IsServed,
}
use cluster_mempool_observer.ClusterSync.Asking.{AnswersHold}
use cluster_mempool_observer.Reconciler.{TickReport}
use cluster_mempool_observer.FlushWrite.{Interruptions}
use cluster_mempool_observer.Reconciler.Ticks.{residency}
use cluster_mempool_observer.Reconciler.Syncing.{
  ticked, sync_clusters_after_flush, tick-IsPublished,
}
use cluster_mempool_observer.ClusterSync.Draining.{Ends, drain-Ends}

abbrev chunk : List Txid → ClusterChunk
chunk txids = record { txids = txids; fee_sats = 90; weight = 400 }

-- 1 and 2 are of one cluster at first, 1 on its own later; 3 is on its own, and the node has no other.
abbrev members : Bool → Txid → List Txid
members early zero = []
members early (suc zero) = 1 ∷ (if early then 2 ∷ [] else [])
members early (suc (suc zero)) = 2 ∷ (if early then 1 ∷ [] else [])
members early (suc (suc (suc zero))) = 3 ∷ []
members early (suc (suc (suc (suc x)))) = []

abbrev answer : ℕ → Txid → NodeAnswer
answer n x = grouped (chunk (members (ltb n 8) x) ∷ [])

-- The database fails at its second call.
abbrev outside : Outside
outside = record {
  get_mempool_cluster = answer;
  db_fails = λ n. n == 1;
  now = λ n. 100 + n;
  clock = λ n entries. 100 + n;
  meanwhile = λ n. if n == 3 then presents (7 ∷ []) ∷ [] else [];
  blocks = λ hash. none;
}

abbrev start : World
start = record { calls = 0; db = empty_database; ledger = empty_ledger; snapshot = [] }

start-IsKept : IsKept [] start
unfolding replay
start-IsKept = record {
  sound = record { rows = tt; fresh = λ id above. refl };
  linked = λ x. refl;
  consistent = record {
    distinct = tt;
    bounded = omega arith;
    leads = λ fine. record { agrees = λ x. refl; effective = tt };
  };
}

outside-polls : (n : ℕ) → AreGenerators (outside.meanwhile n)
outside-polls n = go (n == 3)
  where
    go : (b : Bool) → AreGenerators (if b then presents (7 ∷ []) ∷ [] else [])
    go true = (tt, tt)
    go false = tt

sync_clusters-IsPublished_example :
    IsPublished outside [] start
      (sync_clusters outside (λ weight. weight) 9 (1 ∷ 3 ∷ 5 ∷ []) [] [] start).0
sync_clusters-IsPublished_example =
    sync_clusters-IsPublished outside outside-polls (λ weight. weight) 9 (1 ∷ 3 ∷ 5 ∷ []) [] []
      start start-IsKept (λ id s h. h)

abbrev mined_one : MinedBlock
mined_one = record {
  txids = 1 ∷ [];
  fees = (1, 50) ∷ [];
  weights = (1, 200) ∷ [];
  confirmed_at = 300;
}

abbrev requests : List Request
requests =
    seeds
    ∷ syncs 9 (1 ∷ 3 ∷ []) [] []
    ∷ syncs 9 (1 ∷ []) [] (3 ∷ [])
    ∷ confirms_mined 9 mined_one
    ∷ []

serve_all-IsServed_example :
    IsServed outside [] (serve_all outside (λ weight. weight) requests start)
serve_all-IsServed_example =
    serve_all-IsServed outside (λ weight. weight) outside-polls requests start start-IsKept
      (λ id. refl)

members-holds :
    (early : Bool) (x : Txid)
    → (length (chunk_txids (chunk (members early x) ∷ [])) == 0) ≡ false
    → contains x (chunk_txids (chunk (members early x) ∷ [])) ≡ true
unfolding chunk_txids
members-holds early zero h = absurd (ground arith)
members-holds early (suc zero) h = refl
members-holds early (suc (suc zero)) h = refl
members-holds early (suc (suc (suc zero))) h = refl
members-holds early (suc (suc (suc (suc x)))) h = absurd (ground arith)

answer-holds : AnswersHold outside
answer-holds n x chunks e some_txids =
    let same : chunks ≡ chunk (members (ltb n 8) x) ∷ [] = cc in
    rw same (members-holds (ltb n 8) x (rw same at some_txids))

drain-Ends_example : Ends outside (first_round outside (1 ∷ 3 ∷ 5 ∷ []) (2 ∷ []) start)
drain-Ends_example = drain-Ends outside (1 ∷ 3 ∷ 5 ∷ []) (2 ∷ []) start answer-holds

-- Three transactions have come, and a fourth comes while the tick writes them.
abbrev busy : World
busy = record start { ledger = run (λ n. n) (presents (1 ∷ 2 ∷ 3 ∷ []) ∷ []) empty_ledger }

busy-IsKept : IsKept (residency busy.db) busy
unfolding replay
busy-IsKept = record {
  sound = start-IsKept.sound;
  linked = start-IsKept.linked;
  consistent =
      run-IsConsistent (λ n. n) [] (presents (1 ∷ 2 ∷ 3 ∷ []) ∷ []) empty_ledger (tt, tt)
        start-IsKept.consistent;
}

abbrev calm : Interruptions
calm = record { no_connection = false; preempted = λ n. false; db_fails = λ n. false }

abbrev busy_tick : World × Option TickReport
busy_tick = ticked (λ n. n) calm 50 (presents (9 ∷ []) ∷ []) busy

tick-IsPublished_example :
    ((id : ℕ) → IsRight busy id → IsRight busy_tick.0 id)
    × IsPublished outside
        (residency busy_tick.0.db)
        busy_tick.0
        (sync_clusters_after_flush outside (λ weight. weight) 9 busy_tick.1 busy_tick.0)
tick-IsPublished_example =
    tick-IsPublished outside (λ weight. weight) 9 (λ n. n) calm 50 (presents (9 ∷ []) ∷ []) busy
      outside-polls (tt, tt) busy-IsKept (λ id s h. h)
