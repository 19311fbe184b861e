-- ===== src/Lib.antt =====
-- Cluster mempool observer: an api that follows a Bitcoin node's mempool, groups its transactions into
-- the clusters that the node reports, keeps their history in a database, and streams changes to
-- clients.
--
-- The parts that are modelled, and the files that model them. Paths are from the repository's root.
--
-- * Ledger (shared/src/snapshot/mempool.rs): the set of resident transactions and the journal of its
--   changes that the database has not taken yet. `Inner` is the state; `submit_authoritative`,
--   `assert_present`, `assert_absent`, `begin_flush`, `commit` and `reconcile_against` are the methods
--   of `MempoolLedger` and `FlushBatch`, each one step, since each runs under the ledger's lock.
--   Ledger/Journal has the journal, Ledger/Replay its meaning, Ledger/Batch the reports of a batch;
--   Ledger/Sync, Target, Consistency, Reconcile, Repair, Flush, Residency and Counts have the proofs.
-- * Db (api/src/db/models.rs): the tables as functions and lists.
-- * Membership (api/src/db/repositories/cluster_membership.rs): the operations of
--   `ClusterMembershipRepository`, each one database transaction that takes the database to the next
--   one, or fails. Membership/Insertion has the insertion of new clusters and Membership/Lookup
--   `find_active_ids_by_txids`, and Membership/Loading `load_clusters`, of
--   api/src/db/repositories/cluster.rs. Rows, Soundness and Operations are about when a chunk is live,
--   Links, Linking and Arrivals about the back-links of transactions, Activity, Outcome, Ids and
--   ReadBack about what is loaded after a write, and History about any calls one after the other.
-- * Snapshot (shared/src/snapshot/cluster.rs, api/src/services/cluster_delta.rs): the active clusters
--   in memory and the events published about them. Snapshot/Client and Snapshot/Subscription are about
--   a subscriber (api/src/controllers/websocket/streams.rs), Snapshot/Tracking about the snapshot.
-- * DeltaSet and Mined (api/src/services/cluster.rs): `ClusterDeltaSet`, which gathers the changes of a
--   round, and `MinedBlock`, `MinedTrim`, `MinedTxs` and the loop of `handle_evicted`, which decide
--   what a block or an eviction makes of a cluster. DeltaSet/Told is what a set says of one cluster.
-- * ClusterSync (api/src/services/cluster.rs): `ClusterService`. Its state, `World`, is the tables, the
--   ledger and the snapshot; `Outside` is what it meets at each of its calls to the node and to the
--   database, failures included, and what others feed to the ledger meanwhile. ClusterSync/Upsert has
--   `upsert`, ClusterSync/Queue the work queue of `handle_candidates_covering`, and ClusterSync/Rounds
--   `handle_evicted`, `handle_confirmed`, `confirm_mined`, `sync_clusters` and `seed_snapshot`. Moves,
--   Saying, Writing, Following, Queueing, Closing, Confirming, Publishing, Seeding and History are about
--   what the service says of what it did; Holding, Detaching, Asking and Draining about the end of the
--   queue.
-- * BlockGate (api/src/infra/block_gate.rs): the gate that keeps the flush of the journal and the
--   application of a block apart, as the steps of the two tasks in any order, in time.
-- * FlushWrite (api/src/db/repositories/mempool_ledger.rs): `write_batch`, which writes a batch of the
--   journal in one database transaction and rolls it back when a block has arrived or a statement fails;
--   FlushWrite/Folds, FlushWrite/Hollow and FlushWrite/Written prove what it has written.
-- * Reconciler (api/src/services/mempool_reconciler.rs): `tick`, which reads a batch off the ledger,
--   has it written, commits it, and reports what changed; Reconciler/Syncing puts the sync of clusters
--   that a tick ends with after it.
-- * BlockSync (api/src/services/block.rs): `catch_up` over the passes that it meets, and
--   `catch_up_backoff`; BlockSync/Chain has the proofs.
-- * Backfill (api/src/services/tx_backfill.rs): `process`, which enriches one transaction in two stages,
--   and what it makes of a failure; Backfill/Retries and Backfill/Ending have the proofs.
-- * NodeHealth (api/src/services/node_health.rs, and `consume` of api/src/services/node_status.rs): the
--   last-known state of the node and the system events recorded of it; NodeHealth/Reports has the proofs.
-- * Resolution (api/src/services/resolution.rs): `pick_resolution`, the bucket size of a time series.
-- * Base has the shared helpers: Base/Sets and Base/Maps stand for hash sets and hash maps, as lists
--   in the order of iteration, so that what holds of every list holds in every order. Examples has
--   runs of the model and each theorem at concrete data.
--
-- The parts meet as in the program. The ledger's batches say which transactions came and went; the
-- reconciler's tick has FlushWrite write them while the BlockGate allows it and broadcasts them; the
-- cluster service, ClusterSync, asks Membership.Lookup which clusters hold them and writes through
-- Membership; what it wrote is gathered in a DeltaSet and published by Snapshot; a block takes the
-- gate before it writes and splits clusters by Mined, whose trims are Membership's updates.
--
-- A txid and a block hash are numbers, since they are only compared. Amounts, weights, ids and versions
-- are natural numbers: the program's casts to and from 64 bits change nothing below 2^63. A chunk's
-- position, which the program stores as 16 bits, is kept whole: the two agree for clusters of up to 2^15
-- chunks. The rows that an INSERT returns are taken in the order of insertion. The loops are
-- structural recursion, and `catch_up` runs over a list of the passes that it meets; only the work queue
-- of ClusterSync/Queue runs on fuel, a parameter of the rounds.
-- The journal's cap and the batch sizes are the program's. The rounding of weights to virtual bytes
-- belongs to the bitcoin library and is a parameter.
--
-- Not modelled: the node's clients, the web framework, pub/sub, metrics and logs, which are I/O around
-- libraries; the database's locks, and its failures beyond that a transaction happens as a whole or not at
-- all; the body of `apply_block`, the samples, and the configuration.
pub mod Base
pub mod Ledger
pub mod Db
pub mod Membership
pub mod Snapshot
pub mod DeltaSet
pub mod Mined
pub mod BlockGate
pub mod FlushWrite
pub mod Reconciler
pub mod BlockSync
pub mod ClusterSync
pub mod Backfill
pub mod NodeHealth
pub mod Resolution
pub mod Examples
