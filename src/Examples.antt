-- ===== src/Examples.antt =====
-- Tests of the model, and its theorems at concrete inputs.
mod LedgerExamples
mod MembershipExamples
mod SnapshotExamples
mod FlushExamples
mod BlockSyncExamples
mod MinedExamples
mod ClusterSyncExamples
mod BackfillExamples
mod NodeHealthExamples
mod ResolutionExamples
