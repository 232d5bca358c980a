-- ===== src/Tests.antt =====
-- Runs of the model on a small cluster, and the theorems applied to it.
pub mod Sample
pub mod RestoreRuns
pub mod LedgerRuns
pub mod HelperRuns
pub mod TotalRuns
pub mod SnapshotRuns
pub mod KubeRuns
pub mod SchedulerRuns
pub mod UtilRuns
pub mod SyncRuns
pub mod CommandRuns
